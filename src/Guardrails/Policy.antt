-- ===== src/Guardrails/Policy.antt =====
-- guardrails/policy_checks.py: the engine floor.
use finguard_major_project.Prelude.{
  String, Bool, true, false, not, ◌&&◌, ◌||◌, Option, none, some, List, [], ◌∷◌, ◌++◌, map, is_some,
  leb, str_eq, if◌then◌else◌,
}
use finguard_major_project.Strings.{Text, lit}
use finguard_major_project.Json.{
  Value, str, arr, obj, Items, nil, cons, Fields, end, field, truthy, equals_one, get, get_or_null,
}
use finguard_major_project.Outcome.{Outcome, ok, raised, ◌>>=◌, value_error, type_error}
use finguard_major_project.Domain.{
  Decision, review, Evidence, EvidenceSource, Severity, low, medium, high, severity_rank,
}
use finguard_major_project.Guardrails.FreeText.{
  PolicyConfig, Scanners, starts_with, suspicious_evidence,
}

abbrev pub text_of : Scanners → Value → String
text_of tools (str s) = s
text_of tools v = tools.show v

abbrev pub is_status_rule : String → Bool
is_status_rule rule = str_eq rule "REC-009" || str_eq rule "REC-010"

abbrev severity_named : String → Outcome Severity
severity_named s =
    if str_eq s "low"
    then ok low
    else if str_eq s "medium"
    then ok medium
    else if str_eq s "high"
    then ok high
    else raised (value_error "Severity")

-- `Severity(payload.get("severity", "low"))`
abbrev pub severity_of : Option Value → Outcome Severity
severity_of none = ok low
severity_of (some (str s)) = severity_named s
severity_of (some v) = raised (value_error "Severity")

abbrev pub severity_value : Severity → String
severity_value low = "low"
severity_value medium = "medium"
severity_value high = "high"

abbrev because : String → Evidence → Text
because reason e = lit reason ∷ lit " [" ∷ lit e.evidence_id ∷ lit "]" ∷ []

abbrev when : Bool → Text → List Text
when true t = t ∷ []
when false t = []

-- The reasons of a reconciliation rule's evidence.
unfoldable pub rule_reasons : PolicyConfig → String → Evidence → Outcome (List Text)
unfolding severity_rank get
rule_reasons config rule e =
    if is_status_rule rule && not config.status_rules_force_review
    then ok []
    else (severity_of (get "severity" e.payload) >>= λ severity. ok (
        when (leb (severity_rank config.floor_min_severity) (severity_rank severity)) (
          (lit "reconciliation "
            ∷ lit rule
            ∷ lit " ("
            ∷ lit (severity_value severity)
            ∷ because ")" e))))

abbrev is_dob : Scanners → Value → Bool
is_dob tools v = starts_with (text_of tools v) "dob_"

abbrev any_item : Scanners → Items → Bool
any_item tools nil = false
any_item tools (cons v vs) = is_dob tools v || any_item tools vs

abbrev any_key : Fields → Bool
any_key end = false
any_key (field k v fs) = starts_with k "dob_" || any_key fs

-- `any(str(c).startswith("dob_") for c in payload.get("own_contradictions", []))`: a dictionary is
-- read by its keys, and no single character of a text starts so.
abbrev has_dob : Scanners → Option Value → Outcome Bool
has_dob tools none = ok false
has_dob tools (some (arr xs)) = ok (any_item tools xs)
has_dob tools (some (obj fs)) = ok (any_key fs)
has_dob tools (some (str s)) = ok false
has_dob tools (some v) = raised (type_error "not iterable")

unfoldable pub kyc_reasons : Scanners → Evidence → Outcome (List Text)
unfolding get get_or_null truthy equals_one
kyc_reasons tools e = has_dob tools (get "own_contradictions" e.payload) >>= λ dob. ok (
    when (truthy (get_or_null "other_strong_candidates" e.payload))
      (because "KYC: other strong candidate record(s)" e)
    ++ (when (not (equals_one (get_or_null "own_record_rank" e.payload)))
          (because "KYC: the customer's own record is not the best match" e)
        ++ when dob (because "KYC: date-of-birth conflict" e)))

unfoldable pub esg_reasons : Evidence → List Text
unfolding get_or_null truthy
esg_reasons e =
    when (truthy (get_or_null "new_cross_border_counterparty" e.payload))
      (because "governance: new cross-border counterparty" e)
    ++ when (truthy (get_or_null "structuring_suspected" e.payload))
        (because "governance: possible structuring pattern" e)

abbrev is_reconciliation : EvidenceSource → Bool
is_reconciliation EvidenceSource.reconciliation = true
is_reconciliation _ = false

-- One pass of the loop of `engine_floor`: the reasons that an item adds.
unfoldable pub evidence_reasons : Scanners → PolicyConfig → Evidence → Outcome (List Text)
unfolding get get_or_null truthy rule_reasons kyc_reasons esg_reasons
evidence_reasons tools config e =
    if is_reconciliation e.source && is_some (get "rule_id" e.payload)
    then rule_reasons config (text_of tools (get_or_null "rule_id" e.payload)) e
    else if starts_with e.evidence_id "ANOM-" && config.anomaly_flag_forces_review
    then ok (
        when (truthy (get_or_null "flagged" e.payload))
          (because "anomaly model flagged the transaction" e))
    else if starts_with e.evidence_id "KYCM-" && config.kyc_concerns_force_review
    then kyc_reasons tools e
    else if starts_with e.evidence_id "ESG-" && config.esg_governance_forces_review
    then ok (esg_reasons e)
    else ok []

unfoldable pub engine_reasons : Scanners → PolicyConfig → List Evidence → Outcome (List Text)
unfolding evidence_reasons
engine_reasons tools config [] = ok []
engine_reasons tools config (e ∷ evidence) = evidence_reasons tools config e >>= λ reasons.
    (engine_reasons tools config evidence >>= λ rest. ok (reasons ++ rest))

abbrev suspicion : String → Text
suspicion evidence_id =
    lit "instruction-like text inside evidence [" ∷ lit evidence_id ∷ lit "]" ∷ []

abbrev pub floor_of : List Text → Option Decision
floor_of [] = none
floor_of (r ∷ rs) = some review

unfoldable pub engine_floor :
    Scanners → PolicyConfig → List Evidence → Outcome (Option Decision × List Text)
unfolding engine_reasons suspicious_evidence
engine_floor tools config evidence = engine_reasons tools config evidence >>= λ found.
    let reasons =
      found
      ++ (if config.suspicious_evidence_forces_review
          then map suspicion (suspicious_evidence tools evidence)
          else []) in
    ok (floor_of reasons, reasons)
