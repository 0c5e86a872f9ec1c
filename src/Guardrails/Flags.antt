-- ===== src/Guardrails/Flags.antt =====
-- guardrails/policy_checks.py: `check_policies`, the policy flags of an investigation.
use finguard_major_project.Prelude.{
  String, Bool, true, false, not, ◌&&◌, Option, none, some, List, [], ◌∷◌, ◌++◌, map, any, is_empty,
  is_some, length, ltb,
}
use Prim.Native.String.{◌++◌ as text_append}
use finguard_major_project.Prelude.Int.{pos}
use finguard_major_project.Strings.{Text, lit, num, decimal}
use finguard_major_project.Outcome.{Outcome, ok, ◌>>=◌}
use finguard_major_project.Domain.{Decision, Evidence, is_clear}
use finguard_major_project.Llm.{InvestigationOutput}
use finguard_major_project.Guardrails.Models.{
  ClaimCheck, PolicyFlag, PolicyResult, is_supported, unsupported_claims,
}
use finguard_major_project.Guardrails.Tokens.{joined}
use finguard_major_project.Guardrails.FreeText.{PolicyConfig, Scanners, suspicious_evidence}
use finguard_major_project.Guardrails.Policy.{engine_floor}

abbrev pub flag : Bool → String → Bool → Text → List PolicyFlag
flag true code is_violation detail =
    record { code = code; detail = detail; is_violation = is_violation } ∷ []
flag false code is_violation detail = []

abbrev pub suspicious_flag : String → PolicyFlag
suspicious_flag evidence_id = record {
  code = "SUSPICIOUS_EVIDENCE_TEXT";
  detail = lit evidence_id ∷ lit " contains instruction-like text supplied by a third party" ∷ [];
  is_violation = false;
}

-- The flags of a proposal to clear the case.
abbrev pub clear_flags : Decision → Option Decision → List Text → List ClaimCheck → List PolicyFlag
clear_flags action floor reasons claim_checks =
    let unsupported = unsupported_claims claim_checks in
    flag (is_clear action && is_some floor) "CLEAR_BELOW_ENGINE_FLOOR" true (
      lit "the model proposes CLEAR but deterministic findings require review: "
      ∷ joined "; " reasons)
    ++ (flag (is_clear action && not (is_empty unsupported)) "CLEAR_WITH_UNSUPPORTED_CLAIMS" true
          (num (length unsupported) ∷ lit " claim(s) behind a CLEAR proposal are unsupported" ∷ [])
        ++ flag (is_clear action && not (any (λ c. is_supported c.status) claim_checks))
            "CLEAR_WITHOUT_SUPPORTED_EVIDENCE" true
            (lit "a CLEAR proposal needs at least one verified, evidence-backed claim" ∷ []))

-- `" ".join(texts)`
abbrev join_spaces : List String → String
join_spaces [] = ""
join_spaces (s ∷ []) = s
join_spaces (s ∷ t ∷ ts) = text_append s (text_append " " (join_spaces (t ∷ ts)))

abbrev model_text : InvestigationOutput → String
model_text investigation = join_spaces (
    investigation.summary
    ∷ (investigation.uncertainties
        ++ (investigation.recommendations ++ map (λ f. f.statement) investigation.findings)))

abbrev pub output_flags :
    Scanners → PolicyConfig → InvestigationOutput → List ClaimCheck → Bool → List PolicyFlag
output_flags tools config investigation claim_checks summary_grounded =
    let unsupported = unsupported_claims claim_checks in
    flag (not summary_grounded) "SUMMARY_NOT_GROUNDED" true
      (lit "the summary states values that appear in no case evidence" ∷ [])
    ++ (flag
          (not (is_empty unsupported)
            && ltb config.confidence_ceiling_with_unsupported investigation.confidence)
          "HIGH_CONFIDENCE_WITH_UNSUPPORTED_CLAIMS" false
          (lit "the model states confidence "
            ∷ decimal (pos investigation.confidence)
            ∷ lit " despite "
            ∷ num (length unsupported)
            ∷ lit " unsupported claim(s)"
            ∷ [])
        ++ flag (tools.injection_flags (model_text investigation))
            "OUTPUT_CONTAINS_INSTRUCTION_LIKE_TEXT" false
            (lit "the model output repeats instruction-like text; check if it was injected" ∷ []))

abbrev pub investigation_flags :
    Scanners
    → PolicyConfig
    → Option InvestigationOutput
    → Option Decision
    → List Text
    → List ClaimCheck
    → Bool
    → List PolicyFlag
investigation_flags tools config none floor reasons claim_checks summary_grounded = []
investigation_flags tools config (some i) floor reasons claim_checks summary_grounded =
    clear_flags i.recommended_action floor reasons claim_checks
    ++ output_flags tools config i claim_checks summary_grounded

abbrev pub policy_of :
    Scanners
    → PolicyConfig
    → Option InvestigationOutput
    → List Evidence
    → List ClaimCheck
    → Bool
    → Option Decision × List Text
    → PolicyResult
policy_of tools config investigation evidence claim_checks summary_grounded found = record {
  flags =
      map suspicious_flag (suspicious_evidence tools evidence)
      ++ investigation_flags tools config investigation found.0 found.1 claim_checks
          summary_grounded;
  floor = found.0;
  floor_reasons = found.1;
}

unfoldable pub check_policies :
    Scanners
    → PolicyConfig
    → Option InvestigationOutput
    → List Evidence
    → List ClaimCheck
    → Bool
    → Outcome PolicyResult
unfolding engine_floor suspicious_evidence
check_policies tools config investigation evidence claim_checks summary_grounded =
    engine_floor tools config evidence >>= λ found.
    ok (policy_of tools config investigation evidence claim_checks summary_grounded found)
