-- ===== src/Agents/Reporting.antt =====
-- agents/report_generator/agent.py: the report of a case.
use Prim.Native.String.{◌++◌ as str_append}
use finguard_major_project.Prelude.{
  ℕ, ◌+◌, String, Bool, true, false, not, ◌&&◌, ◌||◌, Option, none, some, List, [], ◌∷◌, ◌++◌, map,
  any, filter, is_empty, is_none, ◌==◌, if◌then◌else◌,
}
use finguard_major_project.Prelude.Int.{ℤ, pos}
use finguard_major_project.Strings.{Text, lit, num, decimal}
use finguard_major_project.Dict.{put}
use finguard_major_project.Json.{
  Fields, Value, end, field, arr, obj, str, int, float, bool, null, is_zero, is_pos,
}
use finguard_major_project.Domain.{
  Decision, is_clear, Discrepancy, Evidence, ReconciliationResult, Severity, severity_rank,
}
use finguard_major_project.Pipeline.Store.{member}
use finguard_major_project.Llm.{Finding, InvestigationOutput, normalize_citation}
use finguard_major_project.Guardrails.Models.{
  ClaimCheck, CritiqueReport, PolicyFlag, SupportStatus, counts,
}
use finguard_major_project.Guardrails.Policy.{severity_value}
use finguard_major_project.Guardrails.Tokens.{joined}
use finguard_major_project.Contracts.{
  AnomalyFinding, CaseReport, InvestigationMeta, KycDocumentFinding, Origin, ReportInput,
  ReportItem, ReviewOutput,
}
use finguard_major_project.Agents.Evidence.{items}

-- `[text] if test else []`
abbrev pub warn : Bool → Text → List Text
warn true t = t ∷ []
warn false t = []

abbrev pub texts_of : List String → List Text
texts_of xs = map (λ s. lit s ∷ []) xs

abbrev optional_text : Option Text → Text
optional_text none = lit "None" ∷ []
optional_text (some t) = t

abbrev or_none : Option String → String
or_none none = "None"
or_none (some s) = s

-- Facts carry no support of their own.
abbrev engine_fact : Text → String → ReportItem
engine_fact text evidence_id = record {
  text = text;
  evidence_ids = evidence_id ∷ [];
  origin = Origin.engine;
  support = none;
  support_reason = none;
}

abbrev rank_text : Option ℕ → Text
rank_text none = lit "NOT among the top candidates" ∷ []
rank_text (some n) =
    if n == 0 then lit "NOT among the top candidates" ∷ [] else lit "ranked " ∷ num n ∷ []

abbrev score_text : Option ℤ → Option String → Text
score_text none confidence = []
score_text (some score) confidence =
    if is_zero score
    then []
    else lit " (score "
      ∷ decimal score
      ∷ lit ", confidence "
      ∷ lit (or_none confidence)
      ∷ lit ")"
      ∷ []

unfoldable pub kyc_fact : KycDocumentFinding → ReportItem
kyc_fact k =
    engine_fact
      (lit "KYC document "
        ∷ lit k.document_id
        ∷ lit ": the customer's own record is "
        ∷ (rank_text k.own_record_rank
            ++ (score_text k.own_final_score k.own_confidence
                ++ (lit "."
                    ∷ ((if is_empty k.own_contradictions
                          then []
                          else lit " Contradictory evidence: "
                            ∷ (joined "; " (texts_of k.own_contradictions) ++ lit "." ∷ []))
                        ++ (if is_empty k.other_strong_candidates
                            then []
                            else lit " Other strong candidate record(s): "
                              ∷ (joined ", "
                                    (texts_of (map (λ c. c.candidate_id) k.other_strong_candidates))
                                  ++ lit "." ∷ [])))))))
      (str_append "KYCM-" k.document_id)

unfoldable pub anomaly_fact : AnomalyFinding → ReportItem
anomaly_fact a =
    engine_fact
      (lit "Anomaly model score "
        ∷ decimal a.probability
        ∷ lit " vs threshold "
        ∷ decimal a.threshold
        ∷ lit ": "
        ∷ lit (if a.flagged then "FLAGGED" else "not flagged")
        ∷ lit ". Top drivers: "
        ∷ (joined ", " (map (λ d. lit d.0 ∷ lit " (" ∷ decimal d.1 ∷ lit ")" ∷ []) a.top_drivers)
            ++ lit "." ∷ []))
      (str_append "ANOM-" a.transaction_id)

abbrev reconciles_fact : ReconciliationResult → ReportItem
reconciles_fact r =
    engine_fact
      (lit "Transaction " ∷ lit r.transaction_id ∷ lit " reconciles with the ledger." ∷ [])
      (str_append "REC-" (str_append r.transaction_id "-OK"))

abbrev pub discrepancy_fact : String → Discrepancy → ReportItem
discrepancy_fact transaction_id d =
    engine_fact
      (lit d.rule_id
        ∷ lit " ("
        ∷ lit (severity_value d.severity)
        ∷ lit ") on "
        ∷ lit d.field
        ∷ lit ": expected "
        ∷ (optional_text d.expected
            ++ (lit ", actual " ∷ (optional_text d.actual ++ (lit ". " ∷ d.explanation)))))
      (str_append "REC-" (str_append transaction_id (str_append "-" d.rule_id)))

unfoldable pub result_facts : List String → ReconciliationResult → List ReportItem
result_facts focus r =
    if not (member r.transaction_id focus)
    then []
    else warn_item (is_empty r.discrepancies) (reconciles_fact r)
      ++ map (discrepancy_fact r.transaction_id) r.discrepancies
  where
    warn_item : Bool → ReportItem → List ReportItem
    warn_item true x = x ∷ []
    warn_item false x = []

unfoldable pub results_facts : List String → List ReconciliationResult → List ReportItem
unfolding result_facts
results_facts focus [] = []
results_facts focus (r ∷ rs) = result_facts focus r ++ results_facts focus rs

unfoldable pub engine_facts : ReportInput → List ReportItem
unfolding kyc_fact anomaly_fact results_facts
engine_facts inp =
    map kyc_fact inp.kyc_findings
    ++ (map anomaly_fact inp.anomaly_findings
        ++ results_facts inp.focus_transaction_ids inp.reconciliation_results)

abbrev is_high : Severity → Bool
is_high s = severity_rank s == 2

abbrev high_rules : List String → List ReconciliationResult → List String
high_rules focus [] = []
high_rules focus (r ∷ rs) =
    (if member r.transaction_id focus
      then map (λ d. d.rule_id) (filter (λ d. is_high d.severity) r.discrepancies)
      else [])
    ++ high_rules focus rs

abbrev is_first : Option ℕ → Bool
is_first none = false
is_first (some n) = n == 1

unfoldable pub engine_concerns : ReportInput → List String
unfolding severity_rank
engine_concerns inp =
    high_rules inp.focus_transaction_ids inp.reconciliation_results
    ++ (map (λ a. str_append "anomaly flag on " a.transaction_id)
          (filter (λ a. a.flagged) inp.anomaly_findings)
        ++ map (λ k. str_append "KYC document " k.document_id)
            (filter
              (λ k. not (is_empty k.other_strong_candidates) || not (is_first k.own_record_rank))
              inp.kyc_findings))

abbrev pub critique_of : Option ReviewOutput → Option CritiqueReport
critique_of none = none
critique_of (some review) = review.critique

abbrev pub meta_is_mock : Option InvestigationMeta → Bool
meta_is_mock none = false
meta_is_mock (some meta) = meta.is_mock

abbrev passed_review : Option ReviewOutput → Bool
passed_review none = false
passed_review (some review) = review.validated

abbrev pub is_validated : ReportInput → Bool
is_validated inp = passed_review inp.review && not (meta_is_mock inp.investigation_meta)

abbrev action_of : Option InvestigationOutput → Option Decision
action_of none = none
action_of (some inv) = some inv.recommended_action

abbrev pub mock_warning : Text
mock_warning = lit "MOCK OUTPUT: no language model produced this investigation." ∷ []

abbrev pub unvalidated_warning : Bool → Text
unvalidated_warning mock =
    lit "UNVALIDATED: the investigation has not passed automated evidence checks"
    ∷ lit (if mock then " (mock output is never validated)." else ".")
    ∷ []

-- `if inp.failed_step`: the empty text is false too.
abbrev pub failed_warning : Option String → List Text
failed_warning none = []
failed_warning (some String.[]) = []
failed_warning (some (String.◌∷◌ c s)) =
    (lit "Workflow step '" ∷ lit (String.◌∷◌ c s) ∷ lit "' failed; this report is incomplete." ∷ [])
    ∷ []

abbrev withheld : Option InvestigationMeta → List Text
withheld none = []
withheld (some meta) = warn (not (is_empty meta.excluded_suspicious_chunks)) (
    lit "Reference text withheld from the model as suspicious: "
    ∷ joined ", " (texts_of meta.excluded_suspicious_chunks))

abbrev is_clear_action : Option Decision → Bool
is_clear_action none = false
is_clear_action (some d) = is_clear d

-- The check where no guardrails ran.
abbrev consistency : Option CritiqueReport → ReportInput → List Text
consistency (some critique) inp = []
consistency none inp =
    let concerns = engine_concerns inp in
    warn (is_clear_action (action_of inp.investigation) && not (is_empty concerns)) (
      lit "CONSISTENCY WARNING: the model proposes CLEAR but the engines report: "
      ∷ (joined "; " (texts_of concerns) ++ lit ". (No guardrails ran to enforce a minimum.)" ∷ []))

abbrev pub flag_warning : PolicyFlag → Text
flag_warning f = lit "POLICY " ∷ lit f.code ∷ lit ": " ∷ f.detail

abbrev pub unsupported_warning : ℕ → Text
unsupported_warning n =
    num n ∷ lit " model claim(s) are UNSUPPORTED by the cited evidence; do not rely on them." ∷ []

abbrev pub from_critique {ℓ} : {A : Type ℓ} → A → (CritiqueReport → A) → Option CritiqueReport → A
from_critique default f none = default
from_critique default f (some critique) = f critique

abbrev pub unsupported_of : CritiqueReport → List Text
unsupported_of critique =
    warn (not ((counts critique).1 == 0)) (unsupported_warning (counts critique).1)

-- The warnings, in the order in which they are appended.
abbrev pub warning_groups : ReportInput → List (List Text)
warning_groups inp =
    let critique = critique_of inp.review in
    let mock = meta_is_mock inp.investigation_meta in
    warn mock mock_warning
    ∷ warn (not (is_validated inp)) (unvalidated_warning mock)
    ∷ failed_warning inp.failed_step
    ∷ warn (is_none inp.investigation)
        (lit "No AI investigation is available; rely on the engine facts." ∷ [])
    ∷ warn (any (λ a. a.in_training_period) inp.anomaly_findings)
        (lit "Anomaly score is optimistic: the transaction is in the model's training period." ∷ [])
    ∷ withheld inp.investigation_meta
    ∷ consistency critique inp
    ∷ from_critique [] unsupported_of critique
    ∷ from_critique [] (λ r. map flag_warning r.policy.flags) critique
    ∷ from_critique [] (λ r. r.adjustments) critique
    ∷ []

abbrev pub joined_groups : List (List Text) → List Text
joined_groups [] = []
joined_groups (g ∷ gs) = g ++ joined_groups gs

unfoldable pub warnings_of : ReportInput → List Text
unfolding engine_concerns counts
warnings_of inp = joined_groups (warning_groups inp)

-- `checks[i] if i in checks`: the last check of an index wins.
abbrev check_at : ℕ → List ClaimCheck → Option ClaimCheck
check_at i [] = none
check_at i (c ∷ cs) = elim (check_at i cs) [
  | some later ↦ some later
  | none ↦ if is_pos c.index i then some c else none
]

abbrev status_of : Option ClaimCheck → Option SupportStatus
status_of none = none
status_of (some c) = some c.status

abbrev reason_of : Option ClaimCheck → Option Text
reason_of none = none
reason_of (some c) = some c.reason

abbrev checks_of : Option CritiqueReport → List ClaimCheck
checks_of none = []
checks_of (some critique) = critique.claim_checks

unfoldable pub model_findings : List ClaimCheck → ℕ → List Finding → List ReportItem
unfolding normalize_citation
model_findings checks i [] = []
model_findings checks i (f ∷ fs) =
    let found = check_at i checks in
    record {
      text = lit f.statement ∷ [];
      evidence_ids = map normalize_citation f.evidence_ids;
      origin = Origin.model;
      support = status_of found;
      support_reason = reason_of found;
    }
    ∷ model_findings checks (i + 1) fs

abbrev findings_of : Option InvestigationOutput → List Finding
findings_of none = []
findings_of (some inv) = inv.findings

abbrev pub advisory_decision_of :
    Option CritiqueReport → Option InvestigationOutput → Option Decision
advisory_decision_of (some critique) investigation = critique.guardrail_decision
advisory_decision_of none investigation = action_of investigation

abbrev from_meta : (InvestigationMeta → Value) → Option InvestigationMeta → Value
from_meta f none = null
from_meta f (some meta) = f meta

abbrev confidence_of : Option InvestigationOutput → Value
confidence_of none = null
confidence_of (some inv) = float (pos inv.confidence)

abbrev engine_versions : Fields
engine_versions =
    field "kyc" (str "hybrid_structured (BM25 + dense + DOB/address verification)")
      (field "anomaly" (str "xgboost") (field "reconciliation" (str "rules REC-001..REC-010") end))

abbrev provenance_of : ReportInput → Fields
provenance_of inp =
    let meta = inp.investigation_meta in
    field "prompt_version" (from_meta (λ m. str m.prompt_version) meta) (
      field "provider" (from_meta (λ m. str m.provider) meta) (
        field "model" (from_meta (λ m. str m.model) meta) (
          field "is_mock" (from_meta (λ m. bool m.is_mock) meta) (
            field "attempts" (from_meta (λ m. int (pos m.attempts)) meta) (
              field "knowledge_chunks"
                (arr (items (map (λ c. str c.chunk_id) inp.knowledge_chunks)))
                (field "engines" (obj engine_versions) (
                  field "model_stated_confidence" (confidence_of inp.investigation) (
                    field "guardrails"
                      (str (
                        from_critique "none" (λ c. "self_critique+policy_floor")
                          (critique_of inp.review)))
                      end))))))))

-- `{e.evidence_id: e.description for e in inp.evidence}`
abbrev index_of : List Evidence → List (String × String) → List (String × String)
index_of [] m = m
index_of (e ∷ es) m = index_of es (put e.evidence_id e.description m)

unfoldable pub generate : ReportInput → CaseReport
unfolding warnings_of model_findings engine_facts put
generate inp =
    let inv = inp.investigation in
    let critique = critique_of inp.review in
    record {
      case_id = inp.case_id;
      customer_id = inp.customer_id;
      focus_transaction_ids = inp.focus_transaction_ids;
      generated_at = inp.generated_at;
      proposed_decision = action_of inv;
      proposed_decision_note = "The model's own proposal; a human reviewer decides.";
      advisory_decision = advisory_decision_of critique inv;
      decision_adjustments = from_critique [] (λ c. c.adjustments) critique;
      claim_summary = from_critique none (λ c. some (counts c)) critique;
      policy_flags = from_critique [] (λ c. map (λ f. f.code) c.policy.flags) critique;
      validated = is_validated inp;
      engine_facts = engine_facts inp;
      model_findings = model_findings (checks_of critique) 0 (findings_of inv);
      recommendations = elim inv [ none ↦ [] | some i ↦ i.recommendations ];
      uncertainties = elim inv [ none ↦ [] | some i ↦ i.uncertainties ];
      warnings = warnings_of inp;
      evidence_index = index_of inp.evidence [];
      provenance = provenance_of inp;
    }
