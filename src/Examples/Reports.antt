-- ===== src/Examples/Reports.antt =====
-- A transaction whose posting has another currency, from the ledger to the review, and the reports.
use finguard_major_project.Prelude.{
  String, ◌≡◌, refl, true, false, none, some, List, [], ◌∷◌, ◌++◌, all,
}
use finguard_major_project.Prelude.Int.{pos}
use finguard_major_project.Domain.{
  Discrepancy, Evidence, LedgerRecord, ReconciliationResult, clear, low, severity_rank,
}
use finguard_major_project.Reviewer.{validate}
use finguard_major_project.Outcome.{Outcome, ok, is_ok, value, value-ok}
use finguard_major_project.Pipeline.Models.{CanonicalCase, CanonicalTransaction}
use finguard_major_project.Contracts.{CheckResult, ReconciliationOutput, ReportInput, ReportItem}
use finguard_major_project.Guardrails.Models.{CritiqueReport, RetrievedChunk}
use finguard_major_project.Guardrails.FreeText.{default_policy}
use finguard_major_project.Guardrails.Critique.{review_investigation}
use finguard_major_project.Guardrails.Clearing.{Sound}
use finguard_major_project.Guardrails.Material.{Held}
use finguard_major_project.Reconciliation.Config.{default_config}
use finguard_major_project.Reconciliation.Service.{reconcile as reconcile_one, reconcile_case}
use finguard_major_project.Reconciliation.Checks.{
  amount, currency, duplicate_posting, missing_ledger, reference_mismatch, reference_missing,
}
use finguard_major_project.Reconciliation.Rules.{
  late_posting, posting_before_transaction, settlement_failed, stale_pending,
}
use finguard_major_project.Agents.Evidence.{Rendering, behaviour_evidence, discrepancy_evidence}
use finguard_major_project.Agents.Reconciliation.{reconcile}
use finguard_major_project.Agents.Discrepancies.{Within}
use finguard_major_project.Agents.Floor.{Counts, reconcile-Held}
use finguard_major_project.Agents.Reporting.{generate, meta_is_mock}
use finguard_major_project.Agents.Reports.{Warns, generate-Sound, generate-Warns, generate-cites}
use finguard_major_project.Agents.Governance.{default_governance, score_governance}
use finguard_major_project.Agents.Lookback.{evidence-looks_back}
use finguard_major_project.Agents.Auditor.{KycMatchResult}
use finguard_major_project.Agents.Identity.{Identified, document_finding-Identified}
use finguard_major_project.Agents.Investigator.{retrieve}
use finguard_major_project.Agents.Retrieval.{Collected, retrieve-Collected}
use finguard_major_project.Json.{end}
use finguard_major_project.Examples.Data.{customer, meta, payment, posting}
use finguard_major_project.Examples.Reviews.{
  agreeing, opinion, quiet_input, quiet_review, quiet_review_ok, quiet_review_validated, readers,
  scanners,
}

abbrev rendering : Rendering
rendering = record {
  render = λ t. "";
  isoformat = λ t. "";
  rounded_ratio = λ a b. pos 0;
  hour = λ t. 0;
}

abbrev foreign : LedgerRecord
foreign = record (posting "L1" 5000000002000) { currency = "USD" }

abbrev mismatched : CanonicalTransaction
mismatched = record { transaction = payment; ledger_records = foreign ∷ [] }

abbrev case : CanonicalCase
case = record {
  case_id = "CASE-C1-T1";
  customer = customer;
  kyc_documents = [];
  focus_transactions = mismatched ∷ [];
  context_transactions = [];
  as_of = 5000000003000;
  context_days = 30;
}

abbrev result : ReconciliationResult
result = reconcile_one default_config payment (foreign ∷ []) (some 5000000003000)

abbrev first_of : List Discrepancy → Discrepancy
first_of [] = record {
  field = "";
  expected = none;
  actual = none;
  difference = none;
  severity = low;
  rule_id = "";
  explanation = [];
}
first_of (d ∷ ds) = d

abbrev rest_of : List Discrepancy → List Discrepancy
rest_of [] = []
rest_of (d ∷ ds) = ds

abbrev wrong_currency : Discrepancy
wrong_currency = first_of result.discrepancies

found : Within wrong_currency result.discrepancies
unfolding reconcile_one missing_ledger duplicate_posting amount currency reference_missing
    reference_mismatch posting_before_transaction late_posting settlement_failed stale_pending
found = record { before = []; after = rest_of result.discrepancies; split = refl }

counts : Counts default_policy wrong_currency
unfolding reconcile_one missing_ledger duplicate_posting amount currency reference_missing
    reference_mismatch posting_before_transaction late_posting settlement_failed stale_pending
    severity_rank
counts = record { not_status = refl; enough = refl }

abbrev reconciling : Outcome ReconciliationOutput
reconciling = reconcile rendering default_config case 9

reconciling_ok : is_ok reconciling ≡ true
unfolding reconcile reconcile_case
reconciling_ok = refl

abbrev pile : List Evidence
pile = [] ++ ((value reconciling reconciling_ok).evidence ++ [])

abbrev reviewing : Outcome CritiqueReport
reviewing = review_investigation readers scanners default_policy pile (some (opinion clear)) []

reviewing_ok : is_ok reviewing ≡ true
unfolding review_investigation reconcile reconcile_case missing_ledger duplicate_posting amount
    currency reference_missing reference_mismatch posting_before_transaction late_posting
    settlement_failed stale_pending
reviewing_ok = refl

reconcile-Held_example : Held (value reviewing reviewing_ok)
reconcile-Held_example =
    reconcile-Held rendering scanners default_policy readers default_config case 9 mismatched
      wrong_currency (value reconciling reconciling_ok) [] [] (some (opinion clear)) []
      (value reviewing reviewing_ok) (record { before = []; after = []; split = refl })
      ((λ e. refl), tt) found counts (value-ok reconciling reconciling_ok)
      (value-ok reviewing reviewing_ok)

abbrev input : ReportInput
input = record {
  case_id = "CASE-C1-T1";
  customer_id = "C1";
  focus_transaction_ids = "T1" ∷ [];
  generated_at = 9;
  evidence = [];
  kyc_findings = [];
  anomaly_findings = [];
  reconciliation_results = result ∷ [];
  knowledge_chunks = [];
  investigation = some (opinion clear);
  investigation_meta = none;
  review = some (value quiet_review quiet_review_ok);
  failed_step = none;
}

report_validated : (generate input).validated ≡ true
unfolding generate
report_validated = rw quiet_review_validated refl

generate-Sound_example :
    (meta_is_mock input.investigation_meta ≡ false)
    × (r : CritiqueReport) × ((value quiet_review quiet_review_ok).critique ≡ some r)
    × Sound r
    × ((generate input).advisory_decision ≡ r.guardrail_decision)
    × (checks : List CheckResult) × (validate (agreeing ∷ []) quiet_input ≡ ok checks)
    × (all (λ x. x.passed) checks ≡ true)
generate-Sound_example =
    generate-Sound readers scanners default_policy (agreeing ∷ []) quiet_input
      (value quiet_review quiet_review_ok) input (value-ok quiet_review quiet_review_ok) refl
      report_validated

-- The same after a failed step, over a mock investigation and a critique that raises the decision.
abbrev troubled : ReportInput
troubled = record input {
  investigation_meta = some meta;
  review = some (record (value quiet_review quiet_review_ok) {
    critique = some (value reviewing reviewing_ok);
  });
  failed_step = some "investigate";
}

generate-Warns_example : Warns troubled (generate troubled).warnings
generate-Warns_example = generate-Warns troubled

generate-cites_example :
    (fact : ReportItem) × Within fact (generate input).engine_facts
    × (fact.evidence_ids ≡ (discrepancy_evidence rendering "T1" 9 wrong_currency).evidence_id ∷ [])
unfolding reconcile_one
generate-cites_example =
    generate-cites rendering input result wrong_currency 9
      (record { before = []; after = []; split = refl }) refl found

evidence-looks_back_example :
    (behaviour_evidence rendering payment (payment ∷ []) 9
      ≡ behaviour_evidence rendering payment [] 9)
    × (score_governance payment (payment ∷ []) default_governance
        ≡ score_governance payment [] default_governance)
evidence-looks_back_example =
    evidence-looks_back rendering default_governance payment payment [] [] 9 refl

abbrev candidate : String → KycMatchResult
candidate id = record {
  candidate_id = id;
  final_score = pos 900000;
  is_match = true;
  confidence = "high";
  match_reasons = [];
  contradictory_evidence = [];
}

document_finding-Identified_example : Identified "C1" "D1" (candidate "C2" ∷ candidate "C1" ∷ [])
document_finding-Identified_example =
    document_finding-Identified "C1" "D1" (candidate "C2" ∷ candidate "C1" ∷ [])

abbrev chunk : String → RetrievedChunk
chunk id = record {
  chunk_id = id;
  document_id = "DOC";
  text = "";
  score = pos 0;
  rank = 1;
  metadata = end;
  component_scores = [];
}

abbrev IsDoc : RetrievedChunk → Type 0
IsDoc c = c.document_id ≡ "DOC"

retrieve-Collected_example :
    Collected 1 IsDoc (retrieve 1 (λ q. chunk q ∷ []) ("a" ∷ "b" ∷ [])).chunks
retrieve-Collected_example =
    retrieve-Collected 1 IsDoc (λ q. chunk q ∷ []) ("a" ∷ "b" ∷ []) (λ q. (refl, tt))
