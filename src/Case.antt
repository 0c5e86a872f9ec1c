-- ===== src/Case.antt =====
-- agents/state.py, and the appending of an event to a case (agents/audit.py). The clock is a
-- parameter: `clock n` is the n-th reading, and a case counts the readings made for it.
use finguard_major_project.Prelude.{
  ℕ, ◌+◌, String, Bool, Option, none, List, [], ◌∷◌, ◌++◌, map, any, str_eq, if◌then◌else◌,
}
use finguard_major_project.Domain.{
  CaseStatus, case_created, Decision, Evidence, ReconciliationResult,
}
use finguard_major_project.Contracts.{
  KycDocumentFinding, AnomalyFinding, InvestigationMeta, ReviewOutput, CaseReport,
}
use finguard_major_project.Guardrails.Models.{RetrievedChunk}
use finguard_major_project.Llm.{InvestigationOutput}
use finguard_major_project.Pipeline.Models.{CanonicalCase}
use finguard_major_project.Audit.{AuditEvent, Entry, event_of}
use finguard_major_project.Outcome.{Outcome, ok, raised, value_error}

pub record SignOff : Type 0 where
  pub reviewer : String
  pub second_reviewer : Option String
  pub decision : Decision
  pub reason : String
  pub at : ℕ

pub record CaseState : Type 0 where
  pub case_id : String
  pub request_id : String
  pub customer_id : String
  pub focus_transaction_ids : List String
  pub context_days : ℕ
  pub status : CaseStatus
  pub created_at : ℕ
  pub canonical_case : Option CanonicalCase
  pub evidence : List Evidence
  pub kyc_findings : List KycDocumentFinding
  pub anomaly_findings : List AnomalyFinding
  pub reconciliation_results : List ReconciliationResult
  pub retrieval_queries : List String
  pub knowledge_chunks : List RetrievedChunk
  pub investigation : Option InvestigationOutput
  pub investigation_meta : Option InvestigationMeta
  pub review : Option ReviewOutput
  pub report : Option CaseReport
  pub failed_step : Option String
  pub sign_off : Option SignOff
  pub audit_trail : List AuditEvent
  -- how often the clock has been read for this case
  pub readings : ℕ

abbrev pub Clock : Type 0
Clock = ℕ → ℕ

-- `clock()`: the time, and the case with one more reading.
abbrev pub tick : CaseState → CaseState
tick s = record s { readings = s.readings + 1 }

unfoldable pub record_event : Clock → Entry → CaseState → CaseState
unfolding event_of
record_event clock e s = record (tick s) {
  audit_trail =
      s.audit_trail ++ event_of s.case_id s.request_id (clock s.readings) s.audit_trail e ∷ [];
}

-- `_dump_state` of backend/app/services/case_store.py: the stored JSON of a case has no prepared data
-- and no trail.
abbrev pub dumped : CaseState → CaseState
dumped s = record s { canonical_case = none; audit_trail = [] }

abbrev pub evidence_ids : List Evidence → List String
evidence_ids = map (λ e. e.evidence_id)

abbrev pub holds_id : String → List Evidence → Bool
holds_id k = any (λ e. str_eq e.evidence_id k)

-- `known & {ids of the items}` is not empty.
abbrev pub clashes : List Evidence → List Evidence → Bool
clashes known items = any (λ e. holds_id e.evidence_id known) items

unfoldable pub add_evidence : List Evidence → CaseState → Outcome CaseState
add_evidence items s =
    if clashes s.evidence items
    then raised (value_error "duplicate evidence ids")
    else ok (record s { evidence = s.evidence ++ items })

-- `CaseState(...)` of `create_case`: the defaults of the schema.
abbrev pub fresh_case : String → String → String → List String → ℕ → ℕ → CaseState
fresh_case case_id request_id customer_id focus context_days created_at = record {
  case_id = case_id;
  request_id = request_id;
  customer_id = customer_id;
  focus_transaction_ids = focus;
  context_days = context_days;
  status = case_created;
  created_at = created_at;
  canonical_case = none;
  evidence = [];
  kyc_findings = [];
  anomaly_findings = [];
  reconciliation_results = [];
  retrieval_queries = [];
  knowledge_chunks = [];
  investigation = none;
  investigation_meta = none;
  review = none;
  report = none;
  failed_step = none;
  sign_off = none;
  audit_trail = [];
  readings = 1;
}
