-- ===== src/Api/Reads.antt =====
-- The reading endpoints of backend/app/api/cases.py (`get_case`, `audit_trail`, `list_all`), with
-- `add_audit_event` and `list_cases` of backend/app/services/case_store.py. Each view of a case is
-- an event of its trail. `loads` stands for `json.loads` of the stored customer.
use finguard_major_project.Prelude.{
  ℕ, String, Bool, true, not, ◌&&◌, ◌||◌, Option, none, some, List, [], ◌∷◌, map, filter, length,
  take, drop, leb, str_eq, if◌then◌else◌,
}
use finguard_major_project.Prelude.Sorting.{sorted}
use finguard_major_project.Json.{Fields, end, field}
use finguard_major_project.Domain.{CaseStatus, Decision, Evidence, ReconciliationResult, status_eq}
use finguard_major_project.Contracts.{
  AnomalyFinding, KycDocumentFinding, InvestigationMeta, ReviewOutput, CaseReport,
}
use finguard_major_project.Llm.{InvestigationOutput}
use finguard_major_project.Guardrails.Models.{RetrievedChunk}
use finguard_major_project.Outcome.{Outcome, ok, ◌>>=◌}
use finguard_major_project.Audit.{AuditEvent}
use finguard_major_project.Audit.Chain.{
  AuditRow, ChainReport, Hashing, append_events, rows_of, verify_chain,
}
use finguard_major_project.Case.{CaseState, Clock, SignOff, tick}
use finguard_major_project.SignOff.{or_blank}
use finguard_major_project.Auth.Limiter.{Role}
use finguard_major_project.Auth.Access.{CurrentUser, role_eq}
use finguard_major_project.Api.Rows.{CaseRow, Session, human_event, is_pending}
use finguard_major_project.Api.Cases.{load}

-- `CaseSummary`: the row, less the stored texts.
pub record CaseSummary : Type 0 where
  pub case_id : String
  pub customer_id : String
  pub focus_transaction_ids : List String
  pub status : CaseStatus
  pub job_state : String
  pub job_error : Option String
  pub advisory_decision : Option Decision
  pub proposed_decision : Option Decision
  pub validated : Option Bool
  pub warnings : ℕ
  pub is_mock : Option Bool
  pub created_by : String
  pub created_at : ℕ
  pub updated_at : ℕ
  pub pending_escalation_by : Option String

-- `_summary`
unfoldable pub summary : CaseRow → CaseSummary
summary row = record {
  case_id = row.case_id;
  customer_id = row.customer_id;
  focus_transaction_ids = row.focus_transactions;
  status = row.status;
  job_state = row.job_state;
  job_error = row.job_error;
  advisory_decision = row.advisory_decision;
  proposed_decision = row.proposed_decision;
  validated = row.validated;
  warnings = row.warnings;
  is_mock = row.is_mock;
  created_by = row.created_by;
  created_at = row.created_at;
  updated_at = row.updated_at;
  pending_escalation_by = row.pending_escalation_by;
}

pub record PendingEscalation : Type 0 where
  pub proposed_by : String
  pub reason : String

pub record CaseDetail : Type 0 where
  pub summary_ : CaseSummary
  pub customer : Fields
  pub timeline : String
  pub anomaly_findings : List AnomalyFinding
  pub kyc_findings : List KycDocumentFinding
  pub reconciliation_results : List ReconciliationResult
  pub evidence : List Evidence
  pub knowledge_chunks : List RetrievedChunk
  pub retrieval_queries : List String
  pub investigation : Option InvestigationOutput
  pub investigation_meta : Option InvestigationMeta
  pub review : Option ReviewOutput
  pub report : Option CaseReport
  pub sign_off : Option SignOff
  pub pending_escalation : Option PendingEscalation

-- `customer.pop(key, None)`
unfoldable pub pop : String → Fields → Fields
pop key end = end
pop key (field j v rest) =
    let later = pop key rest in if str_eq j key then later else field j v later

abbrev pub is_analyst : Role → Bool
is_analyst role = role_eq role Role.analyst

-- `_detail`. The timeline is given as it is stored.
unfoldable pub detail : (String → Fields) → CaseRow → CaseState → Role → CaseDetail
unfolding summary pop
detail loads row state role = record {
  summary_ = summary row;
  customer =
      (let customer = loads row.customer_json in
        if not (is_analyst role) then pop "details" customer else customer);
  timeline = row.timeline_json;
  anomaly_findings = state.anomaly_findings;
  kyc_findings = state.kyc_findings;
  reconciliation_results = state.reconciliation_results;
  evidence = state.evidence;
  knowledge_chunks = state.knowledge_chunks;
  retrieval_queries = state.retrieval_queries;
  investigation = state.investigation;
  investigation_meta = state.investigation_meta;
  review = state.review;
  report = state.report;
  sign_off = state.sign_off;
  pending_escalation =
      (if is_pending row
        then some (record {
          proposed_by = or_blank row.pending_escalation_by;
          reason = or_blank row.pending_escalation_reason;
        })
        else none);
}

abbrev status_is : Option CaseStatus → CaseRow → Bool
status_is none row = true
status_is (some s) row = status_eq row.status s

-- `order_by(CaseRow.created_at.desc())`
abbrev newest : CaseRow → CaseRow → Bool
newest a b = leb b.created_at a.created_at

module _ (h : Hashing) where
  unfoldable pub list_cases : Session h → Option CaseStatus → ℕ → ℕ → List CaseRow × ℕ
  unfolding sorted
  list_cases session status limit offset =
      let rows = filter (status_is status) (map (λ p. p.1) session.cases) in
      (take limit (drop offset (sorted newest rows)), length rows)

  unfoldable pub list_all : Session h → Option CaseStatus → ℕ → ℕ → List CaseSummary × ℕ
  unfolding list_cases summary
  list_all session status limit offset =
      let (rows, total) = list_cases session status limit offset in (map summary rows, total)

  -- The event is stored under the request of the case.
  unfoldable pub add_audit_event : Session h → String → String → AuditEvent → Session h
  unfolding append_events
  add_audit_event session case_id request_id event = record session {
    events =
        (append_events h session.events case_id (record event { request_id = request_id } ∷ [])).0;
  }

  module _ (clock : Clock) where
    -- `add_audit_event(session, case_id, state.request_id, _human_event(user, action, state))`
    unfoldable pub noted : String → CurrentUser → String → CaseState → Session h → Session h
    unfolding add_audit_event
    noted case_id user action state session =
        add_audit_event session case_id state.request_id
          (human_event clock user.username action end state)

    -- Looking at stored personal details is an event of its own.
    unfoldable pub get_case :
        (String → Fields) → Session h → String → CurrentUser → Outcome (Session h × CaseDetail)
    unfolding load noted detail
    get_case loads session case_id user = do
      loaded ← load h session case_id
      let (row, state) = loaded
      let viewed = noted case_id user "view_case" state session
      let seen =
          if is_analyst user.role
            && not (str_eq row.customer_json "{}" || str_eq row.customer_json "")
          then noted case_id user "view_customer_details" (tick state) viewed
          else viewed
      ok (seen, detail loads row state user.role)

  -- The trail as it is after the view, and the report of its chain.
  unfoldable pub audit_trail :
      Clock
      → Session h
      → String
      → CurrentUser
      → Outcome (Session h × List (AuditRow h.Hash) × ChainReport)
  unfolding load noted rows_of verify_chain
  audit_trail clock session case_id user = do
    loaded ← load h session case_id
    let viewed = noted clock case_id user "view_audit_trail" loaded.1 session
    ok (viewed, rows_of h case_id viewed.events, verify_chain h viewed.events case_id)
