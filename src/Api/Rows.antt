-- ===== src/Api/Rows.antt =====
-- The rows of the stored cases (backend/app/database/models.py, backend/app/services/case_store.py)
-- and the human events of backend/app/api/cases.py. The stored JSON of a case is the case
-- without its prepared data and its trail.
use Prim.Native.String.{◌++◌ as str_append}
use finguard_major_project.Prelude.{
  ℕ, String, Bool, true, not, Option, none, some, List, [], ◌∷◌, ◌++◌, length, str_eq,
}
use finguard_major_project.Json.{Fields}
use finguard_major_project.Domain.{CaseStatus, Decision}
use finguard_major_project.Contracts.{CaseReport, InvestigationMeta}
use finguard_major_project.Audit.{AuditEvent}
use finguard_major_project.Audit.Chain.{AuditRow, Hashing}
use finguard_major_project.Case.{CaseState, Clock, dumped, tick}
use finguard_major_project.SignOff.{or_blank}

pub record CaseRow : Type 0 where
  pub case_id : String
  pub customer_id : String
  pub focus_transactions : List String
  pub status : CaseStatus
  pub job_state : String
  pub job_error : Option String
  pub advisory_decision : Option Decision
  pub proposed_decision : Option Decision
  pub validated : Option Bool
  pub warnings : ℕ
  pub is_mock : Option Bool
  pub created_by : String
  pub created_at : ℕ
  pub updated_at : ℕ
  pub state : CaseState
  pub timeline_json : String
  pub customer_json : String
  pub pending_escalation_by : Option String
  pub pending_escalation_reason : Option String

pub record Session (h : Hashing) : Type 0 where
  pub cases : List (String × CaseRow)
  pub events : List (AuditRow h.Hash)

abbrev pub advisory_of : Option CaseReport → Option Decision
advisory_of none = none
advisory_of (some r) = r.advisory_decision

abbrev proposed_of : Option CaseReport → Option Decision
proposed_of none = none
proposed_of (some r) = r.proposed_decision

abbrev validated_of : Option CaseReport → Option Bool
validated_of none = none
validated_of (some r) = some r.validated

abbrev warnings_of : Option CaseReport → ℕ
warnings_of none = 0
warnings_of (some r) = length r.warnings

abbrev is_mock_of : Option InvestigationMeta → Option Bool
is_mock_of none = none
is_mock_of (some m) = some m.is_mock

-- `_denormalise`
unfoldable pub denormalise : CaseState → ℕ → CaseRow → CaseRow
denormalise state now row = record row {
  status = state.status;
  updated_at = now;
  advisory_decision = advisory_of state.report;
  proposed_decision = proposed_of state.report;
  validated = validated_of state.report;
  warnings = warnings_of state.report;
  is_mock = is_mock_of state.investigation_meta;
  state = dumped state;
}

-- `_human_event`; the clock is read for it.
abbrev pub human_event : Clock → String → String → Fields → CaseState → AuditEvent
human_event clock username action details s = record {
  event_id = 0;
  timestamp = clock s.readings;
  case_id = s.case_id;
  request_id = s.request_id;
  actor = str_append "human:" username;
  action = action;
  from_status = some s.status;
  to_status = some s.status;
  duration_ms = 0;
  ok = true;
  error = none;
  details = details;
}

-- The event, appended to the trail.
unfoldable pub append_human : Clock → String → String → Fields → CaseState → CaseState
append_human clock username action details s = record (tick s) {
  audit_trail = s.audit_trail ++ human_event clock username action details s ∷ [];
}

-- `bool(row.pending_escalation_by)`
abbrev pub is_pending : CaseRow → Bool
is_pending row = not (str_eq (or_blank row.pending_escalation_by) "")

-- The first 200 characters.
abbrev pub take_text : ℕ → String → String
take_text Prim.Native.Nat.zero s = String.[]
take_text (Prim.Native.Nat.suc n) String.[] = String.[]
take_text (Prim.Native.Nat.suc n) (String.◌∷◌ c s) = String.◌∷◌ c (take_text n s)
