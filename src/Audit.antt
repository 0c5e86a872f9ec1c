-- ===== src/Audit.antt =====
-- agents/audit.py: the append-only list of a case's events.
pub mod Chain
pub mod Integrity
pub mod Appending
use finguard_major_project.Prelude.{ℕ, suc, ◌+◌, String, Bool, Option, List, [], ◌∷◌, ◌++◌, length}
use finguard_major_project.Domain.{CaseStatus}
use finguard_major_project.Json.{Fields}

pub record AuditEvent : Type 0 where
  pub event_id : ℕ
  pub timestamp : ℕ
  pub case_id : String
  pub request_id : String
  pub actor : String
  pub action : String
  pub from_status : Option CaseStatus
  pub to_status : Option CaseStatus
  pub duration_ms : ℕ
  pub ok : Bool
  pub error : Option String
  pub details : Fields

-- What `record_event` is told beside the case and the clock.
pub record Entry : Type 0 where
  pub actor : String
  pub action : String
  pub from_status : Option CaseStatus
  pub to_status : Option CaseStatus
  pub duration_ms : ℕ
  pub ok : Bool
  pub error : Option String
  pub details : Fields

-- The event that is appended to a trail; ids are sequential per case.
unfoldable pub event_of : String → String → ℕ → List AuditEvent → Entry → AuditEvent
event_of case_id request_id now trail e = record {
  event_id = length trail + 1;
  timestamp = now;
  case_id = case_id;
  request_id = request_id;
  actor = e.actor;
  action = e.action;
  from_status = e.from_status;
  to_status = e.to_status;
  duration_ms = e.duration_ms;
  ok = e.ok;
  error = e.error;
  details = e.details;
}
