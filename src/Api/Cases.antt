-- ===== src/Api/Cases.antt =====
-- backend/app/services/case_store.py (`load_state`, `save_state`) and the sign-off endpoints of
-- backend/app/api/cases.py over the session, which `get_session` of backend/app/api/deps.py commits or
-- rolls back. The roles of a user are tested before.
use finguard_major_project.Prelude.{
  ℕ, String, Bool, false, not, ◌&&◌, ◌||◌, Option, none, some, List, length, drop, if◌then◌else◌,
}
use finguard_major_project.Strings.{casefold, codes_eq}
use finguard_major_project.Json.{end, field, str}
use finguard_major_project.Dict.{lookup, put}
use finguard_major_project.Domain.{
  human_review, status_eq, Decision, escalate, is_clear, is_escalate,
}
use finguard_major_project.Outcome.{
  Outcome, ok, raised, http_error, key_error, sign_off_error, ◌>>=◌, ◌>>◌, guard,
}
use finguard_major_project.Audit.{AuditEvent}
use finguard_major_project.Audit.Chain.{Hashing, append_events, load_audit}
use finguard_major_project.Case.{CaseState, Clock, tick}
use finguard_major_project.SignOff.{sign_off_case, decision_value, or_blank}
use finguard_major_project.Api.Rows.{
  CaseRow, Session, advisory_of, denormalise, append_human, is_pending, take_text,
}

-- The events of the second reviewer.
abbrev pub noted_confirm : Clock → String → String → CaseState → CaseState
noted_confirm clock username reason =
    append_human clock username "escalation_confirmed"
      (field "confirm_reason" (str (take_text 200 reason)) end)

abbrev pub noted_reject : Clock → String → String → CaseState → CaseState
noted_reject clock username reason =
    append_human clock username "escalation_rejected"
      (field "reason" (str (take_text 200 reason)) end)

-- An advisory decision of REVIEW or ESCALATE that CLEAR would override.
abbrev pub overrides : Decision → Option Decision → Bool
overrides d none = false
overrides d (some advisory) = is_clear d && not (is_clear advisory)

abbrev advisory_text : Option Decision → String
advisory_text none = ""
advisory_text (some d) = decision_value d

-- `except SignOffError as exc: raise HTTPException(409, str(exc))`
abbrev pub as_conflict {ℓ} : {A : Type ℓ} → Outcome A → Outcome A
as_conflict (ok a) = ok a
as_conflict (raised (sign_off_error detail)) = raised (http_error "409" detail)
as_conflict (raised e) = raised e

pub record SignOffRequest : Type 0 where
  pub decision : Decision
  pub reason : String
  pub acknowledge_advisory_override : Bool

-- The row once the second reviewer has spoken.
abbrev pub settled_row : CaseRow → CaseRow
settled_row row = record row { pending_escalation_by = none; pending_escalation_reason = none }

-- The optional updates of `save_state`.
abbrev pub set_job : Option (String × Option String) → CaseRow → CaseRow
set_job none row = row
set_job (some job) row = record row { job_state = job.0; job_error = job.1 }

abbrev pub set_timeline : Option String → CaseRow → CaseRow
set_timeline none row = row
set_timeline (some timeline) row = record row { timeline_json = timeline }

abbrev pub set_customer : Option String → CaseRow → CaseRow
set_customer none row = row
set_customer (some customer) row = record row { customer_json = customer }

module _ (h : Hashing) where
  unfoldable pub load_state : Session h → String → Option (CaseRow × CaseState)
  unfolding lookup load_audit
  load_state session case_id = elim (lookup case_id session.cases) [
    | none ↦ none
    | some row ↦ some (row, record row.state { audit_trail = load_audit h session.events case_id })
  ]

  -- `_load`
  unfoldable pub load : Session h → String → Outcome (CaseRow × CaseState)
  unfolding load_state
  load session case_id = elim (load_state session case_id) [
    | none ↦ raised (http_error "404" "case not found")
    | some loaded ↦ ok loaded
  ]

  -- `save_state`; what it is told of the job, the timeline and the customer may be absent.
  unfoldable pub save_state :
      Session h
      → CaseState
      → ℕ
      → Option (String × Option String)
      → Option String
      → Option String
      → List AuditEvent
      → Outcome (Session h × CaseRow)
  unfolding lookup put append_events denormalise
  save_state session state now job timeline customer new_events =
      elim (lookup state.case_id session.cases) [
        | none ↦ raised (key_error state.case_id)
        | some row ↦
            let saved =
              set_customer customer
                (set_timeline timeline (set_job job (denormalise state now row))) in
            ok (
              record {
                cases = put state.case_id saved session.cases;
                events = (append_events h session.events state.case_id new_events).0;
              },
              saved,
            )
      ]

  -- The row object is the session's: a change to it is a change of the session.
  abbrev pub set_row : CaseRow → Session h → Session h
  set_row row session = record session { cases = put row.case_id row session.cases }

  -- What a handler answers with: the session to commit, the row and the state.
  abbrev pub Answer : Type 0
  Answer = Session h × CaseRow × CaseState

  module _ (clock : Clock) where
    unfoldable pub finish : ℕ → Session h → CaseState → Outcome Answer
    unfolding save_state
    finish n0 session state = do
      saved ←
          save_state session state (clock state.readings) none none none (drop n0 state.audit_trail)
      ok (saved.0, saved.1, tick state)

    unfoldable pub acknowledged : String → SignOffRequest → CaseState → CaseState
    unfolding append_human
    acknowledged username body state =
        let advisory = advisory_of state.report in
        if overrides body.decision advisory
        then append_human clock username "advisory_override_acknowledged"
            (field "advisory" (str (advisory_text advisory)) (field "chosen" (str "CLEAR") end))
            state
        else state

    -- The decision itself: an escalation is only proposed.
    unfoldable pub decide_case :
        String → SignOffRequest → CaseRow → CaseState → Outcome (CaseRow × CaseState)
    unfolding sign_off_case append_human
    decide_case username body row state =
        if is_escalate body.decision
        then ok (
          record row {
            pending_escalation_by = some username;
            pending_escalation_reason = some body.reason;
          },
          append_human clock username "escalation_proposed" end state,
        )
        else (as_conflict (sign_off_case clock username body.decision body.reason none state)
            >>= λ signed. ok (row, signed))

    unfoldable pub sign_off : Session h → String → SignOffRequest → String → Outcome Answer
    unfolding load acknowledged decide_case finish
    sign_off session case_id body username = do
      loaded ← load session case_id
      guard (status_eq loaded.1.status human_review) (http_error "409" "not awaiting review")
      guard (not (is_pending loaded.0))
          (http_error "409" "an escalation is awaiting a second reviewer")
      guard
          (not (overrides body.decision (advisory_of loaded.1.report))
            || body.acknowledge_advisory_override)
          (http_error "409" "CLEAR requires acknowledge_advisory_override")
      decided ← decide_case username body loaded.0 (acknowledged username body loaded.1)
      finish (length loaded.1.audit_trail) (set_row decided.0 session) decided.1

    -- `_pending`
    unfoldable pub pending_by : CaseRow → String → Outcome String
    unfolding casefold
    pending_by row username = do
      guard (is_pending row) (http_error "409" "no escalation is awaiting a second reviewer")
      let proposer = or_blank row.pending_escalation_by
      guard (not (codes_eq (casefold proposer) (casefold username)))
          (http_error "403" "the second reviewer must be a different person (four-eyes rule)")
      ok proposer

    unfoldable pub confirm_escalation : Session h → String → String → String → Outcome Answer
    unfolding load pending_by append_human sign_off_case finish
    confirm_escalation session case_id reason username = do
      loaded ← load session case_id
      proposer ← pending_by loaded.0 username
      signed ← as_conflict (
          sign_off_case clock proposer escalate (or_blank loaded.0.pending_escalation_reason)
            (some username) (noted_confirm clock username reason loaded.1))
      finish (length loaded.1.audit_trail) (set_row (settled_row loaded.0) session) signed

    unfoldable pub reject_escalation : Session h → String → String → String → Outcome Answer
    unfolding load pending_by append_human finish
    reject_escalation session case_id reason username = do
      loaded ← load session case_id
      proposer ← pending_by loaded.0 username
      finish (length loaded.1.audit_trail) (set_row (settled_row loaded.0) session)
          (noted_reject clock username reason loaded.1)

  -- `get_session`: commit what a handler answers with, roll back on any error.
  unfoldable pub serve : Session h → Outcome Answer → Session h
  serve session (ok answer) = answer.0
  serve session (raised e) = session
