-- ===== src/Api/Jobs.antt =====
-- `create_case` of backend/app/api/cases.py, `create_case_row` of backend/app/services/case_store.py,
-- `EngineService.ready` of backend/app/services/engine.py and `run_case_job` of
-- backend/app/services/jobs.py. `dumps` stands for `json.dumps` of what a case shows.
use Prim.Native.String.{◌++◌ as str_append}
use finguard_major_project.Prelude.{
  ℕ, String, true, not, Option, none, some, List, [], length, drop, map, str_eq, if◌then◌else◌,
}
use finguard_major_project.Json.{Value, end, obj, arr}
use finguard_major_project.Dict.{lookup, contains, put}
use finguard_major_project.Outcome.{
  Outcome, ok, raised, Error, key_error, value_error, http_error, ◌>>=◌, ◌>>◌, guard,
}
use finguard_major_project.Audit.Chain.{Hashing, append_events}
use finguard_major_project.Case.{CaseState, Clock, dumped, record_event, tick}
use finguard_major_project.Workflow.Action.{error_text}
use finguard_major_project.Workflow.Steps.{Context}
use finguard_major_project.Workflow.Create.{create_case as workflow_create_case}
use finguard_major_project.Workflow.Run.{run}
use finguard_major_project.Api.Rows.{CaseRow, Session, take_text}
use finguard_major_project.Api.Cases.{save_state}
use finguard_major_project.Api.Views.{Formats, items_of, build_timeline, build_customer}

-- The engine is loaded when it has a workflow.
pub record EngineService : Type 1 where
  pub workflow : Option Context
  pub error : Option String

pub record CreateCaseRequest : Type 0 where
  pub customer_id : String
  pub transaction_ids : Option (List String)
  pub context_days : ℕ

abbrev loading : Option String → String
loading none = "analysis engine is loading"
loading (some error) = if str_eq error "" then "analysis engine is loading" else error

-- `engine.workflow`, where the engine is ready.
abbrev pub ready : Option EngineService → Outcome Context
ready none = raised (http_error "503" (loading none))
ready (some engine) = elim engine.workflow [
  | none ↦ raised (http_error "503" (loading engine.error))
  | some ctx ↦ ok ctx
]

-- `except KeyError: ... except ValueError as exc: ...`
abbrev pub as_request_error {ℓ} : {A : Type ℓ} → Outcome A → Outcome A
as_request_error (ok a) = ok a
as_request_error (raised (key_error detail)) = raised (http_error "404" "unknown customer")
as_request_error (raised (value_error detail)) = raised (http_error "422" detail)
as_request_error (raised e) = raised e

-- The row of a new case.
unfoldable pub queued_row : CaseState → String → ℕ → CaseRow
queued_row state created_by now = record {
  case_id = state.case_id;
  customer_id = state.customer_id;
  focus_transactions = state.focus_transaction_ids;
  status = state.status;
  job_state = "queued";
  job_error = none;
  advisory_decision = none;
  proposed_decision = none;
  validated = none;
  warnings = 0;
  is_mock = none;
  created_by = created_by;
  created_at = now;
  updated_at = now;
  state = dumped state;
  timeline_json = "[]";
  customer_json = "{}";
  pending_escalation_by = none;
  pending_escalation_reason = none;
}

-- `record_event(state, utc_now, actor=..., action="request_case", ...)`
abbrev pub requested : Clock → String → CaseState → CaseState
requested clock username state =
    record_event clock
      (record {
        actor = str_append "human:" username;
        action = "request_case";
        from_status = none;
        to_status = some state.status;
        duration_ms = 0;
        ok = true;
        error = none;
        details = end;
      })
      state

module _ (h : Hashing) where
  unfoldable pub create_case_row : Session h → CaseState → String → ℕ → Session h × CaseRow
  unfolding put append_events queued_row
  create_case_row session state created_by now =
      let row = queued_row state created_by now in
      (
        record {
          cases = put state.case_id row session.cases;
          events = (append_events h session.events state.case_id state.audit_trail).0;
        },
        row,
      )

  -- The session to commit, the row, and the job that is submitted: the state, and how many of its
  -- events are stored. `request_id` is drawn at random.
  unfoldable pub create_case :
      Clock
      → Option EngineService
      → Session h
      → CreateCaseRequest
      → String
      → String
      → Outcome (Session h × CaseRow × CaseState × ℕ)
  unfolding workflow_create_case contains record_event create_case_row
  create_case clock engine session body request_id username = do
    ctx ← ready engine
    state ← as_request_error (
        workflow_create_case ctx body.customer_id body.transaction_ids body.context_days request_id)
    guard (not (contains state.case_id session.cases))
        (http_error "409" "a case for this customer and transaction exists")
    let asked = requested clock username state
    let stored = create_case_row session asked username (clock asked.readings)
    ok (stored.0, stored.1, tick asked, length asked.audit_trail)

  abbrev set_failed : Error → CaseRow → CaseRow
  set_failed e row = record row {
    job_state = "failed";
    job_error = some (take_text 500 (error_text e));
  }

  -- The handler of any exception: the row of the case, where there is one, is marked as failed.
  unfoldable pub fail_job : String → Session h → Error → Session h
  unfolding lookup put error_text
  fail_job case_id session e = elim (lookup case_id session.cases) [
    | none ↦ session
    | some row ↦ record session { cases = put case_id (set_failed e row) session.cases }
  ]

  module _ (clock : Clock) (formats : Formats) (dumps : Value → String) (ctx : Context) where
    abbrev pub timeline_of : CaseState → Option String
    timeline_of state = some (dumps (arr (items_of (map obj (build_timeline formats state)))))

    abbrev pub customer_of : CaseState → Option String
    customer_of state = some (dumps (obj (build_customer formats state)))

    -- The second session of the job, once the workflow has returned.
    unfoldable pub store_result : ℕ → Session h → CaseState → Outcome (Session h × CaseRow)
    unfolding save_state build_timeline build_customer
    store_result persisted session state =
        save_state h session state (clock state.readings) (some ("done", none)) (timeline_of state)
          (customer_of state) (drop persisted state.audit_trail)

    -- What is committed in the end: each session commits, or leaves what was committed before.
    abbrev pub committed : String → Session h → Outcome (Session h × CaseRow) → Session h
    committed case_id session (ok saved) = saved.0
    committed case_id session (raised e) = fail_job case_id session e

    -- What follows the first session of the job.
    abbrev pub after_start : Session h → CaseState → ℕ → Outcome (Session h × CaseRow) → Session h
    after_start session state persisted (raised e) = fail_job state.case_id session e
    after_start session state persisted (ok started) =
        committed state.case_id started.0
          (run ctx (tick state) >>= store_result persisted started.0)

    unfoldable pub run_case_job : Session h → CaseState → ℕ → Session h
    unfolding save_state run store_result fail_job
    run_case_job session state persisted =
        after_start session state persisted
          (save_state h session state (clock state.readings) (some ("running", none)) none none [])
