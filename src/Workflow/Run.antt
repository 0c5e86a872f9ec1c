-- ===== src/Workflow/Run.antt =====
-- `CaseWorkflow.run`, with the failing path and the log (agents/coordinator/workflow.py).
use finguard_major_project.Prelude.{
  ℕ, String, Bool, true, false, not, Option, none, some, List, [], ◌∷◌, length, if◌then◌else◌,
}
use finguard_major_project.Json.{Fields, end, field, str}
use finguard_major_project.Domain.{CaseStatus, human_review, status_eq}
use finguard_major_project.Contracts.{CaseReport}
use finguard_major_project.Outcome.{Outcome, ok, raised, Error, runtime_error}
use finguard_major_project.Case.{CaseState, tick, record_event}
use finguard_major_project.Workflow.Action.{error_text}
use finguard_major_project.Workflow.Steps.{Context, Step, steps, report_input}

module _ (ctx : Context) where
  -- `_log`: the event is the one that `record_event` appends.
  unfoldable pub log :
      String
      → String
      → Option CaseStatus
      → Option CaseStatus
      → ℕ
      → Bool
      → Option String
      → Fields
      → CaseState
      → CaseState
  unfolding record_event
  log actor action from_status to_status duration_ms succeeded error details =
      record_event ctx.clock (record {
        actor = actor;
        action = action;
        from_status = from_status;
        to_status = to_status;
        duration_ms = duration_ms;
        ok = succeeded;
        error = error;
        details = details;
      })

  abbrev pub elapsed : CaseState → ℕ
  elapsed s = ctx.stopwatch (length s.audit_trail)

  -- The best-effort report of `_fail`.
  unfoldable pub best_effort : CaseStatus → Outcome CaseReport → CaseState → CaseState
  unfolding log error_text
  best_effort previous (ok report) s = record s { report = some report }
  best_effort previous (raised e) s =
      log "report_generator" "generate_report" (some previous) (some s.status) 0 false
        (some (error_text e)) end s

  -- The failed step is set and logged.
  unfoldable pub note_failure : Step → Error → CaseState → CaseState
  unfolding log error_text
  note_failure step e s =
      log step.actor step.name (some step.from_status) (some step.from_status) (elapsed s) false
        (some (error_text e)) end (record s { failed_step = some step.name })

  -- The case goes to a human; the clock is read for the report.
  abbrev pub routed : CaseState → CaseState
  routed s = tick (record s { status = human_review })

  unfoldable pub fail : Step → Error → CaseState → CaseState
  unfolding log best_effort note_failure
  fail step e s =
      let failed = note_failure step e s in
      let report = ctx.agents.generate (report_input (routed failed) (ctx.clock failed.readings)) in
      log "coordinator" "route_to_human_review" (some failed.status) (some human_review) 0 true none
        (field "failed_step" (str step.name) end) (best_effort failed.status report (routed failed))

  unfoldable pub advance : Step → Fields → CaseState → CaseState
  unfolding log
  advance step details s =
      log step.actor step.name (some step.from_status) (some step.to_status) (elapsed s) true none
        details (record s { status = step.to_status })

  -- What follows a step: the next steps, or the fail-safe route to a human.
  unfoldable pub after :
      Step → (CaseState → Outcome CaseState) → Outcome Fields × CaseState → Outcome CaseState
  unfolding advance fail
  after step next (ok details, s) = next (advance step details s)
  after step next (raised e, s) = ok (fail step e s)

  unfoldable pub run_steps : List Step → CaseState → Outcome CaseState
  unfolding after
  run_steps [] s = ok s
  run_steps (step ∷ rest) s =
      let next = run_steps rest in
      if not (status_eq s.status step.from_status)
      then raised (runtime_error "the step expects another status")
      else after step next (step.run (ctx.clock s.readings) (tick s))

  unfoldable pub run : CaseState → Outcome CaseState
  unfolding run_steps
  run = run_steps (steps ctx)
