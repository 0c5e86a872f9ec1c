-- ===== src/Workflow/Completion.antt =====
-- What a run without a failed step has done.
use mathlib.Core.List.{append_assoc}
use finguard_major_project.Prelude.{
  ℕ, String, ◌≡◌, refl, ap, ◌∙◌, inl, inr, Bool-cases, true, none, some, List, [], ◌∷◌, ◌++◌, arith,
  All, is_some, map,
}
use finguard_major_project.Json.{Fields}
use finguard_major_project.Domain.{
  CaseStatus, status_eq, case_created, data_ready, kyc_analyzed, anomaly_analyzed,
  evidence_retrieved, investigation_generated, self_critiqued, human_review,
}
use finguard_major_project.Audit.{AuditEvent}
use finguard_major_project.Outcome.{Outcome, ok, raised}
use finguard_major_project.Case.{CaseState, tick, record_event}
use finguard_major_project.Workflow.Action.{continue}
use finguard_major_project.Workflow.Steps.{Context, Step, steps, generate_report}
use finguard_major_project.Workflow.Run.{log, advance, after, run_steps, run}
use finguard_major_project.Workflow.Keeps.{Keeps, steps-Keeps}
use finguard_major_project.Workflow.Trail.{fail-failed_step}

-- The last step, if it succeeds, leaves a report.
abbrev Reports : Step → Type 0
Reports x =
    (now : ℕ) (s : CaseState) (d : Fields) (t : CaseState)
    → x.run now s ≡ (ok d, t)
    → is_some t.report ≡ true

abbrev LastReports : List Step → Type 0
LastReports [] = ⊥
LastReports (x ∷ []) = Reports x
LastReports (x ∷ y ∷ xs) = LastReports (y ∷ xs)

generate_report-Reports :
    (ctx : Context)
    → (now : ℕ) (s : CaseState) (d : Fields) (t : CaseState) → generate_report ctx now s ≡ (ok d, t)
    → is_some t.report ≡ true
unfolding generate_report continue
generate_report-Reports ctx now s d t h = ground arith

-- The actor and the action of a step, and the statuses that it leads from and to.
abbrev pub Stage : Type 0
Stage = String × String × CaseStatus × CaseStatus

abbrev pub stages : List Stage
stages =
    ("coordinator", "prepare_data", case_created, data_ready)
    ∷ ("auditor", "analyze_kyc", data_ready, kyc_analyzed)
    ∷ ("auditor", "analyze_anomalies", kyc_analyzed, anomaly_analyzed)
    ∷ ("reconciliation", "reconcile", anomaly_analyzed, CaseStatus.reconciled)
    ∷ ("investigator", "retrieve_knowledge", CaseStatus.reconciled, evidence_retrieved)
    ∷ ("investigator", "investigate", evidence_retrieved, investigation_generated)
    ∷ ("reviewer", "review", investigation_generated, self_critiqued)
    ∷ ("report_generator", "generate_report", self_critiqued, human_review)
    ∷ []

-- The event says that the stage was done.
pub record Logs (g : Stage) (e : AuditEvent) : Type 0 where
  pub actor : e.actor ≡ g.0
  pub action : e.action ≡ g.1
  pub from_status : e.from_status ≡ some g.2
  pub to_status : e.to_status ≡ some g.3
  pub succeeded : e.ok ≡ true
  pub error : e.error ≡ none

-- One event for each stage, in their order.
abbrev pub Logged : List Stage → List AuditEvent → Type 0
Logged [] [] = Unit
Logged (g ∷ gs) (e ∷ es) = Logs g e × Logged gs es
Logged [] (e ∷ es) = ⊥
Logged (g ∷ gs) [] = ⊥

abbrev stage_of : Step → Stage
stage_of x = (x.actor, x.name, x.from_status, x.to_status)

module _ (ctx : Context) where
  advance-trail :
      (x : Step) (d : Fields) (s : CaseState)
      → (e : AuditEvent) × ((advance ctx x d s).audit_trail ≡ s.audit_trail ++ e ∷ [])
        × Logs (stage_of x) e
  unfolding advance log record_event
  advance-trail x d s = (
    _,
    refl,
    record {
      actor = refl;
      action = refl;
      from_status = refl;
      to_status = refl;
      succeeded = refl;
      error = refl;
    },
  )

  advance-report : (x : Step) (d : Fields) (s : CaseState) → (advance ctx x d s).report ≡ s.report
  unfolding advance log record_event
  advance-report x d s = refl

  -- If nothing failed in the end, the step itself succeeded.
  after-ok :
      (x : Step) (next : CaseState → Outcome CaseState) (r : Outcome Fields × CaseState)
      (t : CaseState)
      → after ctx x next r ≡ ok t
      → t.failed_step ≡ none
      → (d : Fields) × (r ≡ (ok d, r.1)) × (next (advance ctx x d r.1) ≡ ok t)
  unfolding after
  after-ok x next (ok d, s) t h k = (d, refl, h)
  after-ok x next (raised e, s) t h k = cc (h, k, fail-failed_step ctx x e s)

  run_steps-ok :
      (x : Step) (xs : List Step) (s t : CaseState)
      → run_steps ctx (x ∷ xs) s ≡ ok t
      → after ctx x (run_steps ctx xs) (x.run (ctx.clock s.readings) (tick s)) ≡ ok t
  unfolding run_steps
  run_steps-ok x xs s t h = elim (Bool-cases (status_eq s.status x.from_status)) [
    | inl e ↦ rw e at h
    | inr e ↦ cc (rw e at h)
  ]

  -- There is a report, and the trail has grown by an event of each step.
  abbrev Done : List Step → CaseState → CaseState → Type 0
  Done xs s t =
      (is_some t.report ≡ true)
      × (es : List AuditEvent) × (t.audit_trail ≡ s.audit_trail ++ es)
      × Logged (map stage_of xs) es

  nothing-left : (s t : CaseState) → run_steps ctx [] s ≡ ok t → t ≡ s
  unfolding run_steps
  nothing-left s t h = cc h

  run_steps-Done :
      (xs : List Step) (s t : CaseState)
      → run_steps ctx xs s ≡ ok t
      → t.failed_step ≡ none
      → All Keeps xs
      → LastReports xs
      → Done xs s t
  run_steps-Done [] s t h k keeps last = absurd last
  run_steps-Done (x ∷ []) s t h k keeps last =
      let now = ctx.clock s.readings in
      let (d, ran, next) =
        after-ok x (run_steps ctx []) (x.run now (tick s)) t (run_steps-ok x [] s t h) k in
      let u : CaseState = (x.run now (tick s)).1 in
      let e = nothing-left (advance ctx x d u) t next in
      let (event, grown, logs) = advance-trail x d u in
      (
        rw (e, advance-report x d u) (last now (tick s) d u ran),
        event ∷ [],
        ap (λ c. c.audit_trail) e
            ∙ grown
            ∙ ap (λ l. l ++ event ∷ []) (keeps.0 now (tick s)).audit_trail,
        (logs, tt),
      )
  run_steps-Done (x ∷ y ∷ xs) s t h k keeps last =
      let now = ctx.clock s.readings in
      let (d, ran, next) =
        after-ok x (run_steps ctx (y ∷ xs)) (x.run now (tick s)) t (run_steps-ok x (y ∷ xs) s t h)
          k in
      let u : CaseState = (x.run now (tick s)).1 in
      let (report, es, later, told) =
        run_steps-Done (y ∷ xs) (advance ctx x d u) t next k keeps.1 last in
      let (event, grown, logs) = advance-trail x d u in
      let same : u.audit_trail ≡ s.audit_trail = (keeps.0 now (tick s)).audit_trail in
      (
        report,
        event ∷ es,
        cc (later, grown, same, append_assoc s.audit_trail (event ∷ []) es),
        (logs, told),
      )

  -- A run that ends with no failed step has left a report, and has appended to the trail exactly one
  -- event for each of the eight steps, in their order: with the step's actor and name, the statuses
  -- that it leads from and to, and no error.
  pub run-completed :
      (s t : CaseState)
      → run ctx s ≡ ok t
      → t.failed_step ≡ none
      → (is_some t.report ≡ true)
        × (es : List AuditEvent) × (t.audit_trail ≡ s.audit_trail ++ es)
        × Logged stages es
  unfolding run
  run-completed s t h k =
      run_steps-Done (steps ctx) s t h k (steps-Keeps ctx) (generate_report-Reports ctx)
