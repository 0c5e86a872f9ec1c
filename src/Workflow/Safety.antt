-- ===== src/Workflow/Safety.antt =====
-- Where a run ends: always with a human, whatever the agents do.
use finguard_major_project.Prelude.{
  String, ◌≡◌, refl, sym, ◌⊎◌, inl, inr, true, some, List, [], ◌∷◌, arith, All, Bool, false, not,
  ◌&&◌, ◌||◌, ◌∙◌, ◌++◌, any, any-append, str_eq, eq_iff,
}
use finguard_major_project.Json.{Fields}
use finguard_major_project.Pipeline.Store.{member}
use finguard_major_project.Domain.{CaseStatus, case_created, human_review, status_eq}
use finguard_major_project.Outcome.{Outcome, ok, raised, Error}
use finguard_major_project.Case.{CaseState, tick, record_event}
use finguard_major_project.Workflow.Steps.{Context, Step, steps, report_input}
use finguard_major_project.Contracts.{CaseReport}
use finguard_major_project.Audit.{AuditEvent}
use finguard_major_project.Workflow.Run.{
  best_effort, note_failure, routed, log, advance, fail, after, run_steps, run,
}
use finguard_major_project.Workflow.Keeps.{Same, Keeps, steps-Keeps}
use finguard_major_project.Workflow.Trail.{
  Grows, Grows-refl, Grows-trans, Same-Grows, quiet, advance-Grows, fail-Grows, fail-status,
  fail-failed_step,
}

-- Each step starts where the one before it ends, and the last one ends with the human review.
abbrev pub Linked : CaseStatus → List Step → Type 0
Linked st [] = st ≡ human_review
Linked st (x ∷ xs) = (x.from_status ≡ st) × Linked x.to_status xs

-- The names of the eight steps.
abbrev pub step_names : List String
step_names =
    "prepare_data" ∷ "analyze_kyc" ∷ "analyze_anomalies" ∷ "reconcile" ∷ "retrieve_knowledge"
    ∷ "investigate" ∷ "review" ∷ "generate_report" ∷ []

-- The name is one of the eight.
abbrev pub NamesStep : String → Type 0
NamesStep name = member name step_names ≡ true

-- An event of a failure of the step.
abbrev pub says : String → AuditEvent → Bool
says name e = str_eq e.action name && not e.ok

-- The name is that of a step, and the trail has an event of its failure.
abbrev pub Failed : String → CaseState → Type 0
Failed name t = NamesStep name × (any (says name) t.audit_trail ≡ true)

-- The run ends with the human review; it has only appended to the trail and has not signed off;
-- and either nothing failed or the failed step is one of the eight, and its failure is in the trail.
pub record Lands (s t : CaseState) : Type 0 where
  pub at_review : t.status ≡ human_review
  pub grows : Grows s t
  pub failure :
      (t.failed_step ≡ s.failed_step)
      ⊎ ((name : String) × (t.failed_step ≡ some name) × Failed name t)

status_eq_refl : (a b : CaseStatus) → a ≡ b → status_eq b a ≡ true
status_eq_refl a b h = rw h (ground arith)

module _ (ctx : Context) where
  advance-status :
      (x : Step) (d : Fields) (s : CaseState) → (advance ctx x d s).status ≡ x.to_status
  unfolding advance log record_event
  advance-status x d s = refl

  advance-failed_step :
      (x : Step) (d : Fields) (s : CaseState) → (advance ctx x d s).failed_step ≡ s.failed_step
  unfolding advance log record_event
  advance-failed_step x d s = refl

  any-append_left :
      (p : AuditEvent → Bool) (xs ys : List AuditEvent) → any p xs ≡ true → any p (xs ++ ys) ≡ true
  any-append_left p xs ys h = any-append p xs ys ∙ rw h refl

  best_effort-any :
      (p : AuditEvent → Bool) (previous : CaseStatus) (r : Outcome CaseReport) (s : CaseState)
      → any p s.audit_trail ≡ true
      → any p (best_effort ctx previous r s).audit_trail ≡ true
  unfolding best_effort log record_event
  best_effort-any p previous (ok report) s h = h
  best_effort-any p previous (raised e) s h = any-append_left p s.audit_trail _ h

  note_failure-says :
      (x : Step) (e : Error) (s : CaseState)
      → any (says x.name) (note_failure ctx x e s).audit_trail ≡ true
  unfolding note_failure log record_event
  note_failure-says x e s =
      any-append (says x.name) s.audit_trail _ ∙ own (any (says x.name) s.audit_trail) x.name
    where
      own : (b : Bool) (name : String) → (b || ((str_eq name name && true) || false)) ≡ true
      own b name = ground (arith, eq_iff name name)

  fail-says :
      (x : Step) (e : Error) (s : CaseState) → any (says x.name) (fail ctx x e s).audit_trail ≡ true
  unfolding fail log record_event
  fail-says x e s =
      let noted = note_failure ctx x e s in
      let made = ctx.agents.generate (report_input (routed ctx noted) (ctx.clock noted.readings)) in
      let reported = best_effort ctx noted.status made (routed ctx noted) in
      any-append_left (says x.name) reported.audit_trail _ (
        best_effort-any (says x.name) noted.status made (routed ctx noted)
          (note_failure-says x e s))

  -- After a step that kept the case, success goes on and failure goes to the human.
  after-Lands :
      (x : Step) (next : CaseState → Outcome CaseState) (s : CaseState)
      (r : Outcome Fields × CaseState)
      → NamesStep x.name
      → Same s r.1
      → ((u : CaseState) → u.status ≡ x.to_status → (t : CaseState) × (next u ≡ ok t) × Lands u t)
      → (t : CaseState) × (after ctx x next r ≡ ok t) × Lands s t
  unfolding after
  after-Lands x next s (ok d, s') one_of same go =
      let (t, e, lands) = go (advance ctx x d s') (advance-status x d s') in
      (
        t,
        e,
        record {
          at_review = lands.at_review;
          grows =
              Grows-trans (Grows-trans (Same-Grows same) (advance-Grows ctx x d s')) lands.grows;
          failure = named t lands.failure;
        },
      )
    where
      named :
          (t : CaseState)
          → (t.failed_step ≡ (advance ctx x d s').failed_step)
            ⊎ ((name : String) × (t.failed_step ≡ some name) × Failed name t)
          → (t.failed_step ≡ s.failed_step)
            ⊎ ((name : String) × (t.failed_step ≡ some name) × Failed name t)
      named t (inl h) = inl (cc (h, advance-failed_step x d s', same.failed_step))
      named t (inr h) = inr h
  after-Lands x next s (raised e, s') one_of same go = (
    fail ctx x e s',
    refl,
    record {
      at_review = fail-status ctx x e s';
      grows = Grows-trans (Same-Grows same) (fail-Grows ctx x e s');
      failure = inr (x.name, fail-failed_step ctx x e s', (one_of, fail-says x e s'));
    },
  )

  tick-Lands : {s t : CaseState} → Lands (tick s) t → Lands s t
  tick-Lands {s} l = record {
    at_review = l.at_review;
    grows = Grows-trans (quiet (tick s) refl refl refl refl) l.grows;
    failure = l.failure;
  }

  run_steps-Lands :
      (xs : List Step) (s : CaseState)
      → Linked s.status xs
      → All (λ x. NamesStep x.name) xs
      → All Keeps xs
      → (t : CaseState) × (run_steps ctx xs s ≡ ok t) × Lands s t
  unfolding run_steps
  run_steps-Lands [] s linked named keeps =
      (s, refl, record { at_review = linked; grows = Grows-refl s; failure = inl refl })
  run_steps-Lands (x ∷ xs) s linked named keeps =
      let (t, e, lands) =
        after-Lands x (run_steps ctx xs) (tick s) (x.run (ctx.clock s.readings) (tick s)) named.0
          (keeps.0 (ctx.clock s.readings) (tick s))
          (λ u h. run_steps-Lands xs u (rw h linked.1) named.1 keeps.1) in
      (t, rw (status_eq_refl x.from_status s.status linked.0) e, tick-Lands lands)

  -- From a new case the run returns, never raises, and ends with the human review, whatever the
  -- agents return or raise: nothing is signed off, the trail has only grown, a trail
  -- numbered from 1 stays so, and the field of the failed step is as before or names one of the eight
  -- steps, of whose failure the trail has an event.
  pub run-Lands :
      (s : CaseState) → s.status ≡ case_created → (t : CaseState) × (run ctx s ≡ ok t) × Lands s t
  unfolding run
  run-Lands s h =
      run_steps-Lands (steps ctx) s
        (sym h, (refl, (refl, (refl, (refl, (refl, (refl, (refl, refl))))))))
        (refl, (refl, (refl, (refl, (refl, (refl, (refl, (refl, tt)))))))) (steps-Keeps ctx)
