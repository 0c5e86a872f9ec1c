-- ===== src/Workflow/Trail.antt =====
-- The audit trail of a running case: events are only appended, and numbered 1, 2, 3, ...
use mathlib.Core.List.{append_assoc, append-nil}
use finguard_major_project.Prelude.{
  ℕ, ◌+◌, String, ◌≡◌, refl, sym, some, List, [], ◌∷◌, ◌++◌, arith, length,
}
use finguard_major_project.Json.{Fields}
use finguard_major_project.Domain.{CaseStatus, human_review}
use finguard_major_project.Contracts.{CaseReport}
use finguard_major_project.Outcome.{Outcome, ok, raised, Error}
use finguard_major_project.Audit.{AuditEvent, Entry, event_of}
use finguard_major_project.Case.{CaseState, Clock, record_event}
use finguard_major_project.Workflow.Steps.{Context, Step}
use finguard_major_project.Workflow.Run.{log, best_effort, note_failure, routed, fail, advance}
use finguard_major_project.Workflow.Keeps.{Same}

-- The events after the first `n` are numbered n + 1, n + 2, ..., and all belong to the case.
abbrev pub IsNumbered : String → ℕ → List AuditEvent → Type 0
IsNumbered case_id n [] = Unit
IsNumbered case_id n (e ∷ es) =
    (e.event_id ≡ n + 1) × (e.case_id ≡ case_id) × IsNumbered case_id (n + 1) es

pub IsNumbered-append :
    (k : String) (n : ℕ) (es : List AuditEvent) (e : AuditEvent)
    → IsNumbered k n es
    → e.event_id ≡ n + length es + 1
    → e.case_id ≡ k
    → IsNumbered k n (es ++ e ∷ [])
IsNumbered-append k n [] e h i c = (omega arith, c, tt)
IsNumbered-append k n (d ∷ es) e h i c =
    (h.0, h.1, IsNumbered-append k (n + 1) es e h.2 (omega arith) c)

-- From `s` to `t` the trail only grows, its numbering is kept, and the sign-off and the identity
-- of the case stay.
pub record Grows (s t : CaseState) : Type 0 where
  pub sign_off : t.sign_off ≡ s.sign_off
  pub case_id : t.case_id ≡ s.case_id
  pub request_id : t.request_id ≡ s.request_id
  pub events : (new : List AuditEvent) × (t.audit_trail ≡ s.audit_trail ++ new)
  pub numbered : IsNumbered s.case_id 0 s.audit_trail → IsNumbered t.case_id 0 t.audit_trail

pub Grows-refl : (s : CaseState) → Grows s s
Grows-refl s = record {
  sign_off = refl;
  case_id = refl;
  request_id = refl;
  events = ([], sym (append-nil s.audit_trail));
  numbered = λ h. h;
}

pub Grows-trans : {s t u : CaseState} → Grows s t → Grows t u → Grows s u
Grows-trans {s} g h =
    let (xs, p) = g.events in
    let (ys, q) = h.events in
    record {
      sign_off = cc (g.sign_off, h.sign_off);
      case_id = cc (g.case_id, h.case_id);
      request_id = cc (g.request_id, h.request_id);
      events = (xs ++ ys, cc (p, q, append_assoc s.audit_trail xs ys));
      numbered = λ k. h.numbered (g.numbered k);
    }

-- A change that leaves alone what `Grows` speaks of.
pub quiet :
    {s : CaseState} (t : CaseState)
    → t.sign_off ≡ s.sign_off
    → t.case_id ≡ s.case_id
    → t.request_id ≡ s.request_id
    → t.audit_trail ≡ s.audit_trail
    → Grows s t
quiet {s} t signed named asked trail = record {
  sign_off = signed;
  case_id = named;
  request_id = asked;
  events = ([], cc (trail, append-nil s.audit_trail));
  numbered = λ k. rw (trail, named) k;
}

pub Same-Grows : {s t : CaseState} → Same s t → Grows s t
Same-Grows {s} {t} h = quiet t h.sign_off h.case_id h.request_id h.audit_trail

pub record_event-Grows :
    (clock : Clock) (e : Entry) (s : CaseState) → Grows s (record_event clock e s)
unfolding record_event event_of
record_event-Grows clock e s = record {
  sign_off = refl;
  case_id = refl;
  request_id = refl;
  events = (event_of s.case_id s.request_id (clock s.readings) s.audit_trail e ∷ [], refl);
  numbered = λ k. IsNumbered-append s.case_id 0 s.audit_trail _ k (omega arith) refl;
}

module _ (ctx : Context) where
  pub advance-Grows : (step : Step) (d : Fields) (s : CaseState) → Grows s (advance ctx step d s)
  unfolding advance log
  advance-Grows step d s =
      Grows-trans (quiet (record s { status = step.to_status }) refl refl refl refl)
        (record_event-Grows ctx.clock _ _)

  best_effort-Grows :
      (p : CaseStatus) (r : Outcome CaseReport) (s : CaseState) → Grows s (best_effort ctx p r s)
  unfolding best_effort log
  best_effort-Grows p (ok report) s = quiet (record s { report = some report }) refl refl refl refl
  best_effort-Grows p (raised e) s = record_event-Grows ctx.clock _ s

  note_failure-Grows :
      (step : Step) (e : Error) (s : CaseState) → Grows s (note_failure ctx step e s)
  unfolding note_failure log
  note_failure-Grows step e s =
      Grows-trans (quiet (record s { failed_step = some step.name }) refl refl refl refl)
        (record_event-Grows ctx.clock _ _)

  -- The failing path: every step of it only appends to the trail.
  pub fail-Grows : (step : Step) (e : Error) (s : CaseState) → Grows s (fail ctx step e s)
  unfolding fail log
  fail-Grows step e s = Grows-trans (note_failure-Grows step e s) (
      Grows-trans (quiet (routed ctx (note_failure ctx step e s)) refl refl refl refl)
        (Grows-trans (best_effort-Grows _ _ _) (record_event-Grows ctx.clock _ _)))

  best_effort-status :
      (p : CaseStatus) (r : Outcome CaseReport) (s : CaseState)
      → (best_effort ctx p r s).status ≡ s.status
  unfolding best_effort log record_event
  best_effort-status p (ok report) s = refl
  best_effort-status p (raised e) s = refl

  pub fail-status :
      (step : Step) (e : Error) (s : CaseState) → (fail ctx step e s).status ≡ human_review
  unfolding fail log record_event
  fail-status step e s = best_effort-status _ _ (routed ctx (note_failure ctx step e s))

  best_effort-failed_step :
      (p : CaseStatus) (r : Outcome CaseReport) (s : CaseState)
      → (best_effort ctx p r s).failed_step ≡ s.failed_step
  unfolding best_effort log record_event
  best_effort-failed_step p (ok report) s = refl
  best_effort-failed_step p (raised e) s = refl

  pub fail-failed_step :
      (step : Step) (e : Error) (s : CaseState) → (fail ctx step e s).failed_step ≡ some step.name
  unfolding fail log record_event note_failure
  fail-failed_step step e s = best_effort-failed_step _ _ (routed ctx (note_failure ctx step e s))
