-- ===== src/Api/Decisions.antt =====
-- What an answered sign-off says (`sign_off` of backend/app/api/cases.py).
use finguard_major_project.Prelude.{
  String, ◌≡◌, ◌≢◌, ◌⊎◌, refl, sym, ap, subst, Option, some, ◌∙◌, Bool, true, false, not, ◌||◌,
  none, length, arith, Bool-cases, inl, inr, if◌then◌else◌,
}
use finguard_major_project.Domain.{
  CaseStatus, human_review, status_eq, Decision, clear, review, escalate, is_clear, is_escalate,
}
use finguard_major_project.Outcome.{ok, guard, guard-ok, ok-injective, >>=-eq-ok}
use finguard_major_project.Audit.Chain.{Hashing}
use finguard_major_project.Case.{CaseState, Clock, tick}
use finguard_major_project.SignOff.{sign_off_case}
use finguard_major_project.Api.Rows.{
  CaseRow, Session, advisory_of, denormalise, append_human, is_pending,
}
use finguard_major_project.Api.Cases.{
  SignOffRequest, overrides, as_conflict, load, set_row, Answer, acknowledged, decide_case,
  sign_off,
}
use finguard_major_project.Api.Stored.{Filed, Stores, finish-Stores, finish-Filed, load-state_named}
use finguard_major_project.Api.Signatures.{
  as_conflict-ok, not-false, ClosedRow, OpenRow, Signed, StaysOpen, Signed-ClosedRow,
  StaysOpen-OpenRow, sign_off_case-case_id, finish-ticks, sign_off_case-Signed,
}

-- The stored row of a case for which an escalation is proposed: it stays open.
pub record Proposed (s : CaseState) (row : CaseRow) (body : SignOffRequest) (username : String)
    : Type 0 where
  pub open_row : OpenRow s row
  pub by : row.pending_escalation_by ≡ some username
  pub reason : row.pending_escalation_reason ≡ some body.reason

-- What an answered sign-off says of the loaded row and case, the answered case and the row that is
-- stored then: the case was waiting and no escalation was pending; CLEAR over an advisory REVIEW or
-- ESCALATE was acknowledged; and an escalation is only proposed, where any other decision closes the
-- case under the user's name.
pub record Decided (row : CaseRow) (s t : CaseState) (stored : CaseRow) (body : SignOffRequest)
    (username : String) : Type 0 where
  pub waiting : s.status ≡ human_review
  pub free : is_pending row ≡ false
  pub acknowledged :
      (advisory : Decision)
      → body.decision ≡ clear
      → advisory_of s.report ≡ some advisory
      → advisory ≢ clear
      → body.acknowledge_advisory_override ≡ true
  pub outcome :
      ((body.decision ≡ escalate) × StaysOpen s t × Proposed s stored body username)
      ⊎ (Signed t body.decision username none × ClosedRow stored body.decision username none)

escalate_eq : (d : Decision) → is_escalate d ≡ true → d ≡ escalate
escalate_eq d e = ground arith

status_eq_lem : (a b : CaseStatus) → status_eq a b ≡ true → a ≡ b
status_eq_lem a b e = ground arith

if-false {ℓ} : {A : Type ℓ} (b : Bool) (x y : A) → b ≡ false → (if b then x else y) ≡ y
if-false b x y e = rw e

either_true : (a b : Bool) → (not a || b) ≡ true → (a ≡ false) ⊎ (b ≡ true)
either_true true b e = inr e
either_true false b e = inl refl

is_clear-false : (d : Decision) → d ≢ clear → is_clear d ≡ false
is_clear-false clear n = absurd (n refl)
is_clear-false review n = refl
is_clear-false escalate n = refl

-- CLEAR over a stricter advisory decision overrides it.
overriding :
    (d advisory : Decision) (o : Option Decision)
    → d ≡ clear
    → o ≡ some advisory
    → advisory ≢ clear
    → overrides d o ≡ true
overriding d advisory o e a n = rw (e, a, is_clear-false advisory n) refl

module _ (h : Hashing) (clock : Clock) where
  acknowledged-case_id :
      (username : String) (body : SignOffRequest) (s : CaseState)
      → (acknowledged h clock username body s).case_id ≡ s.case_id
  unfolding acknowledged append_human
  acknowledged-case_id username body s =
      elim (Bool-cases (overrides body.decision (advisory_of s.report))) [
        | inl e ↦ rw e refl
        | inr e ↦ rw e refl
      ]

  acknowledged-StaysOpen :
      (username : String) (body : SignOffRequest) (s : CaseState)
      → StaysOpen s (acknowledged h clock username body s)
  unfolding acknowledged append_human
  acknowledged-StaysOpen username body s =
      elim (Bool-cases (overrides body.decision (advisory_of s.report))) [
        | inl e ↦ record { status = rw e; sign_off = rw e }
        | inr e ↦ record { status = rw e; sign_off = rw e }
      ]

  -- The decision on a loaded row and case.
  abbrev Outcomes : String → SignOffRequest → CaseRow → CaseState → CaseRow × CaseState → Type 0
  Outcomes username body row s decided =
      (decided.0.case_id ≡ row.case_id)
      × (decided.1.case_id ≡ s.case_id)
      × (decided.0.state.case_id ≡ row.state.case_id)
      × (((body.decision ≡ escalate)
            × StaysOpen s (tick decided.1)
            × (decided.0.pending_escalation_by ≡ some username)
            × (decided.0.pending_escalation_reason ≡ some body.reason))
          ⊎ (Signed (tick decided.1) body.decision username none × (decided.0 ≡ row)))

  decide_case-outcome :
      (username : String) (body : SignOffRequest) (row : CaseRow) (s : CaseState)
      (decided : CaseRow × CaseState)
      → decide_case h clock username body row s ≡ ok decided
      → Outcomes username body row s decided
  unfolding decide_case append_human
  decide_case-outcome username body row s decided e =
      elim (Bool-cases (is_escalate body.decision)) [
        | inl yes_ ↦
            let d = ok-injective (rw yes_ at e) in
            subst (Outcomes username body row s) d (
              refl,
              refl,
              refl,
              inl (
                escalate_eq body.decision yes_,
                record { status = refl; sign_off = refl },
                refl,
                refl,
              ),
            )
        | inr no_ ↦
            let m = sign_off_case clock username body.decision body.reason none s in
            let (signed, e1, e2) =
              >>=-eq-ok (as_conflict m) (λ t. ok (row, t))
                (sym (if-false (is_escalate body.decision) _ _ no_) ∙ e) in
            let done = as_conflict-ok m e1 in
            subst (Outcomes username body row s) (ok-injective e2) (
              refl,
              sign_off_case-case_id h clock s signed username body.decision body.reason none done,
              refl,
              inr (
                sign_off_case-Signed h clock s signed username body.decision body.reason none done,
                refl,
              ),
            )
      ]

  -- A sign-off that is answered was of a case that waits for human review with no escalation
  -- pending, and a choice of CLEAR over an advisory REVIEW or ESCALATE was acknowledged. Where the
  -- cases are filed under their names, either the row that is stored then has the escalation pending
  -- under the user's name, and the case stays open and unsigned as it was, or the row that is stored
  -- is closed and signed with the decision under the user's name. The answer shows the same, and
  -- the cases are still filed under their names.
  pub sign_off-Decided :
      (session : Session h) (case_id : String) (body : SignOffRequest) (username : String)
      (answer : Answer h)
      → Filed h session
      → sign_off h clock session case_id body username ≡ ok answer
      → (loaded : CaseRow × CaseState) × (load h session case_id ≡ ok loaded)
        × (stored : CaseRow) × Stores h answer.0 case_id stored
        × Decided loaded.0 loaded.1 answer.2 stored body username
        × Filed h answer.0
  unfolding sign_off denormalise
  sign_off-Decided session case_id body username answer filed e =
      let (loaded, e1, h1) = >>=-eq-ok (load h session case_id) _ e in
      let s = loaded.1 in
      let over = overrides body.decision (advisory_of s.report) in
      let (u2, e2, h2) = >>=-eq-ok (guard (status_eq s.status human_review) _) _ h1 in
      let (u3, e3, h3) = >>=-eq-ok (guard (not (is_pending loaded.0)) _) _ h2 in
      let (u4, e4, h4) =
        >>=-eq-ok (guard (not over || body.acknowledge_advisory_override) _) _ h3 in
      let before = acknowledged h clock username body s in
      let (decided, e5, h5) = >>=-eq-ok (decide_case h clock username body loaded.0 before) _ h4 in
      let kept = acknowledged-StaysOpen username body s in
      let ticked =
        finish-ticks h clock (length s.audit_trail) (set_row h decided.0 session) decided.1 answer
          h5 in
      let (row_id, state_id, kept_id, outcome) =
        decide_case-outcome username body loaded.0 before decided e5 in
      let (row_named, state_named) = filed case_id loaded e1 in
      let free = not-false (is_pending loaded.0) (guard-ok _ _ u3 e3) in
      let stored = denormalise decided.1 (clock decided.1.readings) decided.0 in
      let named_so = state_id ∙ acknowledged-case_id username body s ∙ state_named in
      (
        loaded,
        e1,
        stored,
        finish-Stores h clock (length s.audit_trail) session decided.0 decided.1 case_id answer
            (row_id ∙ row_named) named_so h5,
        record {
          waiting = status_eq_lem s.status human_review (guard-ok _ _ u2 e2);
          free = free;
          acknowledged = λ advisory d a n.
              acknowledges over _ (either_true over _ (guard-ok _ _ u4 e4))
                (overriding body.decision advisory (advisory_of s.report) d a n);
          outcome =
              subst
                (λ t.
                  ((body.decision ≡ escalate) × StaysOpen s t × Proposed s stored body username)
                  ⊎ (Signed t body.decision username none
                      × ClosedRow stored body.decision username none))
                (sym ticked) (carry loaded.0 s before decided free kept outcome);
        },
        finish-Filed h clock (length s.audit_trail) session decided.0 decided.1 case_id answer filed
            (row_id ∙ row_named)
            (kept_id ∙ load-state_named h session case_id loaded e1 ∙ state_named) named_so h5,
      )
    where
      acknowledges : (a b : Bool) → (a ≡ false) ⊎ (b ≡ true) → a ≡ true → b ≡ true
      acknowledges a b (inl f) t = absurd (cc (f, t))
      acknowledges a b (inr e) t = e

      carry :
          (row : CaseRow) (s b : CaseState) (decided : CaseRow × CaseState)
          → is_pending row ≡ false
          → StaysOpen s b
          → ((body.decision ≡ escalate)
              × StaysOpen b (tick decided.1)
              × (decided.0.pending_escalation_by ≡ some username)
              × (decided.0.pending_escalation_reason ≡ some body.reason))
            ⊎ (Signed (tick decided.1) body.decision username none × (decided.0 ≡ row))
          → let stored = denormalise decided.1 (clock decided.1.readings) decided.0 in
            ((body.decision ≡ escalate)
              × StaysOpen s (tick decided.1)
              × Proposed s stored body username)
            ⊎ (Signed (tick decided.1) body.decision username none
                × ClosedRow stored body.decision username none)
      carry row s b decided free k (inl (e, o, by, reason)) =
          let open_ : StaysOpen s (tick decided.1) = record {
            status = o.status ∙ k.status;
            sign_off = o.sign_off ∙ k.sign_off;
          } in
          inl (
            e,
            open_,
            record {
              open_row =
                  StaysOpen-OpenRow h clock s decided.1 (clock decided.1.readings) decided.0
                    (record { status = open_.status; sign_off = open_.sign_off });
              by = by;
              reason = reason;
            },
          )
      carry row s b decided free k (inr (x, same)) = inr (
        x,
        Signed-ClosedRow h clock decided.1 (clock decided.1.readings) decided.0 body.decision
            username none (ap is_pending same ∙ free) x,
      )
