-- ===== src/SignOff/Rules.antt =====
-- The human-review rules of agents/coordinator/signoff.py.
use finguard_major_project.Prelude.{
  ◌+◌, String, ◌≡◌, refl, sym, ◌∙◌, subst, ◌≢◌, ◌↔◌, true, false, Option, some, [], ◌∷◌, arith,
  eq_iff, length, length-append,
}
use finguard_major_project.Strings.{strip, casefold, codes_eq_iff}
use finguard_major_project.Domain.{
  CaseStatus, human_review, closed, Decision, escalate, is_escalate, status_eq,
}
use finguard_major_project.Case.{CaseState, Clock, SignOff, record_event}
use finguard_major_project.Outcome.{Outcome, ok, is_ok, ok-injective}
use finguard_major_project.SignOff.{same_person, or_blank, closed_case, sign_off_case}

-- Two different people: the second is named, and not the first in another spelling.
abbrev pub FourEyes : String → Option String → Type 0
FourEyes reviewer second =
    (strip (or_blank second) ≢ "")
    × (casefold (strip (or_blank second)) ≢ casefold (strip reviewer))

-- What a sign-off needs.
pub record MaySign (s : CaseState) (reviewer : String) (d : Decision) (reason : String)
    (second : Option String) : Type 0 where
  pub waiting : s.status ≡ human_review
  pub named : strip reviewer ≢ ""
  pub reasoned : strip reason ≢ ""
  pub four_eyes : d ≡ escalate → FourEyes reviewer second

same_person-FourEyes :
    (reviewer : String) (second : Option String)
    → same_person reviewer second ≡ false
    → FourEyes reviewer second
unfolding same_person
same_person-FourEyes reviewer second h =
    let a = strip (or_blank second) in
    (
      λ e. ground (arith, eq_iff a ""),
      λ e. ground (arith, codes_eq_iff (casefold a) (casefold (strip reviewer))),
    )

FourEyes-same_person :
    (reviewer : String) (second : Option String)
    → FourEyes reviewer second
    → same_person reviewer second ≡ false
unfolding same_person
FourEyes-same_person reviewer second h =
    let a = strip (or_blank second) in
    ground (arith, eq_iff a "", codes_eq_iff (casefold a) (casefold (strip reviewer)))

status_eq_iff : (a b : CaseStatus) → status_eq a b ≡ true → a ≡ b
status_eq_iff a b h = ground arith

module _ (clock : Clock) (s : CaseState) (reviewer : String) (d : Decision) (reason : String)
    (second : Option String) where
  abbrev signed : Outcome CaseState
  signed = sign_off_case clock reviewer d reason second s

  ok-MaySign : is_ok signed ≡ true → MaySign s reviewer d reason second
  unfolding sign_off_case
  ok-MaySign h = record {
    waiting = ground (arith, status_eq_iff s.status human_review);
    named = λ e. ground (arith, eq_iff (strip reviewer) "");
    reasoned = λ e. ground (arith, eq_iff (strip reason) "");
    four_eyes = λ e. same_person-FourEyes reviewer second (ground arith);
  }

  escalation-four_eyes :
      MaySign s reviewer d reason second
      → is_escalate d ≡ true
      → same_person reviewer second ≡ false
  escalation-four_eyes m e = FourEyes-same_person reviewer second (m.four_eyes (ground arith))

  MaySign-ok :
      MaySign s reviewer d reason second
      → signed ≡ ok (closed_case clock reviewer d reason second s)
  unfolding sign_off_case
  MaySign-ok m = ground (
    arith,
    m.waiting,
    escalation-four_eyes m,
    eq_iff (strip reviewer) "",
    eq_iff (strip reason) "",
  )

  -- A sign-off succeeds exactly when the case awaits human review, the reviewer and the reason are
  -- not blank, and an escalation has a second reviewer who is another person.
  pub sign_off-MaySign_iff : (is_ok signed ≡ true) ↔ MaySign s reviewer d reason second
  sign_off-MaySign_iff = (ok-MaySign, λ m. rw (MaySign-ok m))

  signed-closed : (t : CaseState) → signed ≡ ok t → t ≡ closed_case clock reviewer d reason second s
  signed-closed t h = let m = ok-MaySign (rw h) in ok-injective (sym h ∙ MaySign-ok m)

-- What a sign-off leaves: the closed case, the decision with its names, and one more event.
pub record Closes (s t : CaseState) (reviewer : String) (d : Decision) (reason : String)
    (second : Option String) : Type 0 where
  pub status : t.status ≡ closed
  pub signed :
      (r : SignOff) × (t.sign_off ≡ some r)
      × (r.reviewer ≡ strip reviewer)
      × (r.second_reviewer ≡ second)
      × (r.decision ≡ d)
      × (r.reason ≡ strip reason)
  pub one_event : length t.audit_trail ≡ length s.audit_trail + 1
  pub report : t.report ≡ s.report
  pub case_id : t.case_id ≡ s.case_id

closed_case-Closes :
    (clock : Clock) (reviewer : String) (d : Decision) (reason : String) (second : Option String)
    (s : CaseState)
    → Closes s (closed_case clock reviewer d reason second s) reviewer d reason second
unfolding closed_case record_event
closed_case-Closes clock reviewer d reason second s = record {
  status = refl;
  signed = (_, refl, refl, refl, refl, refl);
  one_event = omega (arith, length-append s.audit_trail (_ ∷ []));
  report = refl;
  case_id = refl;
}

-- A sign-off that succeeds closes the case, records the decision under the stripped name of the
-- reviewer and the name of the second reviewer as given, and appends one event.
pub sign_off-Closes :
    (clock : Clock) (s : CaseState) (reviewer : String) (d : Decision) (reason : String)
    (second : Option String) (t : CaseState)
    → sign_off_case clock reviewer d reason second s ≡ ok t
    → Closes s t reviewer d reason second
sign_off-Closes clock s reviewer d reason second t h =
    subst (λ u. Closes s u reviewer d reason second)
      (sym (signed-closed clock s reviewer d reason second t h))
      (closed_case-Closes clock reviewer d reason second s)
