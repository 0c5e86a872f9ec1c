-- ===== src/SignOff.antt =====
-- agents/coordinator/signoff.py: the human sign-off, the only way to CLOSED.
pub mod Rules
use Prim.Native.String.{◌++◌ as str_append}
use finguard_major_project.Prelude.{
  ℕ, ◌+◌, String, Bool, true, not, ◌||◌, Option, none, some, List, [], ◌∷◌, str_eq, if◌then◌else◌,
}
use finguard_major_project.Json.{end, field, str}
use finguard_major_project.Strings.{strip, casefold, codes_eq}
use finguard_major_project.Domain.{
  CaseStatus, human_review, closed, status_eq, Decision, clear, review, escalate, is_escalate,
}
use finguard_major_project.Case.{CaseState, Clock, tick, record_event}
use finguard_major_project.Outcome.{Outcome, ok, raised, sign_off_error}

-- `decision.value`
abbrev pub decision_value : Decision → String
decision_value clear = "CLEAR"
decision_value review = "REVIEW"
decision_value escalate = "ESCALATE"

-- `(second_reviewer or "")`
abbrev pub or_blank : Option String → String
or_blank none = ""
or_blank (some s) = s

-- The four-eyes test fails: no second reviewer, or the same person.
unfoldable pub same_person : String → Option String → Bool
same_person reviewer second_reviewer =
    let second = strip (or_blank second_reviewer) in
    str_eq second "" || codes_eq (casefold second) (casefold (strip reviewer))

-- The state that a successful sign-off leaves.
unfoldable pub closed_case :
    Clock → String → Decision → String → Option String → CaseState → CaseState
closed_case clock reviewer decision reason second_reviewer s =
    record_event clock
      (record {
        actor = str_append "human:" (strip reviewer);
        action = "sign_off";
        from_status = some human_review;
        to_status = some closed;
        duration_ms = 0;
        ok = true;
        error = none;
        details = field "decision" (str (decision_value decision)) end;
      })
      (record (tick s) {
        sign_off = some (record {
          reviewer = strip reviewer;
          second_reviewer = second_reviewer;
          decision = decision;
          reason = strip reason;
          at = clock s.readings;
        });
        status = closed;
      })

unfoldable pub sign_off_case :
    Clock → String → Decision → String → Option String → CaseState → Outcome CaseState
sign_off_case clock reviewer decision reason second_reviewer s =
    if not (status_eq s.status human_review)
    then raised (sign_off_error "not awaiting human review")
    else if str_eq (strip reviewer) "" || str_eq (strip reason) ""
    then raised (sign_off_error "a named reviewer and a written reason are required")
    else if is_escalate decision
    then (if same_person reviewer second_reviewer
        then raised (sign_off_error "ESCALATE needs a second, different reviewer (four-eyes rule)")
        else ok (closed_case clock reviewer decision reason second_reviewer s))
    else ok (closed_case clock reviewer decision reason second_reviewer s)
