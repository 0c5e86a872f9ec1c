-- ===== src/Examples/Desk.antt =====
-- The human decisions at a stored case.
use finguard_major_project.Prelude.{
  String, ◌≡◌, ◌≢◌, ◌∙◌, refl, sym, ap, true, false, Bool-cases, inl, inr, str_eq, eq_iff, Option,
  none, some, [], ◌∷◌,
}
use finguard_major_project.Strings.{strip, casefold}
use finguard_major_project.Dict.{lookup}
use finguard_major_project.Domain.{human_review, review, escalate}
use finguard_major_project.Outcome.{Outcome, ok, ok-injective, is_ok, value, value-ok}
use finguard_major_project.Case.{CaseState, record_event}
use finguard_major_project.SignOff.{same_person, or_blank, closed_case}
use finguard_major_project.Api.Rows.{CaseRow, Session, is_pending}
use finguard_major_project.Api.Cases.{
  SignOffRequest, Answer, load, load_state, sign_off, confirm_escalation, reject_escalation,
}
use finguard_major_project.Api.Stored.{Filed, Stores}
use finguard_major_project.Api.Signatures.{ClosedRow, OpenRow, Signed, StaysOpen}
use finguard_major_project.Api.SecondLook.{
  SecondReviewer, confirm_escalation-Signed, reject_escalation-StaysOpen,
}
use finguard_major_project.Api.Decisions.{Decided, sign_off-Decided}
use finguard_major_project.Examples.Data.{clock, new_case}
use finguard_major_project.Examples.Trails.{hashing}

abbrev waiting : CaseState
waiting = record new_case { status = human_review }

abbrev pub row : Option String → CaseRow
row proposer = record {
  case_id = "CASE-C1-T1";
  customer_id = "C1";
  focus_transactions = "T1" ∷ [];
  status = human_review;
  job_state = "done";
  job_error = none;
  advisory_decision = none;
  proposed_decision = none;
  validated = none;
  warnings = 0;
  is_mock = none;
  created_by = "ana";
  created_at = 0;
  updated_at = 0;
  state = waiting;
  timeline_json = "[]";
  customer_json = "{}";
  pending_escalation_by = proposer;
  pending_escalation_reason = some "fraud";
}

abbrev pub session : Option String → Session hashing
session proposer = record { cases = ("CASE-C1-T1", row proposer) ∷ []; events = [] }

abbrev pub request : SignOffRequest
request = record { decision = review; reason = "fine"; acknowledge_advisory_override = false }

-- A session of one case is filed under the name of the case.
pub session-Filed : (proposer : Option String) → Filed hashing (session proposer)
unfolding load load_state lookup
session-Filed proposer case_id loaded e = elim (Bool-cases (str_eq "CASE-C1-T1" case_id)) [
  | inl t ↦
      let same = ok-injective (rw (t, load) at e) in
      let named : "CASE-C1-T1" ≡ case_id = (eq_iff "CASE-C1-T1" case_id).0 t in
      (ap (λ x. x.0.case_id) (sym same) ∙ named, ap (λ x. x.1.case_id) (sym same) ∙ named)
  | inr f ↦ absurd (cc (rw (f, load) at e))
]

abbrev signing : Outcome (Answer hashing)
signing = sign_off hashing clock (session none) "CASE-C1-T1" request "ana"

signing_ok : is_ok signing ≡ true
unfolding sign_off lookup strip closed_case record_event
signing_ok = refl

sign_off-Decided_example :
    (loaded : CaseRow × CaseState) × (load hashing (session none) "CASE-C1-T1" ≡ ok loaded)
    × (stored : CaseRow) × Stores hashing (value signing signing_ok).0 "CASE-C1-T1" stored
    × Decided loaded.0 loaded.1 (value signing signing_ok).2 stored request "ana"
    × Filed hashing (value signing signing_ok).0
sign_off-Decided_example =
    sign_off-Decided hashing clock (session none) "CASE-C1-T1" request "ana"
      (value signing signing_ok) (session-Filed none) (value-ok signing signing_ok)

abbrev confirming : Outcome (Answer hashing)
confirming = confirm_escalation hashing clock (session (some "ana")) "CASE-C1-T1" "agreed" "ben"

confirming_ok : is_ok confirming ≡ true
unfolding confirm_escalation lookup strip casefold same_person closed_case record_event
confirming_ok = refl

confirm_escalation-Signed_example :
    (loaded : CaseRow × CaseState) × (load hashing (session (some "ana")) "CASE-C1-T1" ≡ ok loaded)
    × SecondReviewer loaded.0 "ben"
    × (strip (or_blank loaded.0.pending_escalation_reason) ≢ "")
    × Signed
        (value confirming confirming_ok).2
        escalate
        (or_blank loaded.0.pending_escalation_by)
        (some "ben")
    × (stored : CaseRow) × Stores hashing (value confirming confirming_ok).0 "CASE-C1-T1" stored
    × ClosedRow stored escalate (or_blank loaded.0.pending_escalation_by) (some "ben")
    × Filed hashing (value confirming confirming_ok).0
confirm_escalation-Signed_example =
    confirm_escalation-Signed hashing clock (session (some "ana")) "CASE-C1-T1" "agreed" "ben"
      (value confirming confirming_ok) (session-Filed (some "ana"))
      (value-ok confirming confirming_ok)

abbrev rejecting : Outcome (Answer hashing)
rejecting = reject_escalation hashing clock (session (some "ana")) "CASE-C1-T1" "no" "ben"

rejecting_ok : is_ok rejecting ≡ true
unfolding reject_escalation lookup casefold
rejecting_ok = refl

reject_escalation-StaysOpen_example :
    (loaded : CaseRow × CaseState) × (load hashing (session (some "ana")) "CASE-C1-T1" ≡ ok loaded)
    × SecondReviewer loaded.0 "ben"
    × StaysOpen loaded.1 (value rejecting rejecting_ok).2
    × (stored : CaseRow) × Stores hashing (value rejecting rejecting_ok).0 "CASE-C1-T1" stored
    × OpenRow loaded.1 stored
    × (is_pending stored ≡ false)
    × Filed hashing (value rejecting rejecting_ok).0
reject_escalation-StaysOpen_example =
    reject_escalation-StaysOpen hashing clock (session (some "ana")) "CASE-C1-T1" "no" "ben"
      (value rejecting rejecting_ok) (session-Filed (some "ana")) (value-ok rejecting rejecting_ok)
