-- ===== src/Api/SecondLook.antt =====
-- What the second reviewer of an escalation can do (backend/app/api/cases.py).
use finguard_major_project.Prelude.{
  String, ◌≡◌, ◌≢◌, ◌∙◌, refl, sym, subst, true, false, not, some, length,
}
use finguard_major_project.Strings.{strip, casefold, codes_eq, codes_eq_iff}
use finguard_major_project.Json.{end, field, str}
use finguard_major_project.Domain.{escalate}
use finguard_major_project.Outcome.{ok, guard, guard-ok, ok-injective, >>=-eq-ok}
use finguard_major_project.Audit.Chain.{Hashing}
use finguard_major_project.Case.{CaseState, Clock, tick}
use finguard_major_project.SignOff.{sign_off_case, or_blank}
use finguard_major_project.Api.Rows.{CaseRow, Session, denormalise, is_pending, take_text}
use finguard_major_project.Api.Stored.{Filed, Stores, finish-Stores, finish-Filed, load-state_named}
use finguard_major_project.Api.Cases.{
  as_conflict, load, set_row, Answer, pending_by, settled_row, noted_confirm, noted_reject,
  confirm_escalation, reject_escalation,
}
use finguard_major_project.Api.Signatures.{
  as_conflict-ok, not-false, Signed, StaysOpen, ClosedRow, OpenRow, finish-ticks,
  sign_off_case-case_id, append_human-case_id, Signed-ClosedRow, StaysOpen-OpenRow, settled-free,
  sign_off_case-Signed, sign_off_case-reasoned, append_human-StaysOpen,
}

-- The second reviewer of a pending escalation is another user than its proposer.
pub record SecondReviewer (row : CaseRow) (username : String) : Type 0 where
  pub pending : is_pending row ≡ true
  pub another : casefold (or_blank row.pending_escalation_by) ≢ casefold username

module _ (h : Hashing) (clock : Clock) where
  pending_by-SecondReviewer :
      (row : CaseRow) (username proposer : String)
      → pending_by h clock row username ≡ ok proposer
      → SecondReviewer row username × (proposer ≡ or_blank row.pending_escalation_by)
  unfolding pending_by
  pending_by-SecondReviewer row username proposer e =
      let name = or_blank row.pending_escalation_by in
      let (u1, g1, e1) = >>=-eq-ok (guard (is_pending row) _) _ e in
      let (u2, g2, e2) =
        >>=-eq-ok (guard (not (codes_eq (casefold name) (casefold username))) _) _ e1 in
      let different =
        not-false (codes_eq (casefold name) (casefold username)) (guard-ok _ _ u2 g2) in
      (
        record {
          pending = guard-ok _ _ u1 g1;
          another = λ same.
              absurd (cc (different, (codes_eq_iff (casefold name) (casefold username)).1 same));
        },
        sym (ok-injective e2),
      )

  -- An escalation that is confirmed was pending, its proposer is another user than the one who
  -- confirms it, letter case aside, and the reason that the proposer gave is not blank. Where the
  -- cases are filed under their names, the row that is stored then is closed, signed as an escalation
  -- with both names, and has no escalation pending; the answer shows the same signature, and
  -- the cases are still filed under their names.
  pub confirm_escalation-Signed :
      (session : Session h) (case_id reason username : String) (answer : Answer h)
      → Filed h session
      → confirm_escalation h clock session case_id reason username ≡ ok answer
      → (loaded : CaseRow × CaseState) × (load h session case_id ≡ ok loaded)
        × SecondReviewer loaded.0 username
        × (strip (or_blank loaded.0.pending_escalation_reason) ≢ "")
        × Signed answer.2 escalate (or_blank loaded.0.pending_escalation_by) (some username)
        × (row : CaseRow) × Stores h answer.0 case_id row
        × ClosedRow row escalate (or_blank loaded.0.pending_escalation_by) (some username)
        × Filed h answer.0
  unfolding confirm_escalation
  confirm_escalation-Signed session case_id reason username answer filed e =
      let (loaded, e1, h1) = >>=-eq-ok (load h session case_id) _ e in
      let (proposer, e2, h2) = >>=-eq-ok (pending_by h clock loaded.0 username) _ h1 in
      let before = noted_confirm clock username reason loaded.1 in
      let why = or_blank loaded.0.pending_escalation_reason in
      let (signed, e3, h3) =
        >>=-eq-ok (as_conflict (sign_off_case clock proposer escalate why (some username) before)) _
          h2 in
      let (second, named) = pending_by-SecondReviewer loaded.0 username proposer e2 in
      let done =
        sign_off_case-Signed h clock before signed proposer escalate why (some username)
          (as_conflict-ok _ e3) in
      let named_so : signed.case_id ≡ case_id =
        sign_off_case-case_id h clock before signed proposer escalate why (some username)
          (as_conflict-ok _ e3)
        ∙ append_human-case_id h clock username "escalation_confirmed"
            (field "confirm_reason" (str (take_text 200 reason)) end) loaded.1
        ∙ (filed case_id loaded e1).1 in
      let signed_under = subst (λ p. Signed (tick signed) escalate p (some username)) named done in
      (
        loaded,
        e1,
        second,
        sign_off_case-reasoned h clock before signed proposer escalate why _ (as_conflict-ok _ e3),
        subst (λ s. Signed s escalate (or_blank loaded.0.pending_escalation_by) (some username))
            (sym (
              finish-ticks h clock (length loaded.1.audit_trail)
                (set_row h (settled_row loaded.0) session) signed answer h3))
            signed_under,
        denormalise signed (clock signed.readings) (settled_row loaded.0),
        finish-Stores h clock (length loaded.1.audit_trail) session (settled_row loaded.0) signed
            case_id answer (filed case_id loaded e1).0 named_so h3,
        Signed-ClosedRow h clock signed (clock signed.readings) (settled_row loaded.0) escalate
            (or_blank loaded.0.pending_escalation_by) (some username) refl signed_under,
        finish-Filed h clock (length loaded.1.audit_trail) session (settled_row loaded.0) signed
            case_id answer filed (filed case_id loaded e1).0
            (load-state_named h session case_id loaded e1 ∙ (filed case_id loaded e1).1) named_so
            h3,
      )

  -- An escalation that is rejected was pending, and its proposer is another user than the one who
  -- rejects it. Where the cases are filed under their names, the row that is stored then has the
  -- status and the signature that the case had, and no escalation pending; the answer shows the same,
  -- and the cases are still filed under their names.
  pub reject_escalation-StaysOpen :
      (session : Session h) (case_id reason username : String) (answer : Answer h)
      → Filed h session
      → reject_escalation h clock session case_id reason username ≡ ok answer
      → (loaded : CaseRow × CaseState) × (load h session case_id ≡ ok loaded)
        × SecondReviewer loaded.0 username
        × StaysOpen loaded.1 answer.2
        × (row : CaseRow) × Stores h answer.0 case_id row
        × OpenRow loaded.1 row
        × (is_pending row ≡ false)
        × Filed h answer.0
  unfolding reject_escalation
  reject_escalation-StaysOpen session case_id reason username answer filed e =
      let (loaded, e1, h1) = >>=-eq-ok (load h session case_id) _ e in
      let (proposer, e2, h2) = >>=-eq-ok (pending_by h clock loaded.0 username) _ h1 in
      let (second, named) = pending_by-SecondReviewer loaded.0 username proposer e2 in
      let after = noted_reject clock username reason loaded.1 in
      let named_so : after.case_id ≡ case_id =
        append_human-case_id h clock username "escalation_rejected"
          (field "reason" (str (take_text 200 reason)) end) loaded.1
        ∙ (filed case_id loaded e1).1 in
      let same =
        append_human-StaysOpen h clock username "escalation_rejected"
          (field "reason" (str (take_text 200 reason)) end) loaded.1 in
      (
        loaded,
        e1,
        second,
        subst (StaysOpen loaded.1)
            (sym (
              finish-ticks h clock (length loaded.1.audit_trail)
                (set_row h (settled_row loaded.0) session) after answer h2))
            (record { status = same.status; sign_off = same.sign_off }),
        denormalise after (clock after.readings) (settled_row loaded.0),
        finish-Stores h clock (length loaded.1.audit_trail) session (settled_row loaded.0) after
            case_id answer (filed case_id loaded e1).0 named_so h2,
        StaysOpen-OpenRow h clock loaded.1 after (clock after.readings) (settled_row loaded.0) same,
        settled-free h clock after (clock after.readings) loaded.0,
        finish-Filed h clock (length loaded.1.audit_trail) session (settled_row loaded.0) after
            case_id answer filed (filed case_id loaded e1).0
            (load-state_named h session case_id loaded e1 ∙ (filed case_id loaded e1).1) named_so
            h2,
      )
