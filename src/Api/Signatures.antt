-- ===== src/Api/Signatures.antt =====
-- A case that a human decision signs or leaves open, and the row that is stored of it
-- (backend/app/api/cases.py).
use finguard_major_project.Prelude.{
  none, ℕ, String, ◌≡◌, ◌≢◌, refl, sym, ap, Bool, true, false, not, Option, some, drop,
}
use finguard_major_project.Strings.{strip}
use finguard_major_project.Json.{Fields}
use finguard_major_project.Domain.{closed, Decision}
use finguard_major_project.Outcome.{
  Outcome, ok, raised, is_ok, sign_off_error, key_error, value_error, overflow_error, runtime_error,
  type_error, http_error, ok-injective, >>=-eq-ok,
}
use finguard_major_project.Audit.Chain.{Hashing}
use finguard_major_project.Case.{CaseState, Clock, SignOff, tick}
use finguard_major_project.SignOff.{sign_off_case}
use finguard_major_project.SignOff.Rules.{sign_off-Closes, sign_off-MaySign_iff}
use finguard_major_project.Api.Rows.{CaseRow, Session, append_human, denormalise, is_pending}
use finguard_major_project.Api.Cases.{as_conflict, save_state, Answer, finish, settled_row}

pub as_conflict-ok {ℓ} : {A : Type ℓ} (m : Outcome A) {a : A} → as_conflict m ≡ ok a → m ≡ ok a
as_conflict-ok (ok b) e = e
as_conflict-ok (raised (key_error t)) e = absurd (cc e)
as_conflict-ok (raised (value_error t)) e = absurd (cc e)
as_conflict-ok (raised (overflow_error t)) e = absurd (cc e)
as_conflict-ok (raised (runtime_error t)) e = absurd (cc e)
as_conflict-ok (raised (sign_off_error t)) e = absurd (cc e)
as_conflict-ok (raised (type_error t)) e = absurd (cc e)
as_conflict-ok (raised (http_error c t)) e = absurd (cc e)

pub not-false : (b : Bool) → not b ≡ true → b ≡ false
not-false true e = sym e
not-false false e = refl

-- Who signed a case, and what.
pub record Signed (s : CaseState) (d : Decision) (by : String) (second : Option String)
    : Type 0 where
  pub status : s.status ≡ closed
  pub signature :
      (r : SignOff) × (s.sign_off ≡ some r)
      × (r.decision ≡ d)
      × (r.reviewer ≡ strip by)
      × (r.second_reviewer ≡ second)

-- A case that the human decision leaves open.
pub record StaysOpen (s t : CaseState) : Type 0 where
  pub status : t.status ≡ s.status
  pub sign_off : t.sign_off ≡ s.sign_off

-- The stored row of a case that is closed: with its signature, and with no escalation pending.
pub record ClosedRow (row : CaseRow) (d : Decision) (by : String) (second : Option String)
    : Type 0 where
  pub status : row.status ≡ closed
  pub signed : Signed row.state d by second
  pub settled : is_pending row ≡ false

-- The stored row of a case that stays open.
pub record OpenRow (s : CaseState) (row : CaseRow) : Type 0 where
  pub status : row.status ≡ s.status
  pub open_state : StaysOpen s row.state

module _ (h : Hashing) (clock : Clock) where
  pub finish-ticks :
      (n0 : ℕ) (session : Session h) (s : CaseState) (answer : Answer h)
      → finish h clock n0 session s ≡ ok answer
      → answer.2 ≡ tick s
  unfolding finish
  finish-ticks n0 session s answer e =
      let (saved, e1, e2) =
        >>=-eq-ok (save_state h session s (clock s.readings) none none none (drop n0 s.audit_trail))
          _ e in
      ap (λ a. a.2) (sym (ok-injective e2))

  pub sign_off_case-case_id :
      (s t : CaseState) (by : String) (d : Decision) (reason : String) (second : Option String)
      → sign_off_case clock by d reason second s ≡ ok t
      → t.case_id ≡ s.case_id
  sign_off_case-case_id s t by d reason second e =
      (sign_off-Closes clock s by d reason second t e).case_id

  pub append_human-case_id :
      (username action : String) (details : Fields) (s : CaseState)
      → (append_human clock username action details s).case_id ≡ s.case_id
  unfolding append_human
  append_human-case_id username action details s = refl

  -- The row that is stored with a signed case, where no escalation is pending in it.
  pub Signed-ClosedRow :
      (s : CaseState) (now : ℕ) (row : CaseRow) (d : Decision) (by : String)
      (second : Option String)
      → is_pending row ≡ false
      → Signed (tick s) d by second
      → ClosedRow (denormalise s now row) d by second
  unfolding denormalise
  Signed-ClosedRow s now row d by second free g = record {
    status = g.status;
    signed = record { status = g.status; signature = g.signature };
    settled = free;
  }

  -- The row that is stored with a case that stays open.
  pub StaysOpen-OpenRow :
      (s t : CaseState) (now : ℕ) (row : CaseRow)
      → StaysOpen s t
      → OpenRow s (denormalise t now row)
  unfolding denormalise
  StaysOpen-OpenRow s t now row o = record {
    status = o.status;
    open_state = record { status = o.status; sign_off = o.sign_off };
  }

  pub settled-free :
      (s : CaseState) (now : ℕ) (row : CaseRow)
      → is_pending (denormalise s now (settled_row row)) ≡ false
  unfolding denormalise
  settled-free s now row = refl

  pub sign_off_case-Signed :
      (s t : CaseState) (by : String) (d : Decision) (reason : String) (second : Option String)
      → sign_off_case clock by d reason second s ≡ ok t
      → Signed (tick t) d by second
  sign_off_case-Signed s t by d reason second e =
      let c = sign_off-Closes clock s by d reason second t e in
      let (r, held, reviewer, other, decision, reason) = c.signed in
      record { status = c.status; signature = (r, held, decision, reviewer, other) }

  pub sign_off_case-reasoned :
      (s t : CaseState) (by : String) (d : Decision) (reason : String) (second : Option String)
      → sign_off_case clock by d reason second s ≡ ok t
      → strip reason ≢ ""
  sign_off_case-reasoned s t by d reason second e =
      ((sign_off-MaySign_iff clock s by d reason second).0 (ap is_ok e)).reasoned

  pub append_human-StaysOpen :
      (username action : String) (details : Fields) (s : CaseState)
      → StaysOpen s (append_human clock username action details s)
  unfolding append_human
  append_human-StaysOpen username action details s = record { status = refl; sign_off = refl }
