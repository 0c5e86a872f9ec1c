-- ===== src/Api/Stored.antt =====
-- What a deciding endpoint leaves in the store when it is answered (`save_state` of
-- backend/app/services/case_store.py).
use finguard_major_project.Prelude.{
  List, Bool-cases, true, false, str_eq, eq_iff, subst, refl, inl, inr, Option-cases, ℕ, String,
  ◌≡◌, sym, ap, ◌∙◌, some, drop,
}
use finguard_major_project.Dict.{lookup, lookup-put, put, lookup-put_same}
use finguard_major_project.Outcome.{ok, ok-injective}
use finguard_major_project.Audit.Chain.{Hashing, append_events, load_audit}
use finguard_major_project.Case.{CaseState, Clock, tick}
use finguard_major_project.Api.Rows.{CaseRow, Session, denormalise}
use finguard_major_project.Api.Cases.{Answer, load, load_state, save_state, set_row, finish}

module _ (h : Hashing) where
  -- The stored rows and cases are filed under their own names.
  abbrev pub Filed : Session h → Type 0
  Filed session =
      (case_id : String) (loaded : CaseRow × CaseState)
      → load h session case_id ≡ ok loaded
      → (loaded.0.case_id ≡ case_id) × (loaded.1.case_id ≡ case_id)

  -- The row that the committed session has under a name.
  abbrev pub Stores : Session h → String → CaseRow → Type 0
  Stores session case_id row = lookup case_id session.cases ≡ some row

  module _ (clock : Clock) where
    saved_as :
        (n0 : ℕ) (session : Session h) (s : CaseState) (row : CaseRow)
        → lookup s.case_id session.cases ≡ some row
        → let after = denormalise s (clock s.readings) row in
          finish h clock n0 session s
          ≡ ok (
            record {
              cases = put s.case_id after session.cases;
              events = (append_events h session.events s.case_id (drop n0 s.audit_trail)).0;
            },
            after,
            tick s,
          )
    unfolding finish save_state
    saved_as n0 session s row e = rw (e, save_state)

    -- An answered handler has committed the row that it set, with the case that it ends with.
    pub finish-Stores :
        (n0 : ℕ) (session : Session h) (row : CaseRow) (s : CaseState) (case_id : String)
        (answer : Answer h)
        → row.case_id ≡ case_id
        → s.case_id ≡ case_id
        → finish h clock n0 (set_row h row session) s ≡ ok answer
        → Stores answer.0 case_id (denormalise s (clock s.readings) row)
    finish-Stores n0 session row s case_id answer filed named e =
        let there : lookup s.case_id (put row.case_id row session.cases) ≡ some row =
          ap (λ k. lookup k (put row.case_id row session.cases)) (named ∙ sym filed)
          ∙ lookup-put_same row.case_id row session.cases in
        let a = ok-injective (sym (saved_as n0 (set_row h row session) s row there) ∙ e) in
        ap (λ k. lookup k answer.0.cases) (sym named)
        ∙ ap (λ x. lookup s.case_id x.0.cases) (sym a)
        ∙ lookup-put_same s.case_id (denormalise s (clock s.readings) row) _

  -- Every stored row is filed under its own name, and so is its case.
  abbrev RowsFiled : List (String × CaseRow) → Type 0
  RowsFiled cases =
      (k : String) (row : CaseRow)
      → lookup k cases ≡ some row
      → (row.case_id ≡ k) × (row.state.case_id ≡ k)

  Filed-RowsFiled : (session : Session h) → Filed session → RowsFiled session.cases
  unfolding load load_state
  Filed-RowsFiled session filed k row e =
      let (a, b) =
        filed k (row, record row.state { audit_trail = load_audit h session.events k })
          (rw (e, load, load_state) refl) in
      (a, b)

  RowsFiled-Filed : (session : Session h) → RowsFiled session.cases → Filed session
  unfolding load load_state
  RowsFiled-Filed session filed k loaded e = elim (Option-cases (lookup k session.cases)) [
    | inl n ↦ absurd (cc (rw (n, load, load_state) at e))
    | inr (row, found) ↦
        let same = ok-injective (rw (found, load, load_state) at e) in
        let (a, b) = filed k row found in
        (ap (λ l. l.0.case_id) (sym same) ∙ a, ap (λ l. l.1.case_id) (sym same) ∙ b)
  ]

  put-RowsFiled :
      (j : String) (v : CaseRow) (cases : List (String × CaseRow))
      → v.case_id ≡ j
      → v.state.case_id ≡ j
      → RowsFiled cases
      → RowsFiled (put j v cases)
  put-RowsFiled j v cases a b filed k row e = elim (Bool-cases (str_eq j k)) [
    | inl t ↦
        let same = some-injective (sym (put_here t) ∙ e) in
        let named : j ≡ k = (eq_iff j k).0 t in
        (
          ap (λ r. r.case_id) (sym same) ∙ a ∙ named,
          ap (λ r. r.state.case_id) (sym same) ∙ b ∙ named,
        )
    | inr f ↦ filed k row (sym (put_there f) ∙ e)
  ]
    where
      some-injective : {a b : CaseRow} → some a ≡ some b → a ≡ b
      some-injective h = cc h

      put_here : str_eq j k ≡ true → lookup k (put j v cases) ≡ some v
      put_here t = lookup-put j k v cases ∙ rw t refl

      put_there : str_eq j k ≡ false → lookup k (put j v cases) ≡ lookup k cases
      put_there f = lookup-put j k v cases ∙ rw f refl

  -- An answered handler leaves the cases filed under their names.
  pub finish-Filed :
      (clock : Clock) (n0 : ℕ) (session : Session h) (row : CaseRow) (s : CaseState)
      (case_id : String) (answer : Answer h)
      → Filed session
      → row.case_id ≡ case_id
      → row.state.case_id ≡ case_id
      → s.case_id ≡ case_id
      → finish h clock n0 (set_row h row session) s ≡ ok answer
      → Filed answer.0
  unfolding denormalise
  finish-Filed clock n0 session row s case_id answer all_filed filed state named e =
      let there : lookup s.case_id (put row.case_id row session.cases) ≡ some row =
        ap (λ k. lookup k (put row.case_id row session.cases)) (named ∙ sym filed)
        ∙ lookup-put_same row.case_id row session.cases in
      let a = ok-injective (sym (saved_as clock n0 (set_row h row session) s row there) ∙ e) in
      RowsFiled-Filed answer.0 (
        subst RowsFiled (ap (λ x. x.0.cases) a) (
          put-RowsFiled s.case_id (denormalise s (clock s.readings) row)
            (put row.case_id row session.cases) (filed ∙ sym named) refl
            (put-RowsFiled row.case_id row session.cases refl (state ∙ sym filed)
              (Filed-RowsFiled session all_filed))))

  -- A row that is loaded holds a case of its own name.
  pub load-state_named :
      (session : Session h) (case_id : String) (loaded : CaseRow × CaseState)
      → load h session case_id ≡ ok loaded
      → loaded.0.state.case_id ≡ loaded.1.case_id
  unfolding load load_state
  load-state_named session case_id loaded e = elim (Option-cases (lookup case_id session.cases)) [
    | inl n ↦ absurd (cc (rw (n, load, load_state) at e))
    | inr (row, found) ↦
        let same = ok-injective (rw (found, load, load_state) at e) in
        ap (λ l. l.0.state.case_id) (sym same) ∙ ap (λ l. l.1.case_id) same
  ]
