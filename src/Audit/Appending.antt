-- ===== src/Audit/Appending.antt =====
-- `append_events` keeps a verified trail verified, and touches no other case.
use mathlib.Core.List.{append-nil, append_assoc}
use finguard_major_project.Prelude.{
  ℕ, ◌+◌, ◌≤◌, String, ◌≡◌, refl, sym, ap, subst, ◌∙◌, ◌≢◌, Bool, true, some, List, [], ◌∷◌, ◌++◌,
  arith, length, filter, get_last, All, Bool-cases, inl, inr, eq_iff, leb, str_eq, if◌then◌else◌,
}
use finguard_major_project.Prelude.Sorting.{sorted, insert_by, unsorted-All}
use finguard_major_project.Audit.{AuditEvent}
use finguard_major_project.Audit.Chain.{
  AuditRow, Hashing, row_to_event, stored_row, rows_of, new_rows, append_events, seq_le, seq_of,
  hash_of, verify_chain, numbered,
}
use finguard_major_project.Audit.Integrity.{
  IsChain, final, final-last_hash, verify_chain-IsChain_iff,
}

module _ {ℓ} {A : Type ℓ} (le : A → A → Bool) where
  insert_by-append :
      (x : A) (ys : List A) (z : A)
      → le x z ≡ true
      → insert_by le x (ys ++ z ∷ []) ≡ insert_by le x ys ++ z ∷ []
  unfolding insert_by
  insert_by-append x [] z h = rw h
  insert_by-append x (y ∷ ys) z h = elim (Bool-cases (le x y)) [
    | inl e ↦ rw e
    | inr e ↦ rw (e, insert_by-append x ys z h)
  ]

  -- A last element that is not below the others stays last.
  sorted-append :
      (xs : List A) (z : A)
      → All (λ x. le x z ≡ true) xs
      → sorted le (xs ++ z ∷ []) ≡ sorted le xs ++ z ∷ []
  unfolding sorted
  sorted-append [] z h = refl
  sorted-append (x ∷ xs) z h =
      ap (insert_by le x) (sorted-append xs z h.1) ∙ insert_by-append x (sorted le xs) z h.0

leb_of_le : (a b : ℕ) → a ≤ b → leb a b ≡ true
leb_of_le a b h = ground arith

get_last-append {ℓ} : {A : Type ℓ} (xs : List A) (x : A) → get_last (xs ++ x ∷ []) ≡ some x
get_last-append [] x = refl
get_last-append (y ∷ []) x = refl
get_last-append (y ∷ z ∷ xs) x = get_last-append (z ∷ xs) x

module _ (h : Hashing) where
  open h use {Hash, genesis, digest}

  abbrev belongs : String → AuditRow Hash → Bool
  belongs case_id r = str_eq r.case_id case_id

  filter-append :
      (p : AuditRow Hash → Bool) (xs : List (AuditRow Hash)) (r : AuditRow Hash)
      → filter p (xs ++ r ∷ []) ≡ filter p xs ++ (if p r then r ∷ [] else [])
  filter-append p [] r = ground arith
  filter-append p (x ∷ xs) r = ground (arith, filter-append p xs r)

  chain-bound :
      (n b : ℕ) (prev : Hash) (rows : List (AuditRow Hash))
      → IsChain h n prev rows
      → n + length rows ≤ b
      → All (λ r. leb r.seq b ≡ true) rows
  chain-bound n b prev [] c k = tt
  chain-bound n b prev (r ∷ rs) c k =
      (leb_of_le r.seq b (omega (arith, c.0)), chain-bound (n + 1) b r.hash rs c.3 (omega arith))

  IsChain-append :
      (n : ℕ) (prev : Hash) (rows : List (AuditRow Hash)) (r : AuditRow Hash)
      → IsChain h n prev rows
      → r.seq ≡ n + length rows
      → r.prev_hash ≡ final h prev rows
      → digest (final h prev rows) (row_to_event h r) ≡ r.hash
      → IsChain h n prev (rows ++ r ∷ [])
  IsChain-append n prev [] r c s p d = (omega arith, p, d, tt)
  IsChain-append n prev (q ∷ rows) r c s p d =
      (c.0, c.1, c.2, IsChain-append (n + 1) q.hash rows r c.3 (omega arith) p d)

  seq_of-last :
      (n : ℕ) (prev : Hash) (r : AuditRow Hash) (rows : List (AuditRow Hash))
      → IsChain h n prev (r ∷ rows)
      → seq_of h (get_last (r ∷ rows)) ≡ n + length rows
  seq_of-last n prev r [] c = omega (arith, c.0)
  seq_of-last n prev r (q ∷ rows) c = omega (arith, seq_of-last (n + 1) r.hash q rows c.3)

  seq_of-chain :
      (rows : List (AuditRow Hash))
      → IsChain h 1 genesis rows
      → seq_of h (get_last rows) + 1 ≡ 1 + length rows
  seq_of-chain [] c = omega arith
  seq_of-chain (r ∷ rows) c = omega (arith, seq_of-last 1 genesis r rows c)

  rows_of-one :
      (table : List (AuditRow Hash)) (case_id : String) (r : AuditRow Hash)
      → IsChain h 1 genesis (rows_of h case_id table)
      → r.case_id ≡ case_id
      → r.seq ≡ 1 + length (rows_of h case_id table)
      → rows_of h case_id (table ++ r ∷ []) ≡ rows_of h case_id table ++ r ∷ []
  unfolding rows_of
  rows_of-one table case_id r c named s =
      let mine = filter (belongs case_id) table in
      let bound =
        unsorted-All seq_le (λ x. leb x.seq r.seq ≡ true) mine
          (chain-bound 1 r.seq genesis (sorted seq_le mine) c (omega arith)) in
      ap (sorted seq_le) (filter-append (belongs case_id) table r ∙ kept)
      ∙ sorted-append seq_le mine r bound
    where
      kept :
          (filter (belongs case_id) table ++ (if str_eq r.case_id case_id then r ∷ [] else []))
          ≡ filter (belongs case_id) table ++ r ∷ []
      kept = rw ((eq_iff r.case_id case_id).1 named)

  -- Events of the case.
  abbrev pub OfCase : String → List AuditEvent → Type 0
  OfCase case_id es = All (λ e. e.case_id ≡ case_id) es

  appended-IsChain :
      (case_id : String) (table : List (AuditRow Hash)) (e : AuditEvent)
      → e.case_id ≡ case_id
      → IsChain h 1 genesis (rows_of h case_id table)
      → let last = get_last (rows_of h case_id table) in
        let row =
          stored_row h case_id
            (seq_of h last + 1)
            (hash_of h last)
            (numbered (seq_of h last + 1) e) in
        (rows_of h case_id (table ++ row ∷ []) ≡ rows_of h case_id table ++ row ∷ [])
        × IsChain h 1 genesis (rows_of h case_id table ++ row ∷ [])
  unfolding stored_row row_to_event
  appended-IsChain case_id table e named c =
      let rows = rows_of h case_id table in
      let s = seq_of-chain rows c in
      let f = final-last_hash h rows in
      (
        rows_of-one table case_id _ c refl s,
        IsChain-append 1 genesis rows _ c s (sym f) (λ i.
            digest (f i)
              (record e { event_id = seq_of h (get_last rows) + 1; case_id = sym named i })),
      )

  new_rows-IsChain :
      (case_id : String) (es : List AuditEvent) (table : List (AuditRow Hash))
      → OfCase case_id es
      → IsChain h 1 genesis (rows_of h case_id table)
      → let last = get_last (rows_of h case_id table) in
        IsChain h 1 genesis
          (rows_of h case_id (table ++ new_rows h case_id (seq_of h last) (hash_of h last) es))
  unfolding new_rows
  new_rows-IsChain case_id [] table mine c =
      subst (λ t. IsChain h 1 genesis (rows_of h case_id t)) (sym (append-nil table)) c
  new_rows-IsChain case_id (e ∷ es) table mine c =
      let rows = rows_of h case_id table in
      let seq = seq_of h (get_last rows) + 1 in
      let row = stored_row h case_id seq (hash_of h (get_last rows)) (numbered seq e) in
      let (grown, chain) = appended-IsChain case_id table e mine.0 c in
      let rest =
        new_rows-IsChain case_id es (table ++ row ∷ []) mine.1
          (subst (IsChain h 1 genesis) (sym grown) chain) in
      let last : get_last (rows_of h case_id (table ++ row ∷ [])) ≡ some row =
        ap get_last grown ∙ get_last-append rows row in
      subst (λ t. IsChain h 1 genesis (rows_of h case_id t)) (append_assoc table (row ∷ []) _)
        (subst
          (λ o. IsChain h 1 genesis (
            rows_of h case_id
              ((table ++ row ∷ []) ++ new_rows h case_id (seq_of h o) (hash_of h o) es)))
          last rest)

  -- Appending events of a case to a table whose trail of that case is verified leaves the trail
  -- verified, whatever numbers the events came with.
  pub append_events-verified :
      (table : List (AuditRow Hash)) (case_id : String) (es : List AuditEvent)
      → OfCase case_id es
      → (verify_chain h table case_id).ok ≡ true
      → (verify_chain h (append_events h table case_id es).0 case_id).ok ≡ true
  unfolding append_events
  append_events-verified table case_id es mine ok =
      (verify_chain-IsChain_iff h _ case_id).1
        (new_rows-IsChain case_id es table mine ((verify_chain-IsChain_iff h table case_id).0 ok))

  not-belongs :
      (case_id other : String) (seq : ℕ) (prev : Hash) (es : List AuditEvent)
      → case_id ≢ other
      → filter (belongs other) (new_rows h case_id seq prev es) ≡ []
  unfolding new_rows
  not-belongs case_id other seq prev [] ne = refl
  not-belongs case_id other seq prev (e ∷ es) ne = ground (
    arith,
    eq_iff case_id other,
    not-belongs case_id other (seq + 1) (digest prev (numbered (seq + 1) e)) es ne,
  )

  filter-append-list :
      (p : AuditRow Hash → Bool) (xs ys : List (AuditRow Hash))
      → filter p (xs ++ ys) ≡ filter p xs ++ filter p ys
  filter-append-list p [] ys = refl
  filter-append-list p (x ∷ xs) ys = ground (arith, filter-append-list p xs ys)

  -- Appending to one case changes no other case's trail.
  pub append_events-others :
      (table : List (AuditRow Hash)) (case_id other : String) (es : List AuditEvent)
      → case_id ≢ other
      → rows_of h other (append_events h table case_id es).0 ≡ rows_of h other table
  unfolding append_events rows_of
  append_events-others table case_id other es ne = ap (sorted seq_le) (
      filter-append-list (belongs other) table _
      ∙ ap (λ r. filter (belongs other) table ++ r) (not-belongs case_id other _ _ es ne)
      ∙ append-nil _)
