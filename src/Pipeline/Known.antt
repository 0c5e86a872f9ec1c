-- ===== src/Pipeline/Known.antt =====
-- `build_case` accepts every known focus whose window does not begin before time 0.
use finguard_major_project.Prelude.{
  ℕ, ◌*◌, ◌≤◌, String, ◌≡◌, refl, subst, Bool, true, false, not, Option, none, some, List, [], ◌∷◌,
  arith, All, all, leb, is_empty, is_some, &&_split, Bool-cases, inl, inr, ◌∙◌, str_eq,
  Option-cases,
}
use finguard_major_project.Dict.{lookup}
use finguard_major_project.Domain.{Transaction}
use finguard_major_project.Outcome.{Error, ok, raised, ◌>>=◌, ◌>>◌, guard}
use finguard_major_project.Pipeline.Models.{CanonicalCase}
use finguard_major_project.Pipeline.Store.{
  ConsolidatedStore, or_empty, day, member, ids_of, by_id, find_all, latest, require, assemble,
  build_case,
}

-- A known id is found.
by_id-known :
    (k : String) (history : List Transaction)
    → member k (ids_of history) ≡ true
    → is_some (by_id k history) ≡ true
unfolding by_id
by_id-known k [] h = cc h
by_id-known k (t ∷ ts) h = ground (arith, by_id-known k ts)

cons-found :
    (o : Option Transaction) (r : Option (List Transaction))
    → is_some o ≡ true
    → is_some r ≡ true
    → (us : List Transaction) × (◌≡◌ {A = Option (List Transaction)}
        (elim o [ none ↦ none | some t ↦ elim r [ none ↦ none | some ts ↦ some (t ∷ ts) ] ])
        (some us))
      × (is_empty us ≡ false)
cons-found none r h k = cc h
cons-found (some t) none h k = cc k
cons-found (some t) (some ts) h k = (t ∷ ts, refl, refl)

mutual
  unfolding find_all

  find_all-some :
      (history : List Transaction) (ids : List String)
      → all (λ k. member k (ids_of history)) ids ≡ true
      → is_some (find_all history ids) ≡ true
  find_all-some history [] h = refl
  find_all-some history (k ∷ ks) h = ground (arith, by_id-known k history, find_all-some history ks)

find_all-known :
    (history : List Transaction) (ids : List String)
    → all (λ k. member k (ids_of history)) ids ≡ true
    → is_empty ids ≡ false
    → (ts : List Transaction) × (find_all history ids ≡ some ts) × (is_empty ts ≡ false)
unfolding find_all
find_all-known history [] h k = cc k
find_all-known history (k ∷ ks) h e =
    let (first, rest) = &&_split (member k (ids_of history)) _ h in
    cons-found (by_id k history) (find_all history ks) (by_id-known k history first)
      (find_all-some history ks rest)

-- What holds of every transaction of a history holds of those that are found in it.
by_id-All {κ} :
    (P : Transaction → Type κ) (k : String) (history : List Transaction) (t : Transaction)
    → All P history
    → by_id k history ≡ some t
    → P t
unfolding by_id
by_id-All P k [] t h e = absurd (cc e)
by_id-All P k (u ∷ us) t h e = elim (Option-cases (by_id k us)) [
  | inr (v, found) ↦ by_id-All P k us t h.1 (found ∙ rw found at e)
  | inl n ↦ elim (Bool-cases (str_eq u.transaction_id k)) [
    | inl same ↦ subst P (some-injective (rw (n, same) at e)) h.0
    | inr other ↦ absurd (cc (rw (n, other) at e))
  ]
]
  where
    some-injective : {a b : Transaction} → some a ≡ some b → a ≡ b
    some-injective x = cc x

-- The first that is found bounds the latest from below.
find_all-latest :
    (bound : ℕ) (history : List Transaction) (ids : List String) (ts : List Transaction)
    → All (λ t. bound ≤ t.timestamp) history
    → find_all history ids ≡ some ts
    → is_empty ts ≡ false
    → leb bound (latest ts) ≡ true
unfolding find_all
find_all-latest bound history [] ts h e full = absurd (cc (e, full))
find_all-latest bound history (k ∷ ks) ts h e full = elim (Option-cases (by_id k history)) [
  | inl n ↦ absurd (cc (rw (n, find_all) at e))
  | inr (t, found) ↦ elim (Option-cases (find_all history ks)) [
    | inl n ↦ absurd (cc (rw (found, n, find_all) at e))
    | inr (us, rest) ↦
        subst (λ l. leb bound (latest l) ≡ true) (some-injective (rw (found, rest, find_all) at e))
          (at_head t us (by_id-All (λ u. bound ≤ u.timestamp) k history t h found))
  ]
]
  where
    some-injective : {a b : List Transaction} → some a ≡ some b → a ≡ b
    some-injective x = cc x

    at_head :
        (t : Transaction) (us : List Transaction)
        → bound ≤ t.timestamp
        → leb bound (latest (t ∷ us)) ≡ true
    at_head t [] b = ground arith
    at_head t (u ∷ us) b = ground arith

chain-ok {ℓ} :
    {A B C : Type ℓ} (o : Option A) (r : Option B) (empty room : B → Bool) (make : A → B → C)
    (e d e' e'' : Error)
    → is_some o ≡ true
    → (b : B) × (r ≡ some b) × (empty b ≡ false) × (room b ≡ true)
    → (c : C) × ((require o (raised e) >>= λ a. require r (raised d) >>= λ b.
          guard (not (empty b)) e' >> (guard (room b) e'' >> ok (make a b)))
        ≡ ok c)
chain-ok none r empty room make e d e' e'' h k = cc h
chain-ok (some a) none empty room make e d e' e'' h k = cc (k.1)
chain-ok (some a) (some b) empty room make e d e' e'' h (b', same, full, wide) =
    (make a b, open_guards)
  where
    open_guards :
        (guard (not (empty b)) e' >> (guard (room b) e'' >> ok (make a b))) ≡ ok (make a b)
    open_guards = ground arith

-- A customer of the store, and a focus of known transactions that is not empty: the case is built, where
-- no transaction of the customer lies so early that the window would begin before time 0.
pub build_case-known :
    (self : ConsolidatedStore) (cid : String) (ids : List String) (days : ℕ) (name : Option String)
    → is_some (lookup cid self.customers) ≡ true
    → is_empty ids ≡ false
    → all (λ k. member k (ids_of (or_empty (lookup cid self.transactions_by_customer)))) ids ≡ true
    → All (λ t. days * day ≤ t.timestamp) (or_empty (lookup cid self.transactions_by_customer))
    → (case : CanonicalCase) × (build_case self cid (some ids) days name ≡ ok case)
unfolding build_case
build_case-known self cid ids days name known some_focus all_known late =
    let history = or_empty (lookup cid self.transactions_by_customer) in
    let (focus, found, full) = find_all-known history ids all_known some_focus in
    chain-ok (lookup cid self.customers) (find_all history ids) is_empty
      (λ focus. leb (days * day) (latest focus))
      (λ customer focus. assemble self cid customer history ids days name focus) _ _ _ _ known
      (focus, found, full, find_all-latest (days * day) history ids focus late found full)
