-- ===== src/Pipeline/Cutoff.antt =====
-- `build_case` lets no later transaction into a case.
use finguard_major_project.Prelude.{
  ℕ, ◌+◌, ◌*◌, ◌≤◌, String, ◌≡◌, refl, subst, Bool, true, false, not, Option, List, [], ◌∷◌, map,
  arith, All, All-filter, any, leb, is_empty, ◌&&◌, ◌||◌, ◌==◌, Bool-cases, inl, inr, ap, sym, ◌∙◌,
}
use Prim.Native.Nat.{max}
use finguard_major_project.Prelude.Sorting.{sorted, sorted-All, any-sorted}
use finguard_major_project.Dict.{lookup}
use finguard_major_project.Domain.{Transaction}
use finguard_major_project.Outcome.{ok, ok-injective, >>=-eq-ok, guard, guard-ok}
use finguard_major_project.Pipeline.Models.{CanonicalCustomer, CanonicalTransaction, CanonicalCase}
use finguard_major_project.Pipeline.Store.{
  ConsolidatedStore, or_empty, day, member, find_all, latest, in_window, context_of, focus_ids_of,
  require, canonical_tx, earlier, assemble, build_case,
}

-- A transaction of the case is no later than the case's time.
abbrev pub Before : ℕ → CanonicalTransaction → Type 0
Before as_of c = c.transaction.timestamp ≤ as_of

-- A context transaction lies in the window and is none of the focus.
abbrev pub InContext : ℕ → ℕ → List String → CanonicalTransaction → Type 0
InContext as_of days focus_ids c =
    (c.transaction.timestamp ≤ as_of)
    × (as_of ≤ c.transaction.timestamp + days * day)
    × (member c.transaction.transaction_id focus_ids ≡ false)

-- No transaction of the case is from after its time, which is that of one of the focus, and the context
-- lies in the window.
abbrev pub Cut : ℕ → List String → CanonicalCase → Type 0
Cut days ids case =
    All (Before case.as_of) case.focus_transactions
    × (any (λ c. c.transaction.timestamp == case.as_of) case.focus_transactions ≡ true)
    × All (InContext case.as_of days ids) case.context_transactions

All-map {ℓ κ} :
    {A B : Type ℓ} (P : B → Type κ) (f : A → B) (xs : List A)
    → All (λ x. P (f x)) xs
    → All P (map f xs)
All-map P f [] h = tt
All-map P f (x ∷ xs) h = (h.0, All-map P f xs h.1)

All-weaken {ℓ κ} :
    {A : Type ℓ} (P Q : A → Type κ) (imp : (x : A) → P x → Q x) (xs : List A) → All P xs → All Q xs
All-weaken P Q imp [] h = tt
All-weaken P Q imp (x ∷ xs) h = (imp x h.0, All-weaken P Q imp xs h.1)

le-latest : (ts : List Transaction) → All (λ t. t.timestamp ≤ latest ts) ts
le-latest [] = tt
le-latest (t ∷ []) = (omega arith, tt)
le-latest (t ∷ u ∷ ts) = (
  omega arith,
  All-weaken (λ x. x.timestamp ≤ latest (u ∷ ts)) (λ x. x.timestamp ≤ latest (t ∷ u ∷ ts))
      (λ x h. omega arith) (u ∷ ts) (le-latest (u ∷ ts)),
)

any-map {ℓ κ} :
    {A : Type ℓ} {B : Type κ} (p : B → Bool) (f : A → B) (xs : List A)
    → any p (map f xs) ≡ any (λ x. p (f x)) xs
any-map p f [] = refl
any-map p f (x ∷ xs) = ap (λ b. p (f x) || b) (any-map p f xs)

-- Some transaction of a focus has its latest time.
latest-any :
    (t : Transaction) (ts : List Transaction)
    → any (λ u. u.timestamp == latest (t ∷ ts)) (t ∷ ts) ≡ true
latest-any t [] = ground arith
latest-any t (u ∷ ts) = elim (Bool-cases (leb t.timestamp (latest (u ∷ ts)))) [
  | inl e ↦ later (max t.timestamp (latest (u ∷ ts))) (ground arith) (latest-any u ts)
  | inr e ↦ first (max t.timestamp (latest (u ∷ ts))) (ground arith)
]
  where
    later :
        (m : ℕ)
        → m ≡ latest (u ∷ ts)
        → any (λ v. v.timestamp == latest (u ∷ ts)) (u ∷ ts) ≡ true
        → any (λ v. v.timestamp == m) (t ∷ u ∷ ts) ≡ true
    later m e h =
        subst (λ k. any (λ v. v.timestamp == k) (t ∷ u ∷ ts) ≡ true) (sym e)
          (right (t.timestamp == latest (u ∷ ts)) _ h)
      where
        right : (a b : Bool) → b ≡ true → (a || b) ≡ true
        right true b e = refl
        right false b e = e

    first : (m : ℕ) → m ≡ t.timestamp → any (λ v. v.timestamp == m) (t ∷ u ∷ ts) ≡ true
    first m e = ground arith

not-true : (b : Bool) → not b ≡ true → b ≡ false
not-true true h = sym h
not-true false h = refl

module _ (self : ConsolidatedStore) where
  abbrev InContextOf : ℕ → ℕ → List String → Transaction → Type 0
  InContextOf as_of days ids t = InContext as_of days ids (canonical_tx self t)

  selected-InContextOf :
      (as_of days : ℕ) (ids : List String) (t : Transaction)
      → (not (member t.transaction_id ids) && in_window as_of days t) ≡ true
      → InContextOf as_of days ids t
  selected-InContextOf as_of days ids t h = ground arith

  assemble-cutoff :
      (cid : String) (customer : CanonicalCustomer) (history : List Transaction) (ids : List String)
      (days : ℕ) (name : Option String) (focus : List Transaction)
      → is_empty focus ≡ false
      → Cut days ids (assemble self cid customer history ids days name focus)
  unfolding assemble context_of
  assemble-cutoff cid customer history ids days name [] full = cc full
  assemble-cutoff cid customer history ids days name (t ∷ ts) full =
      let focus = t ∷ ts in
      (
        All-map (Before (latest focus)) (canonical_tx self) (sorted earlier focus)
            (sorted-All earlier (λ t. t.timestamp ≤ latest focus) focus (le-latest focus)),
        any-map (λ c. c.transaction.timestamp == latest focus) (canonical_tx self)
              (sorted earlier focus)
            ∙ any-sorted earlier (λ u. u.timestamp == latest focus) focus
            ∙ latest-any t ts,
        All-map (InContext (latest focus) days ids) (canonical_tx self) _ (
            All-weaken _ (InContextOf (latest focus) days ids)
              (selected-InContextOf (latest focus) days ids) _ (All-filter _ history)),
      )

  -- A case that is built holds no transaction from after its time: `as_of` is the time of one of the
  -- focus transactions and none of them is later, and every context transaction lies in the window
  -- before `as_of` and is not in focus. The ledger records of these transactions may be later.
  pub build_case-cutoff :
      (cid : String) (o : Option (List String)) (days : ℕ) (name : Option String)
      (case : CanonicalCase)
      → build_case self cid o days name ≡ ok case
      → (ids : List String) × (focus_ids_of o (or_empty (lookup cid self.transactions_by_customer))
          ≡ ok ids)
        × Cut days ids case
  unfolding build_case
  build_case-cutoff cid o days name case h =
      let history = or_empty (lookup cid self.transactions_by_customer) in
      let (customer, e1, h1) = >>=-eq-ok (require (lookup cid self.customers) _) _ h in
      let (ids, e2, h2) = >>=-eq-ok (focus_ids_of o history) _ h1 in
      let (focus, e3, h3) = >>=-eq-ok (require (find_all history ids) _) _ h2 in
      let (u, e4, h4) = >>=-eq-ok (guard (not (is_empty focus)) _) _ h3 in
      let (v, e5, h5) = >>=-eq-ok (guard (leb (days * day) (latest focus)) _) _ h4 in
      (
        ids,
        e2,
        subst (Cut days ids) (ok-injective h5) (
            assemble-cutoff cid customer history ids days name focus
              (not-true (is_empty focus) (guard-ok _ _ u e4))),
      )
