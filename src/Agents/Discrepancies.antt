-- ===== src/Agents/Discrepancies.antt =====
-- What the reconciliation agent returns: an answer for every case, and an item for each discrepancy
-- (agents/reconciliation/agent.py).
use mathlib.Core.List.{append_assoc}
use finguard_major_project.Prelude.{
  ℕ, String, ◌≡◌, ◌≢◌, refl, sym, ap, subst, ◌∙◌, Bool, true, false, none, some, List, [], ◌∷◌,
  ◌++◌, All, map, str_eq, is_empty, eq_iff, if◌then◌else◌, Option-cases, inl, inr,
}
use finguard_major_project.Prelude.Sorting.{sorted-All, unsorted-All}
use finguard_major_project.Domain.{Evidence, ReconciliationResult, Discrepancy}
use finguard_major_project.Outcome.{ok, >>=-eq-ok, ok-injective}
use finguard_major_project.Pipeline.Models.{CanonicalCase, CanonicalTransaction}
use finguard_major_project.Contracts.{ReconciliationOutput}
use finguard_major_project.Reconciliation.Config.{ReconciliationConfig}
use finguard_major_project.Reconciliation.Service.{
  reconcile as reconcile_one, reconcile_case, result_le,
}
use finguard_major_project.Agents.Evidence.{
  Rendering, discrepancy_evidence, reconciliation_evidence,
}
use finguard_major_project.Agents.Reconciliation.{
  result_of, focus_ids, focus_evidence, context_evidence, evidence_for, reconcile,
}

-- An element somewhere in a list.
pub record Within {ℓ} {A : Type ℓ} (x : A) (xs : List A) : Type ℓ where
  pub before : List A
  pub after : List A
  pub split : xs ≡ before ++ x ∷ after

module _ {ℓ} {A : Type ℓ} where
  pub Within-All {κ} : (P : A → Type κ) (x : A) (xs : List A) → Within x xs → All P xs → P x
  Within-All P x xs w all = at w.before w.after (subst (All P) w.split all)
    where
      at : (ys zs : List A) → All P (ys ++ x ∷ zs) → P x
      at [] zs g = g.0
      at (y ∷ ys) zs g = at ys zs g.1

  -- What holds of each element holds of all.
  All-within {κ} : (P : A → Type κ) (xs : List A) → ((x : A) → Within x xs → P x) → All P xs
  All-within P [] f = tt
  All-within P (x ∷ xs) f = (
    f x (record { before = []; after = xs; split = refl }),
    All-within P xs (λ y w.
        f y (record { before = x ∷ w.before; after = w.after; split = ap (λ l. x ∷ l) w.split })),
  )

  pub Within-append_left : (x : A) (xs ys : List A) → Within x xs → Within x (xs ++ ys)
  Within-append_left x xs ys w = record {
    before = w.before;
    after = w.after ++ ys;
    split = ap (λ l. l ++ ys) w.split ∙ append_assoc w.before (x ∷ w.after) ys;
  }

  pub Within-append_right : (x : A) (xs ys : List A) → Within x ys → Within x (xs ++ ys)
  Within-append_right x xs ys w = record {
    before = xs ++ w.before;
    after = w.after;
    split = ap (λ l. xs ++ l) w.split ∙ sym (append_assoc xs w.before (x ∷ w.after));
  }

  pub Within-map {κ} :
      {B : Type κ} (f : A → B) (x : A) (xs : List A) → Within x xs → Within (f x) (map f xs)
  Within-map f x xs w = record {
    before = map f w.before;
    after = map f w.after;
    split = ap (map f) w.split ∙ map_split w.before;
  }
    where
      map_split : (ys : List A) → map f (ys ++ x ∷ w.after) ≡ map f ys ++ f x ∷ map f w.after
      map_split [] = refl
      map_split (y ∷ ys) = ap (λ l. f y ∷ l) (map_split ys)

  All-map {κ μ} :
      {B : Type κ} (P : B → Type μ) (f : A → B) (xs : List A)
      → All (λ x. P (f x)) xs
      → All P (map f xs)
  All-map P f [] g = tt
  All-map P f (x ∷ xs) g = (g.0, All-map P f xs g.1)

  map-All {κ μ} :
      {B : Type κ} (P : B → Type μ) (f : A → B) (xs : List A)
      → All P (map f xs)
      → All (λ x. P (f x)) xs
  map-All P f [] g = tt
  map-All P f (x ∷ xs) g = (g.0, map-All P f xs g.1)

result_of-none :
    (k : String) (rs : List ReconciliationResult)
    → result_of k rs ≡ none
    → All (λ r. r.transaction_id ≢ k) rs
result_of-none k [] e = tt
result_of-none k (r ∷ rs) e = elim (Option-cases (result_of k rs)) [
  | inl h ↦ (other r (rw h at e), result_of-none k rs h)
  | inr (later, h) ↦ absurd (cc (rw h at e))
]
  where
    other :
        (r : ReconciliationResult)
        → (if str_eq r.transaction_id k then some r else none) ≡ none
        → r.transaction_id ≢ k
    other r h same = cc (rw ((eq_iff r.transaction_id k).1 same) at h)

this_one :
    (b : Bool) (r found : ReconciliationResult)
    → (if b then some r else none) ≡ some found
    → (b ≡ true) × (r ≡ found)
this_one true r found h = (refl, cc h)
this_one false r found h = cc h

result_of_unique :
    (k : String) (one : ReconciliationResult) (rs : List ReconciliationResult)
    → All (λ r. r.transaction_id ≡ k → r ≡ one) rs
    → (found : ReconciliationResult) → result_of k rs ≡ some found
    → found ≡ one
result_of_unique k one [] only found e = absurd (cc e)
result_of_unique k one (r ∷ rs) only found e = elim (Option-cases (result_of k rs)) [
  | inl h ↦
      let (test, same) = this_one (str_eq r.transaction_id k) r found (rw h at e) in
      sym same ∙ only.0 ((eq_iff r.transaction_id k).0 test)
  | inr (later, h) ↦ result_of_unique k one rs only.1 found (h ∙ rw h at e)
]

-- A result that is the only one of its transaction is the one that is found.
result_of-found :
    (k : String) (one : ReconciliationResult) (rs : List ReconciliationResult)
    → (All (λ r. r.transaction_id ≢ k) rs → ⊥)
    → All (λ r. r.transaction_id ≡ k → r ≡ one) rs
    → result_of k rs ≡ some one
result_of-found k one rs some_ only = elim (Option-cases (result_of k rs)) [
  | inl h ↦ absurd (some_ (result_of-none k rs h))
  | inr (found, h) ↦ h ∙ ap some (result_of_unique k one rs only found h)
]

module _ (config : ReconciliationConfig) (case : CanonicalCase) where
  abbrev one_of : CanonicalTransaction → ReconciliationResult
  one_of c = reconcile_one config c.transaction c.ledger_records (some case.as_of)

  abbrev all_of : List CanonicalTransaction
  all_of = case.focus_transactions ++ case.context_transactions

  -- Each transaction of the focus has a result.
  not_missing :
      (c : CanonicalTransaction)
      → Within c case.focus_transactions
      → All (λ r. r.transaction_id ≢ c.transaction.transaction_id) (reconcile_case config case)
      → ⊥
  unfolding reconcile_case reconcile_one
  not_missing c w missing =
      Within-All (λ x. x.transaction.transaction_id ≢ c.transaction.transaction_id) c all_of
        (Within-append_left c case.focus_transactions case.context_transactions w)
        (map-All (λ r. r.transaction_id ≢ c.transaction.transaction_id) one_of all_of
          (unsorted-All result_le (λ r. r.transaction_id ≢ c.transaction.transaction_id)
            (map one_of all_of) missing))
        refl

  -- The one transaction of its name is reconciled into the result that is found.
  pub result_of-focus :
      (c : CanonicalTransaction)
      → Within c case.focus_transactions
      → All (λ x. x.transaction.transaction_id ≡ c.transaction.transaction_id → x ≡ c) all_of
      → result_of c.transaction.transaction_id (reconcile_case config case) ≡ some (one_of c)
  unfolding reconcile_case reconcile_one
  result_of-focus c w only =
      result_of-found c.transaction.transaction_id (one_of c) _ (not_missing c w) (
        sorted-All result_le _ (map one_of all_of) (
          All-map (λ r. r.transaction_id ≡ c.transaction.transaction_id → r ≡ one_of c) one_of
            all_of (weaken all_of only)))
    where
      weaken :
          (xs : List CanonicalTransaction)
          → All (λ x. x.transaction.transaction_id ≡ c.transaction.transaction_id → x ≡ c) xs
          → All
              (λ x.
                x.transaction.transaction_id ≡ c.transaction.transaction_id → one_of x ≡ one_of c)
              xs
      weaken [] g = tt
      weaken (x ∷ xs) g = ((λ e. ap one_of (g.0 e)), weaken xs g.1)

module _ (rendering : Rendering) where
  focus_evidence-answers :
      (ks : List String) (results : List ReconciliationResult) (now : ℕ)
      → All (λ k. (r : ReconciliationResult) × (result_of k results ≡ some r)) ks
      → (ev : List Evidence) × (focus_evidence rendering ks results now ≡ ok ev)
  unfolding focus_evidence
  focus_evidence-answers [] results now found = ([], refl)
  focus_evidence-answers (k ∷ ks) results now ((r, e), found) =
      let (rest, h) = focus_evidence-answers ks results now found in
      (reconciliation_evidence rendering r now ++ rest, rw (e, h))

  focus_evidence-Within :
      (pre post : List String) (k : String) (results : List ReconciliationResult) (now : ℕ)
      (r : ReconciliationResult) (item : Evidence) (ev : List Evidence)
      → result_of k results ≡ some r
      → Within item (reconciliation_evidence rendering r now)
      → focus_evidence rendering (pre ++ k ∷ post) results now ≡ ok ev
      → Within item ev
  unfolding focus_evidence
  focus_evidence-Within [] post k results now r item ev found w h =
      let (items, e1, h1) = >>=-eq-ok (evidence_for rendering (result_of k results) k now) _ h in
      let (rest, e2, h2) = >>=-eq-ok (focus_evidence rendering post results now) _ h1 in
      let same : reconciliation_evidence rendering r now ≡ items = ok-injective (rw found at e1) in
      subst (Within item) (ok-injective h2)
        (Within-append_left item items rest (subst (Within item) same w))
  focus_evidence-Within (j ∷ pre) post k results now r item ev found w h =
      let (items, e1, h1) = >>=-eq-ok (evidence_for rendering (result_of j results) j now) _ h in
      let (rest, e2, h2) =
        >>=-eq-ok (focus_evidence rendering (pre ++ k ∷ post) results now) _ h1 in
      subst (Within item) (ok-injective h2) (
        Within-append_right item items rest
          (focus_evidence-Within pre post k results now r item rest found w e2))

  discrepancy-Within :
      (r : ReconciliationResult) (d : Discrepancy) (now : ℕ)
      → Within d r.discrepancies
      → Within
          (discrepancy_evidence rendering r.transaction_id now d)
          (reconciliation_evidence rendering r now)
  unfolding reconciliation_evidence
  discrepancy-Within r d now w =
      rw (some_discrepancy d r.discrepancies w)
        (Within-map (discrepancy_evidence rendering r.transaction_id now) d r.discrepancies w)
    where
      some_discrepancy :
          (d : Discrepancy) (ds : List Discrepancy) → Within d ds → is_empty ds ≡ false
      some_discrepancy d ds w = ap is_empty w.split ∙ full w.before
        where
          full : (xs : List Discrepancy) → is_empty (xs ++ d ∷ w.after) ≡ false
          full [] = refl
          full (x ∷ xs) = refl

  module _ (config : ReconciliationConfig) (case : CanonicalCase) (now : ℕ) where
    -- The agent answers for every case: each transaction of the focus has a result, so the lookup
    -- of the loop never fails.
    pub reconcile-answers :
        (out : ReconciliationOutput) × (reconcile rendering config case now ≡ ok out)
    unfolding reconcile
    reconcile-answers =
        let results = reconcile_case config case in
        let (ev, e) = focus_evidence-answers (focus_ids case) results now (
          All-map _ (λ c. c.transaction.transaction_id) case.focus_transactions
            (All-within _ case.focus_transactions found)) in
        (
          record {
            results = results;
            evidence = ev ++ context_evidence rendering case results now ∷ [];
          },
          rw e,
        )
      where
        found :
            (c : CanonicalTransaction)
            → Within c case.focus_transactions
            → (r : ReconciliationResult) × (result_of c.transaction.transaction_id
                  (reconcile_case config case)
                ≡ some r)
        found c w =
            elim (Option-cases
              (result_of c.transaction.transaction_id (reconcile_case config case))) [
                | inl h ↦ absurd (not_missing config case c w (result_of-none _ _ h))
                | inr h ↦ h
              ]

    -- The evidence of the agent has an item for each discrepancy of a transaction of the focus that
    -- no other transaction of the case shares its name with.
    pub reconcile-Within :
        (c : CanonicalTransaction) (d : Discrepancy) (out : ReconciliationOutput)
        → Within c case.focus_transactions
        → All
            (λ x. x.transaction.transaction_id ≡ c.transaction.transaction_id → x ≡ c)
            (case.focus_transactions ++ case.context_transactions)
        → Within d (one_of config case c).discrepancies
        → reconcile rendering config case now ≡ ok out
        → Within (discrepancy_evidence rendering c.transaction.transaction_id now d) out.evidence
    unfolding reconcile reconcile_one
    reconcile-Within c d out w only wd e =
        let k = c.transaction.transaction_id in
        let results = reconcile_case config case in
        let (ev, e1, h1) = >>=-eq-ok (focus_evidence rendering (focus_ids case) results now) _ e in
        let in_ids = Within-map (λ x. x.transaction.transaction_id) c case.focus_transactions w in
        let item = discrepancy_evidence rendering k now d in
        let in_ev =
          focus_evidence-Within in_ids.before in_ids.after k results now (one_of config case c) item
            ev (result_of-focus config case c w only)
            (discrepancy-Within (one_of config case c) d now wd)
            (subst (λ ks. focus_evidence rendering ks results now ≡ ok ev) in_ids.split e1) in
        subst (λ o. Within item o.evidence) (ok-injective h1) (Within-append_left item ev _ in_ev)
