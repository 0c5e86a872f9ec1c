-- ===== src/Guardrails/Cited.antt =====
-- Searches of the items that references cite (guardrails/evidence_validator.py).
use mathlib.Core.List.{flat_map}
use finguard_major_project.Prelude.{
  String, ◌≡◌, refl, ap, ◌∙◌, Bool, false, not, ◌||◌, Option, none, some, List, [], ◌∷◌, map, arith,
  is_empty, all, any, any-append, filter, Bool-cases, Option-cases, inl, inr,
}
use finguard_major_project.Prelude.Sorting.{sorted, insert_by}
use finguard_major_project.Guardrails.Tokens.{Item}
use finguard_major_project.Guardrails.Claims.{EvidenceIndex, resolve, resolved_items}

-- The test on the item that a reference resolves to.
abbrev at_item : (Item → Bool) → Option Item → Bool
at_item p none = false
at_item p (some item) = p item

-- One of the references resolves to an item that passes the test.
abbrev pub cites : EvidenceIndex → List String → (Item → Bool) → Bool
cites index refs p = any (λ r. at_item p (resolve index r)) refs

pub any-resolved_items :
    (index : EvidenceIndex) (refs : List String) (p : Item → Bool)
    → any p (resolved_items index refs) ≡ cites index refs p
any-resolved_items index [] p = refl
any-resolved_items index (r ∷ rs) p = elim (Option-cases (resolve index r)) [
  | inl e ↦ rw e (any-resolved_items index rs p)
  | inr (item, e) ↦ rw e (ap (λ b. p item || b) (any-resolved_items index rs p))
]

pub is_empty-sorted {ℓ} :
    {A : Type ℓ} (le : A → A → Bool) (xs : List A) → is_empty (sorted le xs) ≡ is_empty xs
unfolding sorted
is_empty-sorted le [] = refl
is_empty-sorted {A = A} le (x ∷ xs) = inserted (sorted le xs)
  where
    inserted : (ys : List A) → is_empty (insert_by le x ys) ≡ false
    inserted [] = refl
    inserted (y ∷ ys) = ground arith

pub any-flat_map {ℓ κ} :
    {A : Type ℓ} {B : Type κ} (p : B → Bool) (f : A → List B) (xs : List A)
    → any p (flat_map f xs) ≡ any (λ x. any p (f x)) xs
unfolding flat_map
any-flat_map p f [] = refl
any-flat_map p f (x ∷ xs) =
    any-append p (f x) (flat_map f xs) ∙ ap (λ b. any p (f x) || b) (any-flat_map p f xs)

pub is_empty-filter {ℓ} :
    {A : Type ℓ} (p : A → Bool) (xs : List A) → is_empty (filter p xs) ≡ not (any p xs)
is_empty-filter p [] = refl
is_empty-filter p (x ∷ xs) = elim (Bool-cases (p x)) [
  | inl e ↦ rw e refl
  | inr e ↦ rw e (is_empty-filter p xs)
]

-- Whatever fails the test, found empty, says that all pass a test with the same values.
pub is_empty-unmet {ℓ} :
    {A : Type ℓ} (p q : A → Bool)
    → ((x : A) → p x ≡ q x)
    → (xs : List A) → is_empty (filter (λ x. not (p x)) xs) ≡ all q xs
is_empty-unmet p q same [] = refl
is_empty-unmet p q same (x ∷ xs) = elim (Bool-cases (q x)) [
  | inl e ↦ rw (same x, e) (is_empty-unmet p q same xs)
  | inr e ↦ rw (same x, e) refl
]

pub is_empty-map {ℓ κ} :
    {A : Type ℓ} {B : Type κ} (f : A → B) (xs : List A) → is_empty (map f xs) ≡ is_empty xs
is_empty-map f [] = refl
is_empty-map f (x ∷ xs) = refl
