-- ===== src/Prelude/Sorting.antt =====
-- Python's stable `sorted` with a key, as insertion before the first entry that is not smaller.
use mathlib.Core.List.{List, [], ◌∷◌, Perm}
use mathlib.Core.List.Perm
use mathlib.Core.Bool.{Bool, true, false, ◌||◌}
use Prim.Native.Nat.{suc}
use mathlib.Core.Path.{◌≡◌, refl, ap}
use mathlib.Core.Logic.{inl, inr}
use native.Mathlib.Omega.{arith}
use finguard_major_project.Prelude.Tests.{if◌then◌else◌, Bool-cases}
use finguard_major_project.Prelude.Lists.{All, any, length}

module _ {ℓ} {A : Type ℓ} (le : A → A → Bool) where
  unfoldable pub insert_by : A → List A → List A
  insert_by x [] = x ∷ []
  insert_by x (y ∷ ys) = if le x y then x ∷ y ∷ ys else y ∷ insert_by x ys

  unfoldable pub sorted : List A → List A
  unfolding insert_by
  sorted [] = []
  sorted (x ∷ xs) = insert_by x (sorted xs)

  -- The head of a sorted list is below the rest.
  abbrev pub HeadLe : A → List A → Type 0
  HeadLe x [] = Unit
  HeadLe x (y ∷ ys) = le x y ≡ true

  abbrev pub IsSorted : List A → Type 0
  IsSorted [] = Unit
  IsSorted (x ∷ xs) = HeadLe x xs × IsSorted xs

  pub insert_by-perm : (x : A) (ys : List A) → Perm (insert_by x ys) (x ∷ ys)
  unfolding insert_by
  insert_by-perm x [] = Perm.refl _
  insert_by-perm x (y ∷ ys) = elim (Bool-cases (le x y)) [
    | inl h ↦ rw h (Perm.refl _)
    | inr h ↦ rw h (Perm.trans (Perm.cons y (insert_by-perm x ys)) (Perm.swap x y ys))
  ]

  pub sorted-perm : (xs : List A) → Perm (sorted xs) xs
  unfolding sorted
  sorted-perm [] = Perm.refl _
  sorted-perm (x ∷ xs) = Perm.trans (insert_by-perm x (sorted xs)) (Perm.cons x (sorted-perm xs))

  module _ (total : (x y : A) → le x y ≡ false → le y x ≡ true) where
    insert_by-HeadLe :
        (z x : A) (ys : List A) → le z x ≡ true → HeadLe z ys → HeadLe z (insert_by x ys)
    unfolding insert_by
    insert_by-HeadLe z x [] h k = h
    insert_by-HeadLe z x (y ∷ ys) h k = ground arith

    pub insert_by-IsSorted : (x : A) (ys : List A) → IsSorted ys → IsSorted (insert_by x ys)
    unfolding insert_by
    insert_by-IsSorted x [] h = (tt, tt)
    insert_by-IsSorted x (y ∷ ys) h = elim (Bool-cases (le x y)) [
      | inl e ↦ rw e (e, h)
      | inr e ↦ rw e (insert_by-HeadLe y x ys (total x y e) h.0, insert_by-IsSorted x ys h.1)
    ]

    pub sorted-IsSorted : (xs : List A) → IsSorted (sorted xs)
    unfolding sorted
    sorted-IsSorted [] = tt
    sorted-IsSorted (x ∷ xs) = insert_by-IsSorted x (sorted xs) (sorted-IsSorted xs)

  pub insert_by-All {κ} :
      (P : A → Type κ) (x : A) (ys : List A) → P x → All P ys → All P (insert_by x ys)
  unfolding insert_by
  insert_by-All P x [] h k = (h, tt)
  insert_by-All P x (y ∷ ys) h k = elim (Bool-cases (le x y)) [
    | inl e ↦ rw e (h, k)
    | inr e ↦ rw e (k.0, insert_by-All P x ys h k.1)
  ]

  pub sorted-All {κ} : (P : A → Type κ) (xs : List A) → All P xs → All P (sorted xs)
  unfolding sorted
  sorted-All P [] h = tt
  sorted-All P (x ∷ xs) h = insert_by-All P x (sorted xs) h.0 (sorted-All P xs h.1)

  any-insert_by : (p : A → Bool) (x : A) (ys : List A) → any p (insert_by x ys) ≡ (p x || any p ys)
  unfolding insert_by
  any-insert_by p x [] = refl
  any-insert_by p x (y ∷ ys) = ground (arith, any-insert_by p x ys)

  pub any-sorted : (p : A → Bool) (xs : List A) → any p (sorted xs) ≡ any p xs
  unfolding sorted
  any-sorted p [] = refl
  any-sorted p (x ∷ xs) = ground (arith, any-insert_by p x (sorted xs), any-sorted p xs)

  pub unsorted-All {κ} : (P : A → Type κ) (xs : List A) → All P (sorted xs) → All P xs
  unfolding sorted
  unsorted-All P [] h = tt
  unsorted-All P (x ∷ xs) h = let (k, rest) = split x (sorted xs) h in (k, unsorted-All P xs rest)
    where
      split : (x : A) (ys : List A) → All P (insert_by x ys) → P x × All P ys
      split x [] h = h
      split x (y ∷ ys) h = elim (Bool-cases (le x y)) [
        | inl e ↦ let k = rw e at h in (k.0, k.1)
        | inr e ↦ let k = rw e at h in let (a, b) = split x ys k.1 in (a, (k.0, b))
      ]

  pub length-insert_by : (x : A) (ys : List A) → length (insert_by x ys) ≡ suc (length ys)
  unfolding insert_by
  length-insert_by x [] = refl
  length-insert_by x (y ∷ ys) = ground (arith, length-insert_by x ys)

  pub length-sorted : (xs : List A) → length (sorted xs) ≡ length xs
  unfolding sorted
  length-sorted [] = refl
  length-sorted (x ∷ xs) = omega (arith, length-insert_by x (sorted xs), length-sorted xs)

  pub sorted_one : (xs : List A) (p : A) → sorted xs ≡ p ∷ [] → xs ≡ p ∷ []
  unfolding sorted insert_by
  sorted_one [] p h = cc
  sorted_one (x ∷ []) p h = h
  sorted_one (x ∷ y ∷ xs) p h = absurd (omega (arith, ap length h, length-sorted (x ∷ y ∷ xs)))

  pub sorted_nil : (xs : List A) → sorted xs ≡ [] → xs ≡ []
  sorted_nil [] h = refl
  sorted_nil (x ∷ xs) h = absurd (omega (arith, ap length h, length-sorted (x ∷ xs)))
