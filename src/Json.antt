-- ===== src/Json.antt =====
-- JSON-like values: the payload of an evidence item (`dict[str, Any]`, backend/app/schemas/domain.py).
use finguard_major_project.Prelude.{
  ℕ, String, Bool, true, false, not, Option, none, some, ◌==◌, str_eq, if◌then◌else◌,
}
use finguard_major_project.Prelude.Int.{ℤ, pos, negsuc}

-- Integers are unbounded; a float is held in millionths.
mutual
  pub data Fields : Type 0 where
    end : Fields
    field : String → Value → Fields → Fields

  pub data Items : Type 0 where
    nil : Items
    cons : Value → Items → Items

  pub data Value : Type 0 where
    obj : Fields → Value
    arr : Items → Value
    str : String → Value
    int float : ℤ → Value
    bool : Bool → Value
    null : Value

abbrev pub is_zero : ℤ → Bool
is_zero (pos n) = n == 0
is_zero (negsuc n) = false

-- `bool(value)`.
unfoldable pub truthy : Value → Bool
truthy null = false
truthy (bool b) = b
truthy (int n) = not (is_zero n)
truthy (float n) = not (is_zero n)
truthy (str s) = not (str_eq s "")
truthy (arr nil) = false
truthy (arr (cons v vs)) = true
truthy (obj end) = false
truthy (obj (field k v fs)) = true

abbrev pub is_pos : ℤ → ℕ → Bool
is_pos (pos n) k = n == k
is_pos (negsuc n) k = false

-- `value == 1`: an integer, a float or `True`.
unfoldable pub equals_one : Value → Bool
equals_one null = false
equals_one (bool b) = b
equals_one (int n) = is_pos n 1
equals_one (float n) = is_pos n 1000000
equals_one (str s) = false
equals_one (arr xs) = false
equals_one (obj fs) = false

-- `payload.get(key)`.
unfoldable pub get : String → Fields → Option Value
get k end = none
get k (field j v fs) = let rest = get k fs in if str_eq j k then some v else rest

-- `payload.get(key)` where a missing key reads as `None`.
unfoldable pub get_or_null : String → Fields → Value
unfolding get
get_or_null k fs = elim (get k fs) [ none ↦ null | some v ↦ v ]
