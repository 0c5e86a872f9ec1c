-- ===== src/Guardrails/Tokens.antt =====
-- guardrails/evidence_validator.py: checkable tokens, evidence items, and what a claim's tokens
-- miss in them. A number is in billionths; a frozenset is a list.
use finguard_major_project.Prelude.{
  ℕ, zero, suc, ◌+◌, ◌-◌, ◌*◌, ◌/◌, String, Bool, true, false, not, ◌&&◌, List, [], ◌∷◌, ◌++◌, map,
  any, filter, is_empty, leb, ◌==◌, str_eq, if◌then◌else◌,
}
use Prim.Native.Nat.{◌^◌}
use mathlib.Core.List.{flat_map}
use finguard_major_project.Prelude.Int.{ℤ, ◌-ℤ◌, nat_abs}
use finguard_major_project.Prelude.Sorting.{sorted}
use finguard_major_project.Strings.{Text, lit, num, decimal, str_le, casefold}

pub record Tokens : Type 0 where
  pub ids : List String
  -- the value, and the decimals as written
  pub numbers : List (ℤ × ℕ)
  pub dates : List String
  pub hours : List ℕ
  pub currencies : List String
  pub times : List (ℕ × ℕ)
  pub month_days : List (ℕ × ℕ)

abbrev pub tokens_empty : Tokens → Bool
tokens_empty t =
    is_empty t.ids
    && is_empty t.numbers
    && is_empty t.dates
    && is_empty t.hours
    && is_empty t.currencies
    && is_empty t.times
    && is_empty t.month_days

pub data ItemKind : Type 0 where
  evidence knowledge : ItemKind

abbrev pub is_case : ItemKind → Bool
is_case evidence = true
is_case knowledge = false

pub record Item : Type 0 where
  pub ref : String
  pub kind : ItemKind
  pub text : String
  pub tokens : Tokens
  pub numbers : List ℤ
  pub hours : List ℕ

abbrev pub pair_eq : ℕ × ℕ → ℕ × ℕ → Bool
pair_eq a b = a.0 == b.0 && a.1 == b.1

abbrev pub pair_le : ℕ × ℕ → ℕ × ℕ → Bool
pair_le a b = if a.0 == b.0 then leb a.1 b.1 else leb a.0 b.0

abbrev pub nat_eq : ℕ → ℕ → Bool
nat_eq a b = a == b

-- `wanted - have`, of sets as lists.
abbrev pub minus {ℓ} : {A : Type ℓ} → (A → A → Bool) → List A → List A → List A
minus eq wanted have = filter (λ w. not (any (λ a. eq a w) have)) wanted

-- The digit at a place of a text of code points.
abbrev digit_at : ℕ → List ℕ → ℕ
digit_at i [] = 0
digit_at zero (c ∷ cs) = c - 48
digit_at (suc i) (c ∷ cs) = digit_at i cs

-- `(int(d[5:7]), int(d[8:10]))` of an ISO date.
unfoldable pub month_day : String → ℕ × ℕ
month_day d =
    let cs = casefold d in (10 * digit_at 5 cs + digit_at 6 cs, 10 * digit_at 8 cs + digit_at 9 cs)

-- `abs(value - a) <= 0.5 * 10 ** (-decimals) + 1e-9`
abbrev pub close : ℤ → ℕ → ℤ → Bool
close value decimals a = leb (nat_abs (value -ℤ a)) (500000000 / 10 ^ decimals + 1)

unfoldable pub numbers_supported : Tokens → List Item → List ℤ
numbers_supported tokens items =
    let available = flat_map (λ i. i.numbers) items in
    map (λ n. n.0) (filter (λ n. not (any (close n.0 n.1) available)) tokens.numbers)

pub record Missing : Type 0 where
  pub ids : List String
  pub numbers : List ℤ
  pub dates : List String
  pub hours : List ℕ
  pub currencies : List String
  pub times : List (ℕ × ℕ)
  pub month_days : List (ℕ × ℕ)

-- `_Missing.any`
abbrev pub any_missing : Missing → Bool
any_missing m = not (
    is_empty m.ids
    && is_empty m.numbers
    && is_empty m.dates
    && is_empty m.hours
    && is_empty m.currencies
    && is_empty m.times
    && is_empty m.month_days)

unfoldable pub missing : Tokens → List Item → Missing
unfolding sorted numbers_supported month_day
missing tokens items = record {
  ids = sorted str_le (minus str_eq tokens.ids (flat_map (λ it. it.tokens.ids) items));
  numbers = numbers_supported tokens items;
  dates = sorted str_le (minus str_eq tokens.dates (flat_map (λ it. it.tokens.dates) items));
  hours =
      sorted leb (minus nat_eq tokens.hours (flat_map (λ it. it.hours ++ it.tokens.hours) items));
  currencies =
      sorted str_le (minus str_eq tokens.currencies (flat_map (λ it. it.tokens.currencies) items));
  times = sorted pair_le (minus pair_eq tokens.times (flat_map (λ it. it.tokens.times) items));
  month_days = sorted pair_le (
      minus pair_eq tokens.month_days (
        flat_map (λ it. map month_day it.tokens.dates) items
        ++ flat_map (λ it. it.tokens.month_days) items));
}

-- `separator.join(texts)`
abbrev pub joined : String → List Text → Text
joined separator [] = []
joined separator (t ∷ []) = t
joined separator (t ∷ u ∷ ts) = t ++ (lit separator ∷ joined separator (u ∷ ts))

abbrev part {ℓ} : {A : Type ℓ} → String → (A → Text) → List A → List Text
part label show [] = []
part label show (x ∷ xs) = (lit label ∷ joined ", " (map show (x ∷ xs))) ∷ []

abbrev name_text : String → Text
name_text s = lit s ∷ []

abbrev pair_text : String → ℕ × ℕ → Text
pair_text separator p = num p.0 ∷ lit separator ∷ num p.1 ∷ []

-- `_Missing.describe`
unfoldable pub describe : Missing → Text
describe m = joined "; " (
    part "identifiers " name_text m.ids
    ++ (part "numbers " (λ n. decimal n ∷ []) m.numbers
        ++ (part "dates " name_text m.dates
            ++ (part "hours " (λ h. num h ∷ []) m.hours
                ++ (part "times " (pair_text ":") m.times
                    ++ (part "dates " (pair_text "-") m.month_days
                        ++ part "currencies " name_text m.currencies))))))
