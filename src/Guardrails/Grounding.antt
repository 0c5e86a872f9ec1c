-- ===== src/Guardrails/Grounding.antt =====
-- What it is that references cite, said of the references alone (guardrails/evidence_validator.py).
use mathlib.Core.List.{flat_map}
use finguard_major_project.Prelude.{
  ℕ, String, ◌≡◌, refl, sym, ap, ◌∙◌, Bool, true, false, not, ◌&&◌, ◌||◌, List, [], ◌∷◌, ◌++◌, map,
  arith, is_empty, str_eq, all, any, any-append, Option-cases, inl, inr, leb, is_some,
}
use finguard_major_project.Prelude.Sorting.{sorted}
use finguard_major_project.Strings.{str_le}
use finguard_major_project.Prelude.Int.{ℤ}
use finguard_major_project.Guardrails.Tokens.{
  Tokens, Item, Missing, pair_le, any_missing, missing, close, pair_eq, nat_eq, month_day, minus,
  numbers_supported, tokens_empty,
}
use finguard_major_project.Guardrails.Claims.{EvidenceIndex, resolve, resolved_items, unknown_refs}
use finguard_major_project.Guardrails.Cited.{
  cites, any-resolved_items, is_empty-sorted, any-flat_map, is_empty-unmet, is_empty-map,
}

module _ (index : EvidenceIndex) (refs : List String) where
  -- A value stands in one of the cited items.
  abbrev pub cited_in {ℓ} : {A : Type ℓ} → (A → A → Bool) → (Item → List A) → A → Bool
  cited_in eq f w = cites index refs (λ it. any (λ a. eq a w) (f it))

  -- A number is within the rounding of what is written of a number of a cited item.
  abbrev pub cited_number : ℤ × ℕ → Bool
  cited_number n = cites index refs (λ it. any (close n.0 n.1) it.numbers)

  abbrev pub cited_month_day : ℕ × ℕ → Bool
  cited_month_day w =
      cited_in pair_eq (λ it. map month_day it.tokens.dates) w
      || cited_in pair_eq (λ it. it.tokens.month_days) w

  -- Each token of a claim stands in a cited item, by its kind.
  pub record Held (tokens : Tokens) : Type 0 where
    pub ids : all (cited_in str_eq (λ it. it.tokens.ids)) tokens.ids ≡ true
    pub numbers : all cited_number tokens.numbers ≡ true
    pub dates : all (cited_in str_eq (λ it. it.tokens.dates)) tokens.dates ≡ true
    pub hours : all (cited_in nat_eq (λ it. it.hours ++ it.tokens.hours)) tokens.hours ≡ true
    pub currencies : all (cited_in str_eq (λ it. it.tokens.currencies)) tokens.currencies ≡ true
    pub times : all (cited_in pair_eq (λ it. it.tokens.times)) tokens.times ≡ true
    pub month_days : all cited_month_day tokens.month_days ≡ true

  any-cited {ℓ} :
      {A : Type ℓ} (p : A → Bool) (f : Item → List A)
      → any p (flat_map f (resolved_items index refs)) ≡ cites index refs (λ it. any p (f it))
  any-cited p f =
      any-flat_map p f (resolved_items index refs)
      ∙ any-resolved_items index refs (λ it. any p (f it))

  empty_minus {ℓ} :
      {A : Type ℓ} (le eq : A → A → Bool) (f : Item → List A) (ws : List A)
      → is_empty (sorted le (minus eq ws (flat_map f (resolved_items index refs))))
        ≡ all (cited_in eq f) ws
  empty_minus le eq f ws =
      is_empty-sorted le _
      ∙ is_empty-unmet (λ w. any (λ a. eq a w) (flat_map f (resolved_items index refs)))
          (cited_in eq f) (λ w. any-cited (λ a. eq a w) f) ws

  empty_numbers :
      (tokens : Tokens)
      → is_empty (numbers_supported tokens (resolved_items index refs))
        ≡ all cited_number tokens.numbers
  unfolding numbers_supported
  empty_numbers tokens =
      is_empty-map (λ n. n.0) _
      ∙ is_empty-unmet _ cited_number (λ n. any-cited (close n.0 n.1) (λ i. i.numbers))
          tokens.numbers

  empty_month_days :
      (tokens : Tokens)
      → is_empty (missing tokens (resolved_items index refs)).month_days
        ≡ all cited_month_day tokens.month_days
  unfolding missing
  empty_month_days tokens =
      is_empty-sorted _ _
      ∙ is_empty-unmet _ cited_month_day
          (λ w.
            any-append (λ a. pair_eq a w) _ _
            ∙ ap
                (λ b.
                  b
                  || any (λ a. pair_eq a w)
                      (flat_map (λ it. it.tokens.month_days) (resolved_items index refs)))
                (any-cited (λ a. pair_eq a w) (λ it. map month_day it.tokens.dates))
            ∙ ap (λ b. cited_in pair_eq (λ it. map month_day it.tokens.dates) w || b)
                (any-cited (λ a. pair_eq a w) (λ it. it.tokens.month_days)))
          tokens.month_days

-- One of the lists of a claim's tokens has an entry.
abbrev pub has_token : Tokens → Bool
has_token t =
    not (is_empty t.ids)
    || not (is_empty t.numbers)
    || not (is_empty t.dates)
    || not (is_empty t.hours)
    || not (is_empty t.currencies)
    || not (is_empty t.times)
    || not (is_empty t.month_days)

seven :
    (a b c d e f g : Bool)
    → (a && b && c && d && e && f && g)
      ≡ not (not a || not b || not c || not d || not e || not f || not g)
seven a b c d e f g = ground arith

pub tokens_empty-has_token : (t : Tokens) → tokens_empty t ≡ not (has_token t)
tokens_empty-has_token t =
    seven (is_empty t.ids) (is_empty t.numbers) (is_empty t.dates) (is_empty t.hours)
      (is_empty t.currencies) (is_empty t.times) (is_empty t.month_days)

all_seven :
    (a b c d e f g : Bool)
    → not (a && b && c && d && e && f && g) ≡ false
    → (a ≡ true) × (b ≡ true) × (c ≡ true) × (d ≡ true) × (e ≡ true) × (f ≡ true) × (g ≡ true)
all_seven a b c d e f g h = (
  ground arith,
  ground arith,
  ground arith,
  ground arith,
  ground arith,
  ground arith,
  ground arith,
)

pub is_empty-any {ℓ} : {A : Type ℓ} (xs : List A) → is_empty xs ≡ not (any (λ x. true) xs)
is_empty-any [] = refl
is_empty-any (x ∷ xs) = refl

pub is_empty-unknown :
    (index : EvidenceIndex) (refs : List String)
    → is_empty (unknown_refs index refs) ≡ all (λ r. is_some (resolve index r)) refs
is_empty-unknown index [] = refl
is_empty-unknown index (r ∷ rs) = elim (Option-cases (resolve index r)) [
  | inl e ↦ rw e refl
  | inr (item, e) ↦ rw e (is_empty-unknown index rs)
]

module _ (index : EvidenceIndex) (refs : List String) (tokens : Tokens) where
  abbrev lacking : Missing
  lacking = missing tokens (resolved_items index refs)

  empty_ids :
      is_empty lacking.ids ≡ all (cited_in index refs str_eq (λ it. it.tokens.ids)) tokens.ids
  unfolding missing
  empty_ids = empty_minus index refs str_le str_eq (λ it. it.tokens.ids) tokens.ids

  empty_numbers_of : is_empty lacking.numbers ≡ all (cited_number index refs) tokens.numbers
  unfolding missing
  empty_numbers_of = empty_numbers index refs tokens

  empty_dates :
      is_empty lacking.dates ≡ all (cited_in index refs str_eq (λ it. it.tokens.dates)) tokens.dates
  unfolding missing
  empty_dates = empty_minus index refs str_le str_eq (λ it. it.tokens.dates) tokens.dates

  empty_hours :
      is_empty lacking.hours
      ≡ all (cited_in index refs nat_eq (λ it. it.hours ++ it.tokens.hours)) tokens.hours
  unfolding missing
  empty_hours = empty_minus index refs leb nat_eq (λ it. it.hours ++ it.tokens.hours) tokens.hours

  empty_currencies :
      is_empty lacking.currencies
      ≡ all (cited_in index refs str_eq (λ it. it.tokens.currencies)) tokens.currencies
  unfolding missing
  empty_currencies =
      empty_minus index refs str_le str_eq (λ it. it.tokens.currencies) tokens.currencies

  empty_times :
      is_empty lacking.times
      ≡ all (cited_in index refs pair_eq (λ it. it.tokens.times)) tokens.times
  unfolding missing
  empty_times = empty_minus index refs pair_le pair_eq (λ it. it.tokens.times) tokens.times

  pub missing-Held : any_missing lacking ≡ false → Held index refs tokens
  missing-Held h =
      let (a, b, c, d, e, f, g) =
        all_seven (is_empty lacking.ids) (is_empty lacking.numbers) (is_empty lacking.dates)
          (is_empty lacking.hours) (is_empty lacking.currencies) (is_empty lacking.times)
          (is_empty lacking.month_days) h in
      record {
        ids = sym empty_ids ∙ a;
        numbers = sym empty_numbers_of ∙ b;
        dates = sym empty_dates ∙ c;
        hours = sym empty_hours ∙ d;
        currencies = sym empty_currencies ∙ e;
        times = sym empty_times ∙ f;
        month_days = sym (empty_month_days index refs tokens) ∙ g;
      }

  pub Held-missing : Held index refs tokens → any_missing lacking ≡ false
  Held-missing h =
      rw
        (
          empty_ids ∙ h.ids,
          empty_numbers_of ∙ h.numbers,
          empty_dates ∙ h.dates,
          empty_hours ∙ h.hours,
          empty_currencies ∙ h.currencies,
          empty_times ∙ h.times,
          empty_month_days index refs tokens ∙ h.month_days,
        )
        refl
