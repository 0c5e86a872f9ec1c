-- ===== src/Ablation/Layers.antt =====
-- Each guardrail layer only raises decisions, and the last is that of the critique
-- (evaluation/ablation/guardrail_layers.py).
use finguard_major_project.Prelude.{
  ℕ, ◌+◌, ◌≤◌, ◌≡◌, refl, Bool, true, false, not, ◌&&◌, Option, none, some, List, [], ◌∷◌, All,
  arith, ltb, Bool-cases, inl, inr, if◌then◌else◌,
}
use finguard_major_project.Domain.{Decision, review, decision_rank}
use finguard_major_project.Guardrails.Critique.{guardrail_of}
use finguard_major_project.Ablation.{
  Layer, LayerTable, Row, decision, is_clear, floor_layer, full, layer_table, left_clear, model,
  raised, raised_clean, valid,
}

-- How many indicators are set.
abbrev pub hits : List Bool → ℕ
hits [] = 0
hits (b ∷ bs) = (if b then 1 else 0) + hits bs

-- Layer `b` leaves at most as many problem cases at CLEAR as layer `a`, and raises at least as many
-- clean cases.
abbrev pub Stricter : LayerTable → Layer → Layer → Type 0
Stricter table a b =
    (hits (table.of_layer b).problem_cases_left_clear
      ≤ hits (table.of_layer a).problem_cases_left_clear)
    × (hits (table.of_layer a).clean_cases_raised_to_review
        ≤ hits (table.of_layer b).clean_cases_raised_to_review)

-- What the decision of the critique is for a row.
abbrev pub Reviewed : Row × Decision → Type 0
Reviewed r =
    some (decision r.0 r.1 full) ≡ guardrail_of (some r.1) r.0.floor (ltb 0 r.0.unsupported)

pub record Layered (rows : List Row) : Type 0 where
  pub reviewed : All Reviewed (valid rows)
  pub floor_stricter : Stricter (layer_table rows) model floor_layer
  pub full_stricter : Stricter (layer_table rows) floor_layer full

reviewed_by : (r : Row × Decision) → Reviewed r
unfolding decision guardrail_of decision_rank
reviewed_by (row, d) = reviewed_cases d row.floor (ltb 0 row.unsupported)
  where
    reviewed_cases :
        (d : Decision) (o : Option Decision) (b : Bool)
        → some (if b && ltb (decision_rank (raised true d o)) 1 then review else raised true d o)
          ≡ guardrail_of (some d) o b
    reviewed_cases d none true = ground arith
    reviewed_cases d none false = refl
    reviewed_cases d (some f) true = ground arith
    reviewed_cases d (some f) false = ground arith

raised-clear :
    (d : Decision) (o : Option Decision) → is_clear (raised true d o) ≡ true → is_clear d ≡ true
unfolding decision_rank
raised-clear d none e = e
raised-clear d (some f) e = ground arith

raised-off : (d : Decision) (o : Option Decision) → raised false d o ≡ d
raised-off d none = refl
raised-off d (some f) = refl

floor-raises :
    (row : Row) (d : Decision)
    → is_clear (decision row d floor_layer) ≡ true
    → is_clear (decision row d model) ≡ true
unfolding decision decision_rank
floor-raises row d e = rw (raised-off d row.floor) (raised-clear d row.floor e)

full-raises :
    (row : Row) (d : Decision)
    → is_clear (decision row d full) ≡ true
    → is_clear (decision row d floor_layer) ≡ true
unfolding decision decision_rank
full-raises row d e = ground arith

-- A bit that implies another counts at most as much.
bit-le : (p q : Bool) → (p ≡ true → q ≡ true) → (if p then 1 else 0) ≤ (if q then 1 else 0)
bit-le true q h = rw (h refl) (omega arith)
bit-le false q h = omega arith

not-imp : (p q : Bool) → (p ≡ true → q ≡ true) → not q ≡ true → not p ≡ true
not-imp true q h e = absurd (cc (rw (h refl) at e))
not-imp false q h e = refl

module _ (a b : Layer)
    (raises : (row : Row) (d : Decision)
      → is_clear (decision row d b) ≡ true
      → is_clear (decision row d a) ≡ true) where
  left_clear-le : (rs : List (Row × Decision)) → hits (left_clear b rs) ≤ hits (left_clear a rs)
  unfolding left_clear
  left_clear-le [] = omega arith
  left_clear-le ((row, d) ∷ rs) =
      let rest = left_clear-le rs in
      let here =
        bit-le (is_clear (decision row d b)) (is_clear (decision row d a)) (raises row d) in
      elim (Bool-cases row.truth_problem) [ inl e ↦ rw e (omega arith) | inr e ↦ rw e rest ]

  raised_clean-le :
      (rs : List (Row × Decision)) → hits (raised_clean a rs) ≤ hits (raised_clean b rs)
  unfolding raised_clean
  raised_clean-le [] = omega arith
  raised_clean-le ((row, d) ∷ rs) =
      let rest = raised_clean-le rs in
      let p = is_clear (decision row d b) in
      let q = is_clear (decision row d a) in
      let here = bit-le (not q) (not p) (not-imp p q (raises row d)) in
      elim (Bool-cases row.truth_problem) [ inl e ↦ rw e rest | inr e ↦ rw e (omega arith) ]

reviewed_all : (rs : List (Row × Decision)) → All Reviewed rs
reviewed_all [] = tt
reviewed_all (r ∷ rs) = (reviewed_by r, reviewed_all rs)

-- The last layer decides as the guardrails of the critique do, whatever the floor of a row and its
-- unsupported claims, for every row with a model decision. Each layer leaves at most as many problem
-- cases at CLEAR as the one before it, and raises at least as many clean cases.
pub layer_table-Layered : (rows : List Row) → Layered rows
unfolding layer_table
layer_table-Layered rows = record {
  reviewed = reviewed_all (valid rows);
  floor_stricter = (
    left_clear-le model floor_layer floor-raises (valid rows),
    raised_clean-le model floor_layer floor-raises (valid rows),
  );
  full_stricter = (
    left_clear-le floor_layer full full-raises (valid rows),
    raised_clean-le floor_layer full full-raises (valid rows),
  );
}
