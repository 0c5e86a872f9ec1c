-- ===== src/Ablation.antt =====
-- evaluation/ablation/guardrail_layers.py: what each guardrail layer adds to the decision of the model.
-- The means and their confidence intervals (`_ci`) are numpy's; the model keeps the lists of indicators
-- that they are taken of.
pub mod Layers
use finguard_major_project.Prelude.{
  ℕ, Bool, true, false, not, ◌&&◌, ◌||◌, Option, none, some, List, [], ◌∷◌, is_some, ltb, map,
  filter, length, ◌==◌, if◌then◌else◌,
}
use finguard_major_project.Domain.{Decision, review, decision_rank}

-- A row of the evaluation, with its parsed model decision if there is one.
pub record Row : Type 0 where
  pub model_decision : Option Decision
  pub floor : Option Decision
  pub unsupported : ℕ
  pub truth_problem : Bool

pub data Layer : Type 0 where
  model floor_layer full : Layer

abbrev has_floor : Layer → Bool
has_floor model = false
has_floor floor_layer = true
has_floor full = true

abbrev is_full : Layer → Bool
is_full model = false
is_full floor_layer = false
is_full full = true

abbrev pub raised : Bool → Decision → Option Decision → Decision
raised on d none = d
raised on d (some f) = if on && ltb (decision_rank d) (decision_rank f) then f else d

-- `_decision` of a row whose model decision is `d`.
unfoldable pub decision : Row → Decision → Layer → Decision
unfolding decision_rank
decision row d layer =
    let e = raised (has_floor layer) d row.floor in
    if is_full layer && ltb 0 row.unsupported && ltb (decision_rank e) (decision_rank review)
    then review
    else e

-- The rows with a model decision.
abbrev pub valid : List Row → List (Row × Decision)
valid [] = []
valid (row ∷ rows) =
    let rest = valid rows in elim row.model_decision [ none ↦ rest | some d ↦ (row, d) ∷ rest ]

abbrev pub is_clear : Decision → Bool
is_clear d = decision_rank d == 0

-- `problem_cases_left_clear` of a layer.
unfoldable pub left_clear : Layer → List (Row × Decision) → List Bool
unfolding decision decision_rank
left_clear layer [] = []
left_clear layer (r ∷ rs) =
    let rest = left_clear layer rs in
    if r.0.truth_problem then is_clear (decision r.0 r.1 layer) ∷ rest else rest

-- `clean_cases_raised_to_review` of a layer.
unfoldable pub raised_clean : Layer → List (Row × Decision) → List Bool
unfolding decision decision_rank
raised_clean layer [] = []
raised_clean layer (r ∷ rs) =
    let rest = raised_clean layer rs in
    if r.0.truth_problem then rest else not (is_clear (decision r.0 r.1 layer)) ∷ rest

pub record LayerRow : Type 0 where
  pub problem_cases_left_clear : List Bool
  pub clean_cases_raised_to_review : List Bool

pub record LayerTable : Type 0 where
  pub n_rows : ℕ
  pub n_valid_outputs : ℕ
  pub of_layer : Layer → LayerRow

unfoldable pub layer_table : List Row → LayerTable
unfolding left_clear raised_clean
layer_table rows = record {
  n_rows = length rows;
  n_valid_outputs = length (valid rows);
  of_layer = λ layer. record {
    problem_cases_left_clear = left_clear layer (valid rows);
    clean_cases_raised_to_review = raised_clean layer (valid rows);
  };
}
