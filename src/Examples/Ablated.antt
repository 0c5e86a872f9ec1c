-- ===== src/Examples/Ablated.antt =====
-- The guardrail layers on three rows, evaluation/ablation/guardrail_layers.py.
use finguard_major_project.Prelude.{
  ℕ, ◌≡◌, refl, Bool, true, false, Option, none, some, List, [], ◌∷◌,
}
use finguard_major_project.Domain.{Decision, decision_rank}
use finguard_major_project.Ablation.{Layer, Row, decision, layer_table, left_clear, raised_clean}
use finguard_major_project.Ablation.Layers.{Layered, hits, layer_table-Layered}

abbrev row : Option Decision → Option Decision → ℕ → Bool → Row
row d floor unsupported problem = record {
  model_decision = d;
  floor = floor;
  unsupported = unsupported;
  truth_problem = problem;
}

-- A problem with a floor, one with an unsupported claim, a clean case, and a reply that is no JSON.
abbrev rows : List Row
rows =
    row (some Decision.clear) (some Decision.review) 0 true
    ∷ row (some Decision.clear) none 1 true
    ∷ row (some Decision.clear) none 2 false
    ∷ row none none 0 true
    ∷ []

abbrev left : Layer → ℕ
left layer = hits ((layer_table rows).of_layer layer).problem_cases_left_clear

left_ok : left Layer.model ∷ left Layer.floor_layer ∷ left Layer.full ∷ [] ≡ 2 ∷ 1 ∷ 0 ∷ []
unfolding layer_table left_clear raised_clean decision decision_rank
left_ok = refl

layer_table-Layered_example : Layered rows
layer_table-Layered_example = layer_table-Layered rows
