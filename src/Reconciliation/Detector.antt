-- ===== src/Reconciliation/Detector.antt =====
-- reconciliation/discrepancy_detector.py
use finguard_major_project.Prelude.{ℕ, Bool, Option, none, some, List, [], ◌∷◌}
use finguard_major_project.Prelude.Sorting.{sorted}
use finguard_major_project.Strings.{str_le}
use finguard_major_project.Domain.{Discrepancy}
use finguard_major_project.Reconciliation.Config.{ReconciliationConfig}
use finguard_major_project.Reconciliation.Matcher.{MatchedRecords}
use finguard_major_project.Reconciliation.Rules.{Rule}

abbrev pub keep_some {ℓ} : {A : Type ℓ} → Option A → List A → List A
keep_some none ds = ds
keep_some (some d) ds = d ∷ ds

-- What the rules find, in the order of the rules.
unfoldable pub found :
    List Rule → MatchedRecords → ReconciliationConfig → Option ℕ → List Discrepancy
found [] m c as_of = []
found (r ∷ rs) m c as_of = keep_some (r.check m c as_of) (found rs m c as_of)

abbrev pub rule_le : Discrepancy → Discrepancy → Bool
rule_le a b = str_le a.rule_id b.rule_id

pub record DiscrepancyDetector : Type 0 where
  pub config : ReconciliationConfig
  pub rules : List Rule

unfoldable pub detect : DiscrepancyDetector → MatchedRecords → Option ℕ → List Discrepancy
unfolding found sorted
detect self m as_of = sorted rule_le (found self.rules m self.config as_of)
