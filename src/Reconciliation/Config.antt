-- ===== src/Reconciliation/Config.antt =====
-- reconciliation/config.py
use finguard_major_project.Prelude.{ℕ, ◌+◌, ◌*◌, ◌/◌, ◌%◌, Bool, true, ltb, if◌then◌else◌}
use finguard_major_project.Prelude.Int.{ℤ, pos, negsuc, sub_ℕ}

-- Percentages are in basis points, the multiple in hundredths, spans in microseconds.
pub record ReconciliationConfig : Type 0 where
  pub amount_tolerance_cents : ℕ
  pub amount_high_severity_pct : ℕ
  pub amount_medium_severity_pct : ℕ
  pub max_posting_lag : ℕ
  pub late_high_severity_multiple : ℕ
  pub check_settlement_status : Bool
  pub stale_pending_after : ℕ

abbrev pub day : ℕ
day = 86400000000

abbrev pub default_config : ReconciliationConfig
default_config = record {
  amount_tolerance_cents = 1;
  amount_high_severity_pct = 1000;
  amount_medium_severity_pct = 100;
  max_posting_lag = 3 * day;
  late_high_severity_multiple = 300;
  check_settlement_status = true;
  stale_pending_after = 3 * day;
}

-- The quotient rounded to the nearest number, ties to even, as Python's `round`.
unfoldable pub div_round : ℕ → ℕ → ℕ
div_round n d =
    let q = n / d in
    let r = n % d in if ltb (2 * r) d then q else if ltb d (2 * r) then q + 1 else q + q % 2

-- `_cents` of rules.py: round(value * 100), of an amount in ten-thousandths.
unfoldable pub cents_of : ℤ → ℤ
unfolding div_round
cents_of (pos n) = pos (div_round n 100)
cents_of (negsuc n) = sub_ℕ 0 (div_round (n + 1) 100)
