-- ===== src/Reconciliation/Agreement.antt =====
-- What it means that a ledger record agrees with its transaction, and which checks say so.
use finguard_major_project.Prelude.{
  ℕ, ◌+◌, ◌≤◌, String, ◌≡◌, refl, ◌≢◌, ◌↔◌, Bool, true, false, Option, none, some, [], arith,
  eq_iff, not, if◌then◌else◌,
}
use finguard_major_project.Prelude.Int.{◌-ℤ◌, nat_abs, sub_ℕ}
use finguard_major_project.Domain.{
  Transaction, LedgerRecord, SettlementStatus, settled, pending, failed,
}
use finguard_major_project.Reconciliation.Config.{ReconciliationConfig, cents_of}
use finguard_major_project.Reconciliation.Matcher.{MatchedRecords}
use finguard_major_project.Reconciliation.Checks.{
  Check, amount, currency, reference_missing, reference_mismatch, missing_on_one_side,
  different_values,
}
use finguard_major_project.Reconciliation.Rules.{
  posting_before_transaction, late_posting, settlement_failed, stale_pending, failed_report,
  stale_report,
}

-- What it means that a ledger record agrees with its transaction, with no mention of the rules.
pub record Agrees (c : ReconciliationConfig) (tx : Transaction) (p : LedgerRecord)
    (as_of : Option ℕ) : Type 0 where
  pub amount_close :
      nat_abs (cents_of p.posted_amount -ℤ cents_of tx.amount) ≤ c.amount_tolerance_cents
  pub same_currency : p.currency ≡ tx.currency
  pub same_reference : tx.reference_id ≡ p.reference_id
  pub not_early : tx.timestamp ≤ p.posting_timestamp
  pub not_late : p.posting_timestamp ≤ tx.timestamp + c.max_posting_lag
  pub not_failed : c.check_settlement_status ≡ true → p.settlement_status ≢ failed
  pub not_stale :
      (now : ℕ)
      → c.check_settlement_status ≡ true
      → as_of ≡ some now
      → p.settlement_status ≡ pending
      → now ≤ tx.timestamp + c.stale_pending_after

abbrev pub one : Transaction → LedgerRecord → MatchedRecords
one tx p = record { transaction = tx; primary = some p; extras = [] }

module _ (c : ReconciliationConfig) (tx : Transaction) (p : LedgerRecord) (as_of : Option ℕ) where
  abbrev Silent : Check → Type 0
  Silent check = check (one tx p) c as_of ≡ none

  pub amount_iff :
      Silent amount
      ↔ (nat_abs (cents_of p.posted_amount -ℤ cents_of tx.amount) ≤ c.amount_tolerance_cents)
  unfolding amount
  amount_iff = (λ h. ground arith, λ h. ground arith)

  pub currency_iff : Silent currency ↔ (p.currency ≡ tx.currency)
  unfolding currency
  currency_iff = (
    λ h. ground (arith, eq_iff p.currency tx.currency),
    λ h. ground (arith, eq_iff p.currency tx.currency),
  )

  pub reference_iff :
      (Silent reference_missing × Silent reference_mismatch) ↔ (tx.reference_id ≡ p.reference_id)
  unfolding reference_missing reference_mismatch
  reference_iff = (to_same tx.reference_id p.reference_id, of_same tx.reference_id p.reference_id)
    where
      to_same :
          (a b : Option String)
          → (missing_on_one_side a b ≡ none) × (different_values a b ≡ none)
          → a ≡ b
      to_same none none h = refl
      to_same none (some b) h = cc (h.0)
      to_same (some a) none h = cc (h.0)
      to_same (some a) (some b) h = ground (arith, eq_iff a b)

      of_same :
          (a b : Option String)
          → a ≡ b
          → (missing_on_one_side a b ≡ none) × (different_values a b ≡ none)
      of_same none none h = (refl, refl)
      of_same none (some b) h = cc
      of_same (some a) none h = cc
      of_same (some a) (some b) h = ground (arith, eq_iff a b)

  pub early_iff : Silent posting_before_transaction ↔ (tx.timestamp ≤ p.posting_timestamp)
  unfolding posting_before_transaction
  early_iff = (λ h. ground arith, λ h. ground arith)

  pub late_iff : Silent late_posting ↔ (p.posting_timestamp ≤ tx.timestamp + c.max_posting_lag)
  unfolding late_posting
  late_iff = (λ h. ground arith, λ h. ground arith)

  pub failed_iff :
      Silent settlement_failed ↔ (c.check_settlement_status ≡ true → p.settlement_status ≢ failed)
  unfolding settlement_failed
  failed_iff = (λ h e f. ground arith, quiet c.check_settlement_status p.settlement_status)
    where
      quiet :
          (b : Bool) (s : SettlementStatus)
          → (b ≡ true → s ≢ failed)
          → (if not b then none else failed_report s) ≡ none
      quiet false s h = refl
      quiet true settled h = refl
      quiet true pending h = refl
      quiet true failed h = absurd (h refl refl)

  pub stale_iff : Silent stale_pending ↔ (
      (now : ℕ)
      → c.check_settlement_status ≡ true
      → as_of ≡ some now
      → p.settlement_status ≡ pending
      → now ≤ tx.timestamp + c.stale_pending_after)
  unfolding stale_pending
  stale_iff =
      (λ h now e f g. ground arith, quiet c.check_settlement_status as_of p.settlement_status)
    where
      quiet :
          (b : Bool) (o : Option ℕ) (s : SettlementStatus)
          → ((now : ℕ)
              → b ≡ true
              → o ≡ some now
              → s ≡ pending
              → now ≤ tx.timestamp + c.stale_pending_after)
          → (if not b
              then none
              else elim o [ none ↦ none | some now ↦ stale_report c (sub_ℕ now tx.timestamp) s ])
            ≡ none
      quiet false o s h = refl
      quiet true none s h = refl
      quiet true (some now) settled h = refl
      quiet true (some now) failed h = refl
      quiet true (some now) pending h =
          let k : now ≤ tx.timestamp + c.stale_pending_after = h now refl refl refl in ground arith

-- Nothing is found exactly when every rule is silent.
