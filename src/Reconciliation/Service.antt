-- ===== src/Reconciliation/Service.antt =====
-- reconciliation/service.py
use finguard_major_project.Prelude.{ℕ, String, Bool, Option, none, some, List, [], ◌∷◌, ◌++◌, map}
use finguard_major_project.Prelude.Sorting.{sorted}
use finguard_major_project.Strings.{str_le}
use finguard_major_project.Dict.{lookup}
use finguard_major_project.Domain.{
  Transaction, LedgerRecord, Discrepancy, ReconciliationResult, ReconciliationStatus,
}
use finguard_major_project.Pipeline.Models.{CanonicalCase}
use finguard_major_project.Reconciliation.Config.{ReconciliationConfig}
use finguard_major_project.Reconciliation.Matcher.{match_records}
use finguard_major_project.Reconciliation.Rules.{rules}
use finguard_major_project.Reconciliation.Detector.{DiscrepancyDetector, detect}

abbrev pub ledger_id_of : Option LedgerRecord → Option String
ledger_id_of none = none
ledger_id_of (some p) = some p.ledger_id

abbrev pub status_of : List Discrepancy → ReconciliationStatus
status_of [] = ReconciliationStatus.reconciled
status_of (d ∷ ds) = ReconciliationStatus.discrepancy

abbrev pub service : ReconciliationConfig → DiscrepancyDetector
service config = record { config = config; rules = rules }

unfoldable pub reconcile :
    ReconciliationConfig → Transaction → List LedgerRecord → Option ℕ → ReconciliationResult
unfolding match_records detect
reconcile config transaction ledger_records as_of =
    let matched = match_records transaction ledger_records in
    let discrepancies = detect (service config) matched as_of in
    record {
      transaction_id = transaction.transaction_id;
      ledger_id = ledger_id_of matched.primary;
      status = status_of discrepancies;
      discrepancies = discrepancies;
    }

abbrev pub result_le : ReconciliationResult → ReconciliationResult → Bool
result_le a b = str_le a.transaction_id b.transaction_id

abbrev pub or_empty {ℓ} : {A : Type ℓ} → Option (List A) → List A
or_empty none = []
or_empty (some xs) = xs

unfoldable pub reconcile_many :
    ReconciliationConfig
    → List Transaction
    → List (String × List LedgerRecord)
    → Option ℕ
    → List ReconciliationResult
unfolding reconcile lookup sorted
reconcile_many config transactions ledger_by_transaction as_of = sorted result_le (
    map
      (λ tx. reconcile config tx (or_empty (lookup tx.transaction_id ledger_by_transaction)) as_of)
      transactions)

unfoldable pub reconcile_case : ReconciliationConfig → CanonicalCase → List ReconciliationResult
unfolding reconcile sorted
reconcile_case config case = sorted result_le (
    map (λ c. reconcile config c.transaction c.ledger_records (some case.as_of))
      (case.focus_transactions ++ case.context_transactions))
