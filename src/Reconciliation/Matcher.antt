-- ===== src/Reconciliation/Matcher.antt =====
-- reconciliation/matcher.py
use finguard_major_project.Prelude.{
  Bool, ◌&&◌, ◌||◌, Option, none, some, List, [], ◌∷◌, ltb, ◌==◌, str_eq, filter,
}
use finguard_major_project.Prelude.Sorting.{sorted}
use finguard_major_project.Strings.{str_le}
use finguard_major_project.Domain.{Transaction, LedgerRecord}

pub record MatchedRecords : Type 0 where
  pub transaction : Transaction
  pub primary : Option LedgerRecord
  pub extras : List LedgerRecord

-- The order of the keys (posting_timestamp, ledger_id).
unfoldable pub posting_le : LedgerRecord → LedgerRecord → Bool
posting_le a b =
    ltb a.posting_timestamp b.posting_timestamp
    || (a.posting_timestamp == b.posting_timestamp && str_le a.ledger_id b.ledger_id)

abbrev pub belongs : Transaction → LedgerRecord → Bool
belongs transaction r = str_eq r.transaction_id transaction.transaction_id

unfoldable pub candidates : Transaction → List LedgerRecord → List LedgerRecord
unfolding sorted
candidates transaction ledger_records =
    sorted posting_le (filter (belongs transaction) ledger_records)

unfoldable pub matched : Transaction → List LedgerRecord → MatchedRecords
matched transaction [] = record { transaction = transaction; primary = none; extras = [] }
matched transaction (r ∷ rs) = record { transaction = transaction; primary = some r; extras = rs }

unfoldable pub match_records : Transaction → List LedgerRecord → MatchedRecords
unfolding candidates matched
match_records transaction ledger_records =
    matched transaction (candidates transaction ledger_records)
