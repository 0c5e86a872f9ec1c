-- ===== src/Reconciliation/Rules.antt =====
-- reconciliation/rules.py: the checks of time and settlement, and the ten rules. A check that finds
-- nothing returns `none`.
use finguard_major_project.Prelude.{
  ℕ, ◌*◌, String, not, Option, none, some, List, [], ◌∷◌, leb, if◌then◌else◌,
}
use finguard_major_project.Prelude.Int.{ℤ, pos, sub_ℕ, ◌-ℤ◌, leb_ℤ, ltb_ℤ}
use finguard_major_project.Strings.{lit, moment, span}
use finguard_major_project.Domain.{
  LedgerRecord, Discrepancy, medium, high, SettlementStatus, settled, pending, failed,
}
use finguard_major_project.Reconciliation.Config.{ReconciliationConfig, div_round}
use finguard_major_project.Reconciliation.Matcher.{MatchedRecords}
use finguard_major_project.Reconciliation.Checks.{
  Check, missing_ledger, duplicate_posting, amount, currency, reference_missing, reference_mismatch,
}

unfoldable pub posting_before_transaction : Check
posting_before_transaction m c as_of = elim m.primary [
  | none ↦ none
  | some p ↦
      if leb m.transaction.timestamp p.posting_timestamp
      then none
      else some (record {
        field = "posting_timestamp";
        expected = some (lit ">= " ∷ moment m.transaction.timestamp ∷ []);
        actual = some (moment p.posting_timestamp ∷ []);
        difference = some (span (sub_ℕ p.posting_timestamp m.transaction.timestamp) ∷ []);
        severity = high;
        rule_id = "REC-007";
        explanation = lit "The ledger posting is timestamped before the transaction occurred." ∷ [];
      })
]

unfoldable pub late_posting : Check
unfolding div_round ◌-ℤ◌
late_posting m c as_of = elim m.primary [
  | none ↦ none
  | some p ↦
      let lag = sub_ℕ p.posting_timestamp m.transaction.timestamp in
      if leb_ℤ lag (pos c.max_posting_lag)
      then none
      else some (record {
        field = "posting_timestamp";
        expected =
            some (lit "within " ∷ span (pos c.max_posting_lag) ∷ lit " of the transaction" ∷ []);
        actual = some (moment p.posting_timestamp ∷ []);
        difference = some (lit "+" ∷ span (lag -ℤ pos c.max_posting_lag) ∷ lit " over limit" ∷ []);
        severity =
            if ltb_ℤ (pos (div_round (c.max_posting_lag * c.late_high_severity_multiple) 100)) lag
            then high
            else medium;
        rule_id = "REC-008";
        explanation =
            lit "Ledger posted "
            ∷ span lag
            ∷ lit " after the transaction; the limit is "
            ∷ span (pos c.max_posting_lag)
            ∷ lit "."
            ∷ [];
      })
]

abbrev pub failed_report : SettlementStatus → Option Discrepancy
failed_report settled = none
failed_report pending = none
failed_report failed = some (record {
  field = "settlement_status";
  expected = some (lit "settled" ∷ []);
  actual = some (lit "failed" ∷ []);
  difference = some (lit "failed settlement" ∷ []);
  severity = medium;
  rule_id = "REC-009";
  explanation = lit "The ledger records a failed settlement for an existing transaction." ∷ [];
})

unfoldable pub settlement_failed : Check
settlement_failed m c as_of =
    if not c.check_settlement_status
    then none
    else elim m.primary [ none ↦ none | some p ↦ failed_report p.settlement_status ]

abbrev pub stale_report : ReconciliationConfig → ℤ → SettlementStatus → Option Discrepancy
stale_report c age settled = none
stale_report c age failed = none
stale_report c age pending =
    if leb_ℤ age (pos c.stale_pending_after)
    then none
    else some (record {
      field = "settlement_status";
      expected = some (lit "settled" ∷ []);
      actual = some (lit "pending" ∷ []);
      difference = some (lit "pending for " ∷ span age ∷ []);
      severity = medium;
      rule_id = "REC-010";
      explanation =
          lit "Still pending "
          ∷ span age
          ∷ lit " after the transaction (limit "
          ∷ span (pos c.stale_pending_after)
          ∷ lit ")."
          ∷ [];
    })

abbrev stale_if :
    ReconciliationConfig → MatchedRecords → LedgerRecord → Option ℕ → Option Discrepancy
stale_if c m p none = none
stale_if c m p (some now) = stale_report c (sub_ℕ now m.transaction.timestamp) p.settlement_status

unfoldable pub stale_pending : Check
stale_pending m c as_of =
    if not c.check_settlement_status
    then none
    else elim m.primary [ none ↦ none | some p ↦ stale_if c m p as_of ]

pub record Rule : Type 0 where
  pub rule_id : String
  pub name : String
  pub group : String
  pub check : Check

abbrev rule : String → String → String → Check → Rule
rule rule_id name group check = record {
  rule_id = rule_id;
  name = name;
  group = group;
  check = check;
}

abbrev pub rules : List Rule
rules =
    rule "REC-001" "missing_ledger_entry" "core" missing_ledger
    ∷ rule "REC-002" "duplicate_posting" "core" duplicate_posting
    ∷ rule "REC-003" "amount_mismatch" "core" amount
    ∷ rule "REC-004" "currency_mismatch" "core" currency
    ∷ rule "REC-005" "reference_missing" "core" reference_missing
    ∷ rule "REC-006" "reference_mismatch" "core" reference_mismatch
    ∷ rule "REC-007" "posting_before_transaction" "core" posting_before_transaction
    ∷ rule "REC-008" "late_posting" "core" late_posting
    ∷ rule "REC-009" "settlement_failed" "status" settlement_failed
    ∷ rule "REC-010" "stale_pending" "status" stale_pending
    ∷ []
