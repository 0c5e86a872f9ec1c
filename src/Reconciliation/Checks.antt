-- ===== src/Reconciliation/Checks.antt =====
-- reconciliation/rules.py: the checks of presence, amount, currency and reference.
use finguard_major_project.Prelude.{
  ℕ, ◌+◌, ◌*◌, String, Option, none, some, List, [], ◌∷◌, ◌++◌, map, leb, length, str_eq, is_none,
  if◌then◌else◌,
}
use Prim.Native.Nat.{max}
use finguard_major_project.Prelude.Int.{pos, ◌-ℤ◌, nat_abs, ltb_ℤ}
use finguard_major_project.Strings.{Text, lit, num, money, cents, percent}
use finguard_major_project.Domain.{LedgerRecord, Discrepancy, Severity, low, medium, high}
use finguard_major_project.Reconciliation.Config.{ReconciliationConfig, cents_of}
use finguard_major_project.Reconciliation.Matcher.{MatchedRecords}

abbrev pub Check : Type 0
Check = MatchedRecords → ReconciliationConfig → Option ℕ → Option Discrepancy

-- `", ".join(names)`
abbrev pub join : List String → Text
join [] = []
join (s ∷ []) = lit s ∷ []
join (s ∷ t ∷ rest) = lit s ∷ lit ", " ∷ join (t ∷ rest)

abbrev pub optional : Option String → Option Text
optional none = none
optional (some s) = some (lit s ∷ [])

abbrev pub ledger_ids : Option LedgerRecord → List LedgerRecord → List String
ledger_ids none extras = map (λ r. r.ledger_id) extras
ledger_ids (some p) extras = p.ledger_id ∷ map (λ r. r.ledger_id) extras

unfoldable pub missing_ledger : Check
missing_ledger m c as_of = elim m.primary [
  | some p ↦ none
  | none ↦ some (record {
    field = "ledger_record";
    expected = some (lit "1 ledger entry" ∷ []);
    actual = some (lit "none" ∷ []);
    difference = some (lit "-1" ∷ []);
    severity = high;
    rule_id = "REC-001";
    explanation =
        lit "No ledger entry exists for transaction "
        ∷ lit m.transaction.transaction_id
        ∷ lit "."
        ∷ [];
  })
]

unfoldable pub duplicate_posting : Check
duplicate_posting m c as_of = elim m.extras [
  | [] ↦ none
  | r ∷ rs ↦ some (record {
    field = "ledger_record_count";
    expected = some (lit "1" ∷ []);
    actual = some (num (1 + length (r ∷ rs)) ∷ []);
    difference = some (lit "+" ∷ num (length (r ∷ rs)) ∷ []);
    severity = high;
    rule_id = "REC-002";
    explanation =
        (lit "Posted " ∷ num (1 + length (r ∷ rs)) ∷ lit " times (" ∷ [])
        ++ (join (ledger_ids m.primary (r ∷ rs)) ++ (lit "); risk of double posting." ∷ []));
  })
]

-- The severity of an amount difference, by its share of the expected amount.
unfoldable pub amount_severity : ReconciliationConfig → ℕ → ℕ → Severity
amount_severity c diff base =
    if leb (c.amount_high_severity_pct * base) (diff * 10000)
    then high
    else if leb (c.amount_medium_severity_pct * base) (diff * 10000)
    then medium
    else low

unfoldable pub amount : Check
unfolding cents_of amount_severity ◌-ℤ◌
amount m c as_of = elim m.primary [
  | none ↦ none
  | some p ↦
      let expected = m.transaction.amount in
      let actual = p.posted_amount in
      let diff_cents = cents_of actual -ℤ cents_of expected in
      let base = max (nat_abs (cents_of expected)) 1 in
      if leb (nat_abs diff_cents) c.amount_tolerance_cents
      then none
      else some (record {
        field = "amount";
        expected = some (money expected ∷ []);
        actual = some (money actual ∷ []);
        difference = some (
            cents diff_cents
            ∷ lit " ("
            ∷ lit (if ltb_ℤ (pos 0) diff_cents then "+" else "-")
            ∷ percent (nat_abs diff_cents) base
            ∷ lit ")"
            ∷ []);
        severity = amount_severity c (nat_abs diff_cents) base;
        rule_id = "REC-003";
        explanation =
            lit "Ledger posted "
            ∷ money actual
            ∷ lit " but the transaction amount is "
            ∷ money expected
            ∷ lit " (tolerance "
            ∷ num c.amount_tolerance_cents
            ∷ lit " cent)."
            ∷ [];
      })
]

unfoldable pub currency : Check
currency m c as_of = elim m.primary [
  | none ↦ none
  | some p ↦
      if str_eq p.currency m.transaction.currency
      then none
      else some (record {
        field = "currency";
        expected = some (lit m.transaction.currency ∷ []);
        actual = some (lit p.currency ∷ []);
        difference = some (lit m.transaction.currency ∷ lit " -> " ∷ lit p.currency ∷ []);
        severity = high;
        rule_id = "REC-004";
        explanation = lit "Ledger currency differs from the transaction currency." ∷ [];
      })
]

abbrev pub reference_missing_report : Option String → Option String → Discrepancy
reference_missing_report tx_ref led_ref = record {
  field = "reference_id";
  expected = optional tx_ref;
  actual = optional led_ref;
  difference = some (lit "missing on one side" ∷ []);
  severity = medium;
  rule_id = "REC-005";
  explanation =
      lit "The "
      ∷ lit (if is_none led_ref then "ledger record" else "transaction")
      ∷ lit " has no reference id; the records cannot be tied by reference."
      ∷ [];
}

-- The rule's test `(tx_ref is None) == (led_ref is None)`.
abbrev pub missing_on_one_side : Option String → Option String → Option Discrepancy
missing_on_one_side none none = none
missing_on_one_side none (some b) = some (reference_missing_report none (some b))
missing_on_one_side (some a) none = some (reference_missing_report (some a) none)
missing_on_one_side (some a) (some b) = none

unfoldable pub reference_missing : Check
reference_missing m c as_of = elim m.primary [
  | none ↦ none
  | some p ↦ missing_on_one_side m.transaction.reference_id p.reference_id
]

abbrev pub different_values : Option String → Option String → Option Discrepancy
different_values none b = none
different_values (some a) none = none
different_values (some a) (some b) =
    if str_eq a b
    then none
    else some (record {
      field = "reference_id";
      expected = some (lit a ∷ []);
      actual = some (lit b ∷ []);
      difference = some (lit "different values" ∷ []);
      severity = high;
      rule_id = "REC-006";
      explanation = lit "Both records carry a reference id but the values differ." ∷ [];
    })

unfoldable pub reference_mismatch : Check
reference_mismatch m c as_of = elim m.primary [
  | none ↦ none
  | some p ↦ different_values m.transaction.reference_id p.reference_id
]
