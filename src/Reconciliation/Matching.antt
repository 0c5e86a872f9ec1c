-- ===== src/Reconciliation/Matching.antt =====
-- What matcher.py promises: every ledger record of the transaction once, the earliest first.
use mathlib.Core.List.{Perm}
use finguard_major_project.Prelude.{
  ℕ, ◌≤◌, ◌≡◌, refl, true, false, Option, none, some, List, [], ◌∷◌, arith, filter, All,
}
use finguard_major_project.Prelude.Sorting.{IsSorted, sorted-perm, sorted-IsSorted}
use finguard_major_project.Strings.{str_le_total}
use finguard_major_project.Domain.{Transaction, LedgerRecord}
use finguard_major_project.Reconciliation.Matcher.{
  MatchedRecords, posting_le, belongs, candidates, matched, match_records,
}

abbrev pub records_of : Option LedgerRecord → List LedgerRecord → List LedgerRecord
records_of none extras = extras
records_of (some p) extras = p ∷ extras

abbrev pub all_records : MatchedRecords → List LedgerRecord
all_records m = records_of m.primary m.extras

all_records-matched : (tx : Transaction) (rs : List LedgerRecord) → all_records (matched tx rs) ≡ rs
unfolding matched
all_records-matched tx [] = refl
all_records-matched tx (r ∷ rs) = refl

-- The matched records are the transaction's ledger records, each as often as the ledger holds it.
pub match_records-perm :
    (tx : Transaction) (ls : List LedgerRecord)
    → Perm (all_records (match_records tx ls)) (filter (belongs tx) ls)
unfolding match_records candidates
match_records-perm tx ls =
    rw (all_records-matched tx (candidates tx ls)) (sorted-perm posting_le (filter (belongs tx) ls))

posting_le_total : (a b : LedgerRecord) → posting_le a b ≡ false → posting_le b a ≡ true
unfolding posting_le
posting_le_total a b h = ground (arith, str_le_total a.ledger_id b.ledger_id)

le_of_posting_le :
    (a b : LedgerRecord) → posting_le a b ≡ true → a.posting_timestamp ≤ b.posting_timestamp
unfolding posting_le
le_of_posting_le a b h = ground arith

-- The head of a sorted list of postings is the earliest.
earliest :
    (p : LedgerRecord) (rs : List LedgerRecord) (t : ℕ)
    → t ≤ p.posting_timestamp
    → IsSorted posting_le (p ∷ rs)
    → All (λ r. t ≤ r.posting_timestamp) rs
earliest p [] t h s = tt
earliest p (r ∷ rs) t h s =
    let le : t ≤ r.posting_timestamp = omega (arith, le_of_posting_le p r s.0) in
    (le, earliest r rs t le s.1)

candidates-IsSorted :
    (tx : Transaction) (ls : List LedgerRecord) → IsSorted posting_le (candidates tx ls)
unfolding candidates
candidates-IsSorted tx ls = sorted-IsSorted posting_le posting_le_total (filter (belongs tx) ls)

matched-earliest :
    (tx : Transaction) (rs : List LedgerRecord) {p : LedgerRecord}
    → IsSorted posting_le rs
    → (matched tx rs).primary ≡ some p
    → All (λ r. p.posting_timestamp ≤ r.posting_timestamp) (matched tx rs).extras
unfolding matched
matched-earliest tx [] s h = cc
matched-earliest tx (r ∷ rs) {p} s h = earliest r rs p.posting_timestamp (ground arith) s

-- The primary record is posted no later than any of the extras.
pub match_records-earliest :
    (tx : Transaction) (ls : List LedgerRecord) {p : LedgerRecord}
    → (match_records tx ls).primary ≡ some p
    → All (λ r. p.posting_timestamp ≤ r.posting_timestamp) (match_records tx ls).extras
unfolding match_records
match_records-earliest tx ls h =
    matched-earliest tx (candidates tx ls) (candidates-IsSorted tx ls) h
