-- ===== src/Examples/Engines.antt =====
-- The reconciliation and the data store at concrete inputs.
use finguard_major_project.Prelude.{
  ◌≤◌, ◌*◌, String, ◌≡◌, ◌↔◌, refl, none, some, List, [], ◌∷◌, filter, All, true, is_some, all,
  arith,
}
use mathlib.Core.List.{Perm}
use finguard_major_project.Domain.{ReconciliationStatus}
use finguard_major_project.Reconciliation.Config.{default_config}
use finguard_major_project.Reconciliation.Matcher.{match_records, belongs, posting_le}
use finguard_major_project.Reconciliation.Matching.{
  all_records, match_records-perm, match_records-earliest,
}
use finguard_major_project.Reconciliation.Service.{reconcile}
use finguard_major_project.Reconciliation.Verdict.{SingleAgrees, reconcile-reconciled_iff}
use finguard_major_project.Outcome.{ok}
use finguard_major_project.Pipeline.Models.{CanonicalCase}
use finguard_major_project.Pipeline.Store.{
  build_case, day, focus_ids_of, or_empty, member, ids_of, assemble,
}
use finguard_major_project.Pipeline.Cutoff.{Cut, build_case-cutoff}
use finguard_major_project.Pipeline.Known.{build_case-known}
use finguard_major_project.Dict.{lookup}
use finguard_major_project.Examples.Data.{payment, posting, ledger, store, customer}

reconcile-reconciled_iff_example :
    ((reconcile default_config payment
        (posting "L1" 5000000002000 ∷ [])
        (some 5000000003000)).status
      ≡ ReconciliationStatus.reconciled)
    ↔ SingleAgrees default_config payment
        (filter (belongs payment) (posting "L1" 5000000002000 ∷ []))
        (some 5000000003000)
reconcile-reconciled_iff_example =
    reconcile-reconciled_iff default_config payment (posting "L1" 5000000002000 ∷ [])
      (some 5000000003000)

match_records-perm_example :
    Perm (all_records (match_records payment ledger)) (filter (belongs payment) ledger)
match_records-perm_example = match_records-perm payment ledger

primary_record : (match_records payment ledger).primary ≡ some (posting "L1" 5000000002000)
unfolding match_records posting_le
primary_record = refl

match_records-earliest_example :
    All (λ r. 5000000002000 ≤ r.posting_timestamp) (match_records payment ledger).extras
match_records-earliest_example =
    match_records-earliest payment ledger {p = posting "L1" 5000000002000} primary_record

known_customer : is_some (lookup "C1" store.customers) ≡ true
unfolding lookup
known_customer = refl

known_focus :
    all (λ k. member k (ids_of (or_empty (lookup "C1" store.transactions_by_customer)))) ("T1" ∷ [])
    ≡ true
unfolding lookup
known_focus = refl

known_late :
    All (λ t. 30 * day ≤ t.timestamp) (or_empty (lookup "C1" store.transactions_by_customer))
unfolding lookup
known_late = (omega arith, tt)

build_case-known_example :
    (case : CanonicalCase) × (build_case store "C1" (some ("T1" ∷ [])) 30 none ≡ ok case)
build_case-known_example =
    build_case-known store "C1" ("T1" ∷ []) 30 none known_customer refl known_focus known_late

abbrev built : CanonicalCase
built = assemble store "C1" customer (payment ∷ []) ("T1" ∷ []) 30 none (payment ∷ [])

built_case : build_case store "C1" (some ("T1" ∷ [])) 30 none ≡ ok built
unfolding build_case
built_case = refl

build_case-cutoff_example :
    (ids : List String) × (focus_ids_of
        (some ("T1" ∷ []))
        (or_empty (lookup "C1" store.transactions_by_customer))
      ≡ ok ids)
    × Cut 30 ids built
build_case-cutoff_example = build_case-cutoff store "C1" (some ("T1" ∷ [])) 30 none built built_case
