-- ===== src/Reconciliation/Verdict.antt =====
-- When a transaction reconciles, against an independent description of agreement.
use finguard_major_project.Prelude.{
  ℕ, ◌≡◌, refl, ◌↔◌, Option, none, List, [], ◌∷◌, filter, ap, All, Option-cases, inl, inr,
}
use finguard_major_project.Prelude.Sorting.{sorted, sorted_one, sorted_nil}
use finguard_major_project.Domain.{Transaction, LedgerRecord, Discrepancy, ReconciliationStatus}
use finguard_major_project.Reconciliation.Config.{ReconciliationConfig}
use finguard_major_project.Reconciliation.Matcher.{
  MatchedRecords, posting_le, belongs, candidates, matched, match_records,
}
use finguard_major_project.Reconciliation.Checks.{missing_ledger, duplicate_posting}
use finguard_major_project.Reconciliation.Rules.{Rule, rules}
use finguard_major_project.Reconciliation.Detector.{found, rule_le, detect}
use finguard_major_project.Reconciliation.Service.{service, status_of, reconcile}
use finguard_major_project.Reconciliation.Agreement.{
  Agrees, amount_iff, currency_iff, reference_iff, early_iff, late_iff, failed_iff, stale_iff,
}

abbrev AllSilent : List Rule → MatchedRecords → ReconciliationConfig → Option ℕ → Type 0
AllSilent rs m c as_of = All (λ r. r.check m c as_of ≡ none) rs

module _ (m : MatchedRecords) (c : ReconciliationConfig) (as_of : Option ℕ) where
  found-silent : (rs : List Rule) → found rs m c as_of ≡ [] → AllSilent rs m c as_of
  unfolding found
  found-silent [] h = tt
  found-silent (r ∷ rs) h = elim (Option-cases (r.check m c as_of)) [
    | inl e ↦ (e, found-silent rs (rw e at h))
    | inr (d, e) ↦ cc (e, h)
  ]

  silent-found : (rs : List Rule) → AllSilent rs m c as_of → found rs m c as_of ≡ []
  unfolding found
  silent-found [] h = refl
  silent-found (r ∷ rs) h = rw h.0 (silent-found rs h.1)

status_nil : (ds : List Discrepancy) → status_of ds ≡ ReconciliationStatus.reconciled → ds ≡ []
status_nil [] h = refl
status_nil (d ∷ ds) h = cc

nil_status : (ds : List Discrepancy) → ds ≡ [] → status_of ds ≡ ReconciliationStatus.reconciled
nil_status [] h = refl
nil_status (d ∷ ds) h = cc

detect-silent :
    (c : ReconciliationConfig) (m : MatchedRecords) (as_of : Option ℕ)
    → (detect (service c) m as_of ≡ []) ↔ AllSilent rules m c as_of
unfolding detect
detect-silent c m as_of = (
  λ h. found-silent m c as_of rules (sorted_nil rule_le (found rules m c as_of) h),
  λ h. ap (sorted rule_le) (silent-found m c as_of rules h),
)

-- The rules on the matched records leave a single ledger record that agrees.
abbrev pub SingleAgrees : ReconciliationConfig → Transaction → List LedgerRecord → Option ℕ → Type 0
SingleAgrees c tx rs as_of = (p : LedgerRecord) × (rs ≡ p ∷ []) × Agrees c tx p as_of

module _ (c : ReconciliationConfig) (tx : Transaction) (as_of : Option ℕ) where
  silent-Agrees :
      (rs : List LedgerRecord)
      → AllSilent rules (matched tx rs) c as_of
      → SingleAgrees c tx rs as_of
  unfolding matched missing_ledger duplicate_posting
  silent-Agrees [] h = cc (h.0)
  silent-Agrees (p ∷ q ∷ rs) h = cc (h.1.0)
  silent-Agrees (p ∷ []) (h1, (h2, (h3, (h4, (h5, (h6, (h7, (h8, (h9, (h10, u)))))))))) = (
    p,
    refl,
    record {
      amount_close = (amount_iff c tx p as_of).0 h3;
      same_currency = (currency_iff c tx p as_of).0 h4;
      same_reference = (reference_iff c tx p as_of).0 (h5, h6);
      not_early = (early_iff c tx p as_of).0 h7;
      not_late = (late_iff c tx p as_of).0 h8;
      not_failed = (failed_iff c tx p as_of).0 h9;
      not_stale = (stale_iff c tx p as_of).0 h10;
    },
  )

  Agrees-silent :
      (p : LedgerRecord) → Agrees c tx p as_of → AllSilent rules (matched tx (p ∷ [])) c as_of
  unfolding matched missing_ledger duplicate_posting
  Agrees-silent p a =
      let refs = (reference_iff c tx p as_of).1 a.same_reference in
      (
        refl,
        (
          refl,
          (
            (amount_iff c tx p as_of).1 a.amount_close,
            (
              (currency_iff c tx p as_of).1 a.same_currency,
              (
                refs.0,
                (
                  refs.1,
                  (
                    (early_iff c tx p as_of).1 a.not_early,
                    (
                      (late_iff c tx p as_of).1 a.not_late,
                      (
                        (failed_iff c tx p as_of).1 a.not_failed,
                        ((stale_iff c tx p as_of).1 a.not_stale, tt),
                      ),
                    ),
                  ),
                ),
              ),
            ),
          ),
        ),
      )

one-candidate :
    (tx : Transaction) (ls : List LedgerRecord) (p : LedgerRecord)
    → filter (belongs tx) ls ≡ p ∷ []
    → candidates tx ls ≡ p ∷ []
unfolding candidates sorted
one-candidate tx ls p h = rw h

-- A transaction is reported as reconciled exactly when the ledger holds exactly one record of it
-- and that record agrees with the transaction: the amounts within the tolerance, the same currency
-- and the same reference (both absent counts as the same), posted neither early nor late, and,
-- where settlement is checked, neither failed nor pending for longer than the limit at `as_of`.
pub reconcile-reconciled_iff :
    (c : ReconciliationConfig) (tx : Transaction) (ls : List LedgerRecord) (as_of : Option ℕ)
    → ((reconcile c tx ls as_of).status ≡ ReconciliationStatus.reconciled)
      ↔ SingleAgrees c tx (filter (belongs tx) ls) as_of
unfolding reconcile match_records
reconcile-reconciled_iff c tx ls as_of = (to, of)
  where
    ms : MatchedRecords
    ms = matched tx (candidates tx ls)

    to :
        status_of (detect (service c) ms as_of) ≡ ReconciliationStatus.reconciled
        → SingleAgrees c tx (filter (belongs tx) ls) as_of
    to h =
        let silent = (detect-silent c ms as_of).0 (status_nil _ h) in
        let (p, e, a) = silent-Agrees c tx as_of (candidates tx ls) silent in (p, single p e, a)
      where
        single : (p : LedgerRecord) → candidates tx ls ≡ p ∷ [] → filter (belongs tx) ls ≡ p ∷ []
        single p e = sorted_one posting_le (filter (belongs tx) ls) p (unfold candidates in e)

    of :
        SingleAgrees c tx (filter (belongs tx) ls) as_of
        → status_of (detect (service c) ms as_of) ≡ ReconciliationStatus.reconciled
    of (p, e, a) =
        nil_status _ (
          (detect-silent c ms as_of).1
            (rw (one-candidate tx ls p e) (Agrees-silent c tx as_of p a)))
