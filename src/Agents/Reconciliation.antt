-- ===== src/Agents/Reconciliation.antt =====
-- agents/reconciliation/agent.py: `ReconciliationAgent.reconcile`.
use Prim.Native.String.{◌++◌ as str_append}
use finguard_major_project.Prelude.{
  ℕ, ◌+◌, String, not, Option, none, some, List, [], ◌∷◌, ◌++◌, map, filter, length, str_eq,
  is_empty, if◌then◌else◌,
}
use finguard_major_project.Prelude.Int.{pos}
use finguard_major_project.Strings.{lit, num}
use finguard_major_project.Json.{Fields, end, field, obj, int}
use finguard_major_project.Domain.{Evidence, EvidenceSource, ReconciliationResult}
use finguard_major_project.Outcome.{Outcome, ok, raised, key_error, ◌>>=◌}
use finguard_major_project.Pipeline.Models.{CanonicalCase}
use finguard_major_project.Pipeline.Store.{member}
use finguard_major_project.Contracts.{ReconciliationOutput}
use finguard_major_project.Reconciliation.Config.{ReconciliationConfig}
use finguard_major_project.Reconciliation.Service.{reconcile_case}
use finguard_major_project.Agents.Evidence.{Rendering, reconciliation_evidence}

-- `by_id.get(k)`: the last result of a transaction wins.
abbrev pub result_of : String → List ReconciliationResult → Option ReconciliationResult
result_of k [] = none
result_of k (r ∷ rs) = elim (result_of k rs) [
  | some later ↦ some later
  | none ↦ if str_eq r.transaction_id k then some r else none
]

abbrev pub focus_ids : CanonicalCase → List String
focus_ids case = map (λ c. c.transaction.transaction_id) case.focus_transactions

-- `Counter(ids)`, as counts in the order of the first occurrence.
abbrev pub count_one : String → List (String × ℕ) → List (String × ℕ)
count_one k [] = (k, 1) ∷ []
count_one k ((j, n) ∷ rest) =
    let later = count_one k rest in if str_eq j k then (j, n + 1) ∷ rest else (j, n) ∷ later

abbrev pub counted : List String → List (String × ℕ) → List (String × ℕ)
counted [] m = m
counted (k ∷ ks) m = counted ks (count_one k m)

abbrev rules_of : List ReconciliationResult → List String
rules_of [] = []
rules_of (r ∷ rs) = map (λ d. d.rule_id) r.discrepancies ++ rules_of rs

abbrev counts_fields : List (String × ℕ) → Fields
counts_fields [] = end
counts_fields ((k, n) ∷ rest) = field k (int (pos n)) (counts_fields rest)

module _ (rendering : Rendering) where
  -- `by_id[transaction_id]`: a missing result is a KeyError.
  abbrev pub evidence_for : Option ReconciliationResult → String → ℕ → Outcome (List Evidence)
  evidence_for none k now = raised (key_error k)
  evidence_for (some r) k now = ok (reconciliation_evidence rendering r now)

  -- The loop over the focus.
  unfoldable pub focus_evidence :
      List String → List ReconciliationResult → ℕ → Outcome (List Evidence)
  unfolding reconciliation_evidence
  focus_evidence [] results now = ok []
  focus_evidence (k ∷ ks) results now = evidence_for (result_of k results) k now >>= λ found.
      (focus_evidence ks results now >>= λ rest. ok (found ++ rest))

  unfoldable pub context_evidence : CanonicalCase → List ReconciliationResult → ℕ → Evidence
  context_evidence case results now =
      let context = filter (λ r. not (member r.transaction_id (focus_ids case))) results in
      record {
        evidence_id = str_append "REC-CONTEXT-" case.case_id;
        source = EvidenceSource.reconciliation;
        description = rendering.render (
            num (length (filter (λ r. not (is_empty r.discrepancies)) context))
            ∷ lit " of "
            ∷ num (length context)
            ∷ lit " recent transactions of this customer have reconciliation findings"
            ∷ []);
        payload =
            field "context_transactions" (int (pos (length context)))
              (field "findings_by_rule" (obj (counts_fields (counted (rules_of context) []))) end);
        created_at = now;
      }

  unfoldable pub reconcile : ReconciliationConfig → CanonicalCase → ℕ → Outcome ReconciliationOutput
  unfolding reconcile_case focus_evidence context_evidence
  reconcile config case now =
      let results = reconcile_case config case in
      focus_evidence (focus_ids case) results now >>= λ evidence.
      ok (record {
        results = results;
        evidence = evidence ++ context_evidence case results now ∷ [];
      })
