-- ===== src/Agents/Lookback.antt =====
-- The evidence on a transaction looks only at what came before it, and the governance indicator that is
-- flagged gives the floor a reason (llm/rag/evidence.py, esg/governance_scoring.py).
use finguard_major_project.Prelude.{
  ℕ, ◌≡◌, refl, Bool, true, false, not, ◌||◌, List, [], ◌∷◌, ◌++◌, arith, ltb, is_empty,
}
use finguard_major_project.Json.{get, get_or_null, truthy}
use finguard_major_project.Domain.{Evidence, Transaction}
use finguard_major_project.Guardrails.Policy.{esg_reasons}
use finguard_major_project.Agents.Evidence.{Rendering, behaviour_evidence, prior_of}
use finguard_major_project.Agents.Governance.{
  GovernanceConfig, GovernanceFacts, facts_payload, governance_evidence, score_governance,
}

prior_of-later :
    (tx late : Transaction) (xs ys : List Transaction)
    → ltb late.timestamp tx.timestamp ≡ false
    → prior_of tx (xs ++ late ∷ ys) ≡ prior_of tx (xs ++ ys)
prior_of-later tx late [] ys h = rw h
prior_of-later tx late (x ∷ xs) ys h = ground (arith, prior_of-later tx late xs ys h)

-- A transaction that is not before this one, wherever it stands in the history, changes neither the
-- behaviour evidence nor the governance indicator: neither looks ahead.
pub evidence-looks_back :
    (rendering : Rendering) (config : GovernanceConfig) (tx late : Transaction)
    (xs ys : List Transaction) (now : ℕ)
    → ltb late.timestamp tx.timestamp ≡ false
    → (behaviour_evidence rendering tx (xs ++ late ∷ ys) now
        ≡ behaviour_evidence rendering tx (xs ++ ys) now)
      × (score_governance tx (xs ++ late ∷ ys) config ≡ score_governance tx (xs ++ ys) config)
unfolding behaviour_evidence score_governance
evidence-looks_back rendering config tx late xs ys now h =
    let same = prior_of-later tx late xs ys h in (rw same refl, rw same refl)

payload_reasons :
    (e : Evidence) (facts : GovernanceFacts)
    → not (is_empty (esg_reasons (record e { payload = facts_payload facts })))
      ≡ (facts.new_cross_border_counterparty || facts.structuring_suspected)
unfolding esg_reasons facts_payload get get_or_null truthy
payload_reasons e facts = by_flags facts.new_cross_border_counterparty facts.structuring_suspected
  where
    by_flags :
        (a b : Bool)
        → not (
            is_empty (
              esg_reasons (record e {
                payload =
                    facts_payload (record facts {
                      new_cross_border_counterparty = a;
                      structuring_suspected = b;
                    });
              })))
          ≡ (a || b)
    by_flags true b = refl
    by_flags false true = refl
    by_flags false false = refl

-- The policy finds a reason in the governance evidence exactly when the indicator is flagged.
pub governance_evidence-reasons :
    (rendering : Rendering) (config : GovernanceConfig) (tx : Transaction)
    (history : List Transaction) (now : ℕ)
    → not (is_empty (esg_reasons (governance_evidence rendering tx history now config)))
      ≡ (score_governance tx history config).flagged
unfolding governance_evidence score_governance
governance_evidence-reasons rendering config tx history now =
    payload_reasons (governance_evidence rendering tx history now config)
      (score_governance tx history config)
