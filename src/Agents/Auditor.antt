-- ===== src/Agents/Auditor.antt =====
-- agents/auditor/agent.py: `AuditorAgent`. The KYC matcher and the anomaly model are interfaces:
-- `match` of kyc/entity_matcher.py and `score` of agents/auditor/anomaly_service.py.
use finguard_major_project.Prelude.{
  ℕ, ◌+◌, String, Bool, not, ◌&&◌, Option, none, some, List, [], ◌∷◌, ◌++◌, map, filter, str_eq,
  if◌then◌else◌,
}
use finguard_major_project.Prelude.Int.{ℤ}
use finguard_major_project.Dict.{lookup}
use finguard_major_project.Domain.{Evidence, Transaction}
use finguard_major_project.Outcome.{Outcome, ok, raised, key_error, ◌>>=◌}
use finguard_major_project.Pipeline.Models.{
  CanonicalCase, CanonicalKycDocument, CanonicalTransaction,
}
use finguard_major_project.Pipeline.Store.{ConsolidatedStore}
use finguard_major_project.Contracts.{
  AnomalyAnalysisOutput, AnomalyFinding, KycAnalysisOutput, KycCandidateSummary, KycDocumentFinding,
}
use finguard_major_project.Agents.Evidence.{
  Rendering, anomaly_model_evidence, behaviour_evidence, customer_evidence, kyc_match_evidence,
  transaction_evidence,
}

-- `KYCMatchResult` (kyc/models.py), less the scores that the auditor does not read.
pub record KycMatchResult : Type 0 where
  pub candidate_id : String
  pub final_score : ℤ
  pub is_match : Bool
  pub confidence : String
  pub match_reasons : List String
  pub contradictory_evidence : List String

-- The first result of the customer, with its rank from `rank` on.
unfoldable pub own_result : String → ℕ → List KycMatchResult → Option (ℕ × KycMatchResult)
own_result customer_id rank [] = none
own_result customer_id rank (r ∷ results) =
    let rest = own_result customer_id (rank + 1) results in
    if str_eq r.candidate_id customer_id then some (rank, r) else rest

abbrev pub from_own {ℓ} :
    {A : Type ℓ} → A → (ℕ × KycMatchResult → A) → Option (ℕ × KycMatchResult) → A
from_own default f none = default
from_own default f (some own) = f own

abbrev pub candidate_summary : KycMatchResult → KycCandidateSummary
candidate_summary r = record {
  candidate_id = r.candidate_id;
  final_score = r.final_score;
  is_match = r.is_match;
  contradictions = r.contradictory_evidence;
}

-- The finding of one document.
unfoldable pub document_finding : String → String → List KycMatchResult → KycDocumentFinding
unfolding own_result
document_finding customer_id document_id results =
    let own = own_result customer_id 1 results in
    record {
      document_id = document_id;
      own_record_rank = from_own none (λ o. some o.0) own;
      own_final_score = from_own none (λ o. some o.1.final_score) own;
      own_confidence = from_own none (λ o. some o.1.confidence) own;
      own_reasons = from_own [] (λ o. o.1.match_reasons) own;
      own_contradictions = from_own [] (λ o. o.1.contradictory_evidence) own;
      other_strong_candidates =
          map candidate_summary
            (filter (λ r. not (str_eq r.candidate_id customer_id) && r.is_match) results);
    }

module _ (rendering : Rendering) where
  -- `match` is asked for the best 5.
  unfoldable pub analyze_kyc :
      (CanonicalKycDocument → ℕ → List KycMatchResult) → CanonicalCase → ℕ → KycAnalysisOutput
  unfolding document_finding customer_evidence kyc_match_evidence
  analyze_kyc match case now =
      let customer_id = case.customer.customer.customer_id in
      let findings =
        map (λ d. document_finding customer_id d.record_.document_id (match d 5))
          case.kyc_documents in
      record {
        findings = findings;
        evidence =
            customer_evidence rendering case.customer.customer now
            ∷ map (λ f. kyc_match_evidence rendering f now) findings;
      }

  module _ (score : String → Outcome AnomalyFinding) where
    abbrev tx_evidence : Transaction → List Transaction → AnomalyFinding → ℕ → List Evidence
    tx_evidence tx history finding now =
        transaction_evidence rendering tx now none
        ∷ behaviour_evidence rendering tx history now
        ∷ anomaly_model_evidence rendering finding now
        ∷ []

    -- The loop over the focus.
    unfoldable pub score_focus :
        List CanonicalTransaction → List Transaction → ℕ → Outcome AnomalyAnalysisOutput
    unfolding transaction_evidence behaviour_evidence anomaly_model_evidence
    score_focus [] history now = ok (record { findings = []; evidence = [] })
    score_focus (c ∷ focus) history now = score c.transaction.transaction_id >>= λ finding.
        (score_focus focus history now >>= λ rest. ok (record {
          findings = finding ∷ rest.findings;
          evidence = tx_evidence c.transaction history finding now ++ rest.evidence;
        }))

    abbrev scored : CanonicalCase → ℕ → Option (List Transaction) → Outcome AnomalyAnalysisOutput
    scored case now none = raised (key_error case.customer.customer.customer_id)
    scored case now (some history) = score_focus case.focus_transactions history now

    unfoldable pub analyze_anomalies :
        ConsolidatedStore → CanonicalCase → ℕ → Outcome AnomalyAnalysisOutput
    unfolding lookup score_focus
    analyze_anomalies store case now =
        scored case now (lookup case.customer.customer.customer_id store.transactions_by_customer)
