-- ===== src/Contracts.antt =====
-- agents/contracts.py: the typed inputs and outputs of the agents. Floats are in millionths.
use finguard_major_project.Prelude.{ℕ, String, Bool, Option, List}
use finguard_major_project.Prelude.Int.{ℤ}
use finguard_major_project.Strings.{Text}
use finguard_major_project.Domain.{Decision, Evidence, ReconciliationResult}
use finguard_major_project.Json.{Fields}
use finguard_major_project.Llm.{InvestigationOutput}
use finguard_major_project.Guardrails.Models.{CritiqueReport, SupportStatus, RetrievedChunk}

pub record KycCandidateSummary : Type 0 where
  pub candidate_id : String
  pub final_score : ℤ
  pub is_match : Bool
  pub contradictions : List String

pub record KycDocumentFinding : Type 0 where
  pub document_id : String
  pub own_record_rank : Option ℕ
  pub own_final_score : Option ℤ
  pub own_confidence : Option String
  pub own_reasons : List String
  pub own_contradictions : List String
  pub other_strong_candidates : List KycCandidateSummary

pub record KycAnalysisOutput : Type 0 where
  pub findings : List KycDocumentFinding
  pub evidence : List Evidence

pub record AnomalyFinding : Type 0 where
  pub transaction_id : String
  pub probability : ℤ
  pub flagged : Bool
  pub threshold : ℤ
  pub top_drivers : List (String × ℤ)
  pub in_training_period : Bool
  pub model : String

pub record AnomalyAnalysisOutput : Type 0 where
  pub findings : List AnomalyFinding
  pub evidence : List Evidence

pub record ReconciliationOutput : Type 0 where
  pub results : List ReconciliationResult
  pub evidence : List Evidence

pub record RetrievalOutput : Type 0 where
  pub queries : List String
  pub chunks : List RetrievedChunk

pub record InvestigationMeta : Type 0 where
  pub prompt_version : String
  pub nonce : String
  pub provider : String
  pub model : String
  pub is_mock : Bool
  pub attempts : ℕ
  pub errors : List String
  pub latency_s : ℕ
  pub knowledge_chunk_ids : List String
  pub excluded_suspicious_chunks : List String

pub record InvestigationResult : Type 0 where
  pub investigation : Option InvestigationOutput
  pub meta : InvestigationMeta

pub record CheckResult : Type 0 where
  pub check_id : String
  pub passed : Bool
  pub detail : Text

pub record ReviewInput : Type 0 where
  pub evidence : List Evidence
  pub investigation : Option InvestigationOutput
  pub knowledge_chunks : List RetrievedChunk

pub record ReviewOutput : Type 0 where
  pub validated : Bool
  pub checks : List CheckResult
  pub notes : List Text
  pub critique : Option CritiqueReport

pub data Origin : Type 0 where
  engine model : Origin

pub record ReportItem : Type 0 where
  pub text : Text
  pub evidence_ids : List String
  pub origin : Origin
  pub support : Option SupportStatus
  pub support_reason : Option Text

pub record CaseReport : Type 0 where
  pub case_id : String
  pub customer_id : String
  pub focus_transaction_ids : List String
  pub generated_at : ℕ
  pub proposed_decision : Option Decision
  pub proposed_decision_note : String
  pub advisory_decision : Option Decision
  pub decision_adjustments : List Text
  pub claim_summary : Option (ℕ × ℕ × ℕ)
  pub policy_flags : List String
  pub validated : Bool
  pub engine_facts : List ReportItem
  pub model_findings : List ReportItem
  pub recommendations : List String
  pub uncertainties : List String
  pub warnings : List Text
  pub evidence_index : List (String × String)
  pub provenance : Fields

pub record ReportInput : Type 0 where
  pub case_id : String
  pub customer_id : String
  pub focus_transaction_ids : List String
  pub generated_at : ℕ
  pub evidence : List Evidence
  pub kyc_findings : List KycDocumentFinding
  pub anomaly_findings : List AnomalyFinding
  pub reconciliation_results : List ReconciliationResult
  pub knowledge_chunks : List RetrievedChunk
  pub investigation : Option InvestigationOutput
  pub investigation_meta : Option InvestigationMeta
  pub review : Option ReviewOutput
  pub failed_step : Option String
