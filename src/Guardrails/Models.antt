-- ===== src/Guardrails/Models.antt =====
-- guardrails/models.py, and knowledge_base/models.py (RetrievedChunk).
use finguard_major_project.Prelude.{ℕ, String, Bool, true, false, Option, List, filter, length}
use finguard_major_project.Prelude.Int.{ℤ}
use finguard_major_project.Strings.{Text}
use finguard_major_project.Domain.{Decision}
use finguard_major_project.Json.{Fields}

pub data SupportStatus : Type 0 where
  supported unsupported unverifiable : SupportStatus

-- `index` is the position among the findings; the entries of the evidence list have -2 - j.
pub record ClaimCheck : Type 0 where
  pub index : ℤ
  pub claim : Text
  pub kind : String
  pub evidence_ids : List String
  pub status : SupportStatus
  pub reason : Text

pub record PolicyFlag : Type 0 where
  pub code : String
  pub detail : Text
  pub is_violation : Bool

pub record PolicyResult : Type 0 where
  pub flags : List PolicyFlag
  pub floor : Option Decision
  pub floor_reasons : List Text

pub record CritiqueReport : Type 0 where
  pub claim_checks : List ClaimCheck
  pub summary_grounded : Bool
  pub summary_reason : Text
  pub policy : PolicyResult
  pub model_decision : Option Decision
  pub guardrail_decision : Option Decision
  pub adjustments : List Text
  pub validated : Bool
  pub notes : List Text

abbrev pub is_supported : SupportStatus → Bool
is_supported supported = true
is_supported _ = false

abbrev pub is_unsupported : SupportStatus → Bool
is_unsupported unsupported = true
is_unsupported _ = false

abbrev pub is_unverifiable : SupportStatus → Bool
is_unverifiable unverifiable = true
is_unverifiable _ = false

abbrev pub unsupported_claims : List ClaimCheck → List ClaimCheck
unsupported_claims = filter (λ c. is_unsupported c.status)

-- `counts`, in the order supported, unsupported, unverifiable.
unfoldable pub counts : CritiqueReport → ℕ × ℕ × ℕ
counts r = (
  length (filter (λ c. is_supported c.status) r.claim_checks),
  length (filter (λ c. is_unsupported c.status) r.claim_checks),
  length (filter (λ c. is_unverifiable c.status) r.claim_checks),
)

pub data Trust : Type 0 where
  trusted untrusted : Trust

pub record RetrievedChunk : Type 0 where
  pub chunk_id : String
  pub document_id : String
  pub text : String
  pub score : ℤ
  pub rank : ℕ
  pub metadata : Fields
  pub component_scores : List (String × ℤ)
