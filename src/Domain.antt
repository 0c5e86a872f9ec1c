-- ===== src/Domain.antt =====
-- The domain schemas that the engines share (backend/app/schemas/domain.py).
use finguard_major_project.Prelude.{ℕ, String, Bool, true, false, Option, List, ◌==◌}
use finguard_major_project.Prelude.Int.{ℤ}
use finguard_major_project.Strings.{Text}
use finguard_major_project.Json.{Fields}

-- Times are microseconds on one time line; amounts are decimals in ten-thousandths.
pub data TransactionType : Type 0 where
  transfer_out transfer_in payment withdrawal deposit : TransactionType

pub data Channel : Type 0 where
  mobile web branch atm pos : Channel

pub data SettlementStatus : Type 0 where
  settled pending failed : SettlementStatus

pub data CaseStatus : Type 0 where
  case_created data_ready kyc_analyzed anomaly_analyzed reconciled evidence_retrieved : CaseStatus
  investigation_generated self_critiqued human_review closed : CaseStatus

pub data Decision : Type 0 where
  clear review escalate : Decision

pub data EvidenceSource : Type 0 where
  kyc anomaly reconciliation knowledge_base transaction esg : EvidenceSource

pub data Severity : Type 0 where
  low medium high : Severity

pub record Transaction : Type 0 where
  pub transaction_id : String
  pub customer_id : String
  pub timestamp : ℕ
  pub amount : ℤ
  pub currency : String
  pub transaction_type : TransactionType
  pub sender : String
  pub receiver : String
  pub sender_country : String
  pub receiver_country : String
  pub channel : Channel
  pub reference_id : Option String

pub record LedgerRecord : Type 0 where
  pub ledger_id : String
  pub transaction_id : String
  pub posted_amount : ℤ
  pub currency : String
  pub posting_timestamp : ℕ
  pub settlement_status : SettlementStatus
  pub reference_id : Option String

pub record Discrepancy : Type 0 where
  pub field : String
  pub expected : Option Text
  pub actual : Option Text
  pub difference : Option Text
  pub severity : Severity
  pub rule_id : String
  pub explanation : Text

pub data ReconciliationStatus : Type 0 where
  reconciled discrepancy : ReconciliationStatus

pub record ReconciliationResult : Type 0 where
  pub transaction_id : String
  pub ledger_id : Option String
  pub status : ReconciliationStatus
  pub discrepancies : List Discrepancy

pub record Evidence : Type 0 where
  pub evidence_id : String
  pub source : EvidenceSource
  pub description : String
  pub payload : Fields
  pub created_at : ℕ

pub CaseStatus-discrete : Discrete CaseStatus
CaseStatus-discrete = hlevel

-- Tests of the enumerations, as `==` on their members.
abbrev pub rank : CaseStatus → ℕ
rank case_created = 0
rank data_ready = 1
rank kyc_analyzed = 2
rank anomaly_analyzed = 3
rank CaseStatus.reconciled = 4
rank evidence_retrieved = 5
rank investigation_generated = 6
rank self_critiqued = 7
rank human_review = 8
rank closed = 9

abbrev pub status_eq : CaseStatus → CaseStatus → Bool
status_eq a b = rank a == rank b

-- DECISION_RANK and SEVERITY_RANK of guardrails/policy_checks.py.
unfoldable pub decision_rank : Decision → ℕ
decision_rank clear = 0
decision_rank review = 1
decision_rank escalate = 2

unfoldable pub severity_rank : Severity → ℕ
severity_rank low = 0
severity_rank medium = 1
severity_rank high = 2

abbrev pub is_clear : Decision → Bool
is_clear clear = true
is_clear _ = false

abbrev pub is_escalate : Decision → Bool
is_escalate escalate = true
is_escalate _ = false
