-- ===== src/Pipeline/Values.antt =====
-- The values of the enumerations of backend/app/schemas/domain.py, as they stand in JSON.
use finguard_major_project.Prelude.{◌+◌, ◌*◌, String}
use finguard_major_project.Prelude.Int.{ℤ, pos, negsuc}
use finguard_major_project.Domain.{TransactionType, Channel, ReconciliationStatus}
use finguard_major_project.Pipeline.Models.{KycStatus, AccountType, DocumentType}

unfoldable pub transaction_type_value : TransactionType → String
transaction_type_value TransactionType.transfer_out = "transfer_out"
transaction_type_value TransactionType.transfer_in = "transfer_in"
transaction_type_value TransactionType.payment = "payment"
transaction_type_value TransactionType.withdrawal = "withdrawal"
transaction_type_value TransactionType.deposit = "deposit"

unfoldable pub channel_value : Channel → String
channel_value Channel.mobile = "mobile"
channel_value Channel.web = "web"
channel_value Channel.branch = "branch"
channel_value Channel.atm = "atm"
channel_value Channel.pos = "pos"

unfoldable pub reconciliation_status_value : ReconciliationStatus → String
reconciliation_status_value ReconciliationStatus.reconciled = "reconciled"
reconciliation_status_value ReconciliationStatus.discrepancy = "discrepancy"

unfoldable pub kyc_status_value : KycStatus → String
kyc_status_value KycStatus.verified = "verified"
kyc_status_value KycStatus.pending = "pending"
kyc_status_value KycStatus.expired = "expired"
kyc_status_value KycStatus.rejected = "rejected"

unfoldable pub account_type_value : AccountType → String
account_type_value AccountType.personal = "personal"
account_type_value AccountType.business = "business"
account_type_value AccountType.savings = "savings"

unfoldable pub document_type_value : DocumentType → String
document_type_value DocumentType.passport = "passport"
document_type_value DocumentType.national_id = "national_id"
document_type_value DocumentType.drivers_license = "drivers_license"

-- An amount in ten-thousandths as a float in millionths.
abbrev pub as_float : ℤ → ℤ
as_float (pos n) = pos (n * 100)
as_float (negsuc n) = negsuc (n * 100 + 99)
