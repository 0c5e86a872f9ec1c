-- ===== src/Pipeline/Models.antt =====
-- backend/app/schemas/domain.py (customers and documents), data_pipeline/normalization/models.py and
-- data_pipeline/consolidation/models.py.
use finguard_major_project.Prelude.{ℕ, String, Bool, Option, List}
use finguard_major_project.Domain.{Transaction, LedgerRecord}

pub record Date : Type 0 where
  pub year : ℕ
  pub month : ℕ
  pub day : ℕ

pub data KycStatus : Type 0 where
  verified pending expired rejected : KycStatus

pub data AccountType : Type 0 where
  personal business savings : AccountType

pub data DocumentType : Type 0 where
  passport national_id drivers_license : DocumentType

pub record Customer : Type 0 where
  pub customer_id : String
  pub name : String
  pub alternate_names : List String
  pub date_of_birth : Date
  pub address : String
  pub country : String
  pub occupation : String
  pub account_type : AccountType
  pub account_open_date : Date
  pub account_age_days : ℕ
  pub kyc_status : KycStatus

pub record KycRecord : Type 0 where
  pub document_id : String
  pub customer_id : String
  pub name : String
  pub date_of_birth : Date
  pub address : String
  pub document_type : DocumentType
  pub document_number : String
  pub issue_date : Date
  pub expiry_date : Date

pub record NormalizedName : Type 0 where
  pub raw : String
  pub canonical : String
  pub tokens : List String
  pub first : String
  pub middle : List String
  pub last : String
  pub has_initials : Bool
  pub reordered : Bool

pub record NormalizedAddress : Type 0 where
  pub raw : String
  pub canonical : String
  pub parsed : Bool
  pub number : Option String
  pub street : Option String
  pub city : Option String
  pub country : Option String

pub record CanonicalCustomer : Type 0 where
  pub customer : Customer
  pub name : NormalizedName
  pub alternate_names : List NormalizedName
  pub address : NormalizedAddress

pub record CanonicalKycDocument : Type 0 where
  pub record_ : KycRecord
  pub name : NormalizedName
  pub address : NormalizedAddress
  pub document_number : String

pub record CanonicalTransaction : Type 0 where
  pub transaction : Transaction
  pub ledger_records : List LedgerRecord

pub record CanonicalCase : Type 0 where
  pub case_id : String
  pub customer : CanonicalCustomer
  pub kyc_documents : List CanonicalKycDocument
  pub focus_transactions : List CanonicalTransaction
  pub context_transactions : List CanonicalTransaction
  pub as_of : ℕ
  pub context_days : ℕ
