-- ===== src/Examples/Data.antt =====
-- One customer with a transaction that the ledger settles, and agents that answer.
use finguard_major_project.Prelude.{ℕ, String, true, false, none, some, List, [], ◌∷◌}
use finguard_major_project.Prelude.Int.{pos}
use finguard_major_project.Json.{end}
use finguard_major_project.Domain.{
  Transaction, TransactionType, Channel, LedgerRecord, SettlementStatus,
}
use finguard_major_project.Outcome.{ok, raised, runtime_error}
use finguard_major_project.Pipeline.Models.{
  Date, KycStatus, AccountType, NormalizedName, NormalizedAddress, CanonicalCustomer,
}
use finguard_major_project.Pipeline.Store.{ConsolidatedStore}
use finguard_major_project.Contracts.{InvestigationMeta, CaseReport}
use finguard_major_project.Case.{CaseState, fresh_case}
use finguard_major_project.Workflow.Steps.{Agents, Context}

abbrev pub payment : Transaction
payment = record {
  transaction_id = "T1";
  customer_id = "C1";
  timestamp = 5000000001000;
  amount = pos 500000;
  currency = "SGD";
  transaction_type = TransactionType.payment;
  sender = "A";
  receiver = "B";
  sender_country = "SG";
  receiver_country = "SG";
  channel = Channel.web;
  reference_id = some "R1";
}

abbrev pub posting : String → ℕ → LedgerRecord
posting id at = record {
  ledger_id = id;
  transaction_id = "T1";
  posted_amount = pos 500000;
  currency = "SGD";
  posting_timestamp = at;
  settlement_status = SettlementStatus.settled;
  reference_id = some "R1";
}

abbrev pub ledger : List LedgerRecord
ledger = posting "L2" 5000000003000 ∷ posting "L1" 5000000002000 ∷ []

abbrev birthday : Date
birthday = record { year = 1990; month = 1; day = 1 }

abbrev name : NormalizedName
name = record {
  raw = "Ada Tan";
  canonical = "ada tan";
  tokens = "ada" ∷ "tan" ∷ [];
  first = "ada";
  middle = [];
  last = "tan";
  has_initials = false;
  reordered = false;
}

abbrev home : NormalizedAddress
home = record {
  raw = "1 High St";
  canonical = "1 high street";
  parsed = true;
  number = some "1";
  street = some "high street";
  city = none;
  country = none;
}

abbrev pub customer : CanonicalCustomer
customer = record {
  customer = record {
    customer_id = "C1";
    name = "Ada Tan";
    alternate_names = [];
    date_of_birth = birthday;
    address = "1 High St";
    country = "SG";
    occupation = "engineer";
    account_type = AccountType.personal;
    account_open_date = birthday;
    account_age_days = 10;
    kyc_status = KycStatus.verified;
  };
  name = name;
  alternate_names = [];
  address = home;
}

abbrev pub store : ConsolidatedStore
store = record {
  customers = ("C1", customer) ∷ [];
  kyc_by_customer = [];
  transactions_by_customer = ("C1", payment ∷ []) ∷ [];
  ledger_by_transaction = ("T1", ledger) ∷ [];
}

abbrev pub meta : InvestigationMeta
meta = record {
  prompt_version = "v1";
  nonce = "n";
  provider = "mock";
  model = "mock";
  is_mock = true;
  attempts = 1;
  errors = [];
  latency_s = 0;
  knowledge_chunk_ids = [];
  excluded_suspicious_chunks = [];
}

abbrev report : CaseReport
report = record {
  case_id = "CASE-C1-T1";
  customer_id = "C1";
  focus_transaction_ids = "T1" ∷ [];
  generated_at = 9;
  proposed_decision = none;
  proposed_decision_note = "";
  advisory_decision = none;
  decision_adjustments = [];
  claim_summary = none;
  policy_flags = [];
  validated = false;
  engine_facts = [];
  model_findings = [];
  recommendations = [];
  uncertainties = [];
  warnings = [];
  evidence_index = [];
  provenance = end;
}

abbrev pub answering : Agents
answering = record {
  analyze_kyc = λ c n. ok (record { findings = []; evidence = [] });
  analyze_anomalies = λ c n. ok (record { findings = []; evidence = [] });
  reconcile = λ c n. ok (record { results = []; evidence = [] });
  retrieve = λ es. ok (record { queries = []; chunks = [] });
  investigate = λ es cs. ok (record { investigation = none; meta = meta });
  review = λ i. ok (record { validated = false; checks = []; notes = []; critique = none });
  generate = λ i. ok report;
}

-- As `answering`, but the reviewer raises.
abbrev pub stumbling : Agents
stumbling = record answering { review = λ i. raised (runtime_error "down") }

abbrev pub clock : ℕ → ℕ
clock n = n

abbrev pub context : Agents → Context
context agents = record { store = store; agents = agents; clock = clock; stopwatch = λ n. 0 }

abbrev pub new_case : CaseState
new_case = fresh_case "CASE-C1-T1" "req" "C1" ("T1" ∷ []) 30 0
