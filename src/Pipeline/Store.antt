-- ===== src/Pipeline/Store.antt =====
-- data_pipeline/consolidation/store.py: the store, and the case of a customer.
use finguard_major_project.Prelude.{
  ℕ, ◌*◌, ◌-◌, String, Bool, not, ◌&&◌, Option, none, some, List, [], ◌∷◌, map, leb, filter, any,
  is_empty, get_last, str_eq, if◌then◌else◌,
}
use Prim.Native.Nat.{max}
use Prim.Native.String.{◌++◌ as str_append}
use finguard_major_project.Prelude.Sorting.{sorted}
use finguard_major_project.Dict.{lookup}
use finguard_major_project.Domain.{Transaction, LedgerRecord}
use finguard_major_project.Pipeline.Models.{
  CanonicalCustomer, CanonicalKycDocument, CanonicalTransaction, CanonicalCase,
}
use finguard_major_project.Outcome.{
  Outcome, ok, raised, key_error, value_error, overflow_error, ◌>>=◌, guard, ◌>>◌,
}

pub record ConsolidatedStore : Type 0 where
  pub customers : List (String × CanonicalCustomer)
  pub kyc_by_customer : List (String × List CanonicalKycDocument)
  pub transactions_by_customer : List (String × List Transaction)
  pub ledger_by_transaction : List (String × List LedgerRecord)

abbrev pub or_empty {ℓ} : {A : Type ℓ} → Option (List A) → List A
or_empty none = []
or_empty (some xs) = xs

abbrev pub day : ℕ
day = 86400000000

-- `t in xs` of a list of texts.
abbrev pub member : String → List String → Bool
member t = any (λ s. str_eq s t)

abbrev pub ids_of : List Transaction → List String
ids_of = map (λ t. t.transaction_id)

-- `by_id[t]`: the last entry of the comprehension wins.
unfoldable pub by_id : String → List Transaction → Option Transaction
by_id k [] = none
by_id k (t ∷ ts) =
    let later = by_id k ts in
    elim later [ some u ↦ some u | none ↦ if str_eq t.transaction_id k then some t else none ]

-- `[by_id[t] for t in focus_transaction_ids]`, with the test for missing ids before it.
unfoldable pub find_all : List Transaction → List String → Option (List Transaction)
unfolding by_id
find_all history [] = some []
find_all history (k ∷ ks) = elim (by_id k history) [
  | none ↦ none
  | some t ↦ elim (find_all history ks) [ none ↦ none | some ts ↦ some (t ∷ ts) ]
]

abbrev pub latest : List Transaction → ℕ
latest [] = 0
latest (t ∷ []) = t.timestamp
latest (t ∷ u ∷ ts) = max t.timestamp (latest (u ∷ ts))

-- `window_start <= t.timestamp <= as_of`, for a window that does not begin before time 0.
abbrev pub in_window : ℕ → ℕ → Transaction → Bool
in_window as_of context_days t =
    leb (as_of - context_days * day) t.timestamp && leb t.timestamp as_of

unfoldable pub context_of : ℕ → ℕ → List String → List Transaction → List Transaction
context_of as_of context_days focus_ids =
    filter (λ t. not (member t.transaction_id focus_ids) && in_window as_of context_days t)

-- The focus that is given, or the customer's latest transaction.
abbrev pub focus_ids_of : Option (List String) → List Transaction → Outcome (List String)
focus_ids_of (some ids) history = ok ids
focus_ids_of none history = elim (get_last history) [
  | none ↦ raised (value_error "no transactions to focus on")
  | some t ↦ ok (t.transaction_id ∷ [])
]

abbrev pub require {ℓ} : {A : Type ℓ} → Option A → Outcome A → Outcome A
require none e = e
require (some a) e = ok a

abbrev pub first_id : List String → String
first_id [] = ""
first_id (k ∷ ks) = k

abbrev pub case_name : String → List String → String
case_name customer_id ids =
    str_append "CASE-" (str_append customer_id (str_append "-" (first_id ids)))

-- `case_id or default`
abbrev pub named : Option String → String → String
named none default = default
named (some name) default = if str_eq name "" then default else name

-- `sorted(focus, key=lambda t: t.timestamp)`
abbrev pub earlier : Transaction → Transaction → Bool
earlier t u = leb t.timestamp u.timestamp

-- Time 0 is `datetime.min`: `as_of - timedelta(days=context_days)` before it raises `OverflowError`.
module _ (self : ConsolidatedStore) where
  abbrev pub canonical_tx : Transaction → CanonicalTransaction
  canonical_tx tx = record {
    transaction = tx;
    ledger_records = or_empty (lookup tx.transaction_id self.ledger_by_transaction);
  }

  -- The case over known focus transactions.
  unfoldable pub assemble :
      String
      → CanonicalCustomer
      → List Transaction
      → List String
      → ℕ
      → Option String
      → List Transaction
      → CanonicalCase
  unfolding context_of sorted lookup
  assemble customer_id customer history focus_ids context_days case_id focus =
      let as_of = latest focus in
      record {
        case_id = named case_id (case_name customer_id focus_ids);
        customer = customer;
        kyc_documents = or_empty (lookup customer_id self.kyc_by_customer);
        focus_transactions = map canonical_tx (sorted earlier focus);
        context_transactions = map canonical_tx (context_of as_of context_days focus_ids history);
        as_of = as_of;
        context_days = context_days;
      }

  unfoldable pub build_case :
      String → Option (List String) → ℕ → Option String → Outcome CanonicalCase
  unfolding find_all assemble lookup
  build_case customer_id focus_transaction_ids context_days case_id = do
    customer ← require (lookup customer_id self.customers) (raised (key_error "unknown customer"))
    let history = or_empty (lookup customer_id self.transactions_by_customer)
    focus_ids ← focus_ids_of focus_transaction_ids history
    focus ← require (find_all history focus_ids) (raised (value_error "transactions not found"))
    guard (not (is_empty focus)) (value_error "max() of an empty sequence")
    guard (leb (context_days * day) (latest focus)) (overflow_error "date value out of range")
    ok (assemble customer_id customer history focus_ids context_days case_id focus)
