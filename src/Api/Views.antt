-- ===== src/Api/Views.antt =====
-- backend/app/services/case_views.py: what of a case is stored for the inbox. The texts of times and
-- dates are the caller's functions.
use finguard_major_project.Prelude.{
  ℕ, String, Bool, Option, none, some, List, [], ◌∷◌, ◌++◌, map, any, str_eq, if◌then◌else◌,
}
use finguard_major_project.Prelude.Sorting.{sorted}
use finguard_major_project.Prelude.Int.{pos}
use finguard_major_project.Strings.{str_le}
use finguard_major_project.Json.{
  Fields, Items, Value, end, field, nil, cons, obj, arr, str, int, float, bool, null,
}
use finguard_major_project.Domain.{ReconciliationResult, Transaction}
use finguard_major_project.Pipeline.Models.{
  Date, CanonicalCase, CanonicalKycDocument, CanonicalCustomer,
}
use finguard_major_project.Pipeline.Values.{
  transaction_type_value, channel_value, reconciliation_status_value, kyc_status_value,
  account_type_value, document_type_value, as_float,
}
use finguard_major_project.Contracts.{AnomalyFinding}
use finguard_major_project.Case.{CaseState}

-- `isoformat` of a time and of a date.
pub record Formats : Type 0 where
  pub isoformat : ℕ → String
  pub date_isoformat : Date → String

-- `{f(x): x for x in xs}.get(k)`: the last one wins.
abbrev pub last_of {ℓ} : {A : Type ℓ} → (A → Bool) → List A → Option A
last_of p [] = none
last_of p (x ∷ xs) = elim (last_of p xs) [ some y ↦ some y | none ↦ if p x then some x else none ]

abbrev pub items_of : List Value → Items
items_of [] = nil
items_of (v ∷ vs) = cons v (items_of vs)

abbrev pub texts : List String → Value
texts xs = arr (items_of (map str xs))

abbrev reconciliation_value : Option ReconciliationResult → Value
reconciliation_value none = null
reconciliation_value (some r) = str (reconciliation_status_value r.status)

abbrev rules_value : Option ReconciliationResult → Value
rules_value none = texts []
rules_value (some r) = texts (map (λ d. d.rule_id) r.discrepancies)

abbrev probability_value : Option AnomalyFinding → Value
probability_value none = null
probability_value (some f) = float f.probability

abbrev flagged_value : Option AnomalyFinding → Value
flagged_value none = null
flagged_value (some f) = bool f.flagged

-- One item of the timeline.
unfoldable timeline_item : Formats → CaseState → CanonicalCase → Transaction → Fields
unfolding reconciliation_status_value transaction_type_value channel_value
timeline_item formats state case tx =
    let result =
      last_of (λ r. str_eq r.transaction_id tx.transaction_id) state.reconciliation_results in
    let finding = last_of (λ a. str_eq a.transaction_id tx.transaction_id) state.anomaly_findings in
    field "transaction_id" (str tx.transaction_id) (
      field "timestamp" (str (formats.isoformat tx.timestamp)) (
        field "amount" (float (as_float tx.amount)) (
          field "currency" (str tx.currency) (
            field "type" (str (transaction_type_value tx.transaction_type)) (
              field "channel" (str (channel_value tx.channel)) (
                field "sender_country" (str tx.sender_country) (
                  field "receiver_country" (str tx.receiver_country) (
                    field "is_focus"
                      (bool (
                        any (λ c. str_eq c.transaction.transaction_id tx.transaction_id)
                          case.focus_transactions))
                      (field "reconciliation" (reconciliation_value result) (
                        field "reconciliation_rules" (rules_value result) (
                          field "anomaly_probability" (probability_value finding)
                            (field "anomaly_flagged" (flagged_value finding) end))))))))))))

abbrev time_le : String × Fields → String × Fields → Bool
time_le a b = str_le a.0 b.0

-- The items are sorted by the text of their time.
unfoldable pub build_timeline : Formats → CaseState → List Fields
unfolding timeline_item sorted
build_timeline formats state = elim state.canonical_case [
  | none ↦ []
  | some case ↦
      map (λ p. p.1)
        (sorted time_le (
          map
            (λ c. (
              formats.isoformat c.transaction.timestamp,
              timeline_item formats state case c.transaction,
            ))
            (case.context_transactions ++ case.focus_transactions)))
]

abbrev document_item : Formats → CanonicalKycDocument → Value
document_item formats d = obj (
    field "document_id" (str d.record_.document_id) (
      field "document_type" (str (document_type_value d.record_.document_type)) (
        field "issue_date" (str (formats.date_isoformat d.record_.issue_date))
          (field "expiry_date" (str (formats.date_isoformat d.record_.expiry_date)) end))))

-- `{d.record.document_id: f(d) for d in documents}`
abbrev put_field : String → Value → Fields → Fields
put_field k v end = field k v end
put_field k v (field j w rest) =
    let later = put_field k v rest in if str_eq j k then field j v rest else field j w later

abbrev by_document : (CanonicalKycDocument → Value) → List CanonicalKycDocument → Fields → Fields
by_document f [] m = m
by_document f (d ∷ ds) m = by_document f ds (put_field d.record_.document_id (f d) m)

-- The personal details.
unfoldable pub customer_details : Formats → CanonicalCustomer → List CanonicalKycDocument → Value
customer_details formats customer documents =
    let c = customer.customer in
    obj (
      field "name" (str c.name) (
        field "alternate_names" (texts c.alternate_names) (
          field "date_of_birth" (str (formats.date_isoformat c.date_of_birth)) (
            field "address" (str c.address) (
              field "occupation" (str c.occupation) (
                field "document_names" (obj (by_document (λ d. str d.record_.name) documents end)) (
                  field "document_addresses"
                    (obj (by_document (λ d. str d.record_.address) documents end))
                    (field "document_dates_of_birth"
                      (obj (
                        by_document (λ d. str (formats.date_isoformat d.record_.date_of_birth))
                          documents end))
                      end))))))))

unfoldable pub build_customer : Formats → CaseState → Fields
unfolding customer_details kyc_status_value account_type_value document_type_value
build_customer formats state = elim state.canonical_case [
  | none ↦ end
  | some case ↦
      let c = case.customer.customer in
      field "customer_id" (str c.customer_id) (
        field "kyc_status" (str (kyc_status_value c.kyc_status)) (
          field "account_type" (str (account_type_value c.account_type)) (
            field "account_age_days" (int (pos c.account_age_days)) (
              field "country" (str c.country) (
                field "documents" (arr (items_of (map (document_item formats) case.kyc_documents)))
                  (field "details" (customer_details formats case.customer case.kyc_documents)
                    end))))))
]
