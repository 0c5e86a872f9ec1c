-- ===== src/Agents/Evidence.antt =====
-- llm/rag/evidence.py: the outputs of the engines as evidence. How an f-string is rendered, the texts of
-- times and the rounded quotient of two floats are the caller's functions.
use Prim.Native.String.{◌++◌ as str_append}
use finguard_major_project.Prelude.{
  ℕ, ◌+◌, ◌*◌, ◌-◌, ◌/◌, ◌%◌, String, Bool, true, false, ◌&&◌, Option, none, some, List, [], ◌∷◌,
  ◌++◌, map, any, filter, length, leb, ltb, ◌==◌, str_eq, is_empty, if◌then◌else◌,
}
use finguard_major_project.Prelude.Int.{ℤ, pos, leb_ℤ, sub_ℕ, pos_part, neg_part}
use finguard_major_project.Prelude.Sorting.{sorted}
use finguard_major_project.Strings.{Text, lit, num, money, decimal}
use finguard_major_project.Json.{
  Fields, Items, Value, end, field, nil, cons, obj, arr, str, int, float, bool, null, is_zero,
}
use finguard_major_project.Domain.{
  Transaction, TransactionType, Discrepancy, Evidence, EvidenceSource, ReconciliationResult,
}
use finguard_major_project.Guardrails.Policy.{severity_value}
use finguard_major_project.Pipeline.Models.{Customer}
use finguard_major_project.Pipeline.Values.{
  transaction_type_value, channel_value, kyc_status_value, account_type_value, as_float,
}
use finguard_major_project.Contracts.{KycDocumentFinding, KycCandidateSummary, AnomalyFinding}

-- `rounded_ratio a b` is `round(a / b, 2)` in millionths, and `hour` the hour of a time.
pub record Rendering : Type 0 where
  pub render : Text → String
  pub isoformat : ℕ → String
  pub rounded_ratio : ℤ → ℤ → ℤ
  pub hour : ℕ → ℕ

abbrev pub items : List Value → Items
items [] = nil
items (v ∷ vs) = cons v (items vs)

abbrev pub text_or_null : Option String → Value
text_or_null none = null
text_or_null (some s) = str s

abbrev count_or_null : Option ℕ → Value
count_or_null none = null
count_or_null (some n) = int (pos n)

abbrev float_or_null : Option ℤ → Value
float_or_null none = null
float_or_null (some x) = float x

abbrev count_text : Option ℕ → Text
count_text none = lit "None" ∷ []
count_text (some n) = num n ∷ []

-- `t.transaction_type.value in OUTGOING`
unfoldable pub is_outgoing : TransactionType → Bool
is_outgoing TransactionType.transfer_out = true
is_outgoing TransactionType.payment = true
is_outgoing TransactionType.withdrawal = true
is_outgoing _ = false

abbrev pub counterparty : Transaction → String
counterparty t = if is_outgoing t.transaction_type then t.receiver else t.sender

abbrev pub country : Transaction → String
country t = if is_outgoing t.transaction_type then t.receiver_country else t.sender_country

abbrev same_amount : Transaction → Transaction → Bool
same_amount a b = leb_ℤ a.amount b.amount && leb_ℤ b.amount a.amount

abbrev pub add_ℤ : ℤ → ℤ → ℤ
add_ℤ a b = sub_ℕ (pos_part a + pos_part b) (neg_part a + neg_part b)

abbrev nth : ℕ → List ℤ → ℤ
nth n [] = pos 0
nth Prim.Native.Nat.zero (x ∷ xs) = x
nth (Prim.Native.Nat.suc n) (x ∷ xs) = nth n xs

-- Twice `median(xs)`: twice the middle one, or the sum of the middle two.
unfoldable pub median_twice : List ℤ → ℤ
unfolding sorted
median_twice xs =
    let ordered = sorted leb_ℤ xs in
    let half = length xs / 2 in
    if length xs % 2 == 1
    then add_ℤ (nth half ordered) (nth half ordered)
    else add_ℤ (nth (half - 1) ordered) (nth half ordered)

-- Only the customer's transactions before this one count.
abbrev pub prior_of : Transaction → List Transaction → List Transaction
prior_of tx = filter (λ t. ltb t.timestamp tx.timestamp)

module _ (rendering : Rendering) where
  open rendering use {render, isoformat, rounded_ratio, hour}

  abbrev memo_field : Option String → Fields
  memo_field none = end
  memo_field (some memo) = field "payment_memo" (str memo) end

  unfoldable pub transaction_evidence : Transaction → ℕ → Option String → Evidence
  unfolding transaction_type_value channel_value
  transaction_evidence tx created_at memo = record {
    evidence_id = tx.transaction_id;
    source = EvidenceSource.transaction;
    description = render (
        lit (transaction_type_value tx.transaction_type)
        ∷ lit " of "
        ∷ money tx.amount
        ∷ lit " "
        ∷ lit tx.currency
        ∷ lit " via "
        ∷ lit (channel_value tx.channel)
        ∷ []);
    payload = field "transaction_id" (str tx.transaction_id) (
        field "customer_id" (str tx.customer_id) (
          field "timestamp" (str (isoformat tx.timestamp)) (
            field "amount" (float (as_float tx.amount)) (
              field "currency" (str tx.currency) (
                field "type" (str (transaction_type_value tx.transaction_type)) (
                  field "channel" (str (channel_value tx.channel)) (
                    field "sender_country" (str tx.sender_country)
                      (field "receiver_country" (str tx.receiver_country) (memo_field memo)))))))));
    created_at = created_at;
  }

  unfoldable pub customer_evidence : Customer → ℕ → Evidence
  unfolding kyc_status_value account_type_value
  customer_evidence customer created_at = record {
    evidence_id = str_append "KYC-" customer.customer_id;
    source = EvidenceSource.kyc;
    description = render (
        lit "KYC status is "
        ∷ lit (kyc_status_value customer.kyc_status)
        ∷ lit "; account type "
        ∷ lit (account_type_value customer.account_type)
        ∷ []);
    payload = field "customer_id" (str customer.customer_id) (
        field "kyc_status" (str (kyc_status_value customer.kyc_status)) (
          field "account_type" (str (account_type_value customer.account_type))
            (field "account_age_days" (int (pos customer.account_age_days)) end)));
    created_at = created_at;
  }

  abbrev rendered : Option Text → Value
  rendered none = null
  rendered (some t) = str (render t)

  -- The item of one discrepancy.
  unfoldable pub discrepancy_evidence : String → ℕ → Discrepancy → Evidence
  discrepancy_evidence transaction_id created_at d = record {
    evidence_id = str_append "REC-" (str_append transaction_id (str_append "-" d.rule_id));
    source = EvidenceSource.reconciliation;
    description = render (lit d.rule_id ∷ lit " " ∷ lit d.field ∷ lit ": " ∷ d.explanation);
    payload = field "rule_id" (str d.rule_id) (
        field "field" (str d.field) (
          field "expected" (rendered d.expected) (
            field "actual" (rendered d.actual) (
              field "difference" (rendered d.difference)
                (field "severity" (str (severity_value d.severity)) end)))));
    created_at = created_at;
  }

  unfoldable pub reconciled_evidence : ReconciliationResult → ℕ → Evidence
  reconciled_evidence result created_at = record {
    evidence_id = str_append "REC-" (str_append result.transaction_id "-OK");
    source = EvidenceSource.reconciliation;
    description = "Transaction and ledger record agree on all compared fields";
    payload =
        field "status" (str "reconciled") (field "ledger_id" (text_or_null result.ledger_id) end);
    created_at = created_at;
  }

  unfoldable pub reconciliation_evidence : ReconciliationResult → ℕ → List Evidence
  unfolding discrepancy_evidence reconciled_evidence
  reconciliation_evidence result created_at =
      if is_empty result.discrepancies
      then reconciled_evidence result created_at ∷ []
      else map (discrepancy_evidence result.transaction_id created_at) result.discrepancies

  abbrev within : Transaction → List Transaction → ℕ → ℕ
  within tx prior seconds =
      length (filter (λ t. leb (tx.timestamp - t.timestamp) (seconds * 1000000)) prior)

  abbrev ratio : Transaction → List Transaction → Option ℤ
  ratio tx [] = none
  ratio tx (t ∷ ts) =
      let typical = median_twice (map (λ u. u.amount) (t ∷ ts)) in
      if is_zero typical then none else some (rounded_ratio (add_ℤ tx.amount tx.amount) typical)

  unfoldable pub behaviour_evidence : Transaction → List Transaction → ℕ → Evidence
  unfolding is_outgoing median_twice
  behaviour_evidence tx history created_at =
      let prior = prior_of tx history in
      record {
        evidence_id = str_append "BEH-" tx.transaction_id;
        source = EvidenceSource.anomaly;
        description = "Behaviour of this transaction compared with the customer's earlier activity";
        payload = field "prior_transactions" (int (pos (length prior))) (
            field "typical_prior_amount_ratio" (float_or_null (ratio tx prior)) (
              field "transactions_in_prior_10_min" (int (pos (within tx prior 600))) (
                field "transactions_in_prior_24_h" (int (pos (within tx prior 86400))) (
                  field "hour_of_day" (int (pos (hour tx.timestamp))) (
                    field "counterparty_seen_before"
                      (bool (any (λ t. str_eq (counterparty t) (counterparty tx)) prior))
                      (field "counterparty_country_seen_before"
                        (bool (any (λ t. str_eq (country t) (country tx)) prior))
                        (field "prior_identical_transfers_to_same_counterparty"
                          (int (
                            pos (
                              length (
                                filter
                                  (λ t.
                                    same_amount t tx && str_eq (counterparty t) (counterparty tx))
                                  prior))))
                          end)))))));
        created_at = created_at;
      }

  abbrev texts : List String → Value
  texts xs = arr (items (map str xs))

  abbrev candidate_dump : KycCandidateSummary → Value
  candidate_dump c = obj (
      field "candidate_id" (str c.candidate_id) (
        field "final_score" (float c.final_score) (
          field "is_match" (bool c.is_match)
            (field "contradictions" (texts c.contradictions) end))))

  -- `finding.model_dump(mode="json")`
  unfoldable pub kyc_finding_dump : KycDocumentFinding → Fields
  kyc_finding_dump f = field "document_id" (str f.document_id) (
      field "own_record_rank" (count_or_null f.own_record_rank) (
        field "own_final_score" (float_or_null f.own_final_score) (
          field "own_confidence" (text_or_null f.own_confidence) (
            field "own_reasons" (texts f.own_reasons) (
              field "own_contradictions" (texts f.own_contradictions) (
                field "other_strong_candidates"
                  (arr (items (map candidate_dump f.other_strong_candidates))) end))))))

  unfoldable pub kyc_match_evidence : KycDocumentFinding → ℕ → Evidence
  unfolding kyc_finding_dump
  kyc_match_evidence finding created_at = record {
    evidence_id = str_append "KYCM-" finding.document_id;
    source = EvidenceSource.kyc;
    description = render (
        lit "KYC document "
          ∷ lit finding.document_id
          ∷ lit ": own record rank "
          ∷ count_text finding.own_record_rank
        ++ lit ", "
          ∷ num (length finding.other_strong_candidates)
          ∷ lit " other strong candidate(s)"
          ∷ []);
    payload = kyc_finding_dump finding;
    created_at = created_at;
  }

  abbrev drivers_dump : List (String × ℤ) → Items
  drivers_dump ds = items (map (λ d. arr (cons (str d.0) (cons (float d.1) nil))) ds)

  unfoldable pub anomaly_finding_dump : AnomalyFinding → Fields
  anomaly_finding_dump f = field "transaction_id" (str f.transaction_id) (
      field "probability" (float f.probability) (
        field "flagged" (bool f.flagged) (
          field "threshold" (float f.threshold) (
            field "top_drivers" (arr (drivers_dump f.top_drivers)) (
              field "in_training_period" (bool f.in_training_period)
                (field "model" (str f.model) end))))))

  unfoldable pub anomaly_model_evidence : AnomalyFinding → ℕ → Evidence
  unfolding anomaly_finding_dump
  anomaly_model_evidence finding created_at = record {
    evidence_id = str_append "ANOM-" finding.transaction_id;
    source = EvidenceSource.anomaly;
    description = render (
        lit "Anomaly model score "
        ∷ decimal finding.probability
        ∷ lit " vs alert threshold "
        ∷ decimal finding.threshold
        ∷ lit ": "
        ∷ lit (if finding.flagged then "FLAGGED" else "not flagged")
        ∷ lit (
            if finding.in_training_period
            then "; score is optimistic (inside model training period)"
            else "")
        ∷ []);
    payload = anomaly_finding_dump finding;
    created_at = created_at;
  }
