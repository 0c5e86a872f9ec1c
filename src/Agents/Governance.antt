-- ===== src/Agents/Governance.antt =====
-- esg/governance_scoring.py: the governance indicator of a transaction. Amounts are in ten-thousandths,
-- and the fraction of the band in millionths, so the band is compared after multiplying out.
use Prim.Native.String.{◌++◌ as str_append}
use finguard_major_project.Prelude.{
  ℕ, ◌+◌, ◌*◌, String, Bool, true, false, not, ◌&&◌, ◌||◌, List, [], ◌∷◌, ◌++◌, any, filter, length,
  leb, str_eq, is_empty, if◌then◌else◌,
}
use finguard_major_project.Prelude.Int.{ℤ, pos, negsuc, sub_ℕ, leb_ℤ, ltb_ℤ}
use finguard_major_project.Strings.{Text, lit, num, money}
use finguard_major_project.Json.{Fields, end, field, str, int, float, bool}
use finguard_major_project.Domain.{Transaction, Evidence, EvidenceSource}
use finguard_major_project.Pipeline.Values.{as_float}
use finguard_major_project.Pipeline.Store.{day}
use finguard_major_project.Guardrails.Tokens.{joined}
use finguard_major_project.Agents.Evidence.{Rendering, is_outgoing, prior_of, country}

pub record GovernanceConfig : Type 0 where
  pub structuring_window_days : ℕ
  pub structuring_threshold_amount : ℤ
  pub structuring_band_fraction : ℕ
  pub structuring_min_count : ℕ

abbrev pub default_governance : GovernanceConfig
default_governance = record {
  structuring_window_days = 30;
  structuring_threshold_amount = pos 100000000;
  structuring_band_fraction = 900000;
  structuring_min_count = 3;
}

abbrev times : ℤ → ℕ → ℤ
times (pos n) k = pos (n * k)
times (negsuc n) k = sub_ℕ 0 ((n + 1) * k)

-- `lower <= t.amount < threshold`, with `lower = threshold * fraction`.
abbrev in_amount_band : GovernanceConfig → Transaction → Bool
in_amount_band cfg t =
    leb_ℤ (times cfg.structuring_threshold_amount cfg.structuring_band_fraction)
      (times t.amount 1000000)
    && ltb_ℤ t.amount cfg.structuring_threshold_amount

-- `window_start <= t.timestamp <= tx.timestamp`
abbrev in_window : GovernanceConfig → Transaction → Transaction → Bool
in_window cfg tx t =
    leb tx.timestamp (t.timestamp + cfg.structuring_window_days * day)
    && leb t.timestamp tx.timestamp

pub record GovernanceFacts : Type 0 where
  pub new_cross_border_counterparty : Bool
  pub counterparty_country : String
  pub structuring_suspected : Bool
  pub structuring_window_days : ℕ
  pub structuring_threshold_amount : ℤ
  pub sub_threshold_transactions_in_window : ℕ
  pub flagged : Bool

unfoldable pub score_governance :
    Transaction → List Transaction → GovernanceConfig → GovernanceFacts
unfolding is_outgoing
score_governance tx history cfg =
    let prior = prior_of tx history in
    let new_country = not (any (λ t. str_eq (country t) (country tx)) prior) in
    let cross_border = not (str_eq tx.sender_country tx.receiver_country) in
    let in_band =
      filter (λ t. str_eq t.currency tx.currency && in_window cfg tx t && in_amount_band cfg t)
        (prior ++ tx ∷ []) in
    let structuring = leb cfg.structuring_min_count (length in_band) in
    record {
      new_cross_border_counterparty = new_country && cross_border;
      counterparty_country = country tx;
      structuring_suspected = structuring;
      structuring_window_days = cfg.structuring_window_days;
      structuring_threshold_amount = cfg.structuring_threshold_amount;
      sub_threshold_transactions_in_window = length in_band;
      flagged = (new_country && cross_border) || structuring;
    }

abbrev reason : Bool → Text → List Text
reason true t = t ∷ []
reason false t = []

abbrev reasons_of : Transaction → GovernanceFacts → List Text
reasons_of tx facts =
    reason facts.new_cross_border_counterparty
      (lit "first transaction with counterparty country " ∷ lit facts.counterparty_country ∷ [])
    ++ reason facts.structuring_suspected (
        num facts.sub_threshold_transactions_in_window
        ∷ lit " transactions just under "
        ∷ money facts.structuring_threshold_amount
        ∷ lit " "
        ∷ lit tx.currency
        ∷ lit " within "
        ∷ num facts.structuring_window_days
        ∷ lit " days"
        ∷ [])

abbrev description_of : List Text → Text
description_of reasons =
    if is_empty reasons
    then lit "Governance indicators: none triggered" ∷ []
    else lit "Governance indicators: " ∷ joined "; " reasons

unfoldable pub facts_payload : GovernanceFacts → Fields
facts_payload facts =
    field "new_cross_border_counterparty" (bool facts.new_cross_border_counterparty) (
      field "counterparty_country" (str facts.counterparty_country) (
        field "structuring_suspected" (bool facts.structuring_suspected) (
          field "structuring_window_days" (int (pos facts.structuring_window_days)) (
            field "structuring_threshold_amount"
              (float (as_float facts.structuring_threshold_amount))
              (field "sub_threshold_transactions_in_window"
                (int (pos facts.sub_threshold_transactions_in_window))
                (field "flagged" (bool facts.flagged) end))))))

unfoldable pub governance_evidence :
    Rendering → Transaction → List Transaction → ℕ → GovernanceConfig → Evidence
unfolding score_governance facts_payload
governance_evidence rendering tx history created_at config =
    let facts = score_governance tx history config in
    record {
      evidence_id = str_append "ESG-" tx.transaction_id;
      source = EvidenceSource.esg;
      description = rendering.render (description_of (reasons_of tx facts));
      payload = facts_payload facts;
      created_at = created_at;
    }
