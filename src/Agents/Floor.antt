-- ===== src/Agents/Floor.antt =====
-- From the ledger to the decision: a material discrepancy that the reconciliation agent reports
-- (agents/reconciliation/agent.py, llm/rag/evidence.py) binds the review of the case.
use finguard_major_project.Prelude.{
  ℕ, String, ◌≡◌, refl, subst, true, false, Option, some, List, ◌++◌, All, leb,
}
use finguard_major_project.Json.{get, str}
use finguard_major_project.Outcome.{ok}
use finguard_major_project.Domain.{
  Evidence, Discrepancy, Severity, low, medium, high, severity_rank,
}
use finguard_major_project.Llm.{InvestigationOutput}
use finguard_major_project.Pipeline.Models.{CanonicalCase, CanonicalTransaction}
use finguard_major_project.Contracts.{ReconciliationOutput}
use finguard_major_project.Guardrails.Models.{CritiqueReport, RetrievedChunk}
use finguard_major_project.Guardrails.FreeText.{PolicyConfig, Scanners}
use finguard_major_project.Guardrails.Policy.{is_status_rule, severity_of, severity_value}
use finguard_major_project.Guardrails.Critique.{Readers, review_investigation}
use finguard_major_project.Guardrails.Material.{Material, Held, review_investigation-Held}
use finguard_major_project.Reconciliation.Config.{ReconciliationConfig}
use finguard_major_project.Reconciliation.Service.{reconcile as reconcile_one}
use finguard_major_project.Agents.Evidence.{Rendering, discrepancy_evidence}
use finguard_major_project.Agents.Reconciliation.{reconcile}
use finguard_major_project.Agents.Discrepancies.{
  Within, Within-append_left, Within-append_right, reconcile-Within,
}

severity-read : (s : Severity) → severity_of (some (str (severity_value s))) ≡ ok s
severity-read low = refl
severity-read medium = refl
severity-read high = refl

-- A discrepancy that the policy counts: not of a settlement status, and severe enough.
pub record Counts (policy : PolicyConfig) (d : Discrepancy) : Type 0 where
  pub not_status : is_status_rule d.rule_id ≡ false
  pub enough : leb (severity_rank policy.floor_min_severity) (severity_rank d.severity) ≡ true

module _ (rendering : Rendering) (tools : Scanners) (policy : PolicyConfig) where
  discrepancy-Material :
      (k : String) (now : ℕ) (d : Discrepancy)
      → Counts policy d
      → Material tools policy (discrepancy_evidence rendering k now d)
  unfolding discrepancy_evidence get
  discrepancy-Material k now d m = record {
    rule = d.rule_id;
    severity = d.severity;
    source = refl;
    rule_id = refl;
    not_status = m.not_status;
    severe = severity-read d.severity;
    enough = m.enough;
  }

  -- Let the reconciliation of a transaction of the focus, whose name no other transaction of the
  -- case has, find a discrepancy that is not of a settlement status and is at least as severe as the
  -- policy's minimum. Then, over whatever other evidence the agent's is put with and whatever the
  -- model says, a report that the review returns has the floor REVIEW and a decision of at least
  -- REVIEW, and a proposal to clear is not validated.
  pub reconcile-Held :
      (readers : Readers) (config : ReconciliationConfig) (case : CanonicalCase) (now : ℕ)
      (c : CanonicalTransaction) (d : Discrepancy) (out : ReconciliationOutput)
      (before after : List Evidence) (investigation : Option InvestigationOutput)
      (chunks : List RetrievedChunk) (r : CritiqueReport)
      → Within c case.focus_transactions
      → All
          (λ x. x.transaction.transaction_id ≡ c.transaction.transaction_id → x ≡ c)
          (case.focus_transactions ++ case.context_transactions)
      → Within d
          (reconcile_one config c.transaction c.ledger_records (some case.as_of)).discrepancies
      → Counts policy d
      → reconcile rendering config case now ≡ ok out
      → review_investigation readers tools policy
          (before ++ (out.evidence ++ after))
          investigation
          chunks
        ≡ ok r
      → Held r
  reconcile-Held readers config case now c d out before after investigation chunks r w only wd
        counts ran reviewed =
      let item = discrepancy_evidence rendering c.transaction.transaction_id now d in
      let place = Within-append_right item before (out.evidence ++ after) (
        Within-append_left item out.evidence after
          (reconcile-Within rendering config case now c d out w only wd ran)) in
      review_investigation-Held readers tools policy place.before item place.after investigation
        chunks (discrepancy-Material c.transaction.transaction_id now d counts) r
        (subst (λ es. review_investigation readers tools policy es investigation chunks ≡ ok r)
          place.split reviewed)
