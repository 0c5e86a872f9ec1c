-- ===== src/Workflow/Steps.antt =====
-- The eight steps of the workflow. The agents are an interface: `AgentContext` and the agents built
-- on it are given as functions that may raise.
use finguard_major_project.Prelude.{
  ℕ, ◌*◌, String, Bool, true, false, Option, none, some, List, [], ◌∷◌, length, filter, map,
  is_some,
}
use finguard_major_project.Prelude.Int.{pos}
use finguard_major_project.Json.{
  Value, Fields, Items, end, field, nil, cons, str, int, bool, null, float,
}
use finguard_major_project.Domain.{
  CaseStatus, case_created, data_ready, kyc_analyzed, anomaly_analyzed, evidence_retrieved,
  investigation_generated, self_critiqued, human_review, Evidence, ReconciliationStatus, Decision,
}
use finguard_major_project.Reconciliation.Config.{div_round}
use finguard_major_project.Guardrails.Models.{RetrievedChunk, CritiqueReport, counts}
use finguard_major_project.Contracts.{
  KycAnalysisOutput, AnomalyAnalysisOutput, ReconciliationOutput, RetrievalOutput,
  InvestigationResult, ReviewInput, ReviewOutput, ReportInput, CaseReport,
}
use finguard_major_project.Pipeline.Models.{CanonicalCase}
use finguard_major_project.Pipeline.Store.{ConsolidatedStore, build_case}
use finguard_major_project.SignOff.{decision_value}
use finguard_major_project.Outcome.{Outcome, ok, raised, runtime_error}
use finguard_major_project.Case.{CaseState, add_evidence}
use finguard_major_project.Workflow.Action.{Action, ◌>>=◌, ◌>>◌, pure, lift, gets, modify, try}

pub record Agents : Type 0 where
  pub analyze_kyc : CanonicalCase → ℕ → Outcome KycAnalysisOutput
  pub analyze_anomalies : CanonicalCase → ℕ → Outcome AnomalyAnalysisOutput
  pub reconcile : CanonicalCase → ℕ → Outcome ReconciliationOutput
  pub retrieve : List Evidence → Outcome RetrievalOutput
  pub investigate : List Evidence → List RetrievedChunk → Outcome InvestigationResult
  pub review : ReviewInput → Outcome ReviewOutput
  pub generate : ReportInput → Outcome CaseReport

-- The clock, the stopwatch of the n-th event, the data and the agents.
pub record Context : Type 0 where
  pub store : ConsolidatedStore
  pub agents : Agents
  pub clock : ℕ → ℕ
  pub stopwatch : ℕ → ℕ

abbrev count_of {ℓ} : {A : Type ℓ} → List A → Value
count_of xs = int (pos (length xs))

abbrev is_discrepancy : ReconciliationStatus → Bool
is_discrepancy ReconciliationStatus.reconciled = false
is_discrepancy ReconciliationStatus.discrepancy = true

abbrev strings : List String → Items
strings [] = nil
strings (s ∷ ss) = cons (str s) (strings ss)

abbrev pub prepared : Option CanonicalCase → Outcome CanonicalCase
prepared none = raised (runtime_error "case data not prepared")
prepared (some c) = ok c

abbrev decision_or_null : Option Decision → Value
decision_or_null none = null
decision_or_null (some d) = str (decision_value d)

abbrev critique_details : Option CritiqueReport → Fields
critique_details none = end
critique_details (some c) =
    let (supported, unsupported, unverifiable) = counts c in
    field "supported" (int (pos supported)) (
      field "unsupported" (int (pos unsupported)) (
        field "unverifiable" (int (pos unverifiable))
          (field "guardrail_decision" (decision_or_null c.guardrail_decision) end)))

abbrev pub report_input : CaseState → ℕ → ReportInput
report_input s now = record {
  case_id = s.case_id;
  customer_id = s.customer_id;
  focus_transaction_ids = s.focus_transaction_ids;
  generated_at = now;
  evidence = s.evidence;
  kyc_findings = s.kyc_findings;
  anomaly_findings = s.anomaly_findings;
  reconciliation_results = s.reconciliation_results;
  knowledge_chunks = s.knowledge_chunks;
  investigation = s.investigation;
  investigation_meta = s.investigation_meta;
  review = s.review;
  failed_step = s.failed_step;
}

module _ (ctx : Context) where
  unfoldable pub prepare : ℕ → Action Fields
  unfolding build_case
  prepare now = do
    case ← λ s. (
      build_case ctx.store s.customer_id (some s.focus_transaction_ids) s.context_days
          (some s.case_id),
      s,
    )
    modify (λ s. record s { canonical_case = some case })
    focus ← gets (λ s. s.focus_transaction_ids)
    pure (field "focus" (count_of focus) (field "context" (count_of case.context_transactions) end))

  unfoldable pub analyze_kyc : ℕ → Action Fields
  unfolding add_evidence
  analyze_kyc now = do
    case ← λ s. (prepared s.canonical_case, s)
    out ← lift (ctx.agents.analyze_kyc case now)
    modify (λ s. record s { kyc_findings = out.findings })
    try (add_evidence out.evidence)
    pure (field "documents" (count_of out.findings) end)

  unfoldable pub analyze_anomalies : ℕ → Action Fields
  unfolding add_evidence
  analyze_anomalies now = do
    case ← λ s. (prepared s.canonical_case, s)
    out ← lift (ctx.agents.analyze_anomalies case now)
    modify (λ s. record s { anomaly_findings = out.findings })
    try (add_evidence out.evidence)
    pure (field "flagged" (count_of (filter (λ f. f.flagged) out.findings)) end)

  unfoldable pub reconcile : ℕ → Action Fields
  unfolding add_evidence
  reconcile now = do
    case ← λ s. (prepared s.canonical_case, s)
    out ← lift (ctx.agents.reconcile case now)
    modify (λ s. record s { reconciliation_results = out.results })
    try (add_evidence out.evidence)
    pure (
        field "transactions" (count_of out.results) (
          field "with_discrepancy" (count_of (filter (λ r. is_discrepancy r.status) out.results))
            end))

  unfoldable pub retrieve : ℕ → Action Fields
  retrieve now = do
    out ← λ s. (ctx.agents.retrieve s.evidence, s)
    modify (λ s. record s { retrieval_queries = out.queries; knowledge_chunks = out.chunks })
    pure (
        field "queries" (count_of out.queries)
          (field "chunks" (Value.arr (strings (map (λ c. c.chunk_id) out.chunks))) end))

  unfoldable pub investigate : ℕ → Action Fields
  unfolding div_round
  investigate now = do
    out ← λ s. (ctx.agents.investigate s.evidence s.knowledge_chunks, s)
    modify (λ s. record s { investigation = out.investigation; investigation_meta = some out.meta })
    pure (
        field "valid" (bool (is_some out.investigation)) (
          field "attempts" (int (pos out.meta.attempts)) (
            field "provider" (str out.meta.provider) (
              field "is_mock" (bool out.meta.is_mock) (
                field "llm_latency_s" (float (pos (div_round out.meta.latency_s 1000 * 1000)))
                  end)))))

  unfoldable pub review : ℕ → Action Fields
  unfolding counts
  review now = do
    out ← λ s. (
      ctx.agents.review (record {
        evidence = s.evidence;
        investigation = s.investigation;
        knowledge_chunks = s.knowledge_chunks;
      }),
      s,
    )
    modify (λ s. record s { review = some out })
    pure (
        field "validated" (bool out.validated)
          (field "checks" (count_of out.checks) (critique_details out.critique)))

  unfoldable pub generate_report : ℕ → Action Fields
  generate_report now = do
    report ← λ s. (ctx.agents.generate (report_input s now), s)
    modify (λ s. record s { report = some report })
    pure (field "warnings" (count_of report.warnings) end)

pub record Step : Type 0 where
  pub name : String
  pub actor : String
  pub from_status : CaseStatus
  pub to_status : CaseStatus
  pub run : ℕ → Action Fields

abbrev pub step : String → String → CaseStatus → CaseStatus → (ℕ → Action Fields) → Step
step name actor from_status to_status run = record {
  name = name;
  actor = actor;
  from_status = from_status;
  to_status = to_status;
  run = run;
}

abbrev pub steps : Context → List Step
steps ctx =
    step "prepare_data" "coordinator" case_created data_ready (prepare ctx)
    ∷ step "analyze_kyc" "auditor" data_ready kyc_analyzed (analyze_kyc ctx)
    ∷ step "analyze_anomalies" "auditor" kyc_analyzed anomaly_analyzed (analyze_anomalies ctx)
    ∷ step "reconcile" "reconciliation" anomaly_analyzed CaseStatus.reconciled (reconcile ctx)
    ∷ step "retrieve_knowledge" "investigator" CaseStatus.reconciled evidence_retrieved
        (retrieve ctx)
    ∷ step "investigate" "investigator" evidence_retrieved investigation_generated (investigate ctx)
    ∷ step "review" "reviewer" investigation_generated self_critiqued (review ctx)
    ∷ step "generate_report" "report_generator" self_critiqued human_review (generate_report ctx)
    ∷ []
