-- ===== src/Lib.antt =====
-- FIN-GUARD: financial case investigation with deterministic guardrails.
--
-- A case is opened for a customer and some focus transactions (agents/coordinator/workflow.py). Eight
-- steps prepare its data (data_pipeline/consolidation), compare documents, score anomalies, reconcile
-- transactions with the ledger (reconciliation), retrieve knowledge, ask a language model for an
-- investigation, review it mechanically (guardrails) and write a report. The case then waits for a
-- human, and only a human sign-off closes it (agents/coordinator/signoff.py). Every action is an event
-- of the case's trail (agents/audit.py), and the stored trail is a hash chain
-- (backend/app/services/audit_chain.py).
--
-- The files:
--   Prelude, Strings, Json, Outcome, Dict: shared lists, numbers, texts, payloads, exceptions, `dict`s.
--   Domain: backend/app/schemas/domain.py. Contracts: agents/contracts.py. Case: agents/state.py.
--   Llm: llm/schemas.py, the output that the model must produce, and `normalize_citation`.
--   Reconciliation: reconciliation/. Config, Matcher (`match_records`), Checks and Rules (the ten
--     rules as functions of `MatchedRecords`, in the order of `RULES`), Detector (`detect`), Service
--     (`reconcile`, `reconcile_many`, `reconcile_case`); proofs in Matching, Agreement and Verdict.
--   Pipeline: data_pipeline/consolidation and normalization/models.py. Models, Store (`build_case`);
--     proofs in Cutoff and Known.
--   Audit: agents/audit.py (`event_of`; `record_event` is in Case); Audit.Chain is audit_chain.py and
--     `load_audit` of backend/app/services/case_store.py over the table as a list of rows; proofs in
--     Integrity and Appending.
--   Guardrails: guardrails/. Models, Tokens and Claims (evidence_validator.py), FreeText, Policy and
--     Flags (policy_checks.py), Critique (`SelfCritique.review` as `review_investigation`); proofs in
--     Cited, Grounding, Support, Floor, Clearing and Material.
--   SignOff: `sign_off_case`; proofs in SignOff.Rules.
--   Workflow: Action (a step may change the case and then raise), Steps (`_prepare` ... `_report`), Run
--     (`run`, `_fail`, `_log`), Create (`create_case`); proofs in Keeps, Trail, Opening, Safety and
--     Completion.
--   Reviewer: agents/reviewer/agent.py, whose `review` is `review_case`, with its proof.
--   Auth: Limiter is `LoginLimiter` of backend/app/core/security.py and `login` of
--     backend/app/api/auth.py, Access `current_user` and `require_roles` of backend/app/api/deps.py and
--     `create_user`; proofs in Locks, Bounds and Permission.
--   Api: backend/app/api/cases.py. Rows has the stored rows of backend/app/database/models.py and
--     backend/app/services/case_store.py, Cases the session, `load_state`, `save_state` and the
--     endpoints `sign_off`, `confirm_escalation` and `reject_escalation`; `serve` is `get_session`,
--     which commits or rolls back. Reads has the endpoints that show a case, Views
--     backend/app/services/case_views.py, Jobs `create_case` and `run_case_job` of
--     backend/app/services/jobs.py, Requests the deciding endpoints with their test of roles, Candidates
--     the list of transactions to open; proofs in Stored, Signatures,
--     SecondLook, Decisions, Viewing, Settling and Requests.
--   Agents: Evidence is llm/rag/evidence.py; Reconciliation, Auditor, Investigator and Reporting are
--     agents/reconciliation, auditor, investigator and report_generator; Governance is
--     esg/governance_scoring.py; proofs in Discrepancies, Floor, Identity, Retrieval, Reports and
--     Lookback.
--   Structured: guardrails/schema_validator.py and llm/rag/structured.py; proofs in Grammar, Extraction, Repair.
--   Learning: anomaly_detection/temporal/splits.py as Splits; proofs in Leakage.
--   Pipeline: Ingestion is data_pipeline/ingestion/validator.py, with its proof in Accounting.
--   Kyc: kyc/scoring/structured.py, with the configuration of kyc/models.py and the confidence and
--     name reasons of kyc/entity_matcher.py; its bound is proved in Grades. `fuzz.ratio` is a parameter.
--   Ablation: evaluation/ablation/guardrail_layers.py, with its proof in Layers.
--   Examples: concrete inputs.
--
-- Conventions. A time is a natural number of microseconds since `datetime.min`, a span likewise. A
-- transaction's amount is an integer number of ten-thousandths; other floats are in millionths, and
-- the numbers of a claim in billionths. An f-string is a list of pieces before they are formatted, so
-- no format is modelled. A raised exception is a value of `Outcome`; its class is kept, its message is
-- a short text. Case folding and lowering are those of ASCII. A `dict` is an association list in
-- insertion order, a set is a list. The clock is a function of the number of readings made for a
-- case. Every loop is structural recursion, so no fuel is needed.
--
-- Parameters. The agents of the workflow are an interface of functions that may raise. The hash of
-- the chain is a type with a digest of a previous hash and an event; SHA-256 and the canonical JSON,
-- which sorts the keys of the details, are not modelled, and where a theorem needs that the hash has
-- no collision it says so. The readers of
-- texts (`extract_tokens`, the text of an evidence item) and the scanners (`injection_flags`, the
-- semantic tripwire, `str` of a value that is not a text) are parameters, since regular expressions
-- and embeddings are third-party code.
--
-- The password hash, the signed token, `json.loads` and `json.dumps`, the validation of a schema,
-- the model's provider, the KYC matcher, the anomaly model, the retriever and `np.quantile` are
-- functions that the definitions take.
--
-- Not modelled: the machine learning (the features, the anomaly model, embeddings, fine-tuning), the
-- calls of model providers, the data generator, the rest of the evaluation and the frontend, which compute with
-- third-party libraries or do I/O; the prompt and the queries of the investigator, the retrieval
-- and ranking of KYC candidates, cleaning and the threads of the engine.
pub mod Prelude
pub mod Strings
pub mod Json
pub mod Domain
pub mod Outcome
pub mod Dict
pub mod Reconciliation
pub mod Pipeline
pub mod Llm
pub mod Audit
pub mod Guardrails
pub mod Contracts
pub mod Case
pub mod SignOff
pub mod Workflow
pub mod Reviewer
pub mod Auth
pub mod Structured
pub mod Learning
pub mod Kyc
pub mod Ablation
pub mod Agents
pub mod Api
pub mod Examples
