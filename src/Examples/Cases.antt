-- ===== src/Examples/Cases.antt =====
-- The workflow and the sign-off at concrete cases.
use finguard_major_project.Prelude.{◌++◌, List, ◌≡◌, ◌↔◌, refl, true, none, some, is_some}
use finguard_major_project.Domain.{human_review, escalate}
use finguard_major_project.Outcome.{Outcome, ok, raised, is_ok}
use finguard_major_project.Audit.{AuditEvent}
use finguard_major_project.Case.{CaseState}
use finguard_major_project.SignOff.{sign_off_case}
use finguard_major_project.SignOff.Rules.{MaySign, sign_off-MaySign_iff}
use finguard_major_project.Workflow.Steps.{
  prepare, analyze_kyc, analyze_anomalies, reconcile, retrieve, investigate, review as review_step,
  generate_report,
}
use finguard_major_project.Workflow.Action.{continue}
use finguard_major_project.Workflow.Run.{run}
use finguard_major_project.Workflow.Create.{create_case}
use finguard_major_project.Workflow.Safety.{Lands, run-Lands}
use finguard_major_project.Workflow.Completion.{Logged, stages, run-completed}
use finguard_major_project.Workflow.Opening.{Opened, create_case-Opened}
use finguard_major_project.Examples.Data.{answering, stumbling, context, clock, new_case}

run-Lands_example : (t : CaseState) × (run (context stumbling) new_case ≡ ok t) × Lands new_case t
run-Lands_example = run-Lands (context stumbling) new_case refl

abbrev or_else : Outcome CaseState → CaseState → CaseState
or_else (ok s) t = s
or_else (raised e) t = t

abbrev finished : CaseState
finished = or_else (run (context answering) new_case) new_case

finished_run : run (context answering) new_case ≡ ok finished
unfolding run prepare continue analyze_kyc analyze_anomalies reconcile retrieve investigate
    review_step generate_report
finished_run = refl

finished_well : finished.failed_step ≡ none
unfolding run prepare continue analyze_kyc analyze_anomalies reconcile retrieve investigate
    review_step generate_report
finished_well = refl

run-completed_example :
    (is_some finished.report ≡ true)
    × (es : List AuditEvent) × (finished.audit_trail ≡ new_case.audit_trail ++ es)
    × Logged stages es
run-completed_example =
    run-completed (context answering) new_case finished finished_run finished_well

abbrev opened_case : CaseState
opened_case = or_else (create_case (context answering) "C1" none 30 "req") new_case

opened_run : create_case (context answering) "C1" none 30 "req" ≡ ok opened_case
unfolding create_case
opened_run = refl

create_case-Opened_example : Opened (context answering) opened_case
create_case-Opened_example =
    create_case-Opened (context answering) "C1" none 30 "req" opened_case opened_run

abbrev waiting : CaseState
waiting = record new_case { status = human_review }

sign_off-MaySign_iff_example :
    (is_ok (sign_off_case clock "ana" escalate "fraud" (some "Ana ") waiting) ≡ true)
    ↔ MaySign waiting "ana" escalate "fraud" (some "Ana ")
sign_off-MaySign_iff_example =
    sign_off-MaySign_iff clock waiting "ana" escalate "fraud" (some "Ana ")
