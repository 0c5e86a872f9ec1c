-- ===== src/Workflow/Keeps.antt =====
-- What no step changes: the status, the trail, the sign-off and the identity of the case.
use finguard_major_project.Prelude.{ℕ, ◌≡◌, arith, All}
use finguard_major_project.Case.{CaseState}
use finguard_major_project.Workflow.Action.{continue}
use finguard_major_project.Workflow.Steps.{
  Context, Step, steps, prepare, analyze_kyc, analyze_anomalies, reconcile, retrieve, investigate,
  review, generate_report,
}

pub record Same (s t : CaseState) : Type 0 where
  pub status : t.status ≡ s.status
  pub audit_trail : t.audit_trail ≡ s.audit_trail
  pub sign_off : t.sign_off ≡ s.sign_off
  pub case_id : t.case_id ≡ s.case_id
  pub request_id : t.request_id ≡ s.request_id
  pub failed_step : t.failed_step ≡ s.failed_step

module _ (ctx : Context) (now : ℕ) (s : CaseState) where
  prepare-Same : Same s (prepare ctx now s).1
  unfolding prepare continue
  prepare-Same = ground arith

  analyze_kyc-Same : Same s (analyze_kyc ctx now s).1
  unfolding analyze_kyc continue
  analyze_kyc-Same = ground arith

  analyze_anomalies-Same : Same s (analyze_anomalies ctx now s).1
  unfolding analyze_anomalies continue
  analyze_anomalies-Same = ground arith

  reconcile-Same : Same s (reconcile ctx now s).1
  unfolding reconcile continue
  reconcile-Same = ground arith

  retrieve-Same : Same s (retrieve ctx now s).1
  unfolding retrieve continue
  retrieve-Same = ground arith

  investigate-Same : Same s (investigate ctx now s).1
  unfolding investigate continue
  investigate-Same = ground arith

  review-Same : Same s (review ctx now s).1
  unfolding review continue
  review-Same = ground arith

  generate_report-Same : Same s (generate_report ctx now s).1
  unfolding generate_report continue
  generate_report-Same = ground arith

abbrev pub Keeps : Step → Type 0
Keeps step = (now : ℕ) (s : CaseState) → Same s (step.run now s).1

pub steps-Keeps : (ctx : Context) → All Keeps (steps ctx)
steps-Keeps ctx = (
  prepare-Same ctx,
  (
    analyze_kyc-Same ctx,
    (
      analyze_anomalies-Same ctx,
      (
        reconcile-Same ctx,
        (
          retrieve-Same ctx,
          (investigate-Same ctx, (review-Same ctx, (generate_report-Same ctx, tt))),
        ),
      ),
    ),
  ),
)
