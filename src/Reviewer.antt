-- ===== src/Reviewer.antt =====
-- agents/reviewer/agent.py: the review of an investigation by the critique and by validators.
use finguard_major_project.Prelude.{
  ◌≡◌, sym, ap, ◌∙◌, Bool, true, false, not, ◌&&◌, Option, none, some, List, [], ◌∷◌, ◌++◌, map,
  all, is_none, is_some, &&_split,
}
use finguard_major_project.Strings.{Text, lit}
use finguard_major_project.Outcome.{Outcome, ok, ◌>>=◌, >>=-eq-ok, ok-injective}
use finguard_major_project.Contracts.{CheckResult, ReviewInput, ReviewOutput}
use finguard_major_project.Guardrails.Models.{CritiqueReport, PolicyFlag}
use finguard_major_project.Guardrails.FreeText.{PolicyConfig, Scanners}
use finguard_major_project.Guardrails.Critique.{Readers, review_investigation}
use finguard_major_project.Guardrails.Clearing.{Sound, review_investigation-Sound}

-- A validator may raise; the critique may be absent.
pub record ReviewerAgent : Type 0 where
  pub validators : List (ReviewInput → Outcome (List CheckResult))
  pub critique : Option (ReviewInput → Outcome CritiqueReport)

abbrev run_critique :
    Option (ReviewInput → Outcome CritiqueReport) → ReviewInput → Outcome (Option CritiqueReport)
run_critique none inp = ok none
run_critique (some critique) inp = critique inp >>= λ report. ok (some report)

abbrev pub validate :
    List (ReviewInput → Outcome (List CheckResult)) → ReviewInput → Outcome (List CheckResult)
validate [] inp = ok []
validate (v ∷ vs) inp = v inp >>= λ checks. (validate vs inp >>= λ rest. ok (checks ++ rest))

abbrev check_of : PolicyFlag → CheckResult
check_of f = record { check_id = f.code; passed = not f.is_violation; detail = f.detail }

abbrev no_investigation : Bool → List Text
no_investigation true = (lit "No investigation was produced to validate." ∷ []) ∷ []
no_investigation false = []

-- The output over a report and the checks of the validators.
unfoldable review_output : ReviewInput → Option CritiqueReport → List CheckResult → ReviewOutput
review_output inp none [] = record {
  validated = false;
  checks = [];
  notes =
      (lit "No automated validators are configured; the investigation is UNVALIDATED." ∷ []) ∷ [];
  critique = none;
}
review_output inp none (c ∷ cs) = record {
  validated = is_some inp.investigation && all (λ x. x.passed) (c ∷ cs);
  checks = (c ∷ cs) ++ [];
  notes = no_investigation (is_none inp.investigation);
  critique = none;
}
review_output inp (some report) cs = record {
  validated = report.validated && all (λ x. x.passed) cs;
  checks = cs ++ map check_of report.policy.flags;
  notes = report.notes;
  critique = some report;
}

unfoldable pub review_case : ReviewerAgent → ReviewInput → Outcome ReviewOutput
unfolding review_output
review_case agent inp = run_critique agent.critique inp >>= λ report.
    (validate agent.validators inp >>= λ checks. ok (review_output inp report checks))

-- The reviewer with the guardrails on, as the workflow builds it.
abbrev pub guarded :
    Readers
    → Scanners
    → PolicyConfig
    → List (ReviewInput → Outcome (List CheckResult))
    → ReviewerAgent
guarded readers tools config validators = record {
  validators = validators;
  critique = some (λ inp.
      review_investigation readers tools config inp.evidence inp.investigation
        inp.knowledge_chunks);
}

module _ (readers : Readers) (tools : Scanners) (config : PolicyConfig)
    (validators : List (ReviewInput → Outcome (List CheckResult))) (inp : ReviewInput) where
  abbrev critiqued : Outcome CritiqueReport
  critiqued =
      review_investigation readers tools config inp.evidence inp.investigation inp.knowledge_chunks

  -- With the guardrails on, an investigation that the reviewer returns as validated has a critique
  -- that is sound, and every check of the validators passed.
  pub review_case-Sound :
      (out : ReviewOutput)
      → review_case (guarded readers tools config validators) inp ≡ ok out
      → out.validated ≡ true
      → (r : CritiqueReport) × (checks : List CheckResult) × (validate validators inp ≡ ok checks)
        × (out.critique ≡ some r)
        × Sound r
        × (all (λ x. x.passed) checks ≡ true)
  unfolding review_case review_output
  review_case-Sound out h v =
      let (report, e1, h1) = >>=-eq-ok (critiqued >>= λ r. ok (some r)) _ h in
      let (r, e2, same) = >>=-eq-ok critiqued _ e1 in
      let (checks, e3, h3) = >>=-eq-ok (validate validators inp) _ h1 in
      let made : out ≡ review_output inp (some r) checks =
        sym (ok-injective h3) ∙ ap (λ o. review_output inp o checks) (sym (ok-injective same)) in
      let (good, passed) = &&_split r.validated _ (sym (ap (λ o. o.validated) made) ∙ v) in
      (
        r,
        checks,
        e3,
        ap (λ o. o.critique) made,
        review_investigation-Sound readers tools config inp.evidence inp.investigation
            inp.knowledge_chunks r e2 good,
        passed,
      )
