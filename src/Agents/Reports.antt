-- ===== src/Agents/Reports.antt =====
-- What a report says of the review and of the engines (agents/report_generator/agent.py).
use finguard_major_project.Prelude.{
  ℕ, String, ◌≡◌, ◌≢◌, refl, sym, subst, Bool, true, false, not, some, List, [], ◌∷◌, ◌++◌, map,
  all, ◌==◌, ==_iff, &&_split, Bool-cases, inl, inr, zero, suc, if◌then◌else◌,
}
use finguard_major_project.Strings.{Text, lit, num}
use finguard_major_project.Outcome.{Outcome, ok}
use finguard_major_project.Domain.{Discrepancy, ReconciliationResult}
use finguard_major_project.Pipeline.Store.{member}
use finguard_major_project.Guardrails.Models.{CritiqueReport, PolicyFlag, counts}
use finguard_major_project.Guardrails.FreeText.{PolicyConfig, Scanners}
use finguard_major_project.Guardrails.Critique.{Readers}
use finguard_major_project.Guardrails.Clearing.{Sound}
use finguard_major_project.Contracts.{
  CheckResult, ReportInput, ReportItem, ReviewInput, ReviewOutput,
}
use finguard_major_project.Reviewer.{guarded, validate, review_case, review_case-Sound}
use finguard_major_project.Agents.Evidence.{Rendering, discrepancy_evidence}
use finguard_major_project.Agents.Discrepancies.{
  Within, Within-append_left, Within-append_right, Within-map,
}
use finguard_major_project.Agents.Reporting.{
  warn, critique_of, meta_is_mock, is_validated, mock_warning, unvalidated_warning, failed_warning,
  flag_warning, unsupported_warning, unsupported_of, from_critique, warning_groups, joined_groups,
  discrepancy_fact, result_facts, results_facts, engine_facts, warnings_of, generate,
}

Within-warn : (b : Bool) (t : Text) → b ≡ true → Within t (warn b t)
Within-warn true t e = record { before = []; after = []; split = refl }
Within-warn false t e = absurd (cc e)

not-false : {b : Bool} → b ≡ false → not b ≡ true
not-false e = rw e

not-true : (b : Bool) → not b ≡ true → b ≡ false
not-true true h = sym h
not-true false h = refl

not-zero : (n : ℕ) → n ≢ 0 → not (n == 0) ≡ true
not-zero n h = elim (Bool-cases (n == 0)) [ inl e ↦ absurd (h ((==_iff n 0).0 e)) | inr e ↦ rw e ]

abbrev group_at : ℕ → List (List Text) → List Text
group_at n [] = []
group_at zero (g ∷ gs) = g
group_at (suc n) (g ∷ gs) = group_at n gs

-- A text of the n-th group of warnings.
in_group :
    (n : ℕ) (gs : List (List Text)) (t : Text)
    → Within t (group_at n gs)
    → Within t (joined_groups gs)
in_group n [] t w = absurd (empty w.before w.after w.split)
  where
    empty : (before after : List Text) → [] ≡ before ++ t ∷ after → ⊥
    empty [] after e = cc e
    empty (x ∷ xs) after e = cc e
in_group zero (g ∷ gs) t w = Within-append_left t g (joined_groups gs) w
in_group (suc n) (g ∷ gs) t w = Within-append_right t g (joined_groups gs) (in_group n gs t w)

-- What the warnings of a report say, for whoever reads it.
pub record Warns (inp : ReportInput) (warnings : List Text) : Type 0 where
  pub of_mock :
      meta_is_mock inp.investigation_meta ≡ true
      → Within (lit "MOCK OUTPUT: no language model produced this investigation." ∷ []) warnings
  pub of_unvalidated :
      is_validated inp ≡ false
      → Within
          (lit "UNVALIDATED: the investigation has not passed automated evidence checks"
            ∷ lit (
                if meta_is_mock inp.investigation_meta
                then " (mock output is never validated)."
                else ".")
            ∷ [])
          warnings
  pub of_failure :
      (name : String)
      → inp.failed_step ≡ some name
      → name ≢ ""
      → Within
          (lit "Workflow step '" ∷ lit name ∷ lit "' failed; this report is incomplete." ∷ [])
          warnings
  pub of_flags :
      (r : CritiqueReport) (f : PolicyFlag)
      → critique_of inp.review ≡ some r
      → Within f r.policy.flags
      → Within (lit "POLICY " ∷ lit f.code ∷ lit ": " ∷ f.detail) warnings
  pub of_adjustments :
      (r : CritiqueReport) (t : Text)
      → critique_of inp.review ≡ some r
      → Within t r.adjustments
      → Within t warnings
  pub of_unsupported :
      (r : CritiqueReport)
      → critique_of inp.review ≡ some r
      → (counts r).1 ≢ 0
      → Within
          (num (counts r).1
            ∷ lit " model claim(s) are UNSUPPORTED by the cited evidence; do not rely on them."
            ∷ [])
          warnings

-- Nothing that the guardrails found is lost on the way to the reviewer: a report warns of mock
-- output, of an investigation that is not validated, of a failed step, of every policy flag, of every
-- adjustment of the decision, and of unsupported claims, whatever else it says.
pub generate-Warns : (inp : ReportInput) → Warns inp (generate inp).warnings
unfolding generate warnings_of
generate-Warns inp =
    let groups = warning_groups inp in
    let mock = meta_is_mock inp.investigation_meta in
    record {
      of_mock = λ e. in_group 0 groups mock_warning (Within-warn mock mock_warning e);
      of_unvalidated = λ e.
          in_group 1 groups (unvalidated_warning mock)
            (Within-warn (not (is_validated inp)) (unvalidated_warning mock) (not-false e));
      of_failure = λ name e n.
          let t : Text =
            lit "Workflow step '" ∷ lit name ∷ lit "' failed; this report is incomplete." ∷ [] in
          in_group 2 groups t (subst (λ o. Within t (failed_warning o)) (sym e) (named name n));
      of_unsupported = λ r e n.
          let t = unsupported_warning (counts r).1 in
          in_group 7 groups t (said [] unsupported_of r t e (Within-warn _ t (not-zero _ n)));
      of_flags = λ r f e w. in_group 8 groups (flag_warning f) (
          said [] (λ x. map flag_warning x.policy.flags) r (flag_warning f) e
            (Within-map flag_warning f r.policy.flags w));
      of_adjustments = λ r t e w. in_group 9 groups t (said [] (λ x. x.adjustments) r t e w);
    }
  where
    named :
        (name : String)
        → name ≢ ""
        → Within
            (lit "Workflow step '" ∷ lit name ∷ lit "' failed; this report is incomplete." ∷ [])
            (failed_warning (some name))
    named String.[] n = absurd (n refl)
    named (String.◌∷◌ c s) n = record { before = []; after = []; split = refl }

    said :
        (default : List Text) (f : CritiqueReport → List Text) (r : CritiqueReport) (t : Text)
        → critique_of inp.review ≡ some r
        → Within t (f r)
        → Within t (from_critique default f (critique_of inp.review))
    said default f r t e w = subst (λ o. Within t (from_critique default f o)) (sym e) w

-- A report that is validated over the review of the guarded reviewer is of no mock output; the
-- critique is sound, every check of the validators passed, and the advisory decision is the decision
-- of the guardrails.
pub generate-Sound :
    (readers : Readers) (tools : Scanners) (config : PolicyConfig)
    (validators : List (ReviewInput → Outcome (List CheckResult))) (reviewed : ReviewInput)
    (out : ReviewOutput) (inp : ReportInput)
    → review_case (guarded readers tools config validators) reviewed ≡ ok out
    → inp.review ≡ some out
    → (generate inp).validated ≡ true
    → (meta_is_mock inp.investigation_meta ≡ false)
      × (r : CritiqueReport) × (out.critique ≡ some r)
      × Sound r
      × ((generate inp).advisory_decision ≡ r.guardrail_decision)
      × (checks : List CheckResult) × (validate validators reviewed ≡ ok checks)
      × (all (λ x. x.passed) checks ≡ true)
unfolding generate
generate-Sound readers tools config validators reviewed out inp ran held v =
    let (passed, real) = &&_split _ (not (meta_is_mock inp.investigation_meta)) (rw held at v) in
    let (r, checks, valid, critique, sound, good) =
      review_case-Sound readers tools config validators reviewed out ran passed in
    (
      not-true (meta_is_mock inp.investigation_meta) real,
      r,
      critique,
      sound,
      rw (held, critique) refl,
      checks,
      valid,
      good,
    )

results_facts-Within :
    (focus : List String) (r : ReconciliationResult) (rs : List ReconciliationResult)
    (item : ReportItem)
    → Within r rs
    → Within item (result_facts focus r)
    → Within item (results_facts focus rs)
unfolding results_facts
results_facts-Within focus r rs item w i =
    subst (λ l. Within item (results_facts focus l)) (sym w.split) (at w.before)
  where
    at :
        (before : List ReconciliationResult)
        → Within item (results_facts focus (before ++ r ∷ w.after))
    at [] = Within-append_left item (result_facts focus r) (results_facts focus w.after) i
    at (x ∷ xs) = Within-append_right item (result_facts focus x) _ (at xs)

-- Each discrepancy of a transaction of the focus is an engine fact of the report, and the fact cites
-- the evidence that is made of the discrepancy.
pub generate-cites :
    (rendering : Rendering) (inp : ReportInput) (r : ReconciliationResult) (d : Discrepancy)
    (now : ℕ)
    → Within r inp.reconciliation_results
    → member r.transaction_id inp.focus_transaction_ids ≡ true
    → Within d r.discrepancies
    → (fact : ReportItem) × Within fact (generate inp).engine_facts
      × (fact.evidence_ids
          ≡ (discrepancy_evidence rendering r.transaction_id now d).evidence_id ∷ [])
unfolding generate engine_facts result_facts discrepancy_evidence
generate-cites rendering inp r d now w focus wd =
    let fact = discrepancy_fact r.transaction_id d in
    (
      fact,
      Within-append_right fact _ _ (
          Within-append_right fact _ _ (
            results_facts-Within inp.focus_transaction_ids r inp.reconciliation_results fact w (
              rw focus (
                Within-append_right fact _ _
                  (Within-map (discrepancy_fact r.transaction_id) d r.discrepancies wd))))),
      refl,
    )
