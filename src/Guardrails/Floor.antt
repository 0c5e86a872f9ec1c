-- ===== src/Guardrails/Floor.antt =====
-- What a critique report promises (guardrails/self_critique.py, guardrails/policy_checks.py).
use finguard_major_project.Prelude.{
  ℕ, suc, ◌≤◌, ◌≡◌, ◌⊎◌, inl, inr, refl, sym, ap, subst, ◌∙◌, Bool, true, false, not, Option, none,
  some, List, arith, is_empty, ltb, Bool-cases, if◌then◌else◌,
}
use finguard_major_project.Strings.{Text}
use finguard_major_project.Outcome.{Outcome, ok, >>=-eq-ok, ok-injective}
use finguard_major_project.Domain.{Decision, review, Evidence, decision_rank}
use finguard_major_project.Llm.{InvestigationOutput}
use finguard_major_project.Guardrails.Models.{
  ClaimCheck, CritiqueReport, PolicyResult, RetrievedChunk, unsupported_claims,
}
use finguard_major_project.Guardrails.FreeText.{PolicyConfig, Scanners}
use finguard_major_project.Guardrails.Policy.{engine_floor}
use finguard_major_project.Guardrails.Flags.{check_policies, policy_of}
use finguard_major_project.Guardrails.Critique.{
  Readers, evidence_index, checks_of, model_decision_of, max_decision, guardrail_of, report_of,
  review_investigation,
}

-- How strict a decision is; no decision is below all.
abbrev pub strictness : Option Decision → ℕ
strictness none = 0
strictness (some d) = suc (decision_rank d)

abbrev Largest : Option Decision → Option Decision → Option Decision → Type 0
Largest a b c = (strictness a ≤ strictness c) × (strictness b ≤ strictness c) × ((c ≡ a) ⊎ (c ≡ b))

max_decision-Largest : (a b : Option Decision) → Largest a b (max_decision a b)
max_decision-Largest none b = (omega arith, omega arith, inr refl)
max_decision-Largest (some d) none = (omega arith, omega arith, inl refl)
max_decision-Largest (some d) (some e) =
    elim (Bool-cases (ltb (decision_rank d) (decision_rank e))) [
      | inl h ↦ rw h (ground arith, ground arith, inr refl)
      | inr h ↦ rw h (ground arith, ground arith, inl refl)
    ]

module _ (readers : Readers) (tools : Scanners) (config : PolicyConfig) (evidence : List Evidence)
    (investigation : Option InvestigationOutput) (chunks : List RetrievedChunk) where
  abbrev pub checks : List ClaimCheck × Bool × Text
  checks = checks_of readers (evidence_index readers evidence chunks) investigation

  abbrev pub reported : Option Decision × List Text → CritiqueReport
  reported found =
      report_of investigation checks.0 checks.1 checks.2
        (policy_of tools config investigation evidence checks.0 checks.1 found)

  abbrev reviewed : Outcome CritiqueReport
  reviewed = review_investigation readers tools config evidence investigation chunks

  -- A report comes from a result of the engine floor.
  pub reviewed_parts :
      (r : CritiqueReport)
      → reviewed ≡ ok r
      → (found : Option Decision × List Text) × (engine_floor tools config evidence ≡ ok found)
        × (r ≡ reported found)
  unfolding review_investigation check_policies
  reviewed_parts r h =
      let (p, hp, e) =
        >>=-eq-ok (check_policies tools config investigation evidence checks.0 checks.1) _ h in
      let (found, hf, ep) = >>=-eq-ok (engine_floor tools config evidence) _ hp in
      (
        found,
        hf,
        sym (ok-injective e)
            ∙ ap (report_of investigation checks.0 checks.1 checks.2) (sym (ok-injective ep)),
      )

-- The decision of a report binds from below: it is at least the model's and the engine floor, and
-- at least REVIEW over an unsupported claim; and it is no other decision than one of these.
pub record Binding (r : CritiqueReport) : Type 0 where
  pub above_model : strictness r.model_decision ≤ strictness r.guardrail_decision
  pub above_floor : strictness r.policy.floor ≤ strictness r.guardrail_decision
  pub routed :
      is_empty (unsupported_claims r.claim_checks) ≡ false
      → strictness (some review) ≤ strictness r.guardrail_decision
  pub attained :
      (r.guardrail_decision ≡ r.model_decision)
      ⊎ (r.guardrail_decision ≡ r.policy.floor)
      ⊎ ((is_empty (unsupported_claims r.claim_checks) ≡ false)
          × (r.guardrail_decision ≡ some review))

own_review :
    (b : Bool)
    → ((if not b then some review else none) ≡ none)
      ⊎ ((b ≡ false) × ((if not b then some review else none) ≡ some review))
own_review true = inl refl
own_review false = inr (refl, refl)

max_none : (a : Option Decision) → max_decision a none ≡ a
max_none none = refl
max_none (some d) = refl

either :
    (m f own : Option Decision) {b : Bool}
    → (max_decision (max_decision m f) own ≡ max_decision m f)
      ⊎ (max_decision (max_decision m f) own ≡ own)
    → (max_decision m f ≡ m) ⊎ (max_decision m f ≡ f)
    → (own ≡ none) ⊎ ((b ≡ false) × (own ≡ some review))
    → (max_decision (max_decision m f) own ≡ m)
      ⊎ (max_decision (max_decision m f) own ≡ f)
      ⊎ ((b ≡ false) × (max_decision (max_decision m f) own ≡ some review))
either m f own (inl e) (inl h) o = inl (e ∙ h)
either m f own (inl e) (inr h) o = inr (inl (e ∙ h))
either m f own (inr e) (inl h) (inl o) = inl (rw o (max_none (max_decision m f) ∙ h))
either m f own (inr e) (inr h) (inl o) = inr (inl (rw o (max_none (max_decision m f) ∙ h)))
either m f own (inr e) h (inr (b, o)) = inr (inr (b, e ∙ o))

report-Binding :
    (i : Option InvestigationOutput) (cs : List ClaimCheck) (g : Bool) (t : Text) (p : PolicyResult)
    → Binding (report_of i cs g t p)
unfolding guardrail_of
report-Binding i cs g t p =
    let m = model_decision_of i in
    let bad = is_empty (unsupported_claims cs) in
    let (hm, hf, ha) = max_decision-Largest m p.floor in
    let own = if not bad then some review else none in
    let (hb, ho, hc) = max_decision-Largest (max_decision m p.floor) own in
    record {
      above_model = omega (arith, hm, hb);
      above_floor = omega (arith, hf, hb);
      routed = λ e. omega (arith, ho, ap (λ b. strictness (if not b then some review else none)) e);
      attained = either m p.floor own hc ha (own_review bad);
    }

module _ (readers : Readers) (tools : Scanners) (config : PolicyConfig) (evidence : List Evidence)
    (investigation : Option InvestigationOutput) (chunks : List RetrievedChunk) where
  -- Whenever a review returns a report, its decision is at least as strict as the model's and as
  -- the engine floor, at least REVIEW where a claim is unsupported, and equal to one of these.
  pub review_investigation-Binding :
      (r : CritiqueReport)
      → review_investigation readers tools config evidence investigation chunks ≡ ok r
      → Binding r
  review_investigation-Binding r h =
      let (found, hf, e) = reviewed_parts readers tools config evidence investigation chunks r h in
      subst Binding (sym e) (report-Binding _ _ _ _ _)
