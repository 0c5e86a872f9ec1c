-- ===== src/Guardrails/Clearing.antt =====
-- What a validated report says
-- (guardrails/self_critique.py, guardrails/policy_checks.py).
use finguard_major_project.Prelude.{
  String, ◌≡◌, ◌≢◌, refl, sym, ap, subst, ◌∙◌, Bool, true, false, not, ◌&&◌, Option, none, some,
  List, [], ◌∷◌, ◌++◌, map, any, arith, is_empty, is_some, &&_split,
}
use finguard_major_project.Strings.{Text}
use finguard_major_project.Outcome.{ok, >>=-eq-ok, ok-injective}
use finguard_major_project.Domain.{Decision, clear, review, escalate, Evidence, decision_rank}
use finguard_major_project.Llm.{InvestigationOutput}
use finguard_major_project.Guardrails.Models.{
  ClaimCheck, CritiqueReport, PolicyFlag, RetrievedChunk, is_supported, unsupported_claims,
}
use finguard_major_project.Guardrails.FreeText.{PolicyConfig, Scanners, suspicious_evidence}
use finguard_major_project.Guardrails.Policy.{engine_floor, engine_reasons, floor_of}
use finguard_major_project.Guardrails.Flags.{
  policy_of, suspicious_flag, flag, clear_flags, investigation_flags,
}
use finguard_major_project.Guardrails.Critique.{
  Readers, guardrail_of, adjustments_of, violations_of, report_of, review_investigation,
}
use finguard_major_project.Guardrails.Floor.{checks, reviewed_parts}

no_violation_append :
    (xs ys : List PolicyFlag)
    → is_empty (violations_of (xs ++ ys)) ≡ true
    → (is_empty (violations_of xs) ≡ true) × (is_empty (violations_of ys) ≡ true)
no_violation_append [] ys h = (refl, h)
no_violation_append (x ∷ xs) ys h =
    (ground (arith, no_violation_append xs ys), ground (arith, no_violation_append xs ys))

flag_off :
    (b : Bool) (code : String) (detail : Text)
    → is_empty (violations_of (flag b code true detail)) ≡ true
    → b ≡ false
flag_off true code detail h = cc
flag_off false code detail h = refl

-- A proposal to clear without a violation has no floor against it, and a supported claim.
clear_flags_off :
    (floor : Option Decision) (reasons : List Text) (cs : List ClaimCheck)
    → is_empty (violations_of (clear_flags clear floor reasons cs)) ≡ true
    → (is_some floor ≡ false) × (any (λ c. is_supported c.status) cs ≡ true)
clear_flags_off floor reasons cs h =
    let (a, rest) = no_violation_append (flag (is_some floor) _ true _) _ h in
    let (b, c) =
      no_violation_append (flag (not (is_empty (unsupported_claims cs))) _ true _) _ rest in
    let d = flag_off (not (any (λ c. is_supported c.status) cs)) _ _ c in
    (flag_off (is_some floor) _ _ a, ground arith)

-- What a validated report says.
pub record Sound (r : CritiqueReport) : Type 0 where
  pub produced : r.model_decision ≢ none
  pub decided : r.guardrail_decision ≡ r.model_decision
  pub unadjusted : r.adjustments ≡ []
  pub grounded : r.summary_grounded ≡ true
  pub no_unsupported : is_empty (unsupported_claims r.claim_checks) ≡ true
  pub clearing :
      r.model_decision ≡ some clear
      → (r.policy.floor ≡ none) × (any (λ c. is_supported c.status) r.claim_checks ≡ true)

-- A floor of at most REVIEW does not move a decision, unless it is to clear.
guardrail_kept :
    (d : Decision) (reasons : List Text)
    → (d ≡ clear → is_some (floor_of reasons) ≡ false)
    → guardrail_of (some d) (floor_of reasons) false ≡ some d
unfolding guardrail_of decision_rank
guardrail_kept d [] h = refl
guardrail_kept clear (r ∷ rs) h = cc (h refl)
guardrail_kept review (r ∷ rs) h = refl
guardrail_kept escalate (r ∷ rs) h = refl

same_adjustments :
    (d : Decision) (reasons : List Text) → adjustments_of (some d) (some d) reasons ≡ []
unfolding adjustments_of decision_rank
same_adjustments clear reasons = refl
same_adjustments review reasons = refl
same_adjustments escalate reasons = refl

engine_floor_shape :
    (tools : Scanners) (config : PolicyConfig) (evidence : List Evidence)
    (found : Option Decision × List Text)
    → engine_floor tools config evidence ≡ ok found
    → found.0 ≡ floor_of found.1
unfolding engine_floor
engine_floor_shape tools config evidence found h =
    let (reasons, e, same) = >>=-eq-ok (engine_reasons tools config evidence) _ h in
    subst (λ p. p.0 ≡ floor_of p.1) (ok-injective same) refl

module _ (tools : Scanners) (config : PolicyConfig) (evidence : List Evidence)
    (cs : List ClaimCheck) (g : Bool) (t : Text) (found : Option Decision × List Text)
    (shape : found.0 ≡ floor_of found.1) where
  abbrev report : Option InvestigationOutput → CritiqueReport
  report i = report_of i cs g t (policy_of tools config i evidence cs g found)

  -- Clearing without a violation: nothing speaks against it, and a claim speaks for it.
  cleared :
      (i : InvestigationOutput)
      → is_empty (violations_of (report (some i)).policy.flags) ≡ true
      → i.recommended_action ≡ clear
      → (is_some found.0 ≡ false) × (any (λ c. is_supported c.status) cs ≡ true)
  cleared i h e =
      let (s, rest) =
        no_violation_append (map suspicious_flag (suspicious_evidence tools evidence))
          (investigation_flags tools config (some i) found.0 found.1 cs g) h in
      let (c, o) =
        no_violation_append (clear_flags i.recommended_action found.0 found.1 cs) _ rest in
      clear_flags_off found.0 found.1 cs
        (subst (λ d. is_empty (violations_of (clear_flags d found.0 found.1 cs)) ≡ true) e c)

  report-Sound : (i : Option InvestigationOutput) → (report i).validated ≡ true → Sound (report i)
  report-Sound none h = absurd (cc h)
  report-Sound (some i) h =
      let (rest, nv) = &&_split (is_empty (unsupported_claims cs) && g) _ h in
      let (nb, hg) = &&_split (is_empty (unsupported_claims cs)) g rest in
      let d = i.recommended_action in
      let kept =
        guardrail_kept d found.1 (λ e. subst (λ f. is_some f ≡ false) shape (cleared i nv e).0) in
      let same = subst (λ f. guardrail_of (some d) f false ≡ some d) (sym shape) kept in
      let decided = ap (λ b. guardrail_of (some d) found.0 (not b)) nb ∙ same in
      record {
        produced = λ e. cc e;
        decided = decided;
        unadjusted =
            ap (λ x. adjustments_of (some d) x found.1) decided ∙ same_adjustments d found.1;
        grounded = hg;
        no_unsupported = nb;
        clearing = λ e. (
          no_floor found.0 (cleared i nv (some-injective e)).0,
          (cleared i nv (some-injective e)).1,
        );
      }
    where
      no_floor : (f : Option Decision) → is_some f ≡ false → f ≡ none
      no_floor none h = refl
      no_floor (some d) h = cc

      some-injective : {a b : Decision} → some a ≡ some b → a ≡ b
      some-injective h = cc h

module _ (readers : Readers) (tools : Scanners) (config : PolicyConfig) (evidence : List Evidence)
    (investigation : Option InvestigationOutput) (chunks : List RetrievedChunk) where
  -- A report that a review returns as validated comes from an investigation, keeps the decision of
  -- the model and adjusts nothing; its summary is grounded and no claim of it is unsupported; and
  -- where the model clears the case, the engines require nothing and some claim is supported.
  pub review_investigation-Sound :
      (r : CritiqueReport)
      → review_investigation readers tools config evidence investigation chunks ≡ ok r
      → r.validated ≡ true
      → Sound r
  review_investigation-Sound r h v =
      let (found, hf, e) = reviewed_parts readers tools config evidence investigation chunks r h in
      let c = checks readers tools config evidence investigation chunks in
      subst Sound (sym e) (
        report-Sound tools config evidence c.0 c.1 c.2 found
          (engine_floor_shape tools config evidence found hf) investigation
          (ap (λ x. x.validated) (sym e) ∙ v))
