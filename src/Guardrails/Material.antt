-- ===== src/Guardrails/Material.antt =====
-- A material discrepancy among the evidence binds the decision (guardrails/policy_checks.py,
-- guardrails/self_critique.py).
use finguard_major_project.Prelude.{
  ◌≤◌, String, ◌≡◌, inl, inr, refl, sym, ap, subst, ◌∙◌, Bool, true, false, not, Option, some, List,
  [], ◌∷◌, ◌++◌, is_empty, leb, Bool-cases,
}
use finguard_major_project.Strings.{Text}
use finguard_major_project.Json.{str, get, get_or_null}
use finguard_major_project.Outcome.{Outcome, ok, raised, ◌>>=◌, >>=-eq-ok, ok-injective}
use finguard_major_project.Domain.{
  Decision, clear, review, Evidence, EvidenceSource, Severity, severity_rank,
}
use finguard_major_project.Llm.{InvestigationOutput}
use finguard_major_project.Guardrails.Models.{CritiqueReport, RetrievedChunk}
use finguard_major_project.Guardrails.FreeText.{PolicyConfig, Scanners}
use finguard_major_project.Guardrails.Policy.{
  engine_floor, engine_reasons, evidence_reasons, rule_reasons, floor_of, is_status_rule,
  severity_of,
}
use finguard_major_project.Guardrails.Critique.{Readers, review_investigation}
use finguard_major_project.Guardrails.Floor.{
  strictness, reviewed_parts, review_investigation-Binding,
}
use finguard_major_project.Guardrails.Clearing.{review_investigation-Sound}

-- A pass of the floor's loop fails, or it adds a reason.
abbrev adds : Outcome (List Text) → Bool
adds (ok reasons) = not (is_empty reasons)
adds (raised err) = true

-- One pass over an item of material weight adds a reason, whatever surrounds it.
module _ (tools : Scanners) (config : PolicyConfig) (e : Evidence) where
  -- A discrepancy whose rule is not one of settlement status, of at least the floor's severity.
  pub record Material : Type 0 where
    pub rule : String
    pub severity : Severity
    pub source : e.source ≡ EvidenceSource.reconciliation
    pub rule_id : get "rule_id" e.payload ≡ some (str rule)
    pub not_status : is_status_rule rule ≡ false
    pub severe : severity_of (get "severity" e.payload) ≡ ok severity
    pub enough : leb (severity_rank config.floor_min_severity) (severity_rank severity) ≡ true

  rule_adds : (m : Material) → adds (rule_reasons config m.rule e) ≡ true
  unfolding rule_reasons
  rule_adds m = let n = m.not_status in let s = m.severe in let q = m.enough in rw (n, s, q)

  rule_named : (m : Material) → get_or_null "rule_id" e.payload ≡ str m.rule
  unfolding get_or_null
  rule_named m = let id = m.rule_id in rw (id, get_or_null)

  material_adds : Material → adds (evidence_reasons tools config e) ≡ true
  unfolding evidence_reasons
  material_adds m =
      let from = m.source in let id = m.rule_id in rw (from, id, rule_named m) (rule_adds m)

abbrev joint : Outcome (List Text) → Outcome (List Text) → Outcome (List Text)
joint m k = m >>= λ xs. (k >>= λ ys. ok (xs ++ ys))

adds_left : (m k : Outcome (List Text)) → adds m ≡ true → adds (joint m k) ≡ true
adds_left (ok []) k h = cc
adds_left (ok (x ∷ xs)) (ok ys) h = refl
adds_left (ok (x ∷ xs)) (raised err) h = refl
adds_left (raised err) k h = refl

adds_right : (m k : Outcome (List Text)) → adds k ≡ true → adds (joint m k) ≡ true
adds_right (ok []) k h = joint_right k h
  where
    joint_right : (k : Outcome (List Text)) → adds k ≡ true → adds (k >>= λ ys. ok ys) ≡ true
    joint_right (ok ys) h = h
    joint_right (raised err) h = refl
adds_right (ok (x ∷ xs)) (ok ys) h = refl
adds_right (ok (x ∷ xs)) (raised err) h = refl
adds_right (raised err) k h = refl

module _ (tools : Scanners) (config : PolicyConfig) (e : Evidence) (after : List Evidence) where
  engine_reasons-adds :
      Material tools config e
      → (before : List Evidence) → adds (engine_reasons tools config (before ++ (e ∷ after))) ≡ true
  unfolding engine_reasons
  engine_reasons-adds m [] = adds_left _ _ (material_adds tools config e m)
  engine_reasons-adds m (b ∷ bs) = adds_right _ _ (engine_reasons-adds m bs)

-- A report over reasons has a floor.
floored : (reasons : List Text) → is_empty reasons ≡ false → floor_of reasons ≡ some review
floored [] h = cc
floored (r ∷ rs) h = refl

engine_floor-adds :
    (tools : Scanners) (config : PolicyConfig) (evidence : List Evidence)
    (found : Option Decision × List Text)
    → adds (engine_reasons tools config evidence) ≡ true
    → engine_floor tools config evidence ≡ ok found
    → found.0 ≡ some review
unfolding engine_floor
engine_floor-adds tools config evidence found h e =
    let (reasons, he, same) = >>=-eq-ok (engine_reasons tools config evidence) _ e in
    let full = ap adds (sym he) ∙ h in
    subst (λ p. p.0 ≡ some review) (ok-injective same) (floored _ (full_append reasons _ full))
  where
    full_append : (xs ys : List Text) → not (is_empty xs) ≡ true → is_empty (xs ++ ys) ≡ false
    full_append [] ys h = cc
    full_append (x ∷ xs) ys h = refl

-- What holds of a report over a material discrepancy.
pub record Held (r : CritiqueReport) : Type 0 where
  pub floor : r.policy.floor ≡ some review
  pub decision : strictness (some review) ≤ strictness r.guardrail_decision
  pub not_cleared : r.model_decision ≡ some clear → r.validated ≡ false

module _ (readers : Readers) (tools : Scanners) (config : PolicyConfig) (before : List Evidence)
    (e : Evidence) (after : List Evidence) (investigation : Option InvestigationOutput)
    (chunks : List RetrievedChunk) where
  abbrev pile : List Evidence
  pile = before ++ (e ∷ after)

  -- Let the evidence hold, among any other items, a reconciliation discrepancy that is not one of
  -- settlement status and is at least as severe as the configured minimum. Then whatever the model
  -- says, a report that a review returns has the floor REVIEW and a decision of at least REVIEW,
  -- and a proposal to clear is not validated.
  pub review_investigation-Held :
      Material tools config e
      → (r : CritiqueReport)
      → review_investigation readers tools config pile investigation chunks ≡ ok r
      → Held r
  review_investigation-Held m r h =
      let (found, hf, same) = reviewed_parts readers tools config pile investigation chunks r h in
      let floor =
        ap (λ x. x.policy.floor) same
        ∙ engine_floor-adds tools config pile found
            (engine_reasons-adds tools config e after m before) hf in
      let b = review_investigation-Binding readers tools config pile investigation chunks r h in
      let above = b.above_floor in
      record {
        floor = floor;
        decision = subst (λ f. strictness f ≤ strictness r.guardrail_decision) floor above;
        not_cleared = λ c. elim (Bool-cases r.validated) [
          | inl v ↦
              let sound =
                review_investigation-Sound readers tools config pile investigation chunks r h v in
              let (no_floor, spoken) = sound.clearing c in absurd (cc (floor, no_floor))
          | inr v ↦ v
        ];
      }
