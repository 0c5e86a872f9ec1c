-- ===== src/Guardrails/Critique.antt =====
-- guardrails/self_critique.py: the mechanical review of an investigation. The readers of texts, of
-- evidence items and of retrieved chunks are given as `Readers`.
use finguard_major_project.Prelude.{
  ℕ, suc, String, Bool, true, false, not, ◌&&◌, Option, none, some, List, [], ◌∷◌, ◌++◌, map,
  filter, is_empty, is_none, is_some, length, ltb, ◌==◌, if◌then◌else◌,
}
use finguard_major_project.Prelude.Int.{pos, negsuc}
use finguard_major_project.Strings.{Text, lit, num}
use finguard_major_project.Outcome.{Outcome, ok, ◌>>=◌}
use finguard_major_project.Domain.{Decision, clear, review, escalate, Evidence, decision_rank}
use finguard_major_project.Dict.{put}
use finguard_major_project.Llm.{Finding, InvestigationOutput, kind_value}
use finguard_major_project.Guardrails.Models.{
  ClaimCheck, unsupported, CritiqueReport, PolicyFlag, PolicyResult, RetrievedChunk,
  is_unverifiable, unsupported_claims,
}
use finguard_major_project.Guardrails.Tokens.{Tokens, Item, joined}
use finguard_major_project.Guardrails.Claims.{
  EvidenceIndex, resolve, check_claim, check_text_grounded,
}
use finguard_major_project.Guardrails.FreeText.{PolicyConfig, Scanners}
use finguard_major_project.Guardrails.Flags.{check_policies}

-- `extract_tokens` and `_item_from_text`.
pub record Readers : Type 0 where
  pub extract_tokens : String → Tokens
  pub item_of_evidence : Evidence → Item
  pub item_of_chunk : RetrievedChunk → Item

abbrev put_evidence : Readers → List Evidence → EvidenceIndex → EvidenceIndex
put_evidence readers [] index = index
put_evidence readers (e ∷ es) index =
    put_evidence readers es (put e.evidence_id (readers.item_of_evidence e) index)

abbrev put_chunks : Readers → List RetrievedChunk → EvidenceIndex → EvidenceIndex
put_chunks readers [] index = index
put_chunks readers (c ∷ cs) index =
    put_chunks readers cs (put c.chunk_id (readers.item_of_chunk c) index)

-- `EvidenceIndex(evidence, chunks)`
unfoldable pub evidence_index : Readers → List Evidence → List RetrievedChunk → EvidenceIndex
unfolding put
evidence_index readers evidence chunks =
    put_chunks readers chunks (put_evidence readers evidence [])

unfoldable finding_checks : Readers → EvidenceIndex → ℕ → List Finding → List ClaimCheck
unfolding check_claim
finding_checks readers index i [] = []
finding_checks readers index i (f ∷ fs) =
    check_claim readers.extract_tokens (pos i) f.statement (kind_value f.kind) f.evidence_ids index
    ∷ finding_checks readers index (suc i) fs

abbrev dangling : ℕ → String → ClaimCheck
dangling j ref = record {
  index = negsuc (suc j);
  claim = lit "evidence list entry '" ∷ lit ref ∷ lit "'" ∷ [];
  kind = "reference";
  evidence_ids = ref ∷ [];
  status = unsupported;
  reason = lit "cited evidence does not exist" ∷ [];
}

-- The entries of the evidence list that resolve to nothing; the j-th has index -2 - j.
unfoldable reference_checks : EvidenceIndex → ℕ → List String → List ClaimCheck
unfolding resolve
reference_checks index j [] = []
reference_checks index j (ref ∷ refs) =
    let rest = reference_checks index (suc j) refs in
    if is_none (resolve index ref) then dangling j ref ∷ rest else rest

-- The claim checks, and whether the summary is grounded.
unfoldable pub checks_of :
    Readers → EvidenceIndex → Option InvestigationOutput → List ClaimCheck × Bool × Text
unfolding finding_checks reference_checks check_text_grounded
checks_of readers index none = ([], true, lit "no investigation to check" ∷ [])
checks_of readers index (some i) =
    let (grounded, reason) = check_text_grounded readers.extract_tokens i.summary index in
    (
      finding_checks readers index 0 i.findings ++ reference_checks index 0 i.evidence,
      grounded,
      reason,
    )

abbrev pub model_decision_of : Option InvestigationOutput → Option Decision
model_decision_of none = none
model_decision_of (some i) = some i.recommended_action

-- `max` by rank; the first of equals stays.
abbrev pub max_decision : Option Decision → Option Decision → Option Decision
max_decision none e = e
max_decision (some d) none = some d
max_decision (some d) (some e) = if ltb (decision_rank d) (decision_rank e) then some e else some d

unfoldable pub guardrail_of : Option Decision → Option Decision → Bool → Option Decision
unfolding decision_rank
guardrail_of model floor has_unsupported =
    max_decision (max_decision model floor) (if has_unsupported then some review else none)

abbrev decision_text : Decision → String
decision_text clear = "CLEAR"
decision_text review = "REVIEW"
decision_text escalate = "ESCALATE"

abbrev pub same_decision : Option Decision → Option Decision → Bool
same_decision none none = true
same_decision (some d) (some e) = decision_rank d == decision_rank e
same_decision none (some e) = false
same_decision (some d) none = false

abbrev was : Option Decision → String
was none = "no model output"
was (some d) = decision_text d

abbrev why : List Text → List Text
why [] = (lit "claims that could not be supported by the evidence" ∷ []) ∷ []
why (r ∷ rs) = r ∷ rs

unfoldable pub adjustments_of : Option Decision → Option Decision → List Text → List Text
unfolding decision_rank
adjustments_of model none reasons = []
adjustments_of model (some d) reasons =
    if same_decision (some d) model
    then []
    else (lit "advisory decision raised from "
        ∷ lit (was model)
        ∷ lit " to "
        ∷ lit (decision_text d)
        ∷ lit ": "
        ∷ joined "; " (why reasons))
      ∷ []

abbrev pub violations_of : List PolicyFlag → List PolicyFlag
violations_of = filter (λ f. f.is_violation)

abbrev note : Bool → Text → List Text
note true t = t ∷ []
note false t = []

abbrev notes_of :
    Bool → List ClaimCheck → List ClaimCheck → Bool → Text → List PolicyFlag → List Text
notes_of investigated checks bad grounded grounded_reason violations =
    let unverifiable = filter (λ c. is_unverifiable c.status) checks in
    note (not investigated) (lit "No investigation was produced to validate." ∷ [])
    ++ (note (not (is_empty bad))
          (num (length bad) ∷ lit " unsupported claim(s); do not rely on them." ∷ [])
        ++ (note (not (is_empty unverifiable)) (
              num (length unverifiable)
              ∷ lit " claim(s) could not be machine-verified (no checkable content)."
              ∷ [])
            ++ (note (not grounded) (
                  lit "Summary is not grounded in the evidence: "
                  ∷ (grounded_reason ++ (lit "." ∷ [])))
                ++ map (λ f. lit "Policy violation " ∷ lit f.code ∷ lit ": " ∷ f.detail)
                    violations)))

-- The report, once the checks and the policy result are there.
abbrev pub report_of :
    Option InvestigationOutput → List ClaimCheck → Bool → Text → PolicyResult → CritiqueReport
report_of investigation checks grounded grounded_reason policy =
    let model = model_decision_of investigation in
    let bad = unsupported_claims checks in
    let violations = violations_of policy.flags in
    let guardrail = guardrail_of model policy.floor (not (is_empty bad)) in
    record {
      claim_checks = checks;
      summary_grounded = grounded;
      summary_reason = grounded_reason;
      policy = policy;
      model_decision = model;
      guardrail_decision = guardrail;
      adjustments = adjustments_of model guardrail policy.floor_reasons;
      validated = is_some investigation && is_empty bad && grounded && is_empty violations;
      notes = notes_of (is_some investigation) checks bad grounded grounded_reason violations;
    }

-- `SelfCritique.review`
unfoldable pub review_investigation :
    Readers
    → Scanners
    → PolicyConfig
    → List Evidence
    → Option InvestigationOutput
    → List RetrievedChunk
    → Outcome CritiqueReport
unfolding checks_of evidence_index check_policies guardrail_of adjustments_of
review_investigation readers tools config evidence investigation chunks =
    let index = evidence_index readers evidence chunks in
    let (checks, grounded, grounded_reason) = checks_of readers index investigation in
    check_policies tools config investigation evidence checks grounded >>= λ policy.
    ok (report_of investigation checks grounded grounded_reason policy)
