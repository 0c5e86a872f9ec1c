-- ===== src/Guardrails/Support.antt =====
-- What makes a claim supported (guardrails/evidence_validator.py, `check_claim`).
use finguard_major_project.Prelude.{
  String, ◌≡◌, ◌↔◌, refl, sym, ap, ◌∙◌, Bool, true, false, not, ◌&&◌, List, arith, is_empty, str_eq,
  all, is_some, eq_iff, if◌then◌else◌,
}
use finguard_major_project.Prelude.Int.{ℤ}
use finguard_major_project.Strings.{Text}
use finguard_major_project.Guardrails.Models.{supported, unsupported, unverifiable, SupportStatus}
use finguard_major_project.Guardrails.Tokens.{
  Tokens, Item, tokens_empty, any_missing, missing, is_case,
}
use finguard_major_project.Guardrails.Cited.{cites, is_empty-filter, any-resolved_items}
use finguard_major_project.Guardrails.Grounding.{
  Held, has_token, missing-Held, Held-missing, is_empty-unknown, is_empty-any,
  tokens_empty-has_token,
}
use finguard_major_project.Guardrails.Claims.{
  EvidenceIndex, resolve, unknown_refs, resolved_items, case_cited, derived_only, judge_content,
  judge, check_claim,
}

-- The chain of tests of a claim, with the reason that each branch gives.
module _ (u f c t m d : Bool) (r0 r1 r2 r3 r4 r5 r6 : Text) where
  abbrev chain : SupportStatus × Text
  chain =
      if not u
      then (unsupported, r0)
      else if f
      then (unsupported, r1)
      else if c
      then (unsupported, r2)
      else if t
      then (unverifiable, r3)
      else if not m
      then (supported, r4)
      else if d
      then (unverifiable, r5)
      else (unsupported, r6)

  tests_of_supported :
      chain.0 ≡ supported → (u ≡ true) × (f ≡ false) × (c ≡ false) × (t ≡ false) × (m ≡ false)
  tests_of_supported h = (ground arith, ground arith, ground arith, ground arith, ground arith)

  supported_of_tests :
      u ≡ true → f ≡ false → c ≡ false → t ≡ false → m ≡ false → chain.0 ≡ supported
  supported_of_tests hu hf hc ht hm = rw (hu, hf, hc, ht, hm)

fact_case : (a b : Bool) → (a && b) ≡ false → a ≡ true → b ≡ false
fact_case a b h e = ground arith

case_fact : (a b : Bool) → (a ≡ true → b ≡ false) → (a && b) ≡ false
case_fact true b h = h refl
case_fact false b h = refl

not-true : (b : Bool) → not b ≡ false → b ≡ true
not-true true h = refl
not-true false h = sym h

module _ (extract_tokens : String → Tokens) (position : ℤ) (claim : String) (kind : String)
    (refs : List String) (index : EvidenceIndex) where
  -- Every citation exists, a fact cites case evidence, and the cited items hold all that is said.
  pub record Grounded : Type 0 where
    pub known : all (λ r. is_some (resolve index r)) refs ≡ true
    pub from_case : kind ≡ "fact" → cites index refs (λ it. is_case it.kind) ≡ true
    pub cited : cites index refs (λ it. true) ≡ true
    pub checkable : has_token (extract_tokens claim) ≡ true
    pub held : Held index refs (extract_tokens claim)

  abbrev items : List Item
  items = resolved_items index refs

  case_cited-cites : is_empty (case_cited items) ≡ not (cites index refs (λ it. is_case it.kind))
  case_cited-cites =
      is_empty-filter (λ it. is_case it.kind) items
      ∙ ap not (any-resolved_items index refs (λ it. is_case it.kind))

  items-cites : is_empty items ≡ not (cites index refs (λ it. true))
  items-cites = is_empty-any items ∙ ap not (any-resolved_items index refs (λ it. true))

  abbrev facts : Bool
  facts = str_eq kind "fact" && is_empty (case_cited (resolved_items index refs))

  supported_Grounded :
      (check_claim extract_tokens position claim kind refs index).status ≡ supported → Grounded
  unfolding check_claim judge judge_content
  supported_Grounded h =
      let tokens = extract_tokens claim in
      let (u, f, c, t, m) =
        tests_of_supported (is_empty (unknown_refs index refs)) facts (is_empty items)
          (tokens_empty tokens) (any_missing (missing tokens items))
          (str_eq kind "inference" && derived_only (missing tokens items)) _ _ _ _ _ _ _ h in
      record {
        known = sym (is_empty-unknown index refs) ∙ u;
        from_case = λ e.
            not-true _ (
              sym case_cited-cites ∙ fact_case (str_eq kind "fact") _ f ((eq_iff kind "fact").1 e));
        cited = not-true _ (sym items-cites ∙ c);
        checkable = not-true _ (sym (tokens_empty-has_token tokens) ∙ t);
        held = missing-Held index refs tokens m;
      }

  Grounded_supported :
      Grounded → (check_claim extract_tokens position claim kind refs index).status ≡ supported
  unfolding check_claim judge judge_content
  Grounded_supported g =
      let tokens = extract_tokens claim in
      supported_of_tests (is_empty (unknown_refs index refs)) facts (is_empty items)
        (tokens_empty tokens) (any_missing (missing tokens items))
        (str_eq kind "inference" && derived_only (missing tokens items)) _ _ _ _ _ _ _
        (is_empty-unknown index refs ∙ g.known)
        (case_fact (str_eq kind "fact") _
          (λ e. case_cited-cites ∙ ap not (g.from_case ((eq_iff kind "fact").0 e))))
        (items-cites ∙ ap not g.cited) (tokens_empty-has_token tokens ∙ ap not g.checkable)
        (Held-missing index refs tokens g.held)

  -- A claim is marked supported exactly when every citation resolves, a claim of kind "fact" cites an
  -- item of case evidence, some item is cited, the claim has checkable content, and each of its
  -- identifiers, dates, hours, times and currencies stands in a cited item, each number close to one of
  -- a cited item, and each day of a month in a date or a day of a cited item.
  pub check_claim-supported_iff :
      ((check_claim extract_tokens position claim kind refs index).status ≡ supported) ↔ Grounded
  check_claim-supported_iff = (supported_Grounded, Grounded_supported)
