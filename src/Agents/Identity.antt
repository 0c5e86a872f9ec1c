-- ===== src/Agents/Identity.antt =====
-- What a finding of the auditor says of the matches of a document (agents/auditor/agent.py).
use finguard_major_project.Prelude.{
  ℕ, ◌+◌, String, ◌≡◌, ◌≢◌, ◌⊎◌, refl, sym, ap, subst, Bool, true, false, not, ◌&&◌, Option, none,
  some, List, [], ◌∷◌, All, arith, map, filter, str_eq, eq_iff, Bool-cases, inl, inr, &&_split,
}
use finguard_major_project.Contracts.{KycCandidateSummary}
use finguard_major_project.Agents.Auditor.{
  KycMatchResult, candidate_summary, document_finding, from_own, own_result,
}

-- The result at a rank is the first one of the customer.
abbrev pub FirstAt : String → ℕ → List KycMatchResult → Type 0
FirstAt customer_id rank [] = ⊥
FirstAt customer_id rank (r ∷ results) =
    ((rank ≡ 1) × (r.candidate_id ≡ customer_id))
    ⊎ ((r.candidate_id ≢ customer_id) × (n : ℕ) × (rank ≡ n + 1) × FirstAt customer_id n results)

-- What a finding says of the results that it is made of.
pub record Identified (customer_id document_id : String) (results : List KycMatchResult)
    : Type 0 where
  pub ranked :
      (rank : ℕ)
      → (document_finding customer_id document_id results).own_record_rank ≡ some rank
      → FirstAt customer_id rank results
  pub missing :
      (document_finding customer_id document_id results).own_record_rank ≡ none
      → All (λ r. r.candidate_id ≢ customer_id) results
  pub others :
      All
        (λ (c : KycCandidateSummary). (c.candidate_id ≢ customer_id) × (c.is_match ≡ true))
        (document_finding customer_id document_id results).other_strong_candidates

not-eq : (a b : String) → str_eq a b ≡ false → a ≢ b
not-eq a b f e = cc ((eq_iff a b).1 e, f)

-- The rank that is found, counted from `base`.
own_result-ranked :
    (customer_id : String) (base : ℕ) (results : List KycMatchResult) (own : ℕ × KycMatchResult)
    → own_result customer_id (base + 1) results ≡ some own
    → (rank : ℕ) × (own.0 ≡ base + rank) × FirstAt customer_id rank results
unfolding own_result
own_result-ranked customer_id base [] own e = cc e
own_result-ranked customer_id base (r ∷ results) own e =
    elim (Bool-cases (str_eq r.candidate_id customer_id)) [
      | inl t ↦ (1, first (rw t at e), inl (refl, (eq_iff r.candidate_id customer_id).0 t))
      | inr f ↦
          let (n, place, at) = own_result-ranked customer_id (base + 1) results own (rw f at e) in
          (n + 1, omega (arith, place), inr (not-eq r.candidate_id customer_id f, n, refl, at))
    ]
  where
    first : {r : KycMatchResult} → some (base + 1, r) ≡ some own → own.0 ≡ base + 1
    first h = ap rank_of (sym h)
      where
        rank_of : Option (ℕ × KycMatchResult) → ℕ
        rank_of none = 0
        rank_of (some o) = o.0

own_result-missing :
    (customer_id : String) (base : ℕ) (results : List KycMatchResult)
    → own_result customer_id base results ≡ none
    → All (λ r. r.candidate_id ≢ customer_id) results
unfolding own_result
own_result-missing customer_id base [] e = tt
own_result-missing customer_id base (r ∷ results) e =
    elim (Bool-cases (str_eq r.candidate_id customer_id)) [
      | inl t ↦ absurd (cc (rw t at e))
      | inr f ↦ (
        not-eq r.candidate_id customer_id f,
        own_result-missing customer_id (base + 1) results (rw f at e),
      )
    ]

strong-others :
    (customer_id : String) (results : List KycMatchResult)
    → All
        (λ (c : KycCandidateSummary). (c.candidate_id ≢ customer_id) × (c.is_match ≡ true))
        (map candidate_summary
          (filter (λ r. not (str_eq r.candidate_id customer_id) && r.is_match) results))
strong-others customer_id [] = tt
strong-others customer_id (r ∷ results) =
    elim (Bool-cases (not (str_eq r.candidate_id customer_id) && r.is_match)) [
      | inl t ↦
          let (other, strong) = &&_split (not (str_eq r.candidate_id customer_id)) r.is_match t in
          rw t (
            (not-eq r.candidate_id customer_id (flip _ other), strong),
            strong-others customer_id results,
          )
      | inr f ↦ rw f (strong-others customer_id results)
    ]
  where
    flip : (b : Bool) → not b ≡ true → b ≡ false
    flip true h = sym h
    flip false h = refl

-- A finding gives the rank of the first result that is the customer's own record, gives none only
-- where no result is, and lists as other strong candidates only matches of other records.
pub document_finding-Identified :
    (customer_id document_id : String) (results : List KycMatchResult)
    → Identified customer_id document_id results
unfolding document_finding
document_finding-Identified customer_id document_id results = record {
  ranked = λ rank e.
      let (own, found, same) = by_rank (own_result customer_id 1 results) rank e in
      let (n, place, at) = own_result-ranked customer_id 0 results own found in
      let here : n ≡ rank = omega (arith, place, same) in
      subst (λ k. FirstAt customer_id k results) here at;
  missing =
      λ e. own_result-missing customer_id 1 results (no_rank (own_result customer_id 1 results) e);
  others = strong-others customer_id results;
}
  where
    by_rank :
        (o : Option (ℕ × KycMatchResult)) (rank : ℕ)
        → from_own none (λ x. some x.0) o ≡ some rank
        → (own : ℕ × KycMatchResult) × (o ≡ some own) × (own.0 ≡ rank)
    by_rank none rank e = cc e
    by_rank (some own) rank e = (own, refl, cc e)

    no_rank : (o : Option (ℕ × KycMatchResult)) → from_own none (λ x. some x.0) o ≡ none → o ≡ none
    no_rank none e = refl
    no_rank (some own) e = cc e
