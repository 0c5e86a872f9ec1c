-- ===== src/Kyc/Grades.antt =====
-- The bounds of the structured score, and when it is full (kyc/scoring/structured.py).
use native.Mathlib.Nat.{mul-le-mul_left}
use finguard_major_project.Prelude.{
  ℕ, ◌*◌, ◌≤◌, String, ◌≡◌, refl, subst, not, ◌&&◌, Option, none, some, arith, str_eq, Bool-cases,
  inl, inr,
}
use finguard_major_project.Pipeline.Models.{CanonicalCustomer, Date, NormalizedAddress}
use finguard_major_project.Kyc.{
  Compared, MatcherConfig, QueryIdentity, compare_address, compare_dob, compared_address,
  compared_dob, components, score_of, verify_structured, weight_part, weighted_part,
}

some-injective : {a b : Compared} → some a ≡ some b → a ≡ b
some-injective e = cc e

compare_dob-le : (iso : Date → String) (a b : Date) → (compare_dob iso a b).score ≤ 1000000
unfolding compare_dob
compare_dob-le iso a b = ground arith

components-le : (a b : NormalizedAddress) → score_of (components a b) ≤ 1000000
components-le a b = ground arith

module _ (iso : Date → String) (ratio : String → String → ℕ)
    (similar : (s t : String) → ratio s t ≤ 1000000) where
  compare_address-le : (a b : NormalizedAddress) → (compare_address ratio a b).score ≤ 1000000
  unfolding compare_address
  compare_address-le a b = elim (Bool-cases (str_eq a.canonical b.canonical)) [
    | inl e ↦ rw e (omega arith)
    | inr e ↦ elim (Bool-cases (not (a.parsed && b.parsed))) [
      | inl p ↦ rw (e, p) (similar a.canonical b.canonical)
      | inr p ↦ rw (e, p) (components-le a b)
    ]
  ]

  part-le :
      (w : ℕ) (o : Option Compared)
      → ((c : Compared) → o ≡ some c → c.score ≤ 1000000)
      → weighted_part w o ≤ weight_part w o * 1000000
  part-le w none h = omega arith
  part-le w (some c) h = mul-le-mul_left w (h c refl)

  dob-le :
      (o : Option Date) (candidate : CanonicalCustomer) (c : Compared)
      → compared_dob iso ratio o candidate ≡ some c
      → c.score ≤ 1000000
  dob-le none candidate c e = cc e
  dob-le (some d) candidate c e =
      subst (λ x. x.score ≤ 1000000) (some-injective e)
        (compare_dob-le iso d candidate.customer.date_of_birth)

  address-le :
      (o : Option NormalizedAddress) (candidate : CanonicalCustomer) (c : Compared)
      → compared_address iso ratio o candidate ≡ some c
      → c.score ≤ 1000000
  address-le none candidate c e = cc e
  address-le (some a) candidate c e =
      subst (λ x. x.score ≤ 1000000) (some-injective e) (compare_address-le a candidate.address)

  -- Where the similarity of two texts is at most 1, so is the structured score: the weighted sum is at
  -- most the total weight.
  pub verify_structured-bounded :
      (query : QueryIdentity) (candidate : CanonicalCustomer) (config : MatcherConfig)
      → (verify_structured iso ratio query candidate config).weighted
        ≤ (verify_structured iso ratio query candidate config).total_weight * 1000000
  unfolding verify_structured
  verify_structured-bounded query candidate config = omega (
    arith,
    part-le config.dob_weight (compared_dob iso ratio query.date_of_birth candidate)
        (dob-le query.date_of_birth candidate),
    part-le config.address_weight (compared_address iso ratio query.address candidate)
        (address-le query.address candidate),
  )
