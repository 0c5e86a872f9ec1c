-- ===== src/Kyc.antt =====
-- kyc/scoring/structured.py, `KYCEntityMatcher._confidence` and the reasons of `_to_result` in
-- kyc/entity_matcher.py. Scores and weights are in millionths, and a weighted mean is kept as its
-- numerator and denominator (it is 0 where no weight is positive); texts print them in millionths.
-- `ratio` stands for `fuzz.ratio` of two texts.
pub mod Grades
use finguard_major_project.Prelude.{
  ℕ, ◌+◌, ◌*◌, String, Bool, true, false, not, ◌&&◌, Option, none, some, List, [], ◌∷◌, ◌++◌, any,
  is_empty, leb, ltb, map, ◌==◌, str_eq, if◌then◌else◌,
}
use finguard_major_project.Prelude.Int.{pos}
use finguard_major_project.Strings.{Text, lit, decimal}
use finguard_major_project.Guardrails.Tokens.{joined}
use finguard_major_project.Pipeline.Models.{
  CanonicalCustomer, Date, NormalizedAddress, NormalizedName,
}

pub record QueryIdentity : Type 0 where
  pub name : NormalizedName
  pub date_of_birth : Option Date
  pub address : Option NormalizedAddress

pub record MatcherConfig : Type 0 where
  pub top_k : ℕ
  pub hybrid_alpha : ℕ
  pub weight_name : ℕ
  pub weight_structured : ℕ
  pub dob_weight : ℕ
  pub address_weight : ℕ
  pub match_threshold : ℕ
  pub high_confidence_margin : ℕ

abbrev pub default_matcher : MatcherConfig
default_matcher = record {
  top_k = 20;
  hybrid_alpha = 500000;
  weight_name = 500000;
  weight_structured = 500000;
  dob_weight = 600000;
  address_weight = 400000;
  match_threshold = 650000;
  high_confidence_margin = 100000;
}

-- What a comparison of one attribute gives.
pub record Compared : Type 0 where
  pub score : ℕ
  pub reasons : List Text
  pub contradictions : List Text

pub record StructuredVerification : Type 0 where
  -- the score is the quotient of the two
  pub weighted : ℕ
  pub total_weight : ℕ
  pub dob_score : Option ℕ
  pub address_score : Option ℕ
  pub reasons : List Text
  pub contradictions : List Text

abbrev pub date_eq : Date → Date → Bool
date_eq a b = a.year == b.year && a.month == b.month && a.day == b.day

abbrev transposed : Date → Date → Bool
transposed a b = a.year == b.year && a.day == b.month && a.month == b.day

-- `_compare_dob`; `isoformat` is that of a date.
unfoldable pub compare_dob : (Date → String) → Date → Date → Compared
compare_dob isoformat query candidate =
    if date_eq query candidate
    then record { score = 1000000; reasons = (lit "dob_exact" ∷ []) ∷ []; contradictions = [] }
    else if transposed query candidate
    then record {
      score = 500000;
      reasons = [];
      contradictions = (lit "dob_day_month_transposed" ∷ []) ∷ [];
    }
    else record {
      score = 0;
      reasons = [];
      contradictions =
          (lit "dob_mismatch: "
            ∷ lit (isoformat query)
            ∷ lit " vs "
            ∷ lit (isoformat candidate)
            ∷ [])
          ∷ [];
    }

abbrev same_part : Option String → Option String → Bool
same_part none none = true
same_part (some a) (some b) = str_eq a b
same_part _ _ = false

-- `repr` of a component.
abbrev quoted : Option String → Text
quoted none = lit "None" ∷ []
quoted (some s) = lit "'" ∷ lit s ∷ lit "'" ∷ []

-- The components with their weights, in the order of `_ADDRESS_COMPONENT_WEIGHTS`.
abbrev pub components :
    NormalizedAddress → NormalizedAddress → List (String × ℕ × Option String × Option String)
components a b =
    ("number", 250000, a.number, b.number)
    ∷ ("street", 250000, a.street, b.street)
    ∷ ("city", 300000, a.city, b.city)
    ∷ ("country", 200000, a.country, b.country)
    ∷ []

abbrev pub score_of : List (String × ℕ × Option String × Option String) → ℕ
score_of [] = 0
score_of (c ∷ cs) = (if same_part c.2 c.3 then c.1 else 0) + score_of cs

abbrev matched_of : List (String × ℕ × Option String × Option String) → List String
matched_of [] = []
matched_of (c ∷ cs) = let rest = matched_of cs in if same_part c.2 c.3 then c.0 ∷ rest else rest

abbrev mismatches : List (String × ℕ × Option String × Option String) → List Text
mismatches [] = []
mismatches (c ∷ cs) =
    let rest = mismatches cs in
    if same_part c.2 c.3
    then rest
    else (lit "address_" ∷ lit c.0 ∷ lit "_mismatch: " ∷ (quoted c.2 ++ (lit " vs " ∷ quoted c.3)))
      ∷ rest

abbrev partial : List String → List Text
partial matched =
    if is_empty matched
    then []
    else (lit "address_partial: matching " ∷ joined ", " (map (λ m. lit m ∷ []) matched)) ∷ []

-- `_compare_address`
unfoldable pub compare_address :
    (String → String → ℕ) → NormalizedAddress → NormalizedAddress → Compared
compare_address ratio query candidate =
    let similarity = ratio query.canonical candidate.canonical in
    let parts = components query candidate in
    if str_eq query.canonical candidate.canonical
    then record { score = 1000000; reasons = (lit "address_exact" ∷ []) ∷ []; contradictions = [] }
    else if not (query.parsed && candidate.parsed)
    then record {
      score = similarity;
      reasons = [];
      contradictions =
          (lit "address_unstructured_similarity=" ∷ decimal (pos similarity) ∷ []) ∷ [];
    }
    else record {
      score = score_of parts;
      reasons = partial (matched_of parts);
      contradictions = mismatches parts;
    }

abbrev pub part_score : Option Compared → Option ℕ
part_score none = none
part_score (some c) = some c.score

abbrev pub weighted_part : ℕ → Option Compared → ℕ
weighted_part w none = 0
weighted_part w (some c) = w * c.score

abbrev pub weight_part : ℕ → Option Compared → ℕ
weight_part w none = 0
weight_part w (some c) = w

abbrev reasons_part : String → Option Compared → List Text
reasons_part missing none = (lit missing ∷ []) ∷ []
reasons_part missing (some c) = c.reasons

abbrev contradictions_part : Option Compared → List Text
contradictions_part none = []
contradictions_part (some c) = c.contradictions

module _ (isoformat : Date → String) (ratio : String → String → ℕ) where
  abbrev pub compared_dob : Option Date → CanonicalCustomer → Option Compared
  compared_dob none candidate = none
  compared_dob (some d) candidate = some (compare_dob isoformat d candidate.customer.date_of_birth)

  abbrev pub compared_address : Option NormalizedAddress → CanonicalCustomer → Option Compared
  compared_address none candidate = none
  compared_address (some a) candidate = some (compare_address ratio a candidate.address)

  unfoldable pub verify_structured :
      QueryIdentity → CanonicalCustomer → MatcherConfig → StructuredVerification
  unfolding compare_dob compare_address
  verify_structured query candidate config =
      let dob = compared_dob query.date_of_birth candidate in
      let address = compared_address query.address candidate in
      record {
        weighted =
            weighted_part config.dob_weight dob + weighted_part config.address_weight address;
        total_weight =
            weight_part config.dob_weight dob + weight_part config.address_weight address;
        dob_score = part_score dob;
        address_score = part_score address;
        reasons =
            reasons_part "dob_missing_in_query (neutral)" dob
            ++ reasons_part "address_missing_in_query (neutral)" address;
        contradictions = contradictions_part dob ++ contradictions_part address;
      }

pub data Confidence : Type 0 where
  high medium low : Confidence

-- `_confidence`
unfoldable pub confidence : MatcherConfig → ℕ → Confidence
confidence cfg score =
    if leb (cfg.match_threshold + cfg.high_confidence_margin) score
    then high
    else if leb cfg.match_threshold score
    then medium
    else low

-- The reasons and the contradictions of the name, with its two scores.
unfoldable pub name_evidence : NormalizedName → CanonicalCustomer → ℕ → ℕ → List Text × List Text
name_evidence qn customer fuzzy name_score =
    if str_eq qn.canonical customer.name.canonical
    then ((lit "name_exact" ∷ []) ∷ [], [])
    else if any (λ a. str_eq qn.canonical a.canonical) customer.alternate_names
    then ((lit "name_matches_alternate_name" ∷ []) ∷ [], [])
    else if leb 850000 fuzzy
    then ((lit "name_close_spelling (similarity " ∷ decimal (pos fuzzy) ∷ lit ")" ∷ []) ∷ [], [])
    else if ltb name_score 500000
    then ([], (lit "name_low_similarity (" ∷ decimal (pos name_score) ∷ lit ")" ∷ []) ∷ [])
    else ([], [])
