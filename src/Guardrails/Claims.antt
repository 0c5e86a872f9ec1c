-- ===== src/Guardrails/Claims.antt =====
-- guardrails/evidence_validator.py: `EvidenceIndex` as a lookup, `check_claim` and
-- `check_text_grounded`. `extract_tokens` is given as a parameter.
use finguard_major_project.Prelude.{
  String, Bool, true, false, not, ◌&&◌, Option, none, some, List, [], ◌∷◌, ◌++◌, map, any, filter,
  is_empty, is_none, take, str_eq, if◌then◌else◌,
}
use finguard_major_project.Prelude.Int.{ℤ}
use finguard_major_project.Strings.{Text, lit}
use finguard_major_project.Dict.{lookup}
use finguard_major_project.Llm.{normalize_citation}
use finguard_major_project.Guardrails.Models.{
  ClaimCheck, SupportStatus, supported, unsupported, unverifiable,
}
use finguard_major_project.Guardrails.Tokens.{
  Tokens, tokens_empty, Item, is_case, Missing, any_missing, missing, describe, joined,
}

abbrev pub EvidenceIndex : Type 0
EvidenceIndex = List (String × Item)

unfoldable pub resolve : EvidenceIndex → String → Option Item
resolve index reference = lookup (normalize_citation reference) index

abbrev pub case_items : EvidenceIndex → List Item
case_items index = filter (λ i. is_case i.kind) (map (λ e. e.1) index)

-- The references that resolve to nothing, and the items that the others resolve to.
abbrev pub unknown_refs : EvidenceIndex → List String → List String
unknown_refs index refs = filter (λ r. is_none (resolve index r)) refs

abbrev pub cons_some {ℓ} : {A : Type ℓ} → Option A → List A → List A
cons_some none xs = xs
cons_some (some a) xs = a ∷ xs

abbrev pub resolved_items : EvidenceIndex → List String → List Item
resolved_items index [] = []
resolved_items index (r ∷ rs) = cons_some (resolve index r) (resolved_items index rs)

abbrev pub case_cited : List Item → List Item
case_cited = filter (λ i. is_case i.kind)

-- The references of other case items that hold everything the claim says.
abbrev elsewhere : EvidenceIndex → Tokens → List Item → List String
elsewhere index tokens items =
    map (λ it. it.ref)
      (filter
        (λ it.
          not (any (λ cited. str_eq cited.ref it.ref) items)
          && not (any_missing (missing tokens (it ∷ []))))
        (case_items index))

abbrev hint : List String → Text
hint [] = []
hint (r ∷ rs) =
    (lit " (they do appear in " ∷ joined ", " (map (λ s. lit s ∷ []) (take 2 (r ∷ rs))))
    ++ (lit ", which the claim does not cite)" ∷ [])

abbrev pub derived_only : Missing → Bool
derived_only m = is_empty m.ids && is_empty m.dates && is_empty m.currencies

-- The verdict and its reason, once the items are resolved.
unfoldable pub judge_content : EvidenceIndex → String → Tokens → List Item → SupportStatus × Text
unfolding missing describe
judge_content index kind tokens items =
    let lacking = missing tokens items in
    if tokens_empty tokens
    then (
      unverifiable,
      lit "citations exist, but the claim has no numbers or identifiers to check" ∷ [],
    )
    else if not (any_missing lacking)
    then (
      supported,
      lit "all identifiers, numbers, dates and currencies appear in the cited evidence" ∷ [],
    )
    else if str_eq kind "inference" && derived_only lacking
    then (
      unverifiable,
      lit "derived value(s) could not be matched to the cited evidence: " ∷ describe lacking,
    )
    else (
      unsupported,
      lit "not found in the cited evidence: "
          ∷ (describe lacking ++ hint (elsewhere index tokens items)),
    )

unfoldable pub judge :
    EvidenceIndex → (String → Tokens) → String → String → List String → SupportStatus × Text
unfolding judge_content resolve
judge index extract_tokens claim kind refs =
    let unknown = unknown_refs index refs in
    let items = resolved_items index refs in
    if not (is_empty unknown)
    then (
      unsupported,
      lit "cites evidence that does not exist: " ∷ joined ", " (map (λ r. lit r ∷ []) unknown),
    )
    else if str_eq kind "fact" && is_empty (case_cited items)
    then (unsupported, lit "a fact must cite at least one item of case evidence" ∷ [])
    else if is_empty items
    then (unsupported, lit "no evidence is cited" ∷ [])
    else judge_content index kind (extract_tokens claim) items

unfoldable pub check_claim :
    (String → Tokens) → ℤ → String → String → List String → EvidenceIndex → ClaimCheck
unfolding judge
check_claim extract_tokens index_in_report claim kind evidence_ids index =
    let (status, reason) = judge index extract_tokens claim kind evidence_ids in
    record {
      index = index_in_report;
      claim = lit claim ∷ [];
      kind = kind;
      evidence_ids = evidence_ids;
      status = status;
      reason = reason;
    }

unfoldable pub check_text_grounded : (String → Tokens) → String → EvidenceIndex → Bool × Text
unfolding missing describe
check_text_grounded extract_tokens text index =
    let tokens = extract_tokens text in
    let lacking = missing tokens (case_items index) in
    if tokens_empty tokens
    then (true, lit "no checkable content" ∷ [])
    else if any_missing lacking
    then (false, lit "not in any case evidence: " ∷ describe lacking)
    else (true, lit "grounded" ∷ [])
