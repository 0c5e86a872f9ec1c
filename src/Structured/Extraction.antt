-- ===== src/Structured/Extraction.antt =====
-- Which part of a reply `extract_json_object` returns (guardrails/schema_validator.py).
use finguard_major_project.Prelude.{
  ℕ, ◌≡◌, ◌↔◌, refl, sym, ap, subst, ◌∙◌, true, false, some, [], ◌∷◌, ◌++◌, All, ◌==◌, arith,
  Bool-cases, Option-cases, inl, inr,
}
use finguard_major_project.Outcome.{ok, ok-injective}
use finguard_major_project.Structured.Grammar.{Ends, InObject, InObject-Ends_iff}
use finguard_major_project.Structured.{
  Codes, Scan, start, advance, closes, scan, from_brace, scanned, extracted, extract_json_object,
}

-- A reply: what comes before its first opening brace, an object that begins there, and the rest.
pub record Located (text object : Codes) : Type 0 where
  pub before : Codes
  pub after : Codes
  pub split : text ≡ before ++ (object ++ after)
  pub no_brace : All (λ c. (c == b'{') ≡ false) before
  pub inner : Codes
  pub opens : object ≡ b'{' ∷ inner
  pub body : InObject 0 inner

-- The scan finds the shortest text that ends.
scan-Ends :
    (s : Scan) (cs out : Codes)
    → scan s cs ≡ some out
    → (rest : Codes) × Ends s out × (cs ≡ out ++ rest)
unfolding scan
scan-Ends s [] out e = cc e
scan-Ends s (c ∷ cs) out e = elim (Bool-cases (closes s c)) [
  | inl t ↦ let h = some-injective (rw t at e) in (cs, subst (Ends s) h t, ap (λ o. o ++ cs) h)
  | inr f ↦ elim (Option-cases (scan (advance s c) cs)) [
    | inl n ↦ absurd (cc (rw (f, n) at e))
    | inr (found, h) ↦
        let (rest, ends, split) = scan-Ends (advance s c) cs found h in
        let same = some-injective (rw (f, h) at e) in
        (
          rest,
          subst (Ends s) same (longer found f ends),
          ap (λ l. c ∷ l) split ∙ ap (λ o. o ++ rest) same,
        )
  ]
]
  where
    some-injective : {a b : Codes} → some a ≡ some b → a ≡ b
    some-injective h = cc h

    longer : (found : Codes) → closes s c ≡ false → Ends (advance s c) found → Ends s (c ∷ found)
    longer [] f g = absurd g
    longer (d ∷ ds) f g = (f, g)

Ends-scan : (s : Scan) (out rest : Codes) → Ends s out → scan s (out ++ rest) ≡ some out
unfolding scan
Ends-scan s [] rest g = absurd g
Ends-scan s (c ∷ []) rest g = rw g
Ends-scan s (c ∷ d ∷ cs) rest (f, g) = rw (f, Ends-scan (advance s c) (d ∷ cs) rest g)

brace_eq : (c : ℕ) → (c == b'{') ≡ true → c ≡ b'{'
brace_eq c h = ground arith

from_brace-split :
    (text cs : Codes)
    → from_brace text ≡ some cs
    → (before inner : Codes) × (text ≡ before ++ cs)
      × All (λ c. (c == b'{') ≡ false) before
      × (cs ≡ b'{' ∷ inner)
unfolding from_brace
from_brace-split [] cs e = cc e
from_brace-split (c ∷ text) cs e = elim (Bool-cases (c == b'{')) [
  | inl t ↦
      let h = some-injective (rw t at e) in
      ([], text, h, tt, sym h ∙ ap (λ x. x ∷ text) (brace_eq c t))
  | inr f ↦
      let (before, inner, split, none_, opens) = from_brace-split text cs (rw f at e) in
      (c ∷ before, inner, ap (λ l. c ∷ l) split, (f, none_), opens)
]
  where
    some-injective : {a b : Codes} → some a ≡ some b → a ≡ b
    some-injective h = cc h

split-from_brace :
    (before inner : Codes)
    → All (λ c. (c == b'{') ≡ false) before
    → from_brace (before ++ b'{' ∷ inner) ≡ some (b'{' ∷ inner)
unfolding from_brace
split-from_brace [] inner h = refl
split-from_brace (c ∷ before) inner (f, h) = rw (f, split-from_brace before inner h)

opening :
    (out rest inner : Codes)
    → Ends start out
    → out ++ rest ≡ b'{' ∷ inner
    → (tail : Codes) × (out ≡ b'{' ∷ tail)
opening [] rest inner g e = absurd g
opening (c ∷ cs) rest inner g e = (cs, cc e)

-- A text is returned exactly when the reply is some text with no opening brace, then that text, then
-- anything, and the text is an object: an opening brace and what the grammar `InObject` lets follow up
-- to the brace that closes it. Braces within a string count for nothing, and a quote that a backslash
-- escapes does not end a string.
pub extract_json_object-Located_iff :
    (text object : Codes) → (extract_json_object text ≡ ok object) ↔ Located text object
unfolding extract_json_object
extract_json_object-Located_iff text object = (
  (λ e. located e),
  (λ l.
      let found = split-from_brace l.before (l.inner ++ l.after) l.no_brace in
      let braced : text ≡ l.before ++ b'{' ∷ (l.inner ++ l.after) =
        l.split ∙ ap (λ o. l.before ++ (o ++ l.after)) l.opens in
      ap extracted (ap from_brace braced ∙ found)
      ∙ ap (λ o. scanned (scan start (o ++ l.after))) (sym l.opens)
      ∙ ap scanned (
          Ends-scan start object l.after
            (subst (Ends start) (sym l.opens) ((InObject-Ends_iff l.inner).1 l.body)))),
)
  where
    located : extract_json_object text ≡ ok object → Located text object
    located e = elim (Option-cases (from_brace text)) [
      | inl n ↦ absurd (cc (ap extracted (sym n) ∙ e))
      | inr (cs, h) ↦ elim (Option-cases (scan start cs)) [
        | inl n ↦ absurd (cc (ap scanned (sym n) ∙ ap extracted (sym h) ∙ e))
        | inr (out, k) ↦
            let same : out ≡ object =
              ok-injective (ap scanned (sym k) ∙ ap extracted (sym h) ∙ e) in
            let (before, inner, split, clean, opens) = from_brace-split text cs h in
            let (rest, ends, cut) = scan-Ends start cs out k in
            let (tail, first) = opening out rest inner ends (sym cut ∙ opens) in
            subst (Located text) same (record {
              before = before;
              after = rest;
              split = split ∙ ap (λ l. before ++ l) cut;
              no_brace = clean;
              inner = tail;
              opens = first;
              body = (InObject-Ends_iff tail).0 (subst (Ends start) first ends);
            })
      ]
    ]
