-- ===== src/Structured.antt =====
-- guardrails/schema_validator.py and llm/rag/structured.py: the JSON object in a model's reply, and the
-- bounded repair loop. A text is the list of its code points. `json.loads`, the validation of a schema
-- and the provider are given as functions.
pub mod Grammar
pub mod Extraction
pub mod Repair
use finguard_major_project.Prelude.{
  ℕ, ◌+◌, ◌-◌, ◌≡◌, Bool, true, false, not, ◌&&◌, Option, none, some, List, [], ◌∷◌, ◌++◌, any,
  ◌==◌, is_some, if◌then◌else◌,
}
use finguard_major_project.Outcome.{Outcome, ok, raised, Error, value_error, ◌>>=◌}

abbrev pub Codes : Type 0
Codes = List ℕ

-- `depth, in_string, escaped`
pub record Scan : Type 0 where
  pub depth : ℕ
  pub in_string : Bool
  pub escaped : Bool

abbrev pub start : Scan
start = record { depth = 0; in_string = false; escaped = false }

-- The body of the loop for one character. The scan begins at a brace, so a closing brace that is read
-- finds a depth of at least 1.
unfoldable pub advance : Scan → ℕ → Scan
advance s ch =
    if s.in_string
    then (if s.escaped
        then record s { escaped = false }
        else if ch == b'\\'
        then record s { escaped = true }
        else if ch == b'"'
        then record s { in_string = false }
        else s)
    else if ch == b'"'
    then record s { in_string = true }
    else if ch == b'{'
    then record s { depth = s.depth + 1 }
    else if ch == b'}'
    then record s { depth = s.depth - 1 }
    else s

-- A closing brace outside a string that takes the depth to 0.
unfoldable pub closes : Scan → ℕ → Bool
closes s ch = not s.in_string && ch == b'}' && s.depth == 1

abbrev pub prefixed : ℕ → Option Codes → Option Codes
prefixed c none = none
prefixed c (some rest) = some (c ∷ rest)

-- The characters up to the one that closes the object.
unfoldable pub scan : Scan → Codes → Option Codes
unfolding advance closes
scan s [] = none
scan s (c ∷ cs) =
    let rest = scan (advance s c) cs in if closes s c then some (c ∷ []) else prefixed c rest

-- `text[text.find("{"):]`
unfoldable pub from_brace : Codes → Option Codes
from_brace [] = none
from_brace (c ∷ cs) = let rest = from_brace cs in if c == b'{' then some (c ∷ cs) else rest

abbrev pub scanned : Option Codes → Outcome Codes
scanned none = raised (value_error "JSON object is not terminated (output was probably truncated)")
scanned (some found) = ok found

abbrev pub extracted : Option Codes → Outcome Codes
extracted none = raised (value_error "no JSON object found in the output")
extracted (some cs) = scanned (scan start cs)

unfoldable pub extract_json_object : Codes → Outcome Codes
unfolding from_brace scan
extract_json_object text = extracted (from_brace text)

module _ {ℓ} (V : Type 0) (M : Type ℓ) where
  -- `json.loads`, and `model.model_validate`, which fails with its details.
  pub record Schema : Type ℓ where
    pub loads : Codes → Outcome V
    pub model_validate : V → Outcome M

pub record ParseResult {ℓ} (M : Type ℓ) : Type ℓ where
  pub value : Option M
  pub error : Option Codes

pub record Message : Type 0 where
  pub role : Codes
  pub content : Codes

pub record GenerationResult : Type 0 where
  pub text : Codes
  pub is_mock : Bool
  pub latency_s : ℕ

pub record Attempt : Type 0 where
  pub text : Codes
  pub error : Option Codes
  pub result : GenerationResult

pub record StructuredResult {ℓ} (M : Type ℓ) : Type ℓ where
  pub value : Option M
  pub attempts : List Attempt

-- `is_mock` of a result: one attempt was a mock.
unfoldable pub is_mock {ℓ} : {M : Type ℓ} → StructuredResult M → Bool
is_mock result = any (λ a. a.result.is_mock) result.attempts

-- How the messages read: the two roles, the words of an error, and those of a repair.
pub record Wording : Type 0 where
  pub assistant : Codes
  pub user : Codes
  pub invalid_json : Error → Codes
  pub schema_failed : Error → Codes
  pub unknown_error : Codes
  pub repair : Codes → Codes

module _ {ℓ} {V : Type 0} {M : Type ℓ} (wording : Wording) (schema : Schema V M) where
  abbrev pub validated : Outcome M → ParseResult M
  validated (ok value) = record { value = some value; error = none }
  validated (raised e) = record { value = none; error = some (wording.schema_failed e) }

  abbrev pub parsed : Outcome V → ParseResult M
  parsed (ok payload) = validated (schema.model_validate payload)
  parsed (raised e) = record { value = none; error = some (wording.invalid_json e) }

  unfoldable pub parse_structured : Codes → ParseResult M
  unfolding extract_json_object
  parse_structured text = parsed (extract_json_object text >>= schema.loads)

  abbrev or_unknown : Option Codes → Codes
  or_unknown none = wording.unknown_error
  or_unknown (some e) = e

  -- The conversation that the next attempt is asked with.
  unfoldable pub repaired : List Message → Codes → Option Codes → List Message
  repaired conversation text error =
      conversation
      ++ (record { role = wording.assistant; content = text }
          ∷ record { role = wording.user; content = wording.repair (or_unknown error) }
          ∷ [])

  -- `provider n conversation` is the answer to the n-th call.
  module _ (provider : ℕ → List Message → GenerationResult) where
    abbrev pub attempt_of : GenerationResult → Attempt
    attempt_of generated = record {
      text = generated.text;
      error = (parse_structured generated.text).error;
      result = generated;
    }

    -- The loop, with the attempts that are left and those that have been made.
    unfoldable pub attempts_from : ℕ → ℕ → List Message → StructuredResult M
    unfolding parse_structured repaired
    attempts_from Prim.Native.Nat.zero made conversation = record { value = none; attempts = [] }
    attempts_from (Prim.Native.Nat.suc left) made conversation =
        let generated = provider made conversation in
        let result = parse_structured generated.text in
        let attempt = attempt_of generated in
        let rest =
          attempts_from left (made + 1) (repaired conversation generated.text result.error) in
        if is_some result.value
        then record { value = result.value; attempts = attempt ∷ [] }
        else record { value = rest.value; attempts = attempt ∷ rest.attempts }

    unfoldable pub generate_structured : ℕ → List Message → StructuredResult M
    unfolding attempts_from
    generate_structured max_attempts messages = attempts_from max_attempts 0 messages
