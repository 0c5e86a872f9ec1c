-- ===== src/Examples/Replies.antt =====
-- The JSON object of a reply, and a repair that succeeds at the second attempt.
use finguard_major_project.Prelude.{
  ℕ, ◌≡◌, ◌↔◌, ◌==◌, refl, some, List, [], ◌∷◌, false, if◌then◌else◌,
}
use finguard_major_project.Outcome.{ok}
use finguard_major_project.Structured.{
  Codes, GenerationResult, Message, Schema, Wording, extract_json_object, generate_structured,
}
use finguard_major_project.Structured.Extraction.{Located, extract_json_object-Located_iff}
use finguard_major_project.Structured.Repair.{Run, generate_structured-Run}

-- A reply with words around an object that holds a brace in a string.
abbrev reply : Codes
reply = b'h' ∷ b'i' ∷ b'{' ∷ b'"' ∷ b'}' ∷ b'"' ∷ b'}' ∷ b'!' ∷ []

abbrev object : Codes
object = b'{' ∷ b'"' ∷ b'}' ∷ b'"' ∷ b'}' ∷ []

found : extract_json_object reply ≡ ok object
unfolding extract_json_object
found = refl

extract_json_object-Located_iff_example :
    (extract_json_object reply ≡ ok object) ↔ Located reply object
extract_json_object-Located_iff_example = extract_json_object-Located_iff reply object

abbrev wording : Wording
wording = record {
  assistant = [];
  user = [];
  invalid_json = λ e. b'?' ∷ [];
  schema_failed = λ e. b'?' ∷ [];
  unknown_error = b'?' ∷ [];
  repair = λ e. e;
}

abbrev schema : Schema Codes Codes
schema = record { loads = λ s. ok s; model_validate = λ v. ok v }

abbrev answer : Codes → GenerationResult
answer text = record { text = text; is_mock = false; latency_s = 1 }

-- The first reply is cut off.
abbrev provider : ℕ → List Message → GenerationResult
provider n conversation = if n == 0 then answer (b'{' ∷ []) else answer reply

second_try : (generate_structured wording schema provider 3 []).value ≡ some object
unfolding generate_structured
second_try = refl

generate_structured-Run_example :
    Run wording schema 3 (generate_structured wording schema provider 3 [])
generate_structured-Run_example = generate_structured-Run wording schema provider 3 []
