-- ===== src/Structured/Repair.antt =====
-- The repair loop is bounded, and gives a value only if the last reply validated
-- (llm/rag/structured.py).
use finguard_major_project.Prelude.{
  ℕ, zero, suc, ◌+◌, ◌≤◌, ◌≡◌, ◌⊎◌, inl, inr, refl, true, none, some, List, [], ◌∷◌, All, arith,
  length, is_some,
}
use finguard_major_project.Outcome.{Outcome, ok, raised, ◌>>=◌}
use finguard_major_project.Structured.{
  Attempt, Codes, GenerationResult, Message, ParseResult, Schema, StructuredResult, Wording,
  attempt_of, attempts_from, extract_json_object, generate_structured, parse_structured, parsed,
  repaired, validated,
}

module _ {V : Type 0} {M : Type 0} (wording : Wording) (schema : Schema V M) where
  abbrev pub reading : Codes → ParseResult M
  reading = parse_structured wording schema

  -- A reply that was rejected, with the error that the model is shown.
  abbrev pub Failed : Attempt → Type 0
  Failed a = ((reading a.text).value ≡ none) × (is_some a.error ≡ true)

  -- The last reply validated as the value, and every reply before it was rejected.
  abbrev pub Succeeded : List Attempt → M → Type 0
  Succeeded [] v = ⊥
  Succeeded (a ∷ []) v = ((reading a.text).value ≡ some v) × (a.error ≡ none)
  Succeeded (a ∷ b ∷ rest) v = Failed a × Succeeded (b ∷ rest) v

  -- What a run of at most so many attempts ends with.
  pub record Run (most : ℕ) (result : StructuredResult M) : Type 0 where
    pub bound : length result.attempts ≤ most
    pub outcome :
        ((v : M) × (result.value ≡ some v) × Succeeded result.attempts v)
        ⊎ ((result.value ≡ none) × (length result.attempts ≡ most) × All Failed result.attempts)

  -- A reply validates, or it is rejected with an error.
  read-cases :
      (text : Codes)
      → ((v : M) × ((reading text).value ≡ some v) × ((reading text).error ≡ none))
        ⊎ (((reading text).value ≡ none) × (is_some (reading text).error ≡ true))
  unfolding parse_structured
  read-cases text = payload_cases (extract_json_object text >>= schema.loads)
    where
      value_cases :
          (m : Outcome M)
          → let p = validated wording schema m in
            ((v : M) × (p.value ≡ some v) × (p.error ≡ none))
            ⊎ ((p.value ≡ none) × (is_some p.error ≡ true))
      value_cases (ok v) = inl (v, refl, refl)
      value_cases (raised e) = inr (refl, refl)

      payload_cases :
          (m : Outcome V)
          → let p = parsed wording schema m in
            ((v : M) × (p.value ≡ some v) × (p.error ≡ none))
            ⊎ ((p.value ≡ none) × (is_some p.error ≡ true))
      payload_cases (ok payload) = value_cases (schema.model_validate payload)
      payload_cases (raised e) = inr (refl, refl)

  after_failure :
      (a : Attempt) (rest : List Attempt) (v : M)
      → Failed a
      → Succeeded rest v
      → Succeeded (a ∷ rest) v
  after_failure a [] v f g = absurd g
  after_failure a (b ∷ rest) v f g = (f, g)

  module _ (provider : ℕ → List Message → GenerationResult) where
    abbrev looped : ℕ → ℕ → List Message → StructuredResult M
    looped = attempts_from wording schema provider

    attempts_from-Run :
        (left made : ℕ) (conversation : List Message) → Run left (looped left made conversation)
    unfolding attempts_from
    attempts_from-Run zero made conversation = record {
      bound = omega arith;
      outcome = inr (refl, refl, tt);
    }
    attempts_from-Run (suc left) made conversation =
        let generated = provider made conversation in
        let a = attempt_of wording schema provider generated in
        let rest =
          looped left (made + 1) (repaired wording schema conversation generated.text a.error) in
        let run : Run left rest = attempts_from-Run left (made + 1) _ in
        elim (read-cases generated.text) [
          | inl (v, e, none_) ↦
              rw e (record { bound = omega arith; outcome = inl (v, refl, (e, none_)) })
          | inr f ↦ rw f.0 (record {
            bound = omega (arith, run.bound);
            outcome = elim run.outcome [
              | inl (v, e, g) ↦ inl (v, e, after_failure a rest.attempts v f g)
              | inr (n, full, all_failed) ↦ inr (n, omega (arith, full), (f, all_failed))
            ];
          })
        ]

    -- The loop asks at most `max_attempts` times. It gives a value only as the validated reading of the
    -- last reply, every reply before it having been rejected with an error; otherwise all the attempts
    -- are used up and every reply was rejected.
    pub generate_structured-Run :
        (max_attempts : ℕ) (messages : List Message)
        → Run max_attempts (generate_structured wording schema provider max_attempts messages)
    unfolding generate_structured
    generate_structured-Run max_attempts messages = attempts_from-Run max_attempts 0 messages
