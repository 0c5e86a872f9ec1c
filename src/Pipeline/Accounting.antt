-- ===== src/Pipeline/Accounting.antt =====
-- Every ingested row is accounted for, and accepted records have keys of their own
-- (data_pipeline/ingestion/validator.py).
use finguard_major_project.Prelude.{
  ℕ, ◌+◌, String, ◌≡◌, refl, sym, ◌∙◌, Bool, true, false, Option, none, some, List, [], ◌∷◌, All,
  arith, length, map, str_eq, eq_iff, Bool-cases, inl, inr, if◌then◌else◌,
}
use finguard_major_project.Dict.{lookup, put, lookup-put}
use finguard_major_project.Pipeline.Store.{member}
use finguard_major_project.Pipeline.Ingestion.{
  Record, Sifted, Validation, Verdict, accept, add, against, cell, coerced, count, invalid, noted,
  reject, same_row, seen_after, valid, validate_from, validate_records, validated, verdict,
}

abbrev pub total : {M : Type 0} → Sifted M → ℕ
total s = length s.accepted + length s.quarantined + s.exact_duplicates

abbrev pub keys : {M : Type 0} → Sifted M → List String
keys s = map (λ a. a.0) s.accepted

-- No key stands twice.
abbrev pub Unrepeated : List String → Type 0
Unrepeated [] = Unit
Unrepeated (k ∷ ks) = (member k ks ≡ false) × Unrepeated ks

-- The keys have not been seen.
abbrev Unseen : List (String × Record) → List String → Type 0
Unseen seen ks = All (λ k. lookup k seen ≡ none) ks

unput :
    (key k : String) (row : Record) (seen : List (String × Record))
    → lookup k (put key row seen) ≡ none
    → (str_eq k key ≡ false) × (lookup k seen ≡ none)
unput key k row seen e = split (str_eq key k) refl (sym (lookup-put key k row seen) ∙ e)
  where
    split :
        (b : Bool)
        → str_eq key k ≡ b
        → (if str_eq key k then some row else lookup k seen) ≡ none
        → (str_eq k key ≡ false) × (lookup k seen ≡ none)
    split true t h = absurd (cc (rw t at h))
    split false f h = (ground (arith, f, eq_iff key k, eq_iff k key), rw f at h)

Unseen-put :
    (key : String) (row : Record) (seen : List (String × Record)) (ks : List String)
    → Unseen (put key row seen) ks
    → (member key ks ≡ false) × Unseen seen ks
Unseen-put key row seen [] h = (refl, tt)
Unseen-put key row seen (k ∷ ks) (here, there) =
    let (other, missing) = unput key k row seen here in
    let (fresh, rest) = Unseen-put key row seen ks there in
    (rw (other, fresh) refl, (missing, rest))

module _ {M : Type 0} (model_validate : Record → Bool → Validation M)
    (table key_field : String) where
  abbrev adding : ℕ → Record → Verdict M → Sifted M → Sifted M
  adding = add model_validate table key_field

  add-total :
      (number : ℕ) (row : Record) (v : Verdict M) (rest : Sifted M)
      → total (adding number row v rest) ≡ total rest + 1
  add-total number row (accept key m) rest = omega arith
  add-total number row (reject reason detail) rest = omega arith
  add-total number row count rest = omega arith

  abbrev Good : List (String × Record) → Sifted M → Type 0
  Good seen s = Unrepeated (keys s) × Unseen seen (keys s)

  -- A row that is accepted has a new key, and its key is seen from then on.
  add-Good :
      (number : ℕ) (row : Record) (seen : List (String × Record)) (key : Option String)
      (rest : Sifted M)
      → Good (seen_after model_validate table key_field row seen key) rest
      → Good seen (adding number row (verdict model_validate table key_field row seen key) rest)
  add-Good number row seen none rest g = g
  add-Good number row seen (some key) rest g = by_seen (lookup key seen) refl g
    where
      kept :
          (v : Validation M)
          → lookup key seen ≡ none
          → (member key (keys rest) ≡ false) × Unseen seen (keys rest)
          → Unrepeated (keys rest)
          → Good seen (adding number row (validated model_validate table key_field key v) rest)
      kept (valid m) e (fresh, old) u = ((fresh, u), (e, old))
      kept (invalid detail) e (fresh, old) u = (u, old)

      by_seen :
          (o : Option Record)
          → lookup key seen ≡ o
          → Good (noted model_validate table key_field key row seen o) rest
          → Good seen (adding number row (against model_validate table key_field key row o) rest)
      by_seen none e (u, h) =
          kept (model_validate row (coerced row)) e (Unseen-put key row seen (keys rest) h) u
      by_seen (some before) e h = elim (Bool-cases (same_row before row)) [
        | inl t ↦ rw t h
        | inr f ↦ rw f h
      ]

  validate_from-Good :
      (number : ℕ) (rows : List Record) (seen : List (String × Record))
      → let s = validate_from model_validate table key_field number rows seen in
        (total s ≡ length rows) × Good seen s
  unfolding validate_from
  validate_from-Good number [] seen = (omega arith, (tt, tt))
  validate_from-Good number (row ∷ rows) seen =
      let key = cell key_field row in
      let later = seen_after model_validate table key_field row seen key in
      let rest = validate_from model_validate table key_field (number + 1) rows later in
      let (counted, good) = validate_from-Good (number + 1) rows later in
      (
        omega (
          arith,
          counted,
          add-total number row (verdict model_validate table key_field row seen key) rest,
        ),
        add-Good number row seen key rest good,
      )

  -- No row is dropped silently: every row is accepted, quarantined with a reason, or counted as an exact
  -- duplicate. No two accepted records have the same key.
  pub validate_records-accounts :
      (rows : List Record)
      → let s = validate_records model_validate table key_field rows in
        (total s ≡ length rows) × Unrepeated (keys s)
  unfolding validate_records
  validate_records-accounts rows =
      let (counted, good) = validate_from-Good 1 rows [] in (counted, good.0)
