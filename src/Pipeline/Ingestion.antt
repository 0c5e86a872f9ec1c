-- ===== src/Pipeline/Ingestion.antt =====
-- data_pipeline/ingestion/validator.py: rejected rows are quarantined with a reason. `model_validate`
-- stands for the validation of a schema: it is given the row, and whether `_coerce` reads its flag
-- `is_synthetic` as true. `key_field` is that of `PRIMARY_KEYS`.
use finguard_major_project.Prelude.{
  ℕ, ◌+◌, String, Bool, true, false, ◌&&◌, Option, none, some, List, [], ◌∷◌, all, length, ◌==◌,
  str_eq, if◌then◌else◌,
}
use finguard_major_project.Strings.{Text, lit, casefold, codes_eq}
use finguard_major_project.Dict.{lookup, put}

-- A row of a CSV file: its cells by the name of the column.
abbrev pub Record : Type 0
Record = List (String × Option String)

pub data Reason : Type 0 where
  missing_primary_key duplicate_key_conflict schema_validation_failed : Reason

pub record Quarantined : Type 0 where
  pub table : String
  pub row_number : ℕ
  pub reason : Reason
  pub detail : Text
  pub record_ : Record

-- `row.get(column)`
unfoldable pub cell : String → Record → Option String
unfolding lookup
cell column row = elim (lookup column row) [ none ↦ none | some value ↦ value ]

-- Equality of two rows as `dict`s: the same columns with the same cells.
abbrev same_cell : Option String → Option String → Bool
same_cell none none = true
same_cell (some a) (some b) = str_eq a b
same_cell _ _ = false

abbrev holds : Record → String × Option String → Bool
holds row c = elim (lookup c.0 row) [ none ↦ false | some value ↦ same_cell value c.1 ]

unfoldable pub same_row : Record → Record → Bool
unfolding lookup
same_row a b = length a == length b && all (holds b) a

-- `_coerce`: whether the flag is set to `True`.
unfoldable pub coerced : Record → Bool
unfolding cell casefold
coerced row = elim (cell "is_synthetic" row) [
  | none ↦ false
  | some flag ↦ codes_eq (casefold flag) (casefold "true")
]

-- A record, or the first error of its validation.
pub data Validation (M : Type 0) : Type 0 where
  valid : M → Validation M
  invalid : String → Validation M

-- The lists that the loop fills, and the counter of exact duplicates of the table.
pub record Sifted (M : Type 0) : Type 0 where
  pub accepted : List (String × M)
  pub quarantined : List Quarantined
  pub exact_duplicates : ℕ

-- What becomes of one row: it is accepted under its key, quarantined, or counted.
pub data Verdict (M : Type 0) : Type 0 where
  accept : String → M → Verdict M
  reject : Reason → Text → Verdict M
  count : Verdict M

module _ {M : Type 0} (model_validate : Record → Bool → Validation M)
    (table key_field : String) where
  abbrev pub validated : String → Validation M → Verdict M
  validated key (valid m) = accept key m
  validated key (invalid detail) = reject schema_validation_failed (lit detail ∷ [])

  -- A key that was seen before, with its row, or not.
  abbrev pub against : String → Record → Option Record → Verdict M
  against key row (some before) =
      if same_row before row
      then count
      else reject duplicate_key_conflict
          (lit key_field ∷ lit "=" ∷ lit key ∷ lit " already seen with different content" ∷ [])
  against key row none = validated key (model_validate row (coerced row))

  abbrev pub verdict : Record → List (String × Record) → Option String → Verdict M
  verdict row seen none = reject missing_primary_key (lit key_field ∷ [])
  verdict row seen (some key) = against key row (lookup key seen)

  abbrev pub noted :
      String → Record → List (String × Record) → Option Record → List (String × Record)
  noted key row seen (some before) = seen
  noted key row seen none = put key row seen

  -- `seen` after a row.
  abbrev pub seen_after : Record → List (String × Record) → Option String → List (String × Record)
  seen_after row seen none = seen
  seen_after row seen (some key) = noted key row seen (lookup key seen)

  abbrev pub add : ℕ → Record → Verdict M → Sifted M → Sifted M
  add number row (accept key m) rest = record rest { accepted = (key, m) ∷ rest.accepted }
  add number row (reject reason detail) rest = record rest {
    quarantined =
        record {
          table = table;
          row_number = number;
          reason = reason;
          detail = detail;
          record_ = row;
        }
        ∷ rest.quarantined;
  }
  add number row count rest = record rest { exact_duplicates = rest.exact_duplicates + 1 }

  unfoldable pub validate_from : ℕ → List Record → List (String × Record) → Sifted M
  unfolding cell lookup put same_row coerced
  validate_from number [] seen = record { accepted = []; quarantined = []; exact_duplicates = 0 }
  validate_from number (row ∷ rows) seen =
      let key = cell key_field row in
      let rest = validate_from (number + 1) rows (seen_after row seen key) in
      add number row (verdict row seen key) rest

  unfoldable pub validate_records : List Record → Sifted M
  unfolding validate_from
  validate_records rows = validate_from 1 rows []
