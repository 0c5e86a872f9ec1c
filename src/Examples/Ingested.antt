-- ===== src/Examples/Ingested.antt =====
-- A run of the validator of ingested rows, data_pipeline/ingestion/validator.py.
use finguard_major_project.Prelude.{
  String, ◌≡◌, refl, Bool, Option, none, some, List, [], ◌∷◌, if◌then◌else◌,
}
use finguard_major_project.Pipeline.Ingestion.{
  Quarantined, Reason, Record, Sifted, Validation, cell, coerced, invalid, same_row, valid,
  validate_from, validate_records,
}
use finguard_major_project.Pipeline.Accounting.{Unrepeated, keys, total, validate_records-accounts}

-- The validation of a schema that wants the rows marked as synthetic.
abbrev model_validate : Record → Bool → Validation Record
model_validate row synthetic =
    if synthetic then valid row else invalid "is_synthetic: Input should be true"

abbrev customer : Option String → String → Option String → Record
customer key name flag =
    ("customer_id", key) ∷ ("full_name", some name) ∷ ("is_synthetic", flag) ∷ []

-- A customer, the same row, one with its key, one without a key, one that is not synthetic.
abbrev rows : List Record
rows =
    customer (some "C1") "Ann" (some "True")
    ∷ customer (some "C1") "Ann" (some "True")
    ∷ customer (some "C1") "Bob" (some "true")
    ∷ customer none "Cid" (some "true")
    ∷ customer (some "C2") "Dan" none
    ∷ []

abbrev sifted : Sifted Record
sifted = validate_records model_validate "customers" "customer_id" rows

accepted : keys sifted ≡ "C1" ∷ []
unfolding validate_records validate_from cell same_row coerced
accepted = refl

reasons : List Quarantined → List Reason
reasons [] = []
reasons (q ∷ qs) = q.reason ∷ reasons qs

quarantined :
    reasons sifted.quarantined
    ≡ Reason.duplicate_key_conflict ∷ Reason.missing_primary_key ∷ Reason.schema_validation_failed
      ∷ []
unfolding validate_records validate_from cell same_row coerced reasons
quarantined = refl

duplicates : sifted.exact_duplicates ≡ 1
unfolding validate_records validate_from cell same_row coerced
duplicates = refl

validate_records-accounts_example : (total sifted ≡ 5) × Unrepeated (keys sifted)
validate_records-accounts_example =
    validate_records-accounts model_validate "customers" "customer_id" rows
