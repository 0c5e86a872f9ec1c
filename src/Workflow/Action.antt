-- ===== src/Workflow/Action.antt =====
-- A method of the workflow may change the case and then raise: the changes before the error stay.
use finguard_major_project.Prelude.{String}
use Prim.Native.String.{◌++◌ as str_append}
use finguard_major_project.Case.{CaseState}
use finguard_major_project.Outcome.{
  Outcome, ok, raised, Error, key_error, value_error, overflow_error, runtime_error, sign_off_error,
  type_error, http_error,
}

abbrev pub Action {ℓ} : Type ℓ → Type ℓ
Action A = CaseState → Outcome A × CaseState

-- What a bind does with the first part's result.
unfoldable pub continue {ℓ κ} :
    {A : Type ℓ} {B : Type κ} → Outcome A × CaseState → (A → Action B) → Outcome B × CaseState
continue (ok a, s) f = f a s
continue (raised e, s) f = (raised e, s)

infixl 5 ◌>>=◌ ◌>>◌
abbrev pub ◌>>=◌ {ℓ κ} : {A : Type ℓ} {B : Type κ} → Action A → (A → Action B) → Action B
◌>>=◌ m f s = continue (m s) f

abbrev pub ◌>>◌ {ℓ} : {B : Type ℓ} → Action (Unit {0}) → Action B → Action B
m >> k = m >>= λ _. k

abbrev pub pure {ℓ} : {A : Type ℓ} → A → Action A
pure a s = (ok a, s)

abbrev pub lift {ℓ} : {A : Type ℓ} → Outcome A → Action A
lift o s = (o, s)

abbrev pub gets {ℓ} : {A : Type ℓ} → (CaseState → A) → Action A
gets f s = (ok (f s), s)

abbrev pub modify : (CaseState → CaseState) → Action (Unit {0})
modify f s = (ok tt, f s)

-- A method that returns the changed case or raises before it changes anything.
abbrev or_keep : Outcome CaseState → CaseState → Outcome (Unit {0}) × CaseState
or_keep (ok t) s = (ok tt, t)
or_keep (raised e) s = (raised e, s)

abbrev pub try : (CaseState → Outcome CaseState) → Action (Unit {0})
try f s = or_keep (f s) s

-- `f"{type(exc).__name__}: {exc}"`
unfoldable pub error_text : Error → String
error_text (key_error m) = str_append "KeyError: " m
error_text (value_error m) = str_append "ValueError: " m
error_text (overflow_error m) = str_append "OverflowError: " m
error_text (runtime_error m) = str_append "RuntimeError: " m
error_text (sign_off_error m) = str_append "SignOffError: " m
error_text (type_error m) = str_append "TypeError: " m
error_text (http_error code m) = str_append "HTTPException: " (str_append code (str_append ": " m))
