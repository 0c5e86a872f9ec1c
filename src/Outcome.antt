-- ===== src/Outcome.antt =====
-- Python exceptions: a computation returns a value or raises an error with its class and message.
use finguard_major_project.Prelude.{String, ◌≡◌, refl, Bool, true, false}

pub data Error : Type 0 where
  key_error value_error overflow_error runtime_error sign_off_error type_error : String → Error
  -- `HTTPException(code, detail)`
  http_error : String → String → Error

pub data Outcome {ℓ} (A : Type ℓ) : Type ℓ where
  ok : A → Outcome A
  raised : Error → Outcome A

infixl 5 ◌>>=◌ ◌>>◌
abbrev pub ◌>>=◌ {ℓ κ} : {A : Type ℓ} {B : Type κ} → Outcome A → (A → Outcome B) → Outcome B
raised problem >>= f = raised problem
ok value >>= f = f value

abbrev pub ◌>>◌ {ℓ} : {B : Type ℓ} → Outcome (Unit {0}) → Outcome B → Outcome B
first >> second = first >>= λ done. second

-- `if not test: raise error`
abbrev pub guard : Bool → Error → Outcome (Unit {0})
guard false problem = raised problem
guard true problem = ok tt

-- A chain that returns: its first part returns a value, and the rest goes on from that value.
pub >>=-eq-ok {ℓ κ} :
    {B : Type ℓ} {C : Type κ} (first : Outcome B) (rest : B → Outcome C) {last : C}
    → (first >>= rest) ≡ ok last
    → (mid : B) × (first ≡ ok mid) × (rest mid ≡ ok last)
>>=-eq-ok (raised problem) rest h = absurd (cc h)
>>=-eq-ok (ok mid) rest h = (mid, refl, h)

pub ok-injective {ℓ} : {A : Type ℓ} {a b : A} → ok a ≡ ok b → a ≡ b
ok-injective h = cc h

abbrev pub is_ok {ℓ} : {A : Type ℓ} → Outcome A → Bool
is_ok (ok a) = true
is_ok (raised e) = false

pub guard-ok : (b : Bool) (e : Error) (u : Unit {0}) → guard b e ≡ ok u → b ≡ true
guard-ok true e u h = refl
guard-ok false e u h = cc h

pub apart : false ≡ true → ⊥
apart h = cc h

-- The value of a computation that does not raise.
abbrev pub value {ℓ} : {A : Type ℓ} (m : Outcome A) → is_ok m ≡ true → A
value (ok a) h = a
value (raised e) h = absurd (apart h)

pub value-ok {ℓ} : {A : Type ℓ} (m : Outcome A) (h : is_ok m ≡ true) → m ≡ ok (value m h)
value-ok (ok a) h = refl
value-ok (raised e) h = absurd (cc h)
