-- ===== src/Auth/Limiter.antt =====
-- backend/app/core/security.py: `LoginLimiter`, and `login` of backend/app/api/auth.py. A time of the
-- monotonic clock is in microseconds. `verify_password` (scrypt) and `create_token` (JWT) stand on
-- third-party code and are given as functions.
use Prim.Native.Nat.{compare, Ordering}
use Prim.Native.Char.{Char, char, code, IsScalar}
use Prim.Native.String.{◌++◌ as str_append}
use finguard_major_project.Prelude.{
  ℕ, ◌+◌, ◌≡◌, refl, String, Bool, ◌&&◌, Option, none, some, List, [], ◌∷◌, ◌++◌, filter, find,
  length, leb, ltb, str_eq, if◌then◌else◌,
}
use finguard_major_project.Dict.{lookup, put, remove}
use finguard_major_project.Pipeline.Store.{or_empty}
use finguard_major_project.Outcome.{Outcome, ok, raised, http_error}

pub data Role : Type 0 where
  analyst auditor admin : Role

-- The role is read from its text when the row is loaded.
pub record UserRow : Type 0 where
  pub username : String
  pub password_hash : String
  pub role : Role
  pub active : Bool
  pub created_at : ℕ

pub record LoginLimiter : Type 0 where
  pub max_failures : ℕ
  pub window_s : ℕ
  pub failures : List (String × List ℕ)

abbrev pub default_limiter : LoginLimiter
default_limiter = record { max_failures = 5; window_s = 300000000; failures = [] }

-- `self._failures.get(key, [])`
unfoldable pub failures_of : String → LoginLimiter → List ℕ
unfolding lookup
failures_of key self = or_empty (lookup key self.failures)

-- `t > cutoff`, where the cutoff may lie before time 0.
abbrev pub is_recent : ℕ → ℕ → ℕ → Bool
is_recent window now t = ltb now (t + window)

abbrev pub set_failures : String → List ℕ → LoginLimiter → LoginLimiter
set_failures key ts self = record self { failures = put key ts self.failures }

-- `_recent`
unfoldable pub recent : String → ℕ → LoginLimiter → List ℕ × LoginLimiter
unfolding failures_of put
recent key now self =
    let kept = filter (is_recent self.window_s now) (failures_of key self) in
    (kept, set_failures key kept self)

unfoldable pub is_locked : String → ℕ → LoginLimiter → Bool × LoginLimiter
unfolding recent
is_locked key now self =
    let (kept, next) = recent key now self in (leb self.max_failures (length kept), next)

-- The clock is read for the cutoff and again for the entry.
unfoldable pub record_failure : String → ℕ → ℕ → LoginLimiter → LoginLimiter
unfolding recent put
record_failure key now noted self =
    let (kept, next) = recent key now self in set_failures key (kept ++ noted ∷ []) next

unfoldable pub reset : String → LoginLimiter → LoginLimiter
unfolding remove
reset key self = record self { failures = remove key self.failures }

pub scalar : (n : ℕ) → compare n 55296 ≡ Ordering.lt → IsScalar n
scalar n e = rw e tt

-- `s.lower()` of an ASCII text.
abbrev lower_from : (n : ℕ) (o : Ordering) → compare n 55296 ≡ o → Char → Char
lower_from n Ordering.lt e c = char n (scalar n e)
lower_from n Ordering.eq e c = c
lower_from n Ordering.gt e c = c

abbrev lower_char : Char → Char
lower_char c =
    let n = code c + 32 in
    if leb 65 (code c) && leb (code c) 90 then lower_from n (compare n 55296) refl c else c

unfoldable pub lower : String → String
lower String.[] = String.[]
lower (String.◌∷◌ c s) = String.◌∷◌ (lower_char c) (lower s)

pub record Security : Type 0 where
  pub verify_password : String → String → Bool
  pub create_token : String → Role → String
  pub token_ttl_minutes : ℕ

pub record LoginRequest : Type 0 where
  pub username : String
  pub password : String

pub record TokenResponse : Type 0 where
  pub access_token : String
  pub token_type : String
  pub username : String
  pub role : Role
  pub expires_in_minutes : ℕ

-- The readings of the clock in one attempt: at the lock test, at the cutoff and at the entry.
pub record Readings : Type 0 where
  pub tested : ℕ
  pub cut : ℕ
  pub noted : ℕ

abbrev host_text : Option String → String
host_text none = "unknown"
host_text (some host) = host

-- `f"{host}:{body.username.lower()}"`
unfoldable pub key_of : Option String → LoginRequest → String
unfolding lower
key_of host body = str_append (host_text host) (str_append ":" (lower body.username))

unfoldable pub user_named : String → List UserRow → Option UserRow
user_named name users = find (λ u. str_eq u.username name) users

-- `ok and user and user.active`: the user of the credentials, where they are right.
unfoldable pub verified : Security → LoginRequest → List UserRow → Option UserRow
unfolding lower user_named
verified security body users = elim (user_named (lower body.username) users) [
  | none ↦ none
  | some user ↦
      if security.verify_password body.password user.password_hash && user.active
      then some user
      else none
]

-- A failing login raises, and what the limiter has noted stays.
unfoldable pub login :
    Security
    → Option String
    → LoginRequest
    → Readings
    → List UserRow
    → LoginLimiter
    → Outcome TokenResponse × LoginLimiter
unfolding key_of is_locked record_failure reset verified
login security host body clock users limiter =
    let key = key_of host body in
    let (locked, seen) = is_locked key clock.tested limiter in
    if locked
    then (raised (http_error "429" "too many failed attempts; try later"), seen)
    else elim (verified security body users) [
      | none ↦ (
        raised (http_error "401" "invalid credentials"),
        record_failure key clock.cut clock.noted seen,
      )
      | some user ↦ (
        ok (record {
          access_token = security.create_token user.username user.role;
          token_type = "bearer";
          username = user.username;
          role = user.role;
          expires_in_minutes = security.token_ttl_minutes;
        }),
        reset key seen,
      )
    ]

pub record Attempt : Type 0 where
  pub host : Option String
  pub body : LoginRequest
  pub clock : Readings

-- Logins in turn, over the same users: their answers, and the limiter in the end.
unfoldable pub logins :
    Security
    → List UserRow
    → List Attempt
    → LoginLimiter
    → List (Outcome TokenResponse) × LoginLimiter
unfolding login
logins security users [] limiter = ([], limiter)
logins security users (a ∷ rest) limiter =
    let (answer, next) = login security a.host a.body a.clock users limiter in
    let (answers, last) = logins security users rest next in (answer ∷ answers, last)
