-- ===== src/Auth/Locks.antt =====
-- What a login does to the limiter (backend/app/core/security.py, backend/app/api/auth.py).
use finguard_major_project.Prelude.{
  ℕ, ◌≤◌, ◌<◌, String, ◌≡◌, refl, sym, ap, subst, ◌∙◌, Bool, true, false, Option, none, some, List,
  [], ◌∷◌, ◌++◌, arith, filter, length, length-append, leb, str_eq, eq_iff, Bool-cases,
  Option-cases, inl, inr, if◌then◌else◌,
}
use finguard_major_project.Dict.{lookup-put, lookup-remove}
use finguard_major_project.Pipeline.Store.{or_empty}
use finguard_major_project.Outcome.{Outcome}
use finguard_major_project.Auth.Limiter.{
  UserRow, LoginLimiter, failures_of, is_recent, set_failures, recent, is_locked, record_failure,
  reset, Security, LoginRequest, TokenResponse, Readings, key_of, verified, login,
}

module _ {ℓ} {A : Type ℓ} where
  pub length-filter-le : (p : A → Bool) (xs : List A) → length (filter p xs) ≤ length xs
  length-filter-le p [] = omega arith
  length-filter-le p (x ∷ xs) = ground (arith, length-filter-le p xs)

  pub filter-append :
      (p : A → Bool) (xs ys : List A) → filter p (xs ++ ys) ≡ filter p xs ++ filter p ys
  filter-append p [] ys = refl
  filter-append p (x ∷ xs) ys = ground (arith, filter-append p xs ys)

-- No key holds more failures than the limit.
abbrev pub Limited : LoginLimiter → Type 0
Limited l = (k : String) → length (failures_of k l) ≤ l.max_failures

failures_of-set :
    (j k : String) (ts : List ℕ) (l : LoginLimiter)
    → failures_of k (set_failures j ts l) ≡ (if str_eq j k then ts else failures_of k l)
unfolding failures_of
failures_of-set j k ts l = ap or_empty (lookup-put j k ts l.failures) ∙ ground arith

failures_of-reset :
    (j k : String) (l : LoginLimiter)
    → failures_of k (reset j l) ≡ (if str_eq j k then [] else failures_of k l)
unfolding failures_of reset
failures_of-reset j k l = ap or_empty (lookup-remove j k l.failures) ∙ ground arith

set_failures-Limited :
    (j : String) (ts : List ℕ) (l : LoginLimiter)
    → Limited l
    → length ts ≤ l.max_failures
    → Limited (set_failures j ts l)
set_failures-Limited j ts l h b k = elim (Bool-cases (str_eq j k)) [
  | inl e ↦ rw (failures_of-set j k ts l, e) b
  | inr e ↦ rw (failures_of-set j k ts l, e) (h k)
]

reset-Limited : (j : String) (l : LoginLimiter) → Limited l → Limited (reset j l)
unfolding reset
reset-Limited j l h k = elim (Bool-cases (str_eq j k)) [
  | inl e ↦ rw (failures_of-reset j k l, e) (omega arith)
  | inr e ↦ rw (failures_of-reset j k l, e) (h k)
]

-- The failures that stay after the cutoff.
abbrev pub kept_at : String → ℕ → LoginLimiter → List ℕ
kept_at k now l = filter (is_recent l.window_s now) (failures_of k l)

str_eq_refl : (s : String) → str_eq s s ≡ true
str_eq_refl s = (eq_iff s s).1 refl

pub failures_of-set_same :
    (k : String) (ts : List ℕ) (l : LoginLimiter) → failures_of k (set_failures k ts l) ≡ ts
failures_of-set_same k ts l = rw (failures_of-set k k ts l, str_eq_refl k)

kept-le :
    (k : String) (now : ℕ) (l : LoginLimiter)
    → Limited l
    → length (kept_at k now l) ≤ l.max_failures
kept-le k now l h =
    omega (arith, length-filter-le (is_recent l.window_s now) (failures_of k l), h k)

-- The limiter after the lock test, and after a failure that follows it.
abbrev pub tested : String → ℕ → LoginLimiter → LoginLimiter
tested k now l = set_failures k (kept_at k now l) l

abbrev pub failed : String → ℕ → ℕ → LoginLimiter → LoginLimiter
failed k now noted l = set_failures k (kept_at k now l ++ noted ∷ []) (tested k now l)

tested-Limited : (k : String) (now : ℕ) (l : LoginLimiter) → Limited l → Limited (tested k now l)
tested-Limited k now l h = set_failures-Limited k (kept_at k now l) l h (kept-le k now l h)

failed-Limited :
    (k : String) (now noted : ℕ) (l : LoginLimiter)
    → Limited l
    → length (failures_of k l) < l.max_failures
    → Limited (failed k now noted l)
failed-Limited k now noted l h b =
    set_failures-Limited k (kept_at k now l ++ noted ∷ []) (tested k now l)
      (tested-Limited k now l h)
      (omega (
        arith,
        length-append (kept_at k now l) (noted ∷ []),
        length-filter-le (is_recent l.window_s now) (failures_of k l),
      ))

-- The three ways a login ends.
module _ (security : Security) (host : Option String) (body : LoginRequest) (clock : Readings)
    (users : List UserRow) (l : LoginLimiter) where
  abbrev pub key : String
  key = key_of host body

  abbrev pub answered : Outcome TokenResponse × LoginLimiter
  answered = login security host body clock users l

  abbrev pub locked : Bool
  locked = leb l.max_failures (length (kept_at key clock.tested l))

  pub login-locked : locked ≡ true → answered.1 ≡ tested key clock.tested l
  unfolding login is_locked recent
  login-locked e = rw e

  pub login-denied :
      locked ≡ false
      → verified security body users ≡ none
      → answered.1 ≡ failed key clock.cut clock.noted (tested key clock.tested l)
  unfolding login is_locked recent record_failure
  login-denied e v = rw (e, v)

  pub login-accepted :
      (user : UserRow)
      → locked ≡ false
      → verified security body users ≡ some user
      → answered.1 ≡ reset key (tested key clock.tested l)
  unfolding login is_locked recent
  login-accepted user e v = rw (e, v)

  pub login-Limited : Limited l → Limited answered.1
  login-Limited h = elim (Bool-cases locked) [
    | inl e ↦ subst Limited (sym (login-locked e)) (tested-Limited key clock.tested l h)
    | inr e ↦ elim (Option-cases (verified security body users)) [
      | inl v ↦ subst Limited (sym (login-denied e v)) (
          failed-Limited key clock.cut clock.noted (tested key clock.tested l)
            (tested-Limited key clock.tested l h)
            (rw (failures_of-set_same key (kept_at key clock.tested l) l) (ground arith)))
      | inr v ↦
          subst Limited (sym (login-accepted v.0 e v.1))
            (reset-Limited key (tested key clock.tested l) (tested-Limited key clock.tested l h))
    ]
  ]

  -- A login changes neither limit of the limiter.
  pub login-settings :
      (answered.1.max_failures ≡ l.max_failures) × (answered.1.window_s ≡ l.window_s)
  unfolding reset
  login-settings = elim (Bool-cases locked) [
    | inl e ↦ rw (login-locked e) (refl, refl)
    | inr e ↦ elim (Option-cases (verified security body users)) [
      | inl v ↦ rw (login-denied e v) (refl, refl)
      | inr v ↦ rw (login-accepted v.0 e v.1) (refl, refl)
    ]
  ]
