-- ===== src/Auth/Bounds.antt =====
-- How many wrong passwords of a client and a username the login answers 401, and that a lock ends.
use finguard_major_project.Prelude.{
  ℕ, ◌+◌, ◌≤◌, ◌<◌, String, ◌≡◌, refl, sym, ap, subst, ◌∙◌, Bool, true, false, none, List, [], ◌∷◌,
  ◌++◌, arith, filter, length, length-append, leb, str_eq, All, Bool-cases, inl, inr, if◌then◌else◌,
}
use finguard_major_project.Outcome.{Outcome, raised, http_error}
use finguard_major_project.Auth.Limiter.{
  UserRow, LoginLimiter, failures_of, is_recent, is_locked, recent, Security, TokenResponse, key_of,
  verified, login, Attempt, logins,
}
use finguard_major_project.Auth.Locks.{
  Limited, length-filter-le, filter-append, failures_of-set_same, kept_at, tested, failed,
  login-locked, login-denied, login-Limited, login-settings, locked,
}

-- Whatever logins are tried and whoever tries them, a limiter that holds no more failures of any
-- key than its limit still does so in the end.
pub logins-Limited :
    (security : Security) (users : List UserRow) (tries : List Attempt) (l : LoginLimiter)
    → Limited l
    → Limited (logins security users tries l).1
unfolding logins
logins-Limited security users [] l h = h
logins-Limited security users (a ∷ rest) l h =
    logins-Limited security users rest _ (login-Limited security a.host a.body a.clock users l h)

-- An answer 401: the password was looked at, and was wrong.
abbrev pub is_denied : Outcome TokenResponse → Bool
is_denied (raised (http_error code detail)) = str_eq code "401"
is_denied _ = false

abbrev pub denials : List (Outcome TokenResponse) → ℕ
denials [] = 0
denials (r ∷ rs) = (if is_denied r then 1 else 0) + denials rs

-- A try under one key, of a client and a username, with wrong credentials, in a span that is shorter than the window.
abbrev pub WrongTry : Security → List UserRow → String → ℕ → ℕ → Attempt → Type 0
WrongTry security users key start window a =
    (key_of a.host a.body ≡ key)
    × (verified security a.body users ≡ none)
    × (start ≤ a.clock.noted)
    × (a.clock.tested < start + window)
    × (a.clock.cut < start + window)

-- The failures since the start of the span.
abbrev since : ℕ → List ℕ → List ℕ
since start = filter (leb start)

-- The cutoff leaves the failures of the span alone.
since-kept :
    (start window now : ℕ) (ts : List ℕ)
    → now < start + window
    → since start (filter (is_recent window now) ts) ≡ since start ts
since-kept start window now [] h = refl
since-kept start window now (t ∷ ts) h = ground (arith, since-kept start window now ts h)

since_one : (start t : ℕ) → start ≤ t → length (since start (t ∷ [])) ≡ 1
since_one start t h = ground arith

module _ (security : Security) (users : List UserRow) (start : ℕ) (a : Attempt)
    (l : LoginLimiter) where
  abbrev own_key : String
  own_key = key_of a.host a.body

  abbrev next : Outcome TokenResponse × LoginLimiter
  next = login security a.host a.body a.clock users l

  abbrev is_shut : Bool
  is_shut = locked security a.host a.body a.clock users l

  denied-shut : is_shut ≡ true → is_denied next.0 ≡ false
  unfolding login is_locked recent
  denied-shut e = rw e

  denied-wrong : is_shut ≡ false → verified security a.body users ≡ none → is_denied next.0 ≡ true
  unfolding login is_locked recent
  denied-wrong e v = rw (e, v)

  abbrev count_of : LoginLimiter → ℕ
  count_of m = length (since start (failures_of own_key m))

  -- The lock test leaves the failures of the span alone, and so does the cutoff of a failure.
  since-tested :
      (now : ℕ) (m : LoginLimiter)
      → now < start + m.window_s
      → since start (kept_at own_key now m) ≡ since start (failures_of own_key m)
  since-tested now m h = since-kept start m.window_s now (failures_of own_key m) h

  count-tested :
      a.clock.tested < start + l.window_s → count_of (tested own_key a.clock.tested l) ≡ count_of l
  count-tested h =
      ap (λ ts. length (since start ts))
        (failures_of-set_same own_key (kept_at own_key a.clock.tested l) l)
      ∙ ap length (since-tested a.clock.tested l h)

  abbrev after_test : LoginLimiter
  after_test = tested own_key a.clock.tested l

  count-failed :
      WrongTry security users own_key start l.window_s a
      → count_of (failed own_key a.clock.cut a.clock.noted after_test) ≡ 1 + count_of l
  count-failed (k, v, noted, h, cut) =
      let old = kept_at own_key a.clock.cut after_test in
      let e1 =
        ap (λ ts. length (since start ts))
          (failures_of-set_same own_key (old ++ a.clock.noted ∷ [])
            (tested own_key a.clock.cut after_test)) in
      let e2 = ap length (filter-append (leb start) old (a.clock.noted ∷ [])) in
      let e3 = ap length (since-tested a.clock.cut after_test cut) in
      omega (
        arith,
        e1,
        e2,
        e3,
        length-append (since start old) (since start (a.clock.noted ∷ [])),
        since_one start a.clock.noted noted,
        count-tested h,
      )

  -- One more denial is one more failure of the span, and there are no more of them than the limit.
  pub step :
      WrongTry security users own_key start l.window_s a
      → count_of l ≤ l.max_failures
      → ((if is_denied next.0 then 1 else 0) + count_of l ≡ count_of next.1)
        × (count_of next.1 ≤ l.max_failures)
  step w b = elim (Bool-cases is_shut) [
    | inl e ↦
        rw (denied-shut e, login-locked security a.host a.body a.clock users l e)
          (omega (arith, count-tested w.3), omega (arith, count-tested w.3, b))
    | inr e ↦
        rw (denied-wrong e w.1, login-denied security a.host a.body a.clock users l e w.1)
          (
            sym (count-failed w),
            omega (
              arith,
              count-failed w,
              length-filter-le (leb start) (kept_at own_key a.clock.tested l),
              ap length (since-tested a.clock.tested l w.3),
              room e,
            ),
          )
  ]
    where
      room : is_shut ≡ false → length (kept_at own_key a.clock.tested l) < l.max_failures
      room e = ground arith

-- What a login counts under a key, and that the span stays within the limit.
abbrev Stepped : ℕ → LoginLimiter → String → Outcome TokenResponse × LoginLimiter → Type 0
Stepped start m k n =
    ((if is_denied n.0 then 1 else 0) + length (since start (failures_of k m))
      ≡ length (since start (failures_of k n.1)))
    × (length (since start (failures_of k n.1)) ≤ m.max_failures)

bounded :
    (security : Security) (users : List UserRow) (key : String) (start : ℕ) (tries : List Attempt)
    (l : LoginLimiter)
    → All (WrongTry security users key start l.window_s) tries
    → length (since start (failures_of key l)) ≤ l.max_failures
    → denials (logins security users tries l).0 + length (since start (failures_of key l))
      ≤ l.max_failures
unfolding logins
bounded security users key start [] l w b = omega (arith, b)
bounded security users key start (a ∷ rest) l w b =
    let ((same, wrong, noted, tested_in, cut_in), others) = w in
    let next = login security a.host a.body a.clock users l in
    let (limit, window) = login-settings security a.host a.body a.clock users l in
    let stepped =
      subst (λ k. Stepped start l k next) same
        (step security users start a l (refl, wrong, noted, tested_in, cut_in)
          (subst (λ k. length (since start (failures_of k l)) ≤ l.max_failures) (sym same) b)) in
    let later =
      bounded security users key start rest next.1
        (subst (λ n. All (WrongTry security users key start n) rest) (sym window) others)
        (subst (λ n. length (since start (failures_of key next.1)) ≤ n) (sym limit) stepped.1) in
    omega (arith, stepped.0, later, limit)

-- Take any tries of one client with one username and wrong credentials, all within a span that is shorter
-- than the window, against a limiter whose record of that client and username is within the limit. No
-- more of them are answered 401 than the limit allows.
pub logins-denials_le :
    (security : Security) (users : List UserRow) (key : String) (start : ℕ) (tries : List Attempt)
    (l : LoginLimiter)
    → All (WrongTry security users key start l.window_s) tries
    → length (failures_of key l) ≤ l.max_failures
    → denials (logins security users tries l).0 ≤ l.max_failures
logins-denials_le security users key start tries l w b = omega (
  arith,
  bounded security users key start tries l w
      (omega (arith, length-filter-le (leb start) (failures_of key l), b)),
)

-- A lock ends: once a window has passed since each failure of a key, and some failure is allowed,
-- the key is not locked.
pub is_locked-expires :
    (key : String) (now : ℕ) (l : LoginLimiter)
    → All (λ t. t + l.window_s ≤ now) (failures_of key l)
    → 0 < l.max_failures
    → (is_locked key now l).0 ≡ false
unfolding is_locked recent
is_locked-expires key now l old some_allowed =
    let e = expired l.window_s (failures_of key l) old in ground (arith, ap length e)
  where
    expired :
        (window : ℕ) (ts : List ℕ)
        → All (λ t. t + window ≤ now) ts
        → filter (is_recent window now) ts ≡ []
    expired window [] h = refl
    expired window (t ∷ ts) h = ground (arith, expired window ts h.1)
