-- ===== src/Examples/Logins.antt =====
-- Two wrong passwords at the login.
use finguard_major_project.Prelude.{
  ℕ, ◌≤◌, String, Option, ◌≡◌, refl, true, none, some, List, [], ◌∷◌, arith, str_eq,
}
use finguard_major_project.Dict.{lookup}
use finguard_major_project.Auth.Limiter.{
  Attempt, LoginRequest, Role, Security, UserRow, default_limiter, failures_of, key_of, logins,
  lower, user_named, verified,
}
use finguard_major_project.Auth.Bounds.{WrongTry, denials, logins-denials_le}

abbrev pub user : String → Role → UserRow
user name role = record {
  username = name;
  password_hash = "secret";
  role = role;
  active = true;
  created_at = 0;
}

abbrev pub users : List UserRow
users = user "ana" Role.analyst ∷ user "olu" Role.auditor ∷ user "root" Role.admin ∷ []

abbrev security : Security
security = record {
  verify_password = λ given stored. str_eq given stored;
  create_token = λ name role. name;
  token_ttl_minutes = 60;
}

abbrev guess : LoginRequest
guess = record { username = "Ana"; password = "12345" }

abbrev try_at : ℕ → Attempt
try_at now = record {
  host = some "10.0.0.1";
  body = guess;
  clock = record { tested = now; cut = now; noted = now };
}

abbrev tries : List Attempt
tries = try_at 10 ∷ try_at 20 ∷ []

abbrev key : String
key = key_of (some "10.0.0.1") guess

wrong : verified security guess users ≡ none
unfolding verified user_named lower
wrong = refl

wrong_try : (now : ℕ) → 0 ≤ now → now ≤ 20 → WrongTry security users key 0 300000000 (try_at now)
wrong_try now lo hi = (refl, wrong, lo, omega (arith, hi), omega (arith, hi))

no_failures : failures_of key default_limiter ≡ []
unfolding failures_of lookup
no_failures = refl

logins-denials_le_example : denials (logins security users tries default_limiter).0 ≤ 5
logins-denials_le_example =
    logins-denials_le security users key 0 tries default_limiter
      (wrong_try 10 (omega arith) (omega arith), (wrong_try 20 (omega arith) (omega arith), tt))
      (rw no_failures (omega arith))

-- A token is the name of its user.
abbrev pub decode_token : String → Option String
decode_token token = some token
