-- ===== src/Auth/Access.antt =====
-- Who may ask: `current_user` and `require_roles` of backend/app/api/deps.py, and `create_user` of
-- backend/app/api/auth.py. `decode_token` (JWT) is given as a function that returns the subject of a
-- valid token, and `hash_password` (scrypt) as a function of texts.
use Prim.Native.String.{◌++◌ as str_append}
use finguard_major_project.Prelude.{
  ℕ, String, Bool, true, false, not, Option, none, some, List, [], ◌∷◌, ◌++◌, any, is_some,
  if◌then◌else◌,
}
use finguard_major_project.Outcome.{Outcome, ok, raised, http_error, ◌>>=◌, ◌>>◌, guard}
use finguard_major_project.Auth.Limiter.{Role, UserRow, user_named}

pub record CurrentUser : Type 0 where
  pub username : String
  pub role : Role

abbrev pub role_eq : Role → Role → Bool
role_eq Role.analyst Role.analyst = true
role_eq Role.auditor Role.auditor = true
role_eq Role.admin Role.admin = true
role_eq _ _ = false

abbrev role_value : Role → String
role_value Role.analyst = "analyst"
role_value Role.auditor = "auditor"
role_value Role.admin = "admin"

abbrev unauthorized {ℓ} : {A : Type ℓ} → Outcome A
unauthorized = raised (http_error "401" "invalid or missing credentials")

-- The user of a row, where there is one and it is active.
abbrev pub active_user : Option UserRow → Outcome CurrentUser
active_user none = unauthorized
active_user (some user) =
    if user.active then ok (record { username = user.username; role = user.role }) else unauthorized

abbrev pub subject_user : List UserRow → Option String → Outcome CurrentUser
subject_user users none = unauthorized
subject_user users (some subject) = active_user (user_named subject users)

unfoldable pub current_user :
    (String → Option String) → List UserRow → Option String → Outcome CurrentUser
unfolding user_named
current_user decode_token users none = unauthorized
current_user decode_token users (some credentials) = subject_user users (decode_token credentials)

unfoldable pub require_roles : List Role → CurrentUser → Outcome CurrentUser
require_roles allowed user = do
  guard (any (role_eq user.role) allowed) (
      http_error "403"
        (str_append "role '" (str_append (role_value user.role) "' is not permitted")))
  ok user

-- `Depends(require_roles(...))`
unfoldable pub authorised :
    (String → Option String) → List Role → List UserRow → Option String → Outcome CurrentUser
unfolding current_user require_roles
authorised decode_token allowed users credentials =
    current_user decode_token users credentials >>= require_roles allowed

pub record CreateUserRequest : Type 0 where
  pub username : String
  pub password : String
  pub role : Role

-- The users in the end, and who was added.
unfoldable pub create_user :
    (String → Option String)
    → (String → String)
    → ℕ
    → CreateUserRequest
    → Option String
    → List UserRow
    → Outcome (List UserRow × CurrentUser)
unfolding authorised user_named
create_user decode_token hash_password now body credentials users = do
  _ ← authorised decode_token (Role.admin ∷ []) users credentials
  guard (not (is_some (user_named body.username users)))
      (http_error "409" "username already exists")
  ok (
    users
        ++ record {
          username = body.username;
          password_hash = hash_password body.password;
          role = body.role;
          active = true;
          created_at = now;
        }
          ∷ [],
    record { username = body.username; role = body.role },
  )
