-- ===== src/Auth/Permission.antt =====
-- What the tests of deps.py and `create_user` of auth.py (backend/app/api) let through.
use finguard_major_project.Prelude.{
  ℕ, String, ◌≡◌, refl, sym, ap, ◌∙◌, Bool, true, not, Option, none, some, List, [], ◌∷◌, ◌++◌, any,
  is_some, str_eq, eq_iff, arith, find, Bool-cases, inl, inr,
}
use finguard_major_project.Outcome.{ok, guard, guard-ok, >>=-eq-ok, ok-injective}
use finguard_major_project.Auth.Limiter.{Role, UserRow, user_named}
use finguard_major_project.Auth.Access.{
  CurrentUser, role_eq, active_user, subject_user, current_user, require_roles, authorised,
  CreateUserRequest, create_user,
}

find-append_found {ℓ} :
    {A : Type ℓ} (p : A → Bool) (xs ys : List A) (a : A)
    → find p xs ≡ some a
    → find p (xs ++ ys) ≡ some a
find-append_found p [] ys a h = cc
find-append_found p (x ∷ xs) ys a h = ground (arith, find-append_found p xs ys a)

find-append_missing {ℓ} :
    {A : Type ℓ} (p : A → Bool) (xs ys : List A) → find p xs ≡ none → find p (xs ++ ys) ≡ find p ys
find-append_missing p [] ys h = refl
find-append_missing p (x ∷ xs) ys h = ground (arith, find-append_missing p xs ys)

unnamed : {A : Type 0} (o : Option A) → not (is_some o) ≡ true → o ≡ none
unnamed none h = refl
unnamed (some a) h = absurd (cc h)

-- A user whom the table names under the subject of the token, as active and in an allowed role.
pub record Permitted (decode_token : String → Option String) (allowed : List Role)
    (users : List UserRow) (credentials : Option String) (user : CurrentUser) : Type 0 where
  pub token : String
  pub given : credentials ≡ some token
  pub subject : String
  pub decoded : decode_token token ≡ some subject
  pub row : UserRow
  pub stored : user_named subject users ≡ some row
  pub is_active : row.active ≡ true
  pub same_name : user.username ≡ row.username
  pub same_role : user.role ≡ row.role
  pub allowed_role : any (role_eq row.role) allowed ≡ true

module _ (decode_token : String → Option String) (users : List UserRow) where
  record Named (credentials : Option String) (user : CurrentUser) : Type 0 where
    token : String
    given : credentials ≡ some token
    subject : String
    decoded : decode_token token ≡ some subject
    row : UserRow
    stored : user_named subject users ≡ some row
    is_active : row.active ≡ true
    same_user : record { username = row.username; role = row.role } ≡ user

  active-row :
      (o : Option UserRow) (user : CurrentUser)
      → active_user o ≡ ok user
      → (row : UserRow) × (o ≡ some row)
        × (row.active ≡ true)
        × (record { username = row.username; role = row.role } ≡ user)
  active-row none user e = absurd (cc e)
  active-row (some row) user e = elim (Bool-cases row.active) [
    | inl t ↦ (row, refl, t, ok-injective (rw t at e))
    | inr f ↦ absurd (cc (rw f at e))
  ]

  current_user-Named :
      (credentials : Option String) (user : CurrentUser)
      → current_user decode_token users credentials ≡ ok user
      → Named credentials user
  unfolding current_user
  current_user-Named none user e = absurd (cc e)
  current_user-Named (some token) user e = by_subject (decode_token token) refl e
    where
      by_subject :
          (o : Option String)
          → decode_token token ≡ o
          → subject_user users o ≡ ok user
          → Named (some token) user
      by_subject none d h = absurd (cc h)
      by_subject (some subject) d h =
          let (row, stored, is_active, same) = active-row (user_named subject users) user h in
          record {
            token = token;
            given = refl;
            subject = subject;
            decoded = d;
            row = row;
            stored = stored;
            is_active = is_active;
            same_user = same;
          }

  -- A request that passes the test of roles carries a valid token, and the table, not the token,
  -- gives the user: its row is the one named by the subject, is active, and has an allowed role.
  pub authorised-Permitted :
      (allowed : List Role) (credentials : Option String) (user : CurrentUser)
      → authorised decode_token allowed users credentials ≡ ok user
      → Permitted decode_token allowed users credentials user
  unfolding authorised require_roles
  authorised-Permitted allowed credentials user e =
      let (found, e1, e2) =
        >>=-eq-ok (current_user decode_token users credentials) (require_roles allowed) e in
      let (u, e3, e4) = >>=-eq-ok (guard (any (role_eq found.role) allowed) _) _ e2 in
      let n = current_user-Named credentials found e1 in
      let same = n.same_user ∙ ok-injective e4 in
      record {
        token = n.token;
        given = n.given;
        subject = n.subject;
        decoded = n.decoded;
        row = n.row;
        stored = n.stored;
        is_active = n.is_active;
        same_name = ap (λ x. x.username) (sym same);
        same_role = ap (λ x. x.role) (sym same);
        allowed_role = ap (λ x. any (role_eq x.role) allowed) n.same_user ∙ guard-ok _ _ u e3;
      }

  -- What adding a user has made of the table.
  pub record Added (hash_password : String → String) (body : CreateUserRequest)
      (credentials : Option String) (after : List UserRow) : Type 0 where
    pub by_admin :
        (admin : CurrentUser) × Permitted decode_token (Role.admin ∷ []) users credentials admin
    pub new_name : user_named body.username users ≡ none
    pub added :
        (row : UserRow) × (user_named body.username after ≡ some row)
        × (row.role ≡ body.role)
        × (row.password_hash ≡ hash_password body.password)
    pub kept :
        (name : String) (old : UserRow)
        → user_named name users ≡ some old
        → user_named name after ≡ some old

  -- Only an active administrator adds a user, and only under a new name. The table then names the
  -- user with the role and the hashed password of the request, and still names every user it named.
  pub create_user-Added :
      (hash_password : String → String) (now : ℕ) (body : CreateUserRequest)
      (credentials : Option String) (answer : List UserRow × CurrentUser)
      → create_user decode_token hash_password now body credentials users ≡ ok answer
      → Added hash_password body credentials answer.0
  unfolding create_user user_named
  create_user-Added hash_password now body credentials answer e =
      let (admin, e1, e2) =
        >>=-eq-ok (authorised decode_token (Role.admin ∷ []) users credentials) _ e in
      let (u, e3, e4) = >>=-eq-ok (guard (not (is_some (user_named body.username users))) _) _ e2 in
      let fresh = unnamed (user_named body.username users) (guard-ok _ _ u e3) in
      let row : UserRow = record {
        username = body.username;
        password_hash = hash_password body.password;
        role = body.role;
        active = true;
        created_at = now;
      } in
      let after = ap (λ a. a.0) (ok-injective e4) in
      record {
        by_admin = (admin, authorised-Permitted (Role.admin ∷ []) credentials admin e1);
        new_name = fresh;
        added = (
          row,
          ap (user_named body.username) (sym after)
              ∙ find-append_missing (λ r. str_eq r.username body.username) users (row ∷ []) fresh
              ∙ itself row,
          refl,
          refl,
        );
        kept = λ name old h.
            ap (user_named name) (sym after)
            ∙ find-append_found (λ r. str_eq r.username name) users (row ∷ []) old h;
      }
    where
      itself : (row : UserRow) → find (λ r. str_eq r.username row.username) (row ∷ []) ≡ some row
      itself row = ground (arith, eq_iff row.username row.username)
