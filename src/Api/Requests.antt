-- ===== src/Api/Requests.antt =====
-- The three deciding endpoints of backend/app/api/cases.py with their dependency
-- `Analyst = require_roles(Role.ANALYST)`, each in the session of its request.
use finguard_major_project.Prelude.{
  String, ◌≡◌, refl, Bool, true, false, Option, some, List, [], ◌∷◌,
}
use finguard_major_project.Outcome.{Outcome, ok, ◌>>=◌, >>=-eq-ok}
use finguard_major_project.Audit.Chain.{Hashing}
use finguard_major_project.Case.{CaseState, Clock}
use finguard_major_project.Auth.Limiter.{Role, UserRow, user_named}
use finguard_major_project.Auth.Access.{
  CurrentUser, role_eq, active_user, current_user, require_roles, authorised,
}
use finguard_major_project.Auth.Permission.{Permitted, authorised-Permitted}
use finguard_major_project.Api.Rows.{CaseRow, Session}
use finguard_major_project.Api.Cases.{
  SignOffRequest, Answer, load, sign_off, confirm_escalation, reject_escalation, serve,
}
use finguard_major_project.Api.Stored.{Filed, Stores}
use finguard_major_project.Api.Decisions.{Decided, sign_off-Decided}

-- What a request carries besides its body: the credentials. The table and the decoder are the server's.
module _ (h : Hashing) (clock : Clock) (decode_token : String → Option String)
    (users : List UserRow) where
  -- `user: Analyst`
  abbrev pub as_analyst : Option String → (CurrentUser → Outcome (Answer h)) → Outcome (Answer h)
  as_analyst credentials handler =
      authorised decode_token (Role.analyst ∷ []) users credentials >>= handler

  unfoldable pub sign_off_request :
      Session h → String → SignOffRequest → Option String → Outcome (Answer h)
  unfolding authorised sign_off
  sign_off_request session case_id body credentials =
      as_analyst credentials (λ user. sign_off h clock session case_id body user.username)

  unfoldable pub confirm_request : Session h → String → String → Option String → Outcome (Answer h)
  unfolding authorised confirm_escalation
  confirm_request session case_id reason credentials =
      as_analyst credentials
        (λ user. confirm_escalation h clock session case_id reason user.username)

  unfoldable pub reject_request : Session h → String → String → Option String → Outcome (Answer h)
  unfolding authorised reject_escalation
  reject_request session case_id reason credentials =
      as_analyst credentials
        (λ user. reject_escalation h clock session case_id reason user.username)

  -- A sign-off request that is answered came with a valid token whose subject the table names as an
  -- active analyst. Where the cases are filed under their names, the case was decided under the name in
  -- that row, the row that is stored then says so, and the cases are still filed under their names.
  pub sign_off_request-ByAnalyst :
      (session : Session h) (case_id : String) (body : SignOffRequest) (credentials : Option String)
      (answer : Answer h)
      → Filed h session
      → sign_off_request session case_id body credentials ≡ ok answer
      → (user : CurrentUser) × Permitted decode_token (Role.analyst ∷ []) users credentials user
        × (loaded : CaseRow × CaseState) × (load h session case_id ≡ ok loaded)
        × (stored : CaseRow) × Stores h answer.0 case_id stored
        × Decided loaded.0 loaded.1 answer.2 stored body user.username
        × Filed h answer.0
  unfolding sign_off_request
  sign_off_request-ByAnalyst session case_id body credentials answer filed e =
      let (user, e1, e2) =
        >>=-eq-ok (authorised decode_token (Role.analyst ∷ []) users credentials) _ e in
      let (loaded, found, stored, kept, decided, still_filed) =
        sign_off-Decided h clock session case_id body user.username answer filed e2 in
      (
        user,
        authorised-Permitted decode_token users (Role.analyst ∷ []) credentials user e1,
        loaded,
        found,
        stored,
        kept,
        decided,
        still_filed,
      )

  -- An answered request of a handler for analysts would need the test of roles to pass.
  not_analyst :
      (token subject : String) (row : UserRow) (handler : CurrentUser → Outcome (Answer h))
      (session : Session h)
      → decode_token token ≡ some subject
      → user_named subject users ≡ some row
      → role_eq row.role Role.analyst ≡ false
      → serve h session (as_analyst (some token) handler) ≡ session
  unfolding authorised current_user require_roles serve
  not_analyst token subject row handler session decoded stored other =
      rw (decoded, stored) (by_active row.active)
    where
      by_active :
          (b : Bool)
          → serve h session (
              active_user (some (record row { active = b }))
              >>= require_roles (Role.analyst ∷ [])
              >>= handler)
            ≡ session
      by_active true = rw other refl
      by_active false = refl

  -- Whoever the table names with another role than analyst, an auditor or an administrator, cannot
  -- decide a case: each of the three requests leaves the stored session as it was.
  pub requests-not_analyst :
      (token subject : String) (row : UserRow) (session : Session h) (case_id : String)
      (body : SignOffRequest) (reason : String)
      → decode_token token ≡ some subject
      → user_named subject users ≡ some row
      → role_eq row.role Role.analyst ≡ false
      → (serve h session (sign_off_request session case_id body (some token)) ≡ session)
        × (serve h session (confirm_request session case_id reason (some token)) ≡ session)
        × (serve h session (reject_request session case_id reason (some token)) ≡ session)
  unfolding sign_off_request confirm_request reject_request
  requests-not_analyst token subject row session case_id body reason decoded stored other = (
    not_analyst token subject row _ session decoded stored other,
    not_analyst token subject row _ session decoded stored other,
    not_analyst token subject row _ session decoded stored other,
  )
