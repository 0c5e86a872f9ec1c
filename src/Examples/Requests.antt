-- ===== src/Examples/Requests.antt =====
-- Requests at a stored case, and the job of a new one.
use finguard_major_project.Prelude.{ℕ, String, ◌≡◌, refl, true, none, some, [], ◌∷◌}
use finguard_major_project.Json.{Fields, end, field, str}
use finguard_major_project.Dict.{lookup}
use finguard_major_project.Strings.{strip}
use finguard_major_project.Outcome.{Outcome, ok, is_ok, value, value-ok}
use finguard_major_project.Audit.Chain.{rows_of, verify_chain}
use finguard_major_project.Case.{CaseState, record_event}
use finguard_major_project.SignOff.{closed_case}
use finguard_major_project.Auth.Limiter.{Role, user_named}
use finguard_major_project.Auth.Access.{CurrentUser}
use finguard_major_project.Auth.Permission.{Permitted}
use finguard_major_project.Api.Rows.{CaseRow, Session}
use finguard_major_project.Api.Cases.{Answer, load, serve, sign_off}
use finguard_major_project.Api.Decisions.{Decided}
use finguard_major_project.Api.Stored.{Filed, Stores}
use finguard_major_project.Api.Reads.{CaseDetail, get_case}
use finguard_major_project.Api.Viewing.{Viewed, get_case-Viewed}
use finguard_major_project.Api.Requests.{
  confirm_request, reject_request, requests-not_analyst, sign_off_request,
  sign_off_request-ByAnalyst,
}
use finguard_major_project.Api.Views.{Formats}
use finguard_major_project.Api.Jobs.{CreateCaseRequest, EngineService, create_case, run_case_job}
use finguard_major_project.Api.Settling.{Settled, create_case-Settled}
use finguard_major_project.Workflow.Create.{create_case as workflow_create_case}
use finguard_major_project.Examples.Data.{answering, clock, context}
use finguard_major_project.Examples.Desk.{request, session, session-Filed}
use finguard_major_project.Examples.Logins.{decode_token, user, users}
use finguard_major_project.Examples.Trails.{hashing}

abbrev waiting : Session hashing
waiting = session none

waiting-Filed : Filed hashing waiting
waiting-Filed = session-Filed none

abbrev signing : Outcome (Answer hashing)
signing =
    sign_off_request hashing clock decode_token users waiting "CASE-C1-T1" request (some "ana")

signing_ok : is_ok signing ≡ true
unfolding sign_off_request sign_off lookup strip closed_case record_event user_named
signing_ok = refl

sign_off_request-ByAnalyst_example :
    (reader : CurrentUser) × Permitted decode_token (Role.analyst ∷ []) users (some "ana") reader
    × (loaded : CaseRow × CaseState) × (load hashing waiting "CASE-C1-T1" ≡ ok loaded)
    × (stored : CaseRow) × Stores hashing (value signing signing_ok).0 "CASE-C1-T1" stored
    × Decided loaded.0 loaded.1 (value signing signing_ok).2 stored request reader.username
    × Filed hashing (value signing signing_ok).0
sign_off_request-ByAnalyst_example =
    sign_off_request-ByAnalyst hashing clock decode_token users waiting "CASE-C1-T1" request
      (some "ana") (value signing signing_ok) waiting-Filed (value-ok signing signing_ok)

auditor_stored : user_named "olu" users ≡ some (user "olu" Role.auditor)
unfolding user_named
auditor_stored = refl

requests-not_analyst_example :
    (serve hashing waiting (
        sign_off_request hashing clock decode_token users waiting "CASE-C1-T1" request (some "olu"))
      ≡ waiting)
    × (serve hashing waiting
          (confirm_request hashing clock decode_token users waiting "CASE-C1-T1" "no" (some "olu"))
        ≡ waiting)
    × (serve hashing waiting
          (reject_request hashing clock decode_token users waiting "CASE-C1-T1" "no" (some "olu"))
        ≡ waiting)
requests-not_analyst_example =
    requests-not_analyst hashing clock decode_token users "olu" "olu" (user "olu" Role.auditor)
      waiting "CASE-C1-T1" request "no" refl auditor_stored refl

abbrev loads : String → Fields
loads s = field "customer_id" (str "C1") (field "details" (str "Ada Tan") end)

abbrev auditor : CurrentUser
auditor = record { username = "olu"; role = Role.auditor }

abbrev viewing : Outcome (Session hashing × CaseDetail)
viewing = get_case hashing clock loads waiting "CASE-C1-T1" auditor

viewing_ok : is_ok viewing ≡ true
unfolding get_case lookup
viewing_ok = refl

get_case-Viewed_example : Viewed hashing waiting "CASE-C1-T1" auditor (value viewing viewing_ok)
get_case-Viewed_example =
    get_case-Viewed hashing clock loads waiting "CASE-C1-T1" auditor (value viewing viewing_ok)
      waiting-Filed (value-ok viewing viewing_ok)

abbrev engine : EngineService
engine = record { workflow = some (context answering); error = none }

abbrev empty : Session hashing
empty = record { cases = []; events = [] }

abbrev asked : CreateCaseRequest
asked = record { customer_id = "C1"; transaction_ids = none; context_days = 30 }

abbrev opening : Outcome (Session hashing × CaseRow × CaseState × ℕ)
opening = create_case hashing clock (some engine) empty asked "req" "ana"

opening_ok : is_ok opening ≡ true
unfolding create_case workflow_create_case
opening_ok = refl

abbrev opened : Session hashing × CaseRow × CaseState × ℕ
opened = value opening opening_ok

no_trail : (verify_chain hashing [] opened.2.case_id).ok ≡ true
unfolding verify_chain rows_of
no_trail = refl

abbrev formats : Formats
formats = record { isoformat = λ t. ""; date_isoformat = λ d. "" }

create_case-Settled_example :
    Settled hashing opened.2
      (run_case_job hashing clock formats (λ v. "") (context answering) opened.0 opened.2 opened.3)
    × (opened.2.sign_off ≡ none)
create_case-Settled_example =
    create_case-Settled hashing clock (context answering) formats (λ v. "") engine empty asked "req"
      "ana" opened refl (value-ok opening opening_ok) no_trail
