-- ===== src/Api/Settling.antt =====
-- What the job of a new case leaves in the store (backend/app/services/jobs.py).
use finguard_major_project.Prelude.{
  ℕ, ◌+◌, String, ◌≡◌, refl, sym, ap, subst, ◌∙◌, true, not, Option, none, some, List, [], ◌∷◌, All,
  length, drop, zero, suc,
}
use finguard_major_project.Json.{Value}
use finguard_major_project.Dict.{lookup, contains, put, lookup-put_same}
use finguard_major_project.Domain.{case_created, human_review}
use finguard_major_project.Outcome.{
  Outcome, ok, raised, key_error, value_error, overflow_error, runtime_error, sign_off_error,
  type_error, http_error, ◌>>=◌, guard, >>=-eq-ok, ok-injective,
}
use finguard_major_project.Audit.{AuditEvent}
use finguard_major_project.Audit.Chain.{Hashing, append_events, verify_chain}
use finguard_major_project.Audit.Appending.{append_events-verified}
use finguard_major_project.Case.{CaseState, Clock, record_event, tick}
use finguard_major_project.Workflow.Steps.{Context}
use finguard_major_project.Workflow.Create.{create_case as workflow_create_case}
use finguard_major_project.Workflow.Trail.{IsNumbered, record_event-Grows}
use finguard_major_project.Workflow.Opening.{Opened, create_case-Opened}
use finguard_major_project.Workflow.Safety.{run-Lands}
use finguard_major_project.Api.Rows.{CaseRow, Session, denormalise}
use finguard_major_project.Api.Cases.{save_state, set_job, set_timeline, set_customer}
use finguard_major_project.Api.Views.{Formats}
use finguard_major_project.Api.Jobs.{
  EngineService, CreateCaseRequest, ready, as_request_error, requested, create_case_row,
  create_case, store_result, run_case_job, timeline_of, customer_of, after_start, committed,
}

abbrev Mine : String → List AuditEvent → Type 0
Mine case_id es = All (λ e. e.case_id ≡ case_id) es

IsNumbered-OfCase : (k : String) (n : ℕ) (es : List AuditEvent) → IsNumbered k n es → Mine k es
IsNumbered-OfCase k n [] g = tt
IsNumbered-OfCase k n (e ∷ es) g = (g.1, IsNumbered-OfCase k (n + 1) es g.2)

OfCase-drop : (k : String) (n : ℕ) (es : List AuditEvent) → Mine k es → Mine k (drop n es)
OfCase-drop k zero es g = g
OfCase-drop k (suc n) [] g = tt
OfCase-drop k (suc n) (e ∷ es) g = OfCase-drop k n es g.1

module _ (h : Hashing) where
  -- What `save_state` has stored of a case that has a row.
  record Stored (session : Session h) (s : CaseState) (now : ℕ)
      (job : Option (String × Option String)) (timeline customer : Option String)
      (new : List AuditEvent) (row : CaseRow) : Type 0 where
    saved : Session h × CaseRow
    returned : save_state h session s now job timeline customer new ≡ ok saved
    as_row :
        saved.1
        ≡ set_customer customer (set_timeline timeline (set_job job (denormalise s now row)))
    found : lookup s.case_id saved.0.cases ≡ some saved.1
    events : saved.0.events ≡ (append_events h session.events s.case_id new).0

  -- The row that `save_state` makes, and the session it leaves.
  abbrev row_after :
      CaseState
      → ℕ
      → Option (String × Option String)
      → Option String
      → Option String
      → CaseRow
      → CaseRow
  row_after s now job timeline customer row =
      set_customer customer (set_timeline timeline (set_job job (denormalise s now row)))

  abbrev session_after : Session h → CaseState → CaseRow → List AuditEvent → Session h
  session_after session s row new = record {
    cases = put s.case_id row session.cases;
    events = (append_events h session.events s.case_id new).0;
  }

  save_state-ok :
      (session : Session h) (s : CaseState) (now : ℕ) (job : Option (String × Option String))
      (timeline customer : Option String) (new : List AuditEvent) (row : CaseRow)
      → lookup s.case_id session.cases ≡ some row
      → let after = row_after s now job timeline customer row in
        save_state h session s now job timeline customer new
        ≡ ok (session_after session s after new, after)
  unfolding save_state
  save_state-ok session s now job timeline customer new row e = rw (e, save_state)

  save_state-Stored :
      (session : Session h) (s : CaseState) (now : ℕ) (job : Option (String × Option String))
      (timeline customer : Option String) (new : List AuditEvent) (row : CaseRow)
      → lookup s.case_id session.cases ≡ some row
      → Stored session s now job timeline customer new row
  save_state-Stored session s now job timeline customer new row e =
      let after = row_after s now job timeline customer row in
      record {
        saved = (session_after session s after new, after);
        returned = save_state-ok session s now job timeline customer new row e;
        as_row = refl;
        found = lookup-put_same s.case_id after session.cases;
        events = refl;
      }

  -- A case whose job is done: it waits for a human, with no sign-off that the job has made.
  pub record Settled (s : CaseState) (session : Session h) : Type 0 where
    pub row : CaseRow
    pub found : lookup s.case_id session.cases ≡ some row
    pub job_state : row.job_state ≡ "done"
    pub job_error : row.job_error ≡ none
    pub status : row.status ≡ human_review
    pub state_status : row.state.status ≡ human_review
    pub sign_off : row.state.sign_off ≡ s.sign_off
    pub verified : (verify_chain h session.events s.case_id).ok ≡ true

  module _ (clock : Clock) (formats : Formats) (dumps : Value → String) (ctx : Context) where
    -- The job of a new case that has a row and a verified trail always ends as done: the stored
    -- case waits for human review, is signed by no one, and its trail is verified with the events
    -- of the run appended. It never stays queued or running.
    pub run_case_job-Settled :
        (session : Session h) (s : CaseState) (persisted : ℕ) (row : CaseRow)
        → s.status ≡ case_created
        → IsNumbered s.case_id 0 s.audit_trail
        → lookup s.case_id session.cases ≡ some row
        → (verify_chain h session.events s.case_id).ok ≡ true
        → Settled s (run_case_job h clock formats dumps ctx session s persisted)
    unfolding run_case_job store_result denormalise
    run_case_job-Settled session s persisted row new numbered found good =
        let first =
          save_state-Stored session s (clock s.readings) (some ("running", none)) none none [] row
            found in
        let (t, ran, lands) = run-Lands ctx (tick s) new in
        let named : t.case_id ≡ s.case_id = lands.grows.case_id in
        let started = first.saved.0 in
        let stored =
          save_state-Stored started t (clock t.readings) (some ("done", none))
            (timeline_of h clock formats dumps ctx t) (customer_of h clock formats dumps ctx t)
            (drop persisted t.audit_trail) first.saved.1
            (ap (λ k. lookup k started.cases) named ∙ first.found) in
        let last : run_case_job h clock formats dumps ctx session s persisted ≡ stored.saved.0 =
          ap (after_start h clock formats dumps ctx session s persisted) first.returned
          ∙ ap
              (λ m.
                committed h clock formats dumps ctx s.case_id started
                  (m >>= store_result h clock formats dumps ctx persisted started))
              ran
          ∙ ap (committed h clock formats dumps ctx s.case_id started) stored.returned in
        let mine =
          OfCase-drop t.case_id persisted t.audit_trail
            (IsNumbered-OfCase t.case_id 0 t.audit_trail (lands.grows.numbered numbered)) in
        let new_events = drop persisted t.audit_trail in
        subst (Settled s) (sym last) (record {
          row = stored.saved.1;
          found = ap (λ k. lookup k stored.saved.0.cases) (sym named) ∙ stored.found;
          job_state = ap (λ r. r.job_state) stored.as_row;
          job_error = ap (λ r. r.job_error) stored.as_row;
          status = ap (λ r. r.status) stored.as_row ∙ lands.at_review;
          state_status = ap (λ r. r.state.status) stored.as_row ∙ lands.at_review;
          sign_off = ap (λ r. r.state.sign_off) stored.as_row ∙ lands.grows.sign_off;
          verified =
              ap (λ t. (verify_chain h t s.case_id).ok) stored.events
              ∙ subst
                  (λ k.
                    (verify_chain h (append_events h started.events t.case_id new_events).0 k).ok
                    ≡ true)
                  named
                  (append_events-verified h started.events t.case_id new_events mine (
                    subst (λ k. (verify_chain h started.events k).ok ≡ true) (sym named)
                      (ap (λ t. (verify_chain h t s.case_id).ok) first.events
                        ∙ append_events-verified h session.events s.case_id [] tt good)));
        })

as_request_error-ok {ℓ} :
    {A : Type ℓ} (m : Outcome A) {a : A} → as_request_error m ≡ ok a → m ≡ ok a
as_request_error-ok (ok b) e = e
as_request_error-ok (raised (key_error t)) e = absurd (cc e)
as_request_error-ok (raised (value_error t)) e = absurd (cc e)
as_request_error-ok (raised (overflow_error t)) e = absurd (cc e)
as_request_error-ok (raised (runtime_error t)) e = absurd (cc e)
as_request_error-ok (raised (sign_off_error t)) e = absurd (cc e)
as_request_error-ok (raised (type_error t)) e = absurd (cc e)
as_request_error-ok (raised (http_error c t)) e = absurd (cc e)

module _ (h : Hashing) (clock : Clock) (ctx : Context) where
  -- What a new case has, once its request is noted and its row is stored.
  record Queued (session : Session h) (answer : Session h × CaseRow × CaseState × ℕ) : Type 0 where
    new : answer.2.status ≡ case_created
    unsigned : answer.2.sign_off ≡ none
    numbered : IsNumbered answer.2.case_id 0 answer.2.audit_trail
    stored : lookup answer.2.case_id answer.0.cases ≡ some answer.1
    verified :
        (verify_chain h session.events answer.2.case_id).ok ≡ true
        → (verify_chain h answer.0.events answer.2.case_id).ok ≡ true

  stored-Queued :
      (session : Session h) (username : String) (s : CaseState)
      → Opened ctx s
      → let asked = requested clock username s in
        let created = create_case_row h session asked username (clock asked.readings) in
        Queued session (created.0, created.1, tick asked, length asked.audit_trail)
  unfolding create_case_row record_event
  stored-Queued session username s o =
      let asked = requested clock username s in
      let numbered = (record_event-Grows clock _ s).numbered o.numbered in
      record {
        new = o.status;
        unsigned = o.unsigned;
        numbered = numbered;
        stored = lookup-put_same s.case_id _ session.cases;
        verified =
            append_events-verified h session.events s.case_id asked.audit_trail
              (IsNumbered-OfCase s.case_id 0 asked.audit_trail numbered);
      }

  create_case-Queued :
      (engine : EngineService) (session : Session h) (body : CreateCaseRequest)
      (request_id username : String) (answer : Session h × CaseRow × CaseState × ℕ)
      → engine.workflow ≡ some ctx
      → create_case h clock (some engine) session body request_id username ≡ ok answer
      → Queued session answer
  unfolding create_case
  create_case-Queued engine session body request_id username answer loaded e =
      let (found, e1, e2) = >>=-eq-ok (ready (some engine)) _ e in
      let same : found ≡ ctx = ok-injective (sym e1 ∙ rw loaded) in
      let m =
        workflow_create_case found body.customer_id body.transaction_ids body.context_days
          request_id in
      let (s, e3, e4) = >>=-eq-ok (as_request_error m) _ e2 in
      let opened =
        create_case-Opened found body.customer_id body.transaction_ids body.context_days request_id
          s (as_request_error-ok m e3) in
      let (u, e5, e6) = >>=-eq-ok (guard (not (contains s.case_id session.cases)) _) _ e4 in
      subst (Queued session) (ok-injective e6)
        (stored-Queued session username s (subst (λ c. Opened c s) same opened))

  -- Take an answered request for a new case, of a ready engine, whose name has no altered trail in
  -- the store. Its job ends as done: the case waits for human review, signed by no one, and its
  -- trail is verified.
  pub create_case-Settled :
      (formats : Formats) (dumps : Value → String) (engine : EngineService) (session : Session h)
      (body : CreateCaseRequest) (request_id username : String)
      (answer : Session h × CaseRow × CaseState × ℕ)
      → engine.workflow ≡ some ctx
      → create_case h clock (some engine) session body request_id username ≡ ok answer
      → (verify_chain h session.events answer.2.case_id).ok ≡ true
      → let settled = run_case_job h clock formats dumps ctx answer.0 answer.2 answer.3 in
        Settled h answer.2 settled × (answer.2.sign_off ≡ none)
  create_case-Settled formats dumps engine session body request_id username answer loaded e good =
      let q = create_case-Queued engine session body request_id username answer loaded e in
      (
        run_case_job-Settled h clock formats dumps ctx answer.0 answer.2 answer.3 answer.1 q.new
            q.numbered q.stored (q.verified good),
        q.unsigned,
      )
