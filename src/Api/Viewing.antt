-- ===== src/Api/Viewing.antt =====
-- What a view of a case leaves behind, and what it shows (backend/app/api/cases.py).
use Prim.Native.String.{◌++◌ as str_append}
use finguard_major_project.Prelude.{
  String, ◌≡◌, ◌≢◌, refl, sym, ap, subst, ◌∙◌, Bool, true, false, not, ◌&&◌, ◌||◌, none, [], ◌∷◌,
  any, any-append, str_eq, eq_iff, arith, if◌then◌else◌,
}
use finguard_major_project.Json.{Fields, end, field, get}
use finguard_major_project.Outcome.{ok, >>=-eq-ok, ok-injective}
use finguard_major_project.Audit.{AuditEvent}
use finguard_major_project.Audit.Chain.{
  AuditRow, Hashing, append_events, rows_of, verify_chain, new_rows, stored_row,
}
use finguard_major_project.Audit.Appending.{append_events-verified, append_events-others}
use finguard_major_project.Case.{CaseState, Clock, tick}
use finguard_major_project.Auth.Access.{CurrentUser}
use finguard_major_project.Api.Rows.{CaseRow, Session, human_event}
use finguard_major_project.Api.Cases.{load}
use finguard_major_project.Api.Stored.{Filed}
use finguard_major_project.Api.Reads.{
  CaseDetail, pop, is_analyst, detail, add_audit_event, noted, get_case,
}

pub get-pop : (k : String) (fs : Fields) → get k (pop k fs) ≡ none
unfolding get pop
get-pop k end = refl
get-pop k (field j v rest) = ground (arith, eq_iff j k, get-pop k rest)

if-same {ℓ} : {A : Type ℓ} (b : Bool) (x : A) → (if b then x else x) ≡ x
if-same true x = refl
if-same false x = refl

module _ (h : Hashing) where
  -- A row that says that the user has done the action at the case.
  abbrev pub says : String → String → String → AuditRow h.Hash → Bool
  says case_id username action row =
      str_eq row.case_id case_id
      && str_eq row.action action
      && str_eq row.actor (str_append "human:" username)

  module _ (clock : Clock) (case_id : String) (user : CurrentUser) (action : String)
      (state : CaseState) (session : Session h) where
    abbrev event : AuditEvent
    event = human_event clock user.username action end state

    abbrev after : Session h
    after = noted h clock case_id user action state session

    pub noted-verified :
        state.case_id ≡ case_id
        → (verify_chain h session.events case_id).ok ≡ true
        → (verify_chain h after.events case_id).ok ≡ true
    unfolding noted add_audit_event
    noted-verified named good =
        append_events-verified h session.events case_id (event ∷ []) (named, tt) good

    pub noted-others :
        (other : String)
        → case_id ≢ other
        → rows_of h other after.events ≡ rows_of h other session.events
    unfolding noted add_audit_event
    noted-others other ne = append_events-others h session.events case_id other (event ∷ []) ne

    pub noted-keeps :
        (p : AuditRow h.Hash → Bool) → any p session.events ≡ true → any p after.events ≡ true
    unfolding noted add_audit_event append_events
    noted-keeps p e = any-append p session.events _ ∙ left (any p session.events) _ e
      where
        left : (a b : Bool) → a ≡ true → (a || b) ≡ true
        left a b e = rw e

    pub noted-says : any (says case_id user.username action) after.events ≡ true
    unfolding noted add_audit_event append_events new_rows stored_row
    noted-says =
        any-append (says case_id user.username action) session.events _
        ∙ right (any (says case_id user.username action) session.events) _
            (own case_id action (str_append "human:" user.username))
      where
        right : (a b : Bool) → b ≡ true → (a || b) ≡ true
        right true b e = refl
        right false b e = e

        own : (x y z : String) → ((str_eq x x && str_eq y y && str_eq z z) || false) ≡ true
        own x y z = ground (arith, eq_iff x x, eq_iff y y, eq_iff z z)

  -- What a view of a case has left, and what it answers.
  pub record Viewed (session : Session h) (case_id : String) (user : CurrentUser)
      (answer : Session h × CaseDetail) : Type 0 where
    pub recorded : any (says case_id user.username "view_case") answer.0.events ≡ true
    pub verified :
        (verify_chain h session.events case_id).ok ≡ true
        → (verify_chain h answer.0.events case_id).ok ≡ true
    pub others :
        (other : String)
        → case_id ≢ other
        → rows_of h other answer.0.events ≡ rows_of h other session.events
    pub cases : answer.0.cases ≡ session.cases
    pub private : is_analyst user.role ≡ false → get "details" answer.1.customer ≡ none
    pub findings :
        (loaded : CaseRow × CaseState)
        → load h session case_id ≡ ok loaded
        → (answer.1.kyc_findings ≡ loaded.1.kyc_findings) × (answer.1.evidence ≡ loaded.1.evidence)

  module _ (clock : Clock) (loads : String → Fields) where
    -- Where the cases are filed under their names, an answered view of a case has stored an event
    -- that names the user, a verified trail stays verified, and no other trail and no case changes.
    -- Whoever is not an analyst gets no `details` of the customer; the findings of the documents and
    -- the evidence are shown whole to every role.
    pub get_case-Viewed :
        (session : Session h) (case_id : String) (user : CurrentUser)
        (answer : Session h × CaseDetail)
        → Filed h session
        → get_case h clock loads session case_id user ≡ ok answer
        → Viewed session case_id user answer
    unfolding get_case detail noted add_audit_event
    get_case-Viewed session case_id user answer filed e =
        let (loaded, e1, e2) = >>=-eq-ok (load h session case_id) _ e in
        subst (Viewed session case_id user) (ok-injective e2) (
          viewed (is_analyst user.role && is_personal loaded.0) loaded.0 loaded.1
            (filed case_id loaded e1).1 (λ l e. ok-injective (sym e1 ∙ e)))
      where
        is_personal : CaseRow → Bool
        is_personal row = not (str_eq row.customer_json "{}" || str_eq row.customer_json "")

        hidden :
            (row : CaseRow) (state : CaseState)
            → is_analyst user.role ≡ false
            → get "details" (detail loads row state user.role).customer ≡ none
        hidden row state e = rw e (get-pop "details" (loads row.customer_json))

        viewed :
            (b : Bool) (row : CaseRow) (state : CaseState)
            → state.case_id ≡ case_id
            → ((l : CaseRow × CaseState) → load h session case_id ≡ ok l → (row, state) ≡ l)
            → let first = noted h clock case_id user "view_case" state session in
              Viewed session case_id user (
                (if b
                    then noted h clock case_id user "view_customer_details" (tick state) first
                    else first),
                detail loads row state user.role,
              )
        viewed false row state named only = record {
          recorded = noted-says clock case_id user "view_case" state session;
          verified = noted-verified clock case_id user "view_case" state session named;
          others = noted-others clock case_id user "view_case" state session;
          cases = refl;
          private = hidden row state;
          findings =
              λ l e. (ap (λ x. x.1.kyc_findings) (only l e), ap (λ x. x.1.evidence) (only l e));
        }
        viewed true row state named only =
            let first = noted h clock case_id user "view_case" state session in
            let details : String = "view_customer_details" in
            record {
              recorded =
                  noted-keeps clock case_id user details (tick state) first _
                    (noted-says clock case_id user "view_case" state session);
              verified = λ v.
                  noted-verified clock case_id user details (tick state) first named
                    (noted-verified clock case_id user "view_case" state session named v);
              others = λ other ne.
                  noted-others clock case_id user details (tick state) first other ne
                  ∙ noted-others clock case_id user "view_case" state session other ne;
              cases = refl;
              private = hidden row state;
              findings =
                  λ l e. (ap (λ x. x.1.kyc_findings) (only l e), ap (λ x. x.1.evidence) (only l e));
            }
