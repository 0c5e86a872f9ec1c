-- ===== src/Workflow/Opening.antt =====
-- A case that `create_case` opens: its first event, customer and focus.
use finguard_major_project.Prelude.{
  ℕ, String, ◌≡◌, refl, sym, subst, Bool, true, false, not, Option, none, some, List, arith, length,
  all, is_empty, is_some,
}
use finguard_major_project.Json.{end}
use finguard_major_project.Dict.{lookup, contains}
use finguard_major_project.Domain.{case_created}
use finguard_major_project.Outcome.{ok, guard, guard-ok, ok-injective, >>=-eq-ok}
use finguard_major_project.Case.{CaseState, fresh_case, record_event}
use finguard_major_project.Pipeline.Store.{or_empty, ids_of, member, case_name}
use finguard_major_project.Workflow.Steps.{Context}
use finguard_major_project.Workflow.Run.{log}
use finguard_major_project.Workflow.Trail.{IsNumbered}
use finguard_major_project.Workflow.Create.{focus_of, create_case}

-- A case that has just been opened.
pub record Opened (ctx : Context) (s : CaseState) : Type 0 where
  pub status : s.status ≡ case_created
  pub one_event : length s.audit_trail ≡ 1
  pub numbered : IsNumbered s.case_id 0 s.audit_trail
  pub unsigned : s.sign_off ≡ none
  pub unfailed : s.failed_step ≡ none
  pub known_customer : is_some (lookup s.customer_id ctx.store.customers) ≡ true
  pub some_focus : is_empty s.focus_transaction_ids ≡ false
  pub known_focus :
      all
        (λ t.
          member t (ids_of (or_empty (lookup s.customer_id ctx.store.transactions_by_customer))))
        s.focus_transaction_ids
      ≡ true

not-true : (b : Bool) → not b ≡ true → b ≡ false
not-true true h = sym h
not-true false h = refl

module _ (ctx : Context) where
  opened :
      (cid rid : String) (focus : List String) (days : ℕ)
      → contains cid ctx.store.customers ≡ true
      → is_empty focus ≡ false
      → all
          (λ t. member t (ids_of (or_empty (lookup cid ctx.store.transactions_by_customer))))
          focus
        ≡ true
      → Opened ctx (
          log ctx "coordinator" "create_case" none
            (some case_created)
            0
            true
            none
            end
            (fresh_case (case_name cid focus) rid cid focus days (ctx.clock 0)))
  unfolding log record_event contains
  opened cid rid focus days known full mine = record {
    status = refl;
    one_event = refl;
    numbered = (omega arith, refl, tt);
    unsigned = refl;
    unfailed = refl;
    known_customer = known;
    some_focus = full;
    known_focus = mine;
  }

  -- A case is opened only for a known customer and a focus of the customer's own transactions that
  -- is not empty; it has one event, numbered 1, no sign-off and no failed step.
  pub create_case-Opened :
      (cid : String) (ids : Option (List String)) (days : ℕ) (rid : String) (s : CaseState)
      → create_case ctx cid ids days rid ≡ ok s
      → Opened ctx s
  unfolding create_case log record_event
  create_case-Opened cid ids days rid s h =
      let history = or_empty (lookup cid ctx.store.transactions_by_customer) in
      let focus = focus_of ids history in
      let (u1, e1, h1) = >>=-eq-ok (guard (contains cid ctx.store.customers) _) _ h in
      let (u2, e2, h2) = >>=-eq-ok (guard (not (is_empty focus)) _) _ h1 in
      let (u3, e3, h3) = >>=-eq-ok (guard (all (λ t. member t (ids_of history)) focus) _) _ h2 in
      subst (Opened ctx) (ok-injective h3) (
        opened cid rid focus days (guard-ok _ _ u1 e1)
          (not-true (is_empty focus) (guard-ok _ _ u2 e2)) (guard-ok _ _ u3 e3))
