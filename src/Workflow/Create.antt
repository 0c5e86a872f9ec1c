-- ===== src/Workflow/Create.antt =====
-- `CaseWorkflow.create_case`: the customer and the focus must be known.
use finguard_major_project.Prelude.{
  ℕ, String, true, not, Option, none, some, List, [], ◌∷◌, is_empty, all,
}
use finguard_major_project.Json.{end}
use finguard_major_project.Dict.{lookup, contains}
use finguard_major_project.Domain.{Transaction, case_created}
use finguard_major_project.Outcome.{Outcome, ok, key_error, value_error, guard, ◌>>◌}
use finguard_major_project.Pipeline.Store.{or_empty, ids_of, member, case_name}
use finguard_major_project.Case.{CaseState, fresh_case}
use finguard_major_project.Workflow.Steps.{Context}
use finguard_major_project.Workflow.Run.{log}

-- `transaction_ids or ([history[-1].transaction_id] if history else [])`
abbrev pub last_ids : List Transaction → List String
last_ids [] = []
last_ids (t ∷ []) = t.transaction_id ∷ []
last_ids (t ∷ u ∷ ts) = last_ids (u ∷ ts)

unfoldable pub focus_of : Option (List String) → List Transaction → List String
focus_of none history = last_ids history
focus_of (some []) history = last_ids history
focus_of (some (k ∷ ks)) history = k ∷ ks

module _ (ctx : Context) where
  -- `request_id` is the caller's or the identifier that the source draws at random.
  unfoldable pub create_case : String → Option (List String) → ℕ → String → Outcome CaseState
  unfolding focus_of contains lookup log
  create_case customer_id transaction_ids context_days request_id = do
    guard (contains customer_id ctx.store.customers) (key_error "unknown customer")
    let history = or_empty (lookup customer_id ctx.store.transactions_by_customer)
    let focus = focus_of transaction_ids history
    guard (not (is_empty focus)) (value_error "customer has no transactions")
    guard (all (λ t. member t (ids_of history)) focus) (value_error "transactions not found")
    let case =
        fresh_case (case_name customer_id focus) request_id customer_id focus context_days
          (ctx.clock 0)
    ok (log ctx "coordinator" "create_case" none (some case_created) 0 true none end case)
