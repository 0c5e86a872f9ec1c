-- ===== src/Api/Candidates.antt =====
-- `candidates` of backend/app/api/cases.py: the transactions that could be opened as cases.
-- `trained_until` is that of the anomaly model of the context, as a time. The
-- engine gets its context together with its workflow, so `ready` stands for both tests.
use Prim.Native.String.{◌++◌ as str_append}
use finguard_major_project.Prelude.{
  ℕ, String, Bool, List, [], ◌∷◌, ◌++◌, Option, map, filter, take, leb,
}
use finguard_major_project.Prelude.Int.{ℤ}
use finguard_major_project.Prelude.Sorting.{sorted}
use finguard_major_project.Outcome.{Outcome, ok, ◌>>=◌}
use finguard_major_project.Domain.{Transaction}
use finguard_major_project.Dict.{contains}
use finguard_major_project.Audit.Chain.{Hashing}
use finguard_major_project.Api.Rows.{Session}
use finguard_major_project.Api.Jobs.{EngineService, ready}

pub record CandidateOut : Type 0 where
  pub customer_id : String
  pub transaction_id : String
  pub timestamp : ℕ
  pub amount : ℤ
  pub currency : String
  pub has_case : Bool

-- `[t for v in store.transactions_by_customer.values() for t in v if ...]`
unfoldable pub held_out : ℕ → List (String × List Transaction) → List Transaction
held_out trained_until [] = []
held_out trained_until (v ∷ vs) =
    filter (λ t. leb trained_until t.timestamp) v.1 ++ held_out trained_until vs

-- `sort(key=..., reverse=True)`, which keeps the order of equal times.
abbrev pub latest : Transaction → Transaction → Bool
latest a b = leb b.timestamp a.timestamp

-- The identifier that a case of the transaction has.
abbrev pub case_of : Transaction → String
case_of t = str_append "CASE-" (str_append t.customer_id (str_append "-" t.transaction_id))

module _ {h : Hashing} where
  abbrev pub candidate_out : Session h → Transaction → CandidateOut
  candidate_out session t = record {
    customer_id = t.customer_id;
    transaction_id = t.transaction_id;
    timestamp = t.timestamp;
    amount = t.amount;
    currency = t.currency;
    has_case = contains (case_of t) session.cases;
  }

  unfoldable pub candidates : Option EngineService → ℕ → Session h → ℕ → Outcome (List CandidateOut)
  unfolding held_out sorted contains
  candidates engine trained_until session limit = ready engine >>= λ ctx. ok (
      map (candidate_out session)
        (take limit (sorted latest (held_out trained_until ctx.store.transactions_by_customer))))
