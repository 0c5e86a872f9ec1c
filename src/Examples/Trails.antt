-- ===== src/Examples/Trails.antt =====
-- The stored trails at concrete tables. The digest is the list of the events that it covers, which
-- no two chains share.
use finguard_major_project.Prelude.{
  String, ◌≡◌, ◌↔◌, refl, true, none, List, [], ◌∷◌, get_last, Bool-cases, inl, inr, str_eq, arith,
  eq_iff, ap, sym, subst,
}
use native.Mathlib.Decide.{ℕ_discrete}
use finguard_major_project.Json.{Fields, end}
use finguard_major_project.Audit.{AuditEvent}
use finguard_major_project.Audit.Chain.{
  AuditRow, Hashing, rows_of, append_events, verify_chain, load_audit, hash_of,
}
use finguard_major_project.Audit.Integrity.{
  CollisionFree, IsChain, verify_chain-IsChain_iff, verify_chain-evidence,
}
use finguard_major_project.Audit.Appending.{append_events-verified, append_events-others}

String-discrete : Discrete String
String-discrete s t = elim (Bool-cases (str_eq s t)) [
  | inl h ↦ yes (ground (arith, eq_iff s t))
  | inr h ↦ no (λ e. ground (arith, eq_iff s t))
]

Fields-discrete : Discrete Fields
Fields-discrete = hlevel (ℕ_discrete, String-discrete)

AuditEvent-discrete : Discrete AuditEvent
AuditEvent-discrete = hlevel (ℕ_discrete, String-discrete)

pub Trail-discrete : Discrete (List AuditEvent)
Trail-discrete = hlevel (ℕ_discrete, String-discrete)

abbrev pub hashing : Hashing
hashing = record {
  Hash = List AuditEvent;
  genesis = [];
  digest = λ p e. e ∷ p;
  same = Trail-discrete;
}

hashing-CollisionFree : CollisionFree hashing
hashing-CollisionFree = record { injective = λ p q e f h. (cc h, cc h); fresh = λ p e h. cc h }

abbrev event : String → AuditEvent
event action = record {
  event_id = 0;
  timestamp = 5;
  case_id = "A";
  request_id = "req";
  actor = "coordinator";
  action = action;
  from_status = none;
  to_status = none;
  duration_ms = 0;
  ok = true;
  error = none;
  details = end;
}

abbrev two : List AuditEvent
two = event "create_case" ∷ event "prepare_data" ∷ []

abbrev table : List (AuditRow (List AuditEvent))
table = (append_events hashing [] "A" two).0

pub empty-verified : (verify_chain hashing [] "A").ok ≡ true
unfolding verify_chain
empty-verified = refl

table-verified : (verify_chain hashing table "A").ok ≡ true
table-verified = append_events-verified hashing [] "A" two (refl, (refl, tt)) empty-verified

append_events-verified_example : (verify_chain hashing table "A").ok ≡ true
append_events-verified_example =
    append_events-verified hashing [] "A" two (refl, (refl, tt)) empty-verified

append_events-others_example : rows_of hashing "B" table ≡ rows_of hashing "B" []
append_events-others_example =
    append_events-others hashing [] "A" "B" two (λ e. ground (arith, eq_iff "A" "B"))

verify_chain-IsChain_iff_example :
    ((verify_chain hashing table "A").ok ≡ true) ↔ IsChain hashing 1 [] (rows_of hashing "A" table)
verify_chain-IsChain_iff_example = verify_chain-IsChain_iff hashing table "A"

-- The same trail, where the table also holds another case.
abbrev wider : List (AuditRow (List AuditEvent))
wider = (append_events hashing table "B" ((record (event "create_case") { case_id = "B" }) ∷ [])).0

wider-same : rows_of hashing "A" wider ≡ rows_of hashing "A" table
unfolding append_events rows_of
wider-same = refl

wider-verified : (verify_chain hashing wider "A").ok ≡ true
wider-verified = (verify_chain-IsChain_iff hashing wider "A").1 (
    subst (IsChain hashing 1 []) (sym wider-same)
      ((verify_chain-IsChain_iff hashing table "A").0 table-verified))

verify_chain-evidence_example : load_audit hashing table "A" ≡ load_audit hashing wider "A"
verify_chain-evidence_example =
    verify_chain-evidence hashing hashing-CollisionFree table wider "A" table-verified
      wider-verified (ap (λ rows. hash_of hashing (get_last rows)) (sym wider-same))
