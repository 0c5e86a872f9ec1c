-- ===== src/Audit/Chain.antt =====
-- backend/app/services/audit_chain.py: the hash chain of a case's stored events, and the table of
-- backend/app/database/models.py. The hash is a parameter: `digest prev event` stands for
-- `hashlib.sha256(prev.encode() + _canonical(event)).hexdigest()`, and `genesis` for `GENESIS`.
use finguard_major_project.Prelude.{
  ℕ, ◌+◌, String, Bool, true, false, not, Option, none, some, List, [], ◌∷◌, ◌++◌, leb, ◌==◌,
  str_eq, filter, get_last, length, map, if◌then◌else◌,
}
use finguard_major_project.Prelude.Sorting.{sorted}
use finguard_major_project.Domain.{CaseStatus}
use finguard_major_project.Json.{Fields}
use finguard_major_project.Audit.{AuditEvent}

-- Statuses and details are stored as text and read back as the same values. The keys of the details are
-- in the order of `sort_keys`.
pub record AuditRow (Hash : Type 0) : Type 0 where
  pub case_id : String
  pub seq : ℕ
  pub timestamp : ℕ
  pub request_id : String
  pub actor : String
  pub action : String
  pub from_status : Option CaseStatus
  pub to_status : Option CaseStatus
  pub duration_ms : ℕ
  pub ok : Bool
  pub error : Option String
  pub details : Fields
  pub prev_hash : Hash
  pub hash : Hash

pub record ChainReport : Type 0 where
  pub ok : Bool
  pub events : ℕ
  pub first_bad_seq : Option ℕ
  pub reason : String

-- What the chain needs of the hash: equality of two digests, and the digest itself.
pub record Hashing : Type 1 where
  pub Hash : Type 0
  pub genesis : Hash
  pub digest : Hash → AuditEvent → Hash
  pub same : Discrete Hash

abbrev pub decide {ℓ} : {P : Type ℓ} → Dec P → Bool
decide (yes p) = true
decide (no p) = false

abbrev pub seq_le : {H : Type 0} → AuditRow H → AuditRow H → Bool
seq_le a b = leb a.seq b.seq

abbrev pub numbered : ℕ → AuditEvent → AuditEvent
numbered seq e = record e { event_id = seq }

-- The events with the numbers that the database gives them.
abbrev pub number_from : ℕ → List AuditEvent → List AuditEvent
number_from n [] = []
number_from n (e ∷ es) = numbered (n + 1) e ∷ number_from (n + 1) es

-- `ChainReport(False, len(rows), row.seq, reason)`
abbrev pub bad : ℕ → ℕ → String → ChainReport
bad total seq reason = record {
  ok = false;
  events = total;
  first_bad_seq = some seq;
  reason = reason;
}

module _ (h : Hashing) where
  open h use {Hash, genesis, digest, same}

  unfoldable pub row_to_event : AuditRow Hash → AuditEvent
  row_to_event row = record {
    event_id = row.seq;
    timestamp = row.timestamp;
    case_id = row.case_id;
    request_id = row.request_id;
    actor = row.actor;
    action = row.action;
    from_status = row.from_status;
    to_status = row.to_status;
    duration_ms = row.duration_ms;
    ok = row.ok;
    error = row.error;
    details = row.details;
  }

  -- The row of an event that has its number; the case id is the table's.
  unfoldable pub stored_row : String → ℕ → Hash → AuditEvent → AuditRow Hash
  stored_row case_id seq prev final = record {
    case_id = case_id;
    seq = seq;
    timestamp = final.timestamp;
    request_id = final.request_id;
    actor = final.actor;
    action = final.action;
    from_status = final.from_status;
    to_status = final.to_status;
    duration_ms = final.duration_ms;
    ok = final.ok;
    error = final.error;
    details = final.details;
    prev_hash = prev;
    hash = digest prev final;
  }

  -- `select(AuditRow).where(case_id).order_by(seq)`
  unfoldable pub rows_of : String → List (AuditRow Hash) → List (AuditRow Hash)
  unfolding sorted
  rows_of case_id table = sorted seq_le (filter (λ r. str_eq r.case_id case_id) table)

  -- The loop of `append_events`: the new rows, from the last number and hash.
  unfoldable pub new_rows : String → ℕ → Hash → List AuditEvent → List (AuditRow Hash)
  unfolding stored_row
  new_rows case_id seq prev [] = []
  new_rows case_id seq prev (e ∷ es) =
      let row = stored_row case_id (seq + 1) prev (numbered (seq + 1) e) in
      row ∷ new_rows case_id (seq + 1) row.hash es

  abbrev pub seq_of : Option (AuditRow Hash) → ℕ
  seq_of none = 0
  seq_of (some r) = r.seq

  abbrev pub hash_of : Option (AuditRow Hash) → Hash
  hash_of none = genesis
  hash_of (some r) = r.hash

  -- The table after `append_events`, and the stored events that it returns.
  unfoldable pub append_events :
      List (AuditRow Hash) → String → List AuditEvent → List (AuditRow Hash) × List AuditEvent
  unfolding rows_of new_rows
  append_events table case_id events =
      let last = get_last (rows_of case_id table) in
      let new = new_rows case_id (seq_of last) (hash_of last) events in
      (table ++ new, number_from (seq_of last) events)

  -- The loop of `verify_chain`; `total` is `len(rows)`.
  unfoldable pub verify_rows : ℕ → ℕ → Hash → List (AuditRow Hash) → ChainReport
  unfolding row_to_event
  verify_rows total expected prev [] = record {
    ok = true;
    events = total;
    first_bad_seq = none;
    reason = "";
  }
  verify_rows total expected prev (row ∷ rows) =
      let rest = verify_rows total (expected + 1) row.hash rows in
      if not (row.seq == expected)
      then bad total row.seq "sequence gap or reordering"
      else if not (decide (same row.prev_hash prev))
      then bad total row.seq "previous-hash link is broken"
      else if not (decide (same (digest prev (row_to_event row)) row.hash))
      then bad total row.seq "event content does not match its hash"
      else rest

  unfoldable pub verify_chain : List (AuditRow Hash) → String → ChainReport
  unfolding verify_rows rows_of
  verify_chain table case_id =
      let rows = rows_of case_id table in verify_rows (length rows) 1 genesis rows

  -- `load_audit` of backend/app/services/case_store.py.
  unfoldable pub load_audit : List (AuditRow Hash) → String → List AuditEvent
  unfolding row_to_event rows_of
  load_audit table case_id = map row_to_event (rows_of case_id table)
