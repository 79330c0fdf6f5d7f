-- ===== src/Audit/Store.antt =====
-- agent/audit.py: `AuditStore`. The table is the list of its rows in the order of their numbers, which
-- start at 1; no statement of the class updates or deletes a row.
use Prim.Native.Nat.{◌+◌}
use agora_perp_agent.Prelude.{
  ℕ, String, Bool, ◌&&◌, ◌==◌, Option, none, some, List, [], ◌∷◌, ◌++◌, if◌then◌else◌, length,
}
use agora_perp_agent.Prelude.Errors.{Result, ok, err, ◌>>=◌}
use agora_perp_agent.Float.Ops.{Float, ◌>=?◌}
use agora_perp_agent.Audit.Record.{
  Codec, AuditRecord, canonical_json, anchor_hash, record_from_json,
}

pub record StoredRow (T : Type 0) : Type 0 where
  pub audit_id : String
  pub decision_id : String
  pub agent_address : String
  pub asset : String
  pub verdict : String
  pub outcome : String
  pub decided_at_iso : String
  pub anchor_hash_hex : String
  pub arc_tx_hash : Option String
  pub arc_job_id : Option ℕ
  pub record_json : T

abbrev pub Table : Type 0 → Type 0
Table T = List (StoredRow T)

-- `WHERE ... ORDER BY rowid DESC LIMIT 1`
abbrev pub last_where : {A : Type 0} → (A → Bool) → List A → Option A
last_where test [] = none
last_where test (x ∷ xs) = elim (last_where test xs) [
  | none ↦ if test x then some x else none
  | some y ↦ some y
]

module _ {F T : Type 0} (codec : Codec F T) where
  abbrev pub row_of : AuditRecord F → StoredRow T
  row_of r = record {
    audit_id = r.audit_id;
    decision_id = r.decision_id;
    agent_address = r.agent_address;
    asset = r.asset;
    verdict = r.verdict;
    outcome = r.outcome;
    decided_at_iso = r.decided_at_iso;
    anchor_hash_hex = anchor_hash codec r;
    arc_tx_hash = r.arc_tx_hash;
    arc_job_id = r.arc_job_id;
    record_json = canonical_json codec r;
  }

  -- The number of the new row, and the table with it.
  unfoldable pub append : AuditRecord F → Table T → ℕ × Table T
  append r table = (length table + 1, table ++ row_of r ∷ [])

  abbrev pub has_id : String → StoredRow T → Bool
  has_id id row = row.audit_id == id

  abbrev pub read_row : Option (StoredRow T) → Result (Option (AuditRecord F))
  read_row none = ok none
  read_row (some row) = record_from_json codec row.record_json >>= λ r. ok (some r)

  unfoldable pub latest : String → Table T → Result (Option (AuditRecord F))
  latest id table = read_row (last_where (has_id id) table)

  abbrev pub awaits : StoredRow T → Bool
  awaits row = row.outcome == "PENDING" && row.verdict == "EXECUTE"

  -- A record before the others, if both were read.
  abbrev pub prepended :
      Result (AuditRecord F) → Result (List (AuditRecord F)) → Result (List (AuditRecord F))
  prepended (err e) rest = err e
  prepended (ok r) (err e) = err e
  prepended (ok r) (ok rs) = ok (r ∷ rs)

  -- The records of the rows that wait, in order; an exception of the parser ends the call.
  unfoldable pub read_pending : Table T → Result (List (AuditRecord F))
  read_pending [] = ok []
  read_pending (row ∷ rows) =
      let rest = read_pending rows in
      if awaits row then prepended (record_from_json codec row.record_json) rest else rest

  unfoldable pub count : Table T → ℕ
  count table = length table

module _ {F T : Type 0} ⦃f : Float F⦄ (codec : Codec F T) where
  -- The loop over the records, with the age in seconds that `datetime` computes of a decision's time.
  unfoldable pub older_than :
      (String → Result F) → F → List (AuditRecord F) → Result (List (AuditRecord F))
  older_than age cutoff [] = ok []
  older_than age cutoff (r ∷ rs) =
      let rest = older_than age cutoff rs in
      age r.decided_at_iso >>= λ a. rest >>= λ kept. ok (if a >=? cutoff then r ∷ kept else kept)

  unfoldable pub list_pending :
      (String → Result F) → Option F → Table T → Result (List (AuditRecord F))
  unfolding read_pending older_than
  list_pending age none table = read_pending codec table
  list_pending age (some cutoff) table = read_pending codec table >>= older_than age cutoff
