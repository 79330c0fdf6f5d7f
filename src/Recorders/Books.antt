-- ===== src/Recorders/Books.antt =====
-- cli/run.py: the recorders of the loop. They are the audit store with the anchoring worker, if there is
-- one, and the dashboard's memory, if there is one. What is not of the program is a parameter: `json`,
-- the hash function, and the clock, the identifier and the nonce of the n-th row of the store.
use agora_perp_agent.Prelude.{ℕ, String, Option, none, some, List}
use agora_perp_agent.Prelude.Errors.{Error, Result}
use agora_perp_agent.Contracts.Json.{Json}
use agora_perp_agent.Audit.Record.{Codec, AuditRecord, Fresh}
use agora_perp_agent.Audit.Store.{Table, append}
use agora_perp_agent.Audit.Anchor.{Worker, Answers, submit}
use agora_perp_agent.Snapshot.{SnapshotState}

-- What is taken from outside when a row is written.
pub record Stamp : Type 0 where
  pub fresh : Fresh
  -- the time of the dashboard's row
  pub decided_at_iso : String

pub record Tools (F T : Type 0) : Type 0 where
  pub codec : Codec F T
  -- `json.dumps` with sorted keys and no white space, and `str` for what is not JSON
  pub dumps : Json F → T
  pub stamp : ℕ → Stamp
  -- `isoformat`
  pub iso : ℕ → String
  -- the seconds between two such texts
  pub seconds : String → String → Result F
  pub chain_id : ℕ
  pub agent_wallet : String
  -- the exception with which the loop's append of the n-th row ends, if it does: encoding the record or
  -- inserting the row raises
  pub refuses : ℕ → Option Error

-- The audit store alone, or with the worker that shares it.
pub data Trail (F T : Type 0) : Type 0 where
  stored : Table T → Trail F T
  anchored : Worker F T → Trail F T

pub record Books (F T : Type 0) : Type 0 where
  pub trail : Trail F T
  pub dashboard : Option (SnapshotState F)
  -- the turns of the anchoring thread before each of the loop's next accesses to the books
  pub turns : List (List Answers)

module _ {F T : Type 0} where
  abbrev pub table_of : Trail F T → Table T
  table_of (stored table) = table
  table_of (anchored w) = w.table

  -- `audit_store.append(record)`, where it returns
  unfoldable pub append_row : Codec F T → AuditRecord F → Trail F T → Trail F T
  append_row codec r (stored table) = stored (append codec r table).1
  append_row codec r (anchored w) = anchored (record w { table = (append codec r w.table).1 })

  -- `anchor_worker.submit(record, asset)`, if there is a worker
  unfoldable pub submit_job : AuditRecord F → String → Trail F T → Trail F T
  submit_job r asset (stored table) = stored table
  submit_job r asset (anchored w) = anchored (submit r (some asset) w)

  -- The state of the anchor of a new decision.
  abbrev pub anchor_state_of : Trail F T → String
  anchor_state_of (stored table) = "off"
  anchor_state_of (anchored w) = "pending"

  -- A call on the dashboard's memory, if there is one.
  abbrev pub show : (SnapshotState F → SnapshotState F) → Books F T → Books F T
  show change books = record books {
    dashboard = elim books.dashboard [ none ↦ none | some state ↦ some (change state) ];
  }
