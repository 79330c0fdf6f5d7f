-- ===== src/Audit/Anchor.antt =====
-- agent/anchor_worker.py: `AnchorWorker`. A step is a call by the trading loop, or one turn of the
-- worker thread, with what the anchoring service and the database answered; a time-out of the queue is
-- a turn on an empty queue.
use agora_perp_agent.Prelude.{
  ℕ, String, Bool, true, Option, none, some, List, [], ◌∷◌, ◌++◌, if◌then◌else◌, ltb, length, not,
  ◌&&◌,
}
use agora_perp_agent.Prelude.Errors.{Error, Result, ok, err}
use agora_perp_agent.Audit.Record.{Codec, AuditRecord}
use agora_perp_agent.Audit.Store.{Table, append}

-- The two fields of the service's answer that are used here.
pub record AnchorResult : Type 0 where
  pub arc_tx_hash : Option String
  pub arc_job_id : Option ℕ

pub data Job (F : Type 0) : Type 0 where
  anchoring : AuditRecord F → Option String → Job F
  pill : Job F

-- A call of `on_complete`.
pub record Completion : Type 0 where
  pub audit_id : String
  pub asset : Option String
  pub result : Option AnchorResult
  pub error : Option Error

-- The worker with the table that it appends to and the callbacks that it made.
pub record Worker (F T : Type 0) : Type 0 where
  pub max_queue : ℕ
  pub queue : List (Job F)
  pub stopped : Bool
  pub table : Table T
  pub completions : List Completion

-- What the outside answers to one anchoring: the service, and the database if it raises.
pub record Answers : Type 0 where
  pub anchored : Result AnchorResult
  pub write_error : Option Error

pub data Event (F : Type 0) : Type 0 where
  submitted : AuditRecord F → Option String → Event F
  closing : Event F
  turn : Answers → Event F

module _ {F : Type 0} where
  -- `replace(record, arc_tx_hash=..., arc_job_id=...)`
  abbrev pub with_anchor : AuditRecord F → AnchorResult → AuditRecord F
  with_anchor r result = record r {
    arc_tx_hash = result.arc_tx_hash;
    arc_job_id = result.arc_job_id;
  }

  abbrev pub complete :
      AuditRecord F → Option String → Option AnchorResult → Option Error → Completion
  complete r asset result error = record {
    audit_id = r.audit_id;
    asset = asset;
    result = result;
    error = error;
  }

module _ {F T : Type 0} where
  -- `queue.Full`: a queue without a positive bound is never full.
  abbrev pub is_full : Worker F T → Bool
  is_full w = ltb 0 w.max_queue && not (ltb (length w.queue) w.max_queue)

  -- `put_nowait`
  abbrev pub put : Job F → Worker F T → Worker F T
  put job w = record w { queue = w.queue ++ job ∷ [] }

  unfoldable pub submit : AuditRecord F → Option String → Worker F T → Worker F T
  submit r asset w = if is_full w then w else put (anchoring r asset) w

  -- `close`, up to the wait for the thread.
  unfoldable pub close : Worker F T → Worker F T
  close w = if is_full w then record w { stopped = true } else put pill w

module _ {F T : Type 0} (codec : Codec F T) where
  -- `_anchor_one`; a callback that raises changes nothing.
  unfoldable pub anchor_one : Answers → AuditRecord F → Option String → Worker F T → Worker F T
  anchor_one answers r asset w = elim answers.anchored [
    | err e ↦ record w { completions = w.completions ++ complete r asset none (some e) ∷ [] }
    | ok result ↦ elim answers.write_error [
      | some e ↦ record w {
        completions = w.completions ++ complete r asset (some result) (some e) ∷ [];
      }
      | none ↦ record w {
        table = (append codec (with_anchor r result) w.table).1;
        completions = w.completions ++ complete r asset (some result) none ∷ [];
      }
    ]
  ]

  -- What is done with the item that `get` returned.
  abbrev pub handle : Answers → Job F → Worker F T → Worker F T
  handle answers pill w = record w { stopped = true }
  handle answers (anchoring r asset) w = anchor_one answers r asset w

  abbrev pub take_job : Answers → List (Job F) → Worker F T → Worker F T
  take_job answers [] w = w
  take_job answers (job ∷ jobs) w = handle answers job (record w { queue = jobs })

  -- One turn of the loop of `_run`.
  unfoldable pub run_turn : Answers → Worker F T → Worker F T
  run_turn answers w = if w.stopped then w else take_job answers w.queue w

  unfoldable pub react : Event F → Worker F T → Worker F T
  unfolding submit close run_turn
  react (submitted r asset) w = submit r asset w
  react closing w = close w
  react (turn answers) w = run_turn answers w

  unfoldable pub react_all : List (Event F) → Worker F T → Worker F T
  react_all [] w = w
  react_all (e ∷ es) w = react_all es (react e w)
