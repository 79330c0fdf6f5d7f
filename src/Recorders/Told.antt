-- ===== src/Recorders/Told.antt =====
-- The links of the dashboard and the queue of the worker in order.
use agora_perp_agent.Prelude.{Option, none, some, List, [], ◌∷◌, ◌++◌, All}
use agora_perp_agent.Prelude.Dict.{Dict}
use agora_perp_agent.Contracts.{Position}
use agora_perp_agent.Audit.Store.{Table}
use agora_perp_agent.Audit.Anchor.{Job, anchoring, pill}
use agora_perp_agent.Snapshot.{SnapshotState}
use agora_perp_agent.Recorders.Books.{Trail, stored, anchored, Books, table_of}
use agora_perp_agent.Recorders.Links.{IsIn, IsIn-append, IsLinked}

module _ {F T : Type 0} where
  -- The record that is to be anchored stands in the table.
  abbrev pub IsWritten : Table T → Job F → Type 0
  IsWritten table (anchoring r asset) = IsIn r.audit_id table
  IsWritten table pill = Unit

  abbrev pub WrittenAhead : Trail F T → Type 0
  WrittenAhead (stored table) = Unit
  WrittenAhead (anchored w) = All (IsWritten w.table) w.queue

  abbrev pub Shows : Dict (Position F) → Table T → Option (SnapshotState F) → Type 0
  Shows held table none = Unit
  Shows held table (some state) = IsLinked held table state

  -- Every record in the worker's queue has been written to the store before, and the dashboard's links,
  -- where there is a dashboard, are those of the open positions and name rows of the store.
  abbrev pub IsLinkedTo : Books F T → Dict (Position F) → Type 0
  IsLinkedTo books held =
      WrittenAhead books.trail × Shows held (table_of books.trail) books.dashboard

  pub IsWritten-append :
      (table more : Table T) (jobs : List (Job F))
      → All (IsWritten table) jobs
      → All (IsWritten (table ++ more)) jobs
  IsWritten-append table more [] h = tt
  IsWritten-append table more (anchoring r asset ∷ jobs) (known, rest) =
      (IsIn-append r.audit_id table more known, IsWritten-append table more jobs rest)
  IsWritten-append table more (pill ∷ jobs) (known, rest) =
      (tt, IsWritten-append table more jobs rest)

  pub IsWritten-put :
      (table : Table T) (jobs : List (Job F)) (job : Job F)
      → All (IsWritten table) jobs
      → IsWritten table job
      → All (IsWritten table) (jobs ++ job ∷ [])
  IsWritten-put table [] job h k = (k, tt)
  IsWritten-put table (first ∷ jobs) job (known, rest) k =
      (known, IsWritten-put table jobs job rest k)
