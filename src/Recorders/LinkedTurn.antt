-- ===== src/Recorders/LinkedTurn.antt =====
-- A turn of the anchoring worker with its callbacks keeps the books in order.
use mathlib.Core.List.{append-nil}
use agora_perp_agent.Prelude.{
  String, ◌≡◌, refl, sym, subst, Option, none, some, List, [], ◌∷◌, ◌++◌, All, drop, length, inl,
  inr, Option-cases, Bool-cases,
}
use agora_perp_agent.Prelude.Errors.{Error, Result-cases}
use agora_perp_agent.Prelude.Dict.{Dict}
use agora_perp_agent.Contracts.{Position}
use agora_perp_agent.Audit.Record.{Codec}
use agora_perp_agent.Audit.Store.{Table, append, row_of}
use agora_perp_agent.Audit.Anchor.{
  Job, anchoring, pill, Worker, Answers, Completion, run_turn, take_job, anchor_one, with_anchor,
}
use agora_perp_agent.Snapshot.{SnapshotState}
use agora_perp_agent.Recorders.Books.{Trail, stored, anchored, Books, table_of}
use agora_perp_agent.Recorders.Callback.{
  hash_of, on_anchor_complete, call_back, turn_and_record, arcscan_tx, take_turns, overtaken,
}
use agora_perp_agent.Recorders.Links.{
  IsIn, IsIn-append, IsLinked, append-IsLinked, update_anchor-IsLinked,
}
use agora_perp_agent.Recorders.Told.{IsLinkedTo, WrittenAhead, IsWritten, IsWritten-append}

module _ {F T : Type 0} where
  call_back-IsLinked :
      (cs : List Completion) (held : Dict (Position F)) (table : Table T) (state : SnapshotState F)
      → IsLinked held table state
      → IsLinked held table (call_back cs state)
  unfolding on_anchor_complete
  call_back-IsLinked [] held table state h = h
  call_back-IsLinked (c ∷ cs) held table state h =
      call_back-IsLinked cs held table _ (one (hash_of c.result) c.error refl refl)
    where
      one :
          (tx : Option String) (failure : Option Error)
          → hash_of c.result ≡ tx
          → c.error ≡ failure
          → IsLinked held table (on_anchor_complete c state)
      one (some tx_hash) failure e k =
          simp (on_anchor_complete, e)
            (update_anchor-IsLinked c.asset c.audit_id (some tx_hash) (some (arcscan_tx tx_hash))
              "complete" held table state h)
      one none none e k = simp (on_anchor_complete, e, k) h
      one none (some x) e k =
          simp (on_anchor_complete, e, k)
            (update_anchor-IsLinked c.asset c.audit_id none none "error" held table state h)

  -- A turn adds rows to the table at most, and what is left on the queue has been written.
  abbrev Turned : Table T → Worker F T → Type 0
  Turned table w = (more : Table T) × (w.table ≡ table ++ more) × All (IsWritten w.table) w.queue

  same_table : (w : Worker F T) → All (IsWritten w.table) w.queue → Turned w.table w
  same_table w k = ([], sym (append-nil w.table), k)

  run_turn-Turned :
      (codec : Codec F T) (answers : Answers) (w : Worker F T)
      → All (IsWritten w.table) w.queue
      → Turned w.table (run_turn codec answers w)
  unfolding run_turn anchor_one append
  run_turn-Turned codec answers w h = elim (Bool-cases w.stopped) [
    | inl over ↦ simp (run_turn, over) (same_table w h)
    | inr going ↦ simp (run_turn, going) (took w.queue h)
  ]
    where
      took :
          (queue : List (Job F))
          → All (IsWritten w.table) queue
          → Turned w.table (take_job codec answers queue w)
      took [] k = same_table w h
      took (pill ∷ jobs) k = ([], sym (append-nil w.table), k.1)
      took (anchoring r asset ∷ jobs) k = elim (Result-cases answers.anchored) [
        | inr (e, failed) ↦ rw (anchor_one, failed) ([], sym (append-nil w.table), k.1)
        | inl (result, done) ↦ elim (Option-cases answers.write_error) [
          | inr (e, failed) ↦ rw (anchor_one, done, failed) ([], sym (append-nil w.table), k.1)
          | inl written ↦
              rw (anchor_one, done, written)
                (
                  row_of codec (with_anchor r result) ∷ [],
                  refl,
                  IsWritten-append w.table (row_of codec (with_anchor r result) ∷ []) jobs k.1,
                )
        ]
      ]

  pub turn-IsLinkedTo :
      (codec : Codec F T) (answers : Answers) (books : Books F T) (held : Dict (Position F))
      → IsLinkedTo books held
      → IsLinkedTo (turn_and_record codec answers books.trail books) held
  unfolding turn_and_record
  turn-IsLinkedTo codec answers books held (ahead, shows) =
      go books.trail books.dashboard (ahead, shows)
    where
      go :
          (trail : Trail F T) (dashboard : Option (SnapshotState F))
          → IsLinkedTo (record books { trail = trail; dashboard = dashboard }) held
          → IsLinkedTo
              (turn_and_record codec answers trail
                (record books { trail = trail; dashboard = dashboard }))
              held
      go (stored table) dashboard (ahead, shows) = (ahead, shows)
      go (anchored w) none (ahead, shows) = ((run_turn-Turned codec answers w ahead).2, tt)
      go (anchored w) (some state) (ahead, shows) =
          let (more, grown, left) = run_turn-Turned codec answers w ahead in
          (
            left,
            call_back-IsLinked (drop (length w.completions) (run_turn codec answers w).completions)
                held (run_turn codec answers w).table state
                (subst (λ table. IsLinked held table state) (sym grown)
                  (append-IsLinked held w.table more state shows)),
          )

  turn-IsIn :
      (codec : Codec F T) (answers : Answers) (books : Books F T) (held : Dict (Position F))
      (id : String)
      → IsLinkedTo books held
      → IsIn id (table_of books.trail)
      → IsIn id (table_of (turn_and_record codec answers books.trail books).trail)
  unfolding turn_and_record
  turn-IsIn codec answers books held id (ahead, shows) known = go books.trail ahead known
    where
      go :
          (trail : Trail F T)
          → WrittenAhead trail
          → IsIn id (table_of trail)
          → IsIn id (
              table_of (turn_and_record codec answers trail (record books { trail = trail })).trail)
      go (stored table) written k = k
      go (anchored w) written k =
          let (more, grown, left) = run_turn-Turned codec answers w written in
          subst (IsIn id) (sym grown) (IsIn-append id w.table more k)

  -- The books in order, with a row of the identifier.
  abbrev pub Knows : String → Dict (Position F) → Books F T → Type 0
  Knows id held books = IsLinkedTo books held × IsIn id (table_of books.trail)

  take_turns-IsLinkedTo :
      (codec : Codec F T) (turns : List Answers) (books : Books F T) (held : Dict (Position F))
      → IsLinkedTo books held
      → IsLinkedTo (take_turns codec turns books) held
  take_turns-IsLinkedTo codec [] books held h = h
  take_turns-IsLinkedTo codec (answers ∷ more) books held h =
      take_turns-IsLinkedTo codec more _ held (turn-IsLinkedTo codec answers books held h)

  take_turns-Knows :
      (codec : Codec F T) (turns : List Answers) (books : Books F T) (held : Dict (Position F))
      (id : String)
      → Knows id held books
      → Knows id held (take_turns codec turns books)
  take_turns-Knows codec [] books held id h = h
  take_turns-Knows codec (answers ∷ more) books held id (h, known) =
      take_turns-Knows codec more _ held id
        (turn-IsLinkedTo codec answers books held h, turn-IsIn codec answers books held id h known)

  pub overtaken-IsLinkedTo :
      (codec : Codec F T) (books : Books F T) (held : Dict (Position F))
      → IsLinkedTo books held
      → IsLinkedTo (overtaken codec books) held
  unfolding overtaken
  overtaken-IsLinkedTo codec books held h = go books.turns
    where
      go :
          (turns : List (List Answers))
          → IsLinkedTo
              (elim turns [
                | [] ↦ books
                | now ∷ later ↦ take_turns codec now (record books { turns = later })
              ])
              held
      go [] = h
      go (now ∷ later) = take_turns-IsLinkedTo codec now (record books { turns = later }) held h

  pub overtaken-Knows :
      (codec : Codec F T) (books : Books F T) (held : Dict (Position F)) (id : String)
      → Knows id held books
      → Knows id held (overtaken codec books)
  unfolding overtaken
  overtaken-Knows codec books held id h = go books.turns
    where
      go :
          (turns : List (List Answers))
          → Knows id held (elim turns [
            | [] ↦ books
            | now ∷ later ↦ take_turns codec now (record books { turns = later })
          ])
      go [] = h
      go (now ∷ later) = take_turns-Knows codec now (record books { turns = later }) held id h
