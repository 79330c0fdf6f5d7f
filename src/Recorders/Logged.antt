-- ===== src/Recorders/Logged.antt =====
-- What is recorded of a fill keeps the books in order.
use agora_perp_agent.Prelude.{String, Option, none, some, [], ◌∷◌, ◌++◌, inl, inr, Bool-cases}
use agora_perp_agent.Prelude.Dict.{Dict, insert, erase}
use agora_perp_agent.Float.Ops.{Float}
use agora_perp_agent.Contracts.{SizedCandidate, Position, Fill, Decision}
use agora_perp_agent.Contracts.Json.{Row}
use agora_perp_agent.Audit.Record.{Codec, AuditRecord}
use agora_perp_agent.Audit.Store.{append, row_of}
use agora_perp_agent.Audit.Anchor.{anchoring, submit, is_full}
use agora_perp_agent.Snapshot.{SnapshotState, Opening, record_open, record_close, record_decision}
use agora_perp_agent.Recorders.Books.{
  Stamp, anchor_state_of, Tools, Trail, stored, anchored, Books, table_of, append_row, submit_job,
  show,
}
use agora_perp_agent.Recorders.Callback.{overtaken}
use agora_perp_agent.Recorders.Entry.{opening_of, decision_row, log_appended}
use agora_perp_agent.Recorders.Exit.{closing_of, log_close}
use agora_perp_agent.Recorders.Links.{
  IsIn, append-IsIn, append-IsLinked, record_open-IsLinked, record_close-IsLinked,
}
use agora_perp_agent.Recorders.LinkedTurn.{Knows, overtaken-IsLinkedTo, overtaken-Knows}
use agora_perp_agent.Recorders.Told.{
  IsLinkedTo, IsWritten-append, IsWritten-put, Shows, WrittenAhead,
}

module _ {F T : Type 0} where
  append_row-Knows :
      (codec : Codec F T) (r : AuditRecord F) (books : Books F T) (held : Dict (Position F))
      → IsLinkedTo books held
      → Knows r.audit_id held (record books { trail = append_row codec r books.trail })
  unfolding append_row append
  append_row-Knows codec r books held (ahead, shows) = go books.trail books.dashboard ahead shows
    where
      shown :
          (trail : Trail F T) (dashboard : Option (SnapshotState F))
          → Shows held (table_of trail) dashboard
          → Shows held (table_of trail ++ row_of codec r ∷ []) dashboard
      shown trail none k = tt
      shown trail (some state) k =
          append-IsLinked held (table_of trail) (row_of codec r ∷ []) state k

      go :
          (trail : Trail F T) (dashboard : Option (SnapshotState F))
          → WrittenAhead trail
          → Shows held (table_of trail) dashboard
          → Knows r.audit_id held
              (record books { trail = append_row codec r trail; dashboard = dashboard })
      go (stored table) dashboard written k =
          ((tt, shown (stored table) dashboard k), append-IsIn table (row_of codec r))
      go (anchored w) dashboard written k = (
        (
          IsWritten-append w.table (row_of codec r ∷ []) w.queue written,
          shown (anchored w) dashboard k,
        ),
        append-IsIn w.table (row_of codec r),
      )

  show_open-Knows :
      (o : Opening F) (row : Row F) (pos : Position F) (books : Books F T)
      (held : Dict (Position F))
      → Knows o.audit_id held books
      → Knows o.audit_id
          (insert o.asset pos held)
          (show (λ state. record_decision row (record_open o state)) books)
  show_open-Knows o row pos books held ((ahead, shows), known) =
      ((ahead, go books.dashboard shows), known)
    where
      go :
          (dashboard : Option (SnapshotState F))
          → Shows held (table_of books.trail) dashboard
          → Shows
              (insert o.asset pos held)
              (table_of books.trail)
              (show
                (λ state. record_decision row (record_open o state))
                (record books { dashboard = dashboard })).dashboard
      go none k = tt
      go (some state) k = record_open-IsLinked o row pos held (table_of books.trail) state known k

  submit_job-IsLinkedTo :
      (r : AuditRecord F) (asset : String) (books : Books F T) (held : Dict (Position F))
      → Knows r.audit_id held books
      → IsLinkedTo (record books { trail = submit_job r asset books.trail }) held
  unfolding submit_job submit
  submit_job-IsLinkedTo r asset books held ((ahead, shows), known) =
      go books.trail ahead shows known
    where
      go :
          (trail : Trail F T)
          → WrittenAhead trail
          → Shows held (table_of trail) books.dashboard
          → IsIn r.audit_id (table_of trail)
          → IsLinkedTo (record books { trail = submit_job r asset trail }) held
      go (stored table) written k j = (tt, k)
      go (anchored w) written k j = elim (Bool-cases (is_full w)) [
        | inl full ↦ rw (submit, full) (written, k)
        | inr room ↦
            rw (submit, room)
              (IsWritten-put w.table w.queue (anchoring r (some asset)) written j, k)
      ]

  pub log_appended-IsLinkedTo :
      (tools : Tools F T) (stamp : Stamp) (r : AuditRecord F) (d : Decision F)
      (sized : SizedCandidate F) (fill : Fill F) (pos : Position F) (books : Books F T)
      (held : Dict (Position F))
      → IsLinkedTo books held
      → IsLinkedTo (log_appended tools stamp r d sized fill books) (insert d.asset pos held)
  log_appended-IsLinkedTo tools stamp r d sized fill pos books held h =
      let o = opening_of r d sized fill in
      let row = decision_row r (anchor_state_of books.trail) stamp.decided_at_iso d sized fill in
      let appended = record books { trail = append_row tools.codec r books.trail } in
      let written = overtaken tools.codec appended in
      let opened = show (λ state. record_decision row (record_open o state)) written in
      submit_job-IsLinkedTo r d.asset (overtaken tools.codec opened) (insert d.asset pos held) (
        overtaken-Knows tools.codec opened (insert d.asset pos held) r.audit_id (
          show_open-Knows o row pos written held (
            overtaken-Knows tools.codec appended held r.audit_id
              (append_row-Knows tools.codec r books held h))))

module _ {F T : Type 0} ⦃f : Float F⦄ where
  pub log_close-IsLinkedTo :
      (tools : Tools F T) (trigger asset : String) (pos : Position F) (fill : Fill F)
      (books : Books F T) (held : Dict (Position F))
      → IsLinkedTo books held
      → IsLinkedTo (log_close tools trigger asset pos fill books) (erase asset held)
  unfolding log_close
  log_close-IsLinkedTo tools trigger asset pos fill books held h =
      go (overtaken tools.codec books) (overtaken-IsLinkedTo tools.codec books held h)
    where
      go :
          (now : Books F T)
          → IsLinkedTo now held
          → IsLinkedTo
              (show (record_close tools.seconds (closing_of tools trigger asset pos fill)) now)
              (erase asset held)
      go now (ahead, shows) = (ahead, closed now.dashboard shows)
        where
          closed :
              (dashboard : Option (SnapshotState F))
              → Shows held (table_of now.trail) dashboard
              → Shows
                  (erase asset held)
                  (table_of now.trail)
                  (show
                    (record_close tools.seconds (closing_of tools trigger asset pos fill))
                    (record now { dashboard = dashboard })).dashboard
          closed none k = tt
          closed (some state) k =
              record_close-IsLinked tools.seconds (closing_of tools trigger asset pos fill) held
                (table_of now.trail) state k
