-- ===== src/Recorders/Linked.antt =====
-- Deciding and watching with the recorders keep the books in order.
use agora_perp_agent.Prelude.{
  String, ◌≡◌, ◌⊎◌, ◌∙◌, refl, sym, ap, subst, true, false, length, Option, none, some, List, [],
  ◌∷◌, inl, inr, Option-cases,
}
use agora_perp_agent.Prelude.Errors.{Error, Result, ok, err}
use agora_perp_agent.Prelude.Dict.{Dict, lookup, contains, insert, Entries, lookup-Entries}
use agora_perp_agent.Float.Ops.{Float}
use agora_perp_agent.Contracts.{
  FeeSchedule, MarketData, SizedCandidate, Position, PortfolioState, Fill, RegimeTag, Decision,
  Intent, enter, cut, flip, hold, skip, other_action,
}
use agora_perp_agent.Allocate.{Board}
use agora_perp_agent.Executor.{
  open_sized, close, tick, tick_position, check_stops, position_at, accrue_funding, sized_position,
}
use agora_perp_agent.Executor.Outcome.{
  Opened, Closed, open_sized_outcome, close_outcome, check_stops_cases, fired, close_missing,
}
use agora_perp_agent.Loop.Decisions.{
  Engine, Desk, Screened, refused, raised, passed, screen, vetoed,
}
use agora_perp_agent.Snapshot.{SnapshotState}
use agora_perp_agent.Recorders.Books.{Stamp, Tools, Books, table_of}
use agora_perp_agent.Recorders.Links.{insert-IsLinked}
use agora_perp_agent.Recorders.Entry.{record_of, log_open}
use agora_perp_agent.Recorders.Callback.{overtaken}
use agora_perp_agent.Recorders.Exit.{log_stop, log_close, trigger_of}
use agora_perp_agent.Recorders.Decide.{
  Recorded, placed_and_logged, enter_and_record, closed_and_logged, close_and_record,
  apply_and_record, noted_and_logged, watch_and_record,
}
use agora_perp_agent.Recorders.Same.{not_held, is_held}
use agora_perp_agent.Recorders.Seed.{PassesSeed, screen-PassesSeed}
use agora_perp_agent.Recorders.Told.{IsLinkedTo, Shows}
use agora_perp_agent.Recorders.LinkedTurn.{overtaken-IsLinkedTo}
use agora_perp_agent.Recorders.Logged.{log_appended-IsLinkedTo, log_close-IsLinkedTo}

-- Each snapshot is of the asset that it is filed under.
abbrev pub IsTitled : {F : Type 0} → Dict (MarketData F) → Type 0
IsTitled snapshots = Entries (λ asset snap. snap.asset ≡ asset) snapshots

module _ {F T : Type 0} where
  -- The books are in order but for one new position, of which nothing is recorded: the append of its
  -- row was refused with the exception.
  abbrev pub Unrecorded : Tools F T → Error → Books F T → Dict (Position F) → Type 0
  Unrecorded tools e books held =
      (asset : String) × (pos : Position F) × (before : Dict (Position F)) × (held
        ≡ insert asset pos before)
      × (contains asset before ≡ false)
      × IsLinkedTo books before
      × (tools.refuses (length (table_of books.trail)) ≡ some e)

  -- The books that a part of the loop leaves are in order, if no append was refused.
  abbrev pub LeavesLinked : {A : Type 0} → Tools F T → Recorded F T A → Type 0
  LeavesLinked tools (ok a, desk, books) = IsLinkedTo books desk.portfolio.positions
  LeavesLinked tools (err e, desk, books) =
      IsLinkedTo books desk.portfolio.positions ⊎ Unrecorded tools e books desk.portfolio.positions

  marked-IsLinkedTo :
      (asset : String) (pos : Position F) (books : Books F T) (held : Dict (Position F))
      → contains asset held ≡ true
      → IsLinkedTo books held
      → IsLinkedTo books (insert asset pos held)
  marked-IsLinkedTo asset pos books held known (ahead, shows) = (ahead, go books.dashboard shows)
    where
      go :
          (dashboard : Option (SnapshotState F))
          → Shows held (table_of books.trail) dashboard
          → Shows (insert asset pos held) (table_of books.trail) dashboard
      go none h = tt
      go (some state) h = insert-IsLinked asset pos held (table_of books.trail) state known h

module _ {F T : Type 0} ⦃f : Float F⦄ (engine : Engine F) (tools : Tools F T) where
  enter-LeavesLinked :
      (board : Board F) (btc : Option RegimeTag) (snap : MarketData F) (d : Decision F)
      (desk : Desk F) (books : Books F T)
      → IsLinkedTo books desk.portfolio.positions
      → LeavesLinked tools (enter_and_record engine tools board btc snap d desk books)
  unfolding enter_and_record log_open
  enter-LeavesLinked board btc snap d desk books h =
      go (screen engine board btc snap desk.portfolio d)
        (screen-PassesSeed engine board btc snap desk.portfolio d)
    where
      recorded :
          (sized : SizedCandidate F) (fill : Fill F) (p : PortfolioState F) (pos : Position F)
          → contains d.asset desk.portfolio.positions ≡ false
          → p.positions ≡ insert d.asset pos desk.portfolio.positions
          → LeavesLinked tools (placed_and_logged tools snap d sized desk books (ok fill, p))
      recorded sized fill p pos fresh put =
          elim (Option-cases (tools.refuses (length (table_of before.trail)))) [
            | inl accepted ↦
                rw (log_open, accepted, put)
                  (log_appended-IsLinkedTo tools stamp (record_of tools stamp.fresh snap d sized) d
                    sized fill pos before held known)
            | inr (e, declined) ↦
                rw (log_open, declined, put)
                  (inr (d.asset, pos, held, refl, fresh, known, declined))
          ]
        where
          held : Dict (Position F)
          held = desk.portfolio.positions

          before : Books F T
          before = overtaken tools.codec books

          stamp : Stamp
          stamp = tools.stamp (length (table_of before.trail))

          known : IsLinkedTo before held
          known = overtaken-IsLinkedTo tools.codec books held h

      opened :
          (sized : SizedCandidate F)
          → sized.candidate.asset ≡ d.asset
          → (r : Result (Fill F) × PortfolioState F)
          → Opened sized.candidate.asset
              (λ fill. sized_position sized snap fill.price)
              desk.portfolio
              r
          → LeavesLinked tools (placed_and_logged tools snap d sized desk books r)
      opened sized same (err e, p) kept = inl (rw kept h)
      opened sized same (ok fill, p) (fresh, opens, _, put) =
          let pos = sized_position sized snap fill.price in
          let held = desk.portfolio.positions in
          recorded sized fill p pos (subst (λ asset. contains asset held ≡ false) same fresh)
            (ap (λ p. p.positions) put ∙ ap (λ asset. insert asset pos held) same)

      go :
          (s : Screened F)
          → PassesSeed engine board d s
          → LeavesLinked tools (elim s [
            | refused reason ↦ (ok (vetoed d reason), desk, books)
            | raised e ↦ (err e, desk, books)
            | passed sized ↦
                placed_and_logged tools snap d sized desk books
                  (open_sized engine.schedule sized snap desk.portfolio)
          ])
      go (refused reason) k = h
      go (raised e) k = inl h
      go (passed sized) (_, _, _, _, _, seed) =
          opened sized (ap (λ c. c.asset) seed) _
            (open_sized_outcome engine.schedule sized snap desk.portfolio)

  close-LeavesLinked :
      (snap : MarketData F) (trigger asset : String) (pos : Position F)
      (rest : Desk F → Books F T → Recorded F T (Decision F)) (desk : Desk F) (books : Books F T)
      → ((after : Desk F) (told : Books F T)
          → IsLinkedTo told after.portfolio.positions
          → LeavesLinked tools (rest after told))
      → position_at asset desk.portfolio ≡ some pos
      → IsLinkedTo books desk.portfolio.positions
      → LeavesLinked tools (close_and_record engine tools snap trigger asset pos rest desk books)
  unfolding close_and_record
  close-LeavesLinked snap trigger asset pos rest desk books keeps held h =
      go (close engine.schedule asset snap desk.portfolio)
        (close_outcome engine.schedule asset snap pos desk.portfolio held)
    where
      go :
          (r : Result (Fill F) × PortfolioState F)
          → Closed asset (accrue_funding engine.schedule snap pos) desk.portfolio r
          → LeavesLinked tools (closed_and_logged tools trigger asset pos rest desk books r)
      go (ok fill, p) (_, _, _, removed) = keeps _ _ (
          subst (λ p. IsLinkedTo (log_close tools trigger asset pos fill books) p.positions)
            (sym removed)
            (log_close-IsLinkedTo tools trigger asset pos fill books desk.portfolio.positions h))
      go (err e, p) (inl same) = inl (rw same h)
      go (err e, p) (inr (known, same)) =
          inl (rw same (marked-IsLinkedTo asset _ books desk.portfolio.positions known h))

  pub apply-LeavesLinked :
      (board : Board F) (btc : Option RegimeTag) (snap : MarketData F) (d : Decision F)
      (desk : Desk F) (books : Books F T)
      → IsLinkedTo books desk.portfolio.positions
      → LeavesLinked tools (apply_and_record engine tools board btc snap d desk books)
  unfolding apply_and_record
  apply-LeavesLinked board btc snap d desk books h =
      go d.action (position_at d.asset desk.portfolio) refl refl
    where
      entry :
          (after : Desk F) (told : Books F T)
          → IsLinkedTo told after.portfolio.positions
          → LeavesLinked tools (enter_and_record engine tools board btc snap d after told)
      entry after told = enter-LeavesLinked board btc snap d after told

      go :
          (action : Intent) (held : Option (Position F))
          → d.action ≡ action
          → position_at d.asset desk.portfolio ≡ held
          → LeavesLinked tools (apply_and_record engine tools board btc snap d desk books)
      go enter none e k =
          simp (apply_and_record, e, not_held desk.portfolio d.asset k) (entry desk books h)
      go enter (some pos) e k = simp (apply_and_record, e, is_held desk.portfolio d.asset pos k) h
      go cut none e k = simp (apply_and_record, e, k) h
      go cut (some pos) e k =
          simp (apply_and_record, e, k)
            (close-LeavesLinked snap "cut" d.asset pos (λ after told. (ok d, after, told)) desk
              books (λ after told j. j) k h)
      go flip none e k = simp (apply_and_record, e, k) (entry desk books h)
      go flip (some pos) e k =
          simp (apply_and_record, e, k)
            (close-LeavesLinked snap "flip" d.asset pos
              (enter_and_record engine tools board btc snap d) desk books entry k h)
      go hold held e k = simp (apply_and_record, e) h
      go skip held e k = simp (apply_and_record, e) h
      go other_action held e k = simp (apply_and_record, e) h

module _ {F T : Type 0} ⦃f : Float F⦄ (s : FeeSchedule F) (tools : Tools F T) where
  tick-IsLinkedTo :
      (snap : MarketData F) (p : PortfolioState F) (books : Books F T)
      → IsLinkedTo books p.positions
      → IsLinkedTo books (tick s snap p).positions
  unfolding tick
  tick-IsLinkedTo snap p books h = elim (Option-cases (position_at snap.asset p)) [
    | inl missing ↦ rw (tick, missing) h
    | inr (pos, held) ↦
        rw (tick, held)
          (marked-IsLinkedTo snap.asset (tick_position s snap pos) books p.positions
            (is_held p snap.asset pos held) h)
  ]

  -- A check of the levels answers that nothing fired, or closes the position that stood.
  checked-LeavesLinked :
      (snap : MarketData F) (p : PortfolioState F) (desk : Desk F) (books : Books F T)
      (rest : Desk F → Books F T → Recorded F T (Unit {0}))
      → ((after : Desk F) (told : Books F T)
          → IsLinkedTo told after.portfolio.positions
          → LeavesLinked tools (rest after told))
      → IsLinkedTo books p.positions
      → LeavesLinked tools (
          noted_and_logged tools snap.asset
            (position_at snap.asset p)
            rest
            desk
            books
            (check_stops s snap p))
  unfolding log_stop
  checked-LeavesLinked snap p desk books rest keeps h = elim (check_stops_cases s snap p) [
    | inl quiet ↦ rw quiet (keeps _ _ h)
    | inr closes ↦ elim (Option-cases (position_at snap.asset p)) [
      | inl missing ↦ rw (closes, close_missing s snap.asset snap p missing) (inl h)
      | inr (pos, held) ↦
          rw (closes, held)
            (go pos (close s snap.asset snap p) (close_outcome s snap.asset snap pos p held))
    ]
  ]
    where
      go :
          (pos : Position F) (r : Result (Fill F) × PortfolioState F)
          → Closed snap.asset (accrue_funding s snap pos) p r
          → LeavesLinked tools
              (noted_and_logged tools snap.asset (some pos) rest desk books (fired r))
      go pos (ok fill, p') (_, _, _, removed) =
          let told = log_stop tools snap.asset (some pos) fill books in
          keeps _ _ (
            subst (λ p. IsLinkedTo told p.positions) (sym removed)
              (log_close-IsLinkedTo tools (trigger_of pos fill.price) snap.asset pos fill books
                p.positions h))
      go pos (err e, p') (inl same) = inl (rw same h)
      go pos (err e, p') (inr (known, same)) =
          inl (rw same (marked-IsLinkedTo snap.asset _ books p.positions known h))

  pub watch-LeavesLinked :
      (snapshots : Dict (MarketData F))
      → IsTitled snapshots
      → (assets : List String) (desk : Desk F) (books : Books F T)
      → IsLinkedTo books desk.portfolio.positions
      → LeavesLinked tools (watch_and_record s tools snapshots assets desk books)
  unfolding watch_and_record
  watch-LeavesLinked snapshots titled [] desk books h = h
  watch-LeavesLinked snapshots titled (asset ∷ assets) desk books h =
      elim (Option-cases (lookup asset snapshots)) [
        | inl missing ↦
            rw (watch_and_record, missing) (watch-LeavesLinked snapshots titled assets desk books h)
        | inr (snap, found) ↦
            let ticked = tick s snap desk.portfolio in
            let rest = watch_and_record s tools snapshots assets in
            rw (watch_and_record, found)
              (subst
                (λ asset. LeavesLinked tools (
                  noted_and_logged tools asset (position_at asset ticked) rest desk books
                    (check_stops s snap ticked)))
                (lookup-Entries (λ asset snap. snap.asset ≡ asset) asset snap snapshots titled
                  found)
                (checked-LeavesLinked snap ticked desk books rest
                  (watch-LeavesLinked snapshots titled assets)
                  (tick-IsLinkedTo snap desk.portfolio books h)))
      ]
