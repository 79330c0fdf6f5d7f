-- ===== src/Recorders/Decide.antt =====
-- cli/run.py: `_enter_sized`, `_apply` and the loop of `step` over the open positions, with the
-- recorders. What is done to the desk is shared with the loop without them.
use agora_perp_agent.Prelude.{String, Option, none, some, List, [], ◌∷◌, if◌then◌else◌}
use agora_perp_agent.Prelude.Errors.{Result, ok, err}
use agora_perp_agent.Prelude.Dict.{Dict, lookup, erase}
use agora_perp_agent.Float.Ops.{Float}
use agora_perp_agent.Contracts.{
  MarketData, SizedCandidate, Position, PortfolioState, Fill, RegimeTag, Decision, FeeSchedule, has,
  enter, hold, cut, flip, skip, other_action, already_held, nothing_to_cut,
}
use agora_perp_agent.Allocate.{Board}
use agora_perp_agent.Executor.{open_sized, close, tick, check_stops, position_at}
use agora_perp_agent.Loop.Decisions.{
  Engine, Desk, refused, raised, passed, screen, placed, vetoed, remember,
}
use agora_perp_agent.Recorders.Books.{Tools, Books}
use agora_perp_agent.Recorders.Entry.{log_open}
use agora_perp_agent.Recorders.Exit.{log_close, log_stop}

-- What a part of the loop returns or raises, with the desk and the books that it leaves.
abbrev pub Recorded : Type 0 → Type 0 → Type 0 → Type 0
Recorded F T A = Result A × Desk F × Books F T

module _ {F T : Type 0} where
  abbrev pub log_fill :
      Tools F T
      → MarketData F
      → Decision F
      → SizedCandidate F
      → Result (Fill F)
      → Books F T
      → Result (Unit {0}) × Books F T
  log_fill tools snap decision sized (ok fill) books = log_open tools snap decision sized fill books
  log_fill tools snap decision sized (err e) books = (ok tt, books)

  -- An exception of the recording ends what the trade has begun.
  abbrev pub logged :
      {A : Type 0} → Result A × Desk F → Result (Unit {0}) × Books F T → Recorded F T A
  logged (out, after) (ok done, told) = (out, after, told)
  logged (out, after) (err e, told) = (err e, after, told)

module _ {F T : Type 0} ⦃f : Float F⦄ where
  -- The desk and the books after a call of `open_sized`.
  abbrev pub placed_and_logged :
      Tools F T
      → MarketData F
      → Decision F
      → SizedCandidate F
      → Desk F
      → Books F T
      → Result (Fill F) × PortfolioState F
      → Recorded F T (Decision F)
  placed_and_logged tools snap decision sized desk books r =
      logged (placed decision sized desk r) (log_fill tools snap decision sized r.0 books)

  -- `_enter_sized`
  unfoldable pub enter_and_record :
      Engine F
      → Tools F T
      → Board F
      → Option RegimeTag
      → MarketData F
      → Decision F
      → Desk F
      → Books F T
      → Recorded F T (Decision F)
  unfolding log_open
  enter_and_record engine tools board btc_regime snap decision desk books =
      elim (screen engine board btc_regime snap desk.portfolio decision) [
        | refused reason ↦ (ok (vetoed decision reason), desk, books)
        | raised e ↦ (err e, desk, books)
        | passed sized ↦
            placed_and_logged tools snap decision sized desk books
              (open_sized engine.schedule sized snap desk.portfolio)
      ]

  -- The desk and the books after a call of `close`; the rest runs if no exception ends it.
  abbrev pub closed_and_logged :
      Tools F T
      → String
      → String
      → Position F
      → (Desk F → Books F T → Recorded F T (Decision F))
      → Desk F
      → Books F T
      → Result (Fill F) × PortfolioState F
      → Recorded F T (Decision F)
  closed_and_logged tools trigger asset pos rest desk books (err e, p) =
      (err e, record desk { portfolio = p }, books)
  closed_and_logged tools trigger asset pos rest desk books (ok fill, p) =
      rest
        (record {
          portfolio = p;
          recent_fills = remember fill desk.recent_fills;
          last_sized = erase asset desk.last_sized;
        })
        (log_close tools trigger asset pos fill books)

  unfoldable pub close_and_record :
      Engine F
      → Tools F T
      → MarketData F
      → String
      → String
      → Position F
      → (Desk F → Books F T → Recorded F T (Decision F))
      → Desk F
      → Books F T
      → Recorded F T (Decision F)
  close_and_record engine tools snap trigger asset pos rest desk books =
      closed_and_logged tools trigger asset pos rest desk books
        (close engine.schedule asset snap desk.portfolio)

  -- `_apply`
  unfoldable pub apply_and_record :
      Engine F
      → Tools F T
      → Board F
      → Option RegimeTag
      → MarketData F
      → Decision F
      → Desk F
      → Books F T
      → Recorded F T (Decision F)
  apply_and_record engine tools board btc_regime snap decision desk books =
      let go = enter_and_record engine tools board btc_regime snap decision in
      let held = position_at decision.asset desk.portfolio in
      elim decision.action [
        | enter ↦
            if has desk.portfolio decision.asset
            then (ok (vetoed decision already_held), desk, books)
            else go desk books
        | cut ↦ elim held [
          | none ↦ (ok (vetoed decision nothing_to_cut), desk, books)
          | some pos ↦
              close_and_record engine tools snap "cut" decision.asset pos
                (λ after told. (ok decision, after, told)) desk books
        ]
        | flip ↦ elim held [
          | none ↦ go desk books
          | some pos ↦ close_and_record engine tools snap "flip" decision.asset pos go desk books
        ]
        | hold ↦ (ok decision, desk, books)
        | skip ↦ (ok decision, desk, books)
        | other_action ↦ (ok decision, desk, books)
      ]

  -- The desk and the books after a check of the levels, and the rest of the loop if no exception ends
  -- it; `pos` is the position before the check.
  abbrev pub noted_and_logged :
      Tools F T
      → String
      → Option (Position F)
      → (Desk F → Books F T → Recorded F T (Unit {0}))
      → Desk F
      → Books F T
      → Result (Option (Fill F)) × PortfolioState F
      → Recorded F T (Unit {0})
  noted_and_logged tools asset pos rest desk books (err e, p) =
      (err e, record desk { portfolio = p }, books)
  noted_and_logged tools asset pos rest desk books (ok none, p) =
      rest (record desk { portfolio = p }) books
  noted_and_logged tools asset pos rest desk books (ok (some fill), p) =
      rest
        (record {
          portfolio = p;
          recent_fills = remember fill desk.recent_fills;
          last_sized = erase asset desk.last_sized;
        })
        (log_stop tools asset pos fill books)

  unfoldable pub watch_and_record :
      FeeSchedule F
      → Tools F T
      → Dict (MarketData F)
      → List String
      → Desk F
      → Books F T
      → Recorded F T (Unit {0})
  unfolding log_stop
  watch_and_record s tools snapshots [] desk books = (ok tt, desk, books)
  watch_and_record s tools snapshots (asset ∷ assets) desk books =
      let rest = watch_and_record s tools snapshots assets in
      elim (lookup asset snapshots) [
        | none ↦ rest desk books
        | some snap ↦
            let ticked = tick s snap desk.portfolio in
            noted_and_logged tools asset (position_at asset ticked) rest desk books
              (check_stops s snap ticked)
      ]
