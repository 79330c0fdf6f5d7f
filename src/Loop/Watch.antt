-- ===== src/Loop/Watch.antt =====
-- cli/run.py, `step`: the loop that marks every open position and checks its levels.
use agora_perp_agent.Prelude.{
  String, ◌≡◌, Option, none, some, List, [], ◌∷◌, map, Option-cases, inl, inr, arith,
}
use agora_perp_agent.Prelude.Errors.{Result, ok, err}
use agora_perp_agent.Prelude.Dict.{Dict, lookup, erase}
use agora_perp_agent.Float.Ops.{Float}
use agora_perp_agent.Contracts.{FeeSchedule, MarketData, PortfolioState, Fill}
use agora_perp_agent.Executor.{tick, check_stops}
use agora_perp_agent.Executor.Ledger.{Command, mark, guard_stops, call, call_all}
use agora_perp_agent.Loop.Decisions.{Desk, remember}

module _ {F : Type 0} ⦃f : Float F⦄ where
  -- The desk after a check, and the rest of the loop if no exception ends it.
  abbrev pub noted :
      String
      → (Desk F → Result (Unit {0}) × Desk F)
      → Desk F
      → Result (Option (Fill F)) × PortfolioState F
      → Result (Unit {0}) × Desk F
  noted asset rest desk (err e, p) = (err e, record desk { portfolio = p })
  noted asset rest desk (ok none, p) = rest (record desk { portfolio = p })
  noted asset rest desk (ok (some fill), p) = rest (record {
    portfolio = p;
    recent_fills = remember fill desk.recent_fills;
    last_sized = erase asset desk.last_sized;
  })

  unfoldable pub watch_assets :
      FeeSchedule F → Dict (MarketData F) → List String → Desk F → Result (Unit {0}) × Desk F
  watch_assets s snapshots [] desk = (ok tt, desk)
  watch_assets s snapshots (asset ∷ assets) desk =
      let rest = watch_assets s snapshots assets in
      elim (lookup asset snapshots) [
        | none ↦ rest desk
        | some snap ↦ noted asset rest desk (check_stops s snap (tick s snap desk.portfolio))
      ]

  -- `for asset in list(portfolio.positions)`
  unfoldable pub watch_stops :
      FeeSchedule F → Dict (MarketData F) → Desk F → Result (Unit {0}) × Desk F
  unfolding watch_assets
  watch_stops s snapshots desk =
      watch_assets s snapshots (map (λ e. e.0) desk.portfolio.positions) desk

  -- The calls of the executor that the loop makes.
  abbrev pub watch_calls : Dict (MarketData F) → List String → List (Command F)
  watch_calls snapshots [] = []
  watch_calls snapshots (asset ∷ assets) = elim (lookup asset snapshots) [
    | none ↦ watch_calls snapshots assets
    | some snap ↦ mark snap ∷ guard_stops snap ∷ watch_calls snapshots assets
  ]

  watch_assets-calls :
      (s : FeeSchedule F) (snapshots : Dict (MarketData F)) (assets : List String)
      (desk desk' : Desk F)
      → watch_assets s snapshots assets desk ≡ (ok tt, desk')
      → desk'.portfolio ≡ (call_all s (watch_calls snapshots assets) desk.portfolio).1
  unfolding watch_assets call_all call
  watch_assets-calls s snapshots [] desk desk' e = ground arith
  watch_assets-calls s snapshots (asset ∷ assets) desk desk' e =
      elim (Option-cases (lookup asset snapshots)) [
        | inl missing ↦
            rw (watch_calls, missing)
              (watch_assets-calls s snapshots assets desk desk' (rw (watch_assets, missing) at e))
        | inr (snap, found) ↦
            rw (watch_calls, found)
              (go (λ after. watch_assets-calls s snapshots assets after desk')
                (check_stops s snap (tick s snap desk.portfolio)) (rw (watch_assets, found) at e))
      ]
    where
      go :
          ((after : Desk F)
            → watch_assets s snapshots assets after ≡ (ok tt, desk')
            → desk'.portfolio ≡ (call_all s (watch_calls snapshots assets) after.portfolio).1)
          → (r : Result (Option (Fill F)) × PortfolioState F)
          → noted asset (watch_assets s snapshots assets) desk r ≡ (ok tt, desk')
          → desk'.portfolio ≡ (call_all s (watch_calls snapshots assets) r.1).1
      go later (err x, p) e = absurd (ground arith)
      go later (ok none, p) e = later _ e
      go later (ok (some fill), p) e = later _ e

  -- Where the loop over the open positions ends without an exception, the portfolio is that after a
  -- tick and a check of the levels for each position that has a snapshot, in the order of the
  -- positions at the start.
  pub watch_stops-calls :
      (s : FeeSchedule F) (snapshots : Dict (MarketData F)) (desk desk' : Desk F)
      → watch_stops s snapshots desk ≡ (ok tt, desk')
      → desk'.portfolio
        ≡ (call_all s
            (watch_calls snapshots (map (λ e. e.0) desk.portfolio.positions))
            desk.portfolio).1
  unfolding watch_stops
  watch_stops-calls s snapshots desk desk' e =
      watch_assets-calls s snapshots (map (λ e. e.0) desk.portfolio.positions) desk desk' e
