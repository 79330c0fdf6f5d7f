-- ===== src/Loop/Decisions.antt =====
-- cli/run.py: `_compute_btc_regime`, `_enter_sized` and `_apply`, with the recorders of audits,
-- anchors and snapshots absent, which is their default. Recorders has the loop with them.
use agora_perp_agent.Prelude.{
  ℕ, String, Option, none, some, List, [], ◌∷◌, ◌++◌, if◌then◌else◌, ◌==◌, ltb, length, take_last,
}
use agora_perp_agent.Prelude.Errors.{Error, Result, ok, err}
use agora_perp_agent.Prelude.Dict.{Dict, lookup, insert, erase}
use agora_perp_agent.Float.Ops.{Float, zero, ◌<=?◌}
use agora_perp_agent.Contracts.{
  MarketData, FeeSchedule, AllocationCandidate, Forecast, CostAssessment, SizedCandidate,
  PortfolioState, Fill, RiskConfig, RegimeTag, Decision, Veto, Side, enter, hold, cut, flip, skip,
  other_action, already_held, nothing_to_cut, without_side, no_board_entry, warm_up, regime_error,
  sizing_error, stand_down, gate_veto, has,
}
use agora_perp_agent.Tiers.{classify_tier}
use agora_perp_agent.Regime.{classify, apply_btc_override}
use agora_perp_agent.Cost.{CostModel, assess}
use agora_perp_agent.Sizing.{Sizer, size}
use agora_perp_agent.Risk.{evaluate}
use agora_perp_agent.Allocate.{Board}
use agora_perp_agent.Executor.{open_sized, close}
use agora_perp_agent.Loop.Bars.{aggregate_to_1h}

-- The configured parts that the loop is given.
pub record Engine (F : Type 0) : Type 0 where
  pub gate : RiskConfig F
  pub schedule : FeeSchedule F
  pub cost_model : CostModel F
  pub sizer : Sizer F

-- What the loop mutates: the portfolio, the last fills and `_LAST_SIZED`.
pub record Desk (F : Type 0) : Type 0 where
  pub portfolio : PortfolioState F
  pub recent_fills : List (Fill F)
  pub last_sized : Dict (SizedCandidate F)

-- `_MIN_1H_BARS`
abbrev pub min_1h_bars : ℕ
min_1h_bars = 51

-- Where the checks of `_enter_sized` lead: to a veto, to an exception, or to the executor.
pub data Screened (F : Type 0) : Type 0 where
  refused : Veto F → Screened F
  raised : Error → Screened F
  passed : SizedCandidate F → Screened F

-- The override for every asset but BTC.
abbrev pub regime_of : String → Option RegimeTag → RegimeTag → RegimeTag
regime_of asset none local_regime = local_regime
regime_of asset (some btc_regime) local_regime =
    if asset == "BTC" then local_regime else apply_btc_override local_regime btc_regime

module _ {F : Type 0} where
  -- `recent_fills.append(fill)` on a `deque(maxlen=20)`
  abbrev pub remember : Fill F → List (Fill F) → List (Fill F)
  remember fill fills = take_last 20 (fills ++ fill ∷ [])

  -- `replace(decision, vetoed_reason=...)`
  abbrev pub vetoed : Decision F → Veto F → Decision F
  vetoed decision reason = record decision { vetoed_reason = some reason }

module _ {F : Type 0} ⦃f : Float F⦄ where
  unfoldable pub compute_btc_regime : Dict (MarketData F) → Option RegimeTag
  compute_btc_regime snapshots = elim (lookup "BTC" snapshots) [
    | none ↦ none
    | some btc ↦
        let bars_1h = aggregate_to_1h btc.bars in
        if ltb (length bars_1h) min_1h_bars
        then none
        else elim (classify bars_1h btc.funding_rate (classify_tier "BTC")) [
          | ok regime ↦ some regime
          | err e ↦ none
        ]
  ]

  -- The candidate with a notional and its cost, at rank 0.
  abbrev pub candidate_at :
      String → Side → F → Forecast F → CostAssessment F → AllocationCandidate F
  candidate_at asset side notional forecast cost = record {
    asset = asset;
    side = side;
    notional = notional;
    forecast = forecast;
    cost = cost;
    rank = 0;
  }

  -- From the sized trade to the verdict of the gate.
  unfoldable pub gate_sized :
      Engine F
      → MarketData F
      → PortfolioState F
      → String
      → Side
      → Forecast F
      → RegimeTag
      → SizedCandidate F
      → Screened F
  gate_sized engine snap portfolio asset side forecast regime sized =
      if sized.qty <=? zero
      then refused (stand_down regime)
      else elim (assess engine.cost_model forecast snap sized.notional) [
        | err e ↦ raised e
        | ok sized_cost ↦
            let verdict =
              evaluate engine.gate (candidate_at asset side sized.notional forecast sized_cost)
                portfolio in
            if verdict.approved then passed sized else refused (gate_veto verdict.reason)
      ]

  -- `_enter_sized` from the hourly bars on.
  unfoldable pub size_entry :
      Engine F
      → Option RegimeTag
      → MarketData F
      → PortfolioState F
      → String
      → Side
      → Forecast F × CostAssessment F
      → Screened F
  size_entry engine btc_regime snap portfolio asset side (forecast, cost) =
      let bars_1h = aggregate_to_1h snap.bars in
      let tier = classify_tier asset in
      if ltb (length bars_1h) min_1h_bars
      then refused (warm_up (length bars_1h))
      else elim (classify bars_1h snap.funding_rate tier) [
        | err e ↦ refused (regime_error e)
        | ok local_regime ↦
            let regime = regime_of asset btc_regime local_regime in
            elim (size engine.sizer (candidate_at asset side cost.notional forecast cost) snap
              bars_1h portfolio regime tier) [
                | err e ↦ refused (sizing_error e)
                | ok sized ↦ gate_sized engine snap portfolio asset side forecast regime sized
              ]
      ]

  unfoldable pub screen :
      Engine F
      → Board F
      → Option RegimeTag
      → MarketData F
      → PortfolioState F
      → Decision F
      → Screened F
  screen engine board btc_regime snap portfolio decision = elim decision.side [
    | none ↦ refused without_side
    | some side ↦ elim (lookup decision.asset board) [
      | none ↦ refused no_board_entry
      | some entry ↦ size_entry engine btc_regime snap portfolio decision.asset side entry
    ]
  ]

  -- The desk after a call of `open_sized`.
  abbrev pub placed :
      Decision F
      → SizedCandidate F
      → Desk F
      → Result (Fill F) × PortfolioState F
      → Result (Decision F) × Desk F
  placed decision sized desk (err e, p) = (err e, record desk { portfolio = p })
  placed decision sized desk (ok fill, p) = (
    ok decision,
    record {
      portfolio = p;
      recent_fills = remember fill desk.recent_fills;
      last_sized = insert decision.asset sized desk.last_sized;
    },
  )

  unfoldable pub place :
      Engine F
      → MarketData F
      → Decision F
      → SizedCandidate F
      → Desk F
      → Result (Decision F) × Desk F
  place engine snap decision sized desk =
      placed decision sized desk (open_sized engine.schedule sized snap desk.portfolio)

  -- `_enter_sized`
  unfoldable pub enter_sized :
      Engine F
      → Board F
      → Option RegimeTag
      → MarketData F
      → Decision F
      → Desk F
      → Result (Decision F) × Desk F
  enter_sized engine board btc_regime snap decision desk =
      elim (screen engine board btc_regime snap desk.portfolio decision) [
        | refused reason ↦ (ok (vetoed decision reason), desk)
        | raised e ↦ (err e, desk)
        | passed sized ↦ place engine snap decision sized desk
      ]

  -- The desk after a call of `close`; the rest runs if no exception ends it.
  abbrev pub closed_out :
      String
      → (Desk F → Result (Decision F) × Desk F)
      → Desk F
      → Result (Fill F) × PortfolioState F
      → Result (Decision F) × Desk F
  closed_out asset rest desk (err e, p) = (err e, record desk { portfolio = p })
  closed_out asset rest desk (ok fill, p) = rest (record {
    portfolio = p;
    recent_fills = remember fill desk.recent_fills;
    last_sized = erase asset desk.last_sized;
  })

  -- Closing for a cut or a flip.
  unfoldable pub close_out :
      Engine F
      → MarketData F
      → String
      → (Desk F → Result (Decision F) × Desk F)
      → Desk F
      → Result (Decision F) × Desk F
  close_out engine snap asset rest desk =
      closed_out asset rest desk (close engine.schedule asset snap desk.portfolio)

  -- `_apply`
  unfoldable pub apply :
      Engine F
      → Board F
      → Option RegimeTag
      → MarketData F
      → Decision F
      → Desk F
      → Result (Decision F) × Desk F
  apply engine board btc_regime snap decision desk =
      let held = has desk.portfolio decision.asset in
      let go = enter_sized engine board btc_regime snap decision in
      elim decision.action [
        | enter ↦ if held then (ok (vetoed decision already_held), desk) else go desk
        | cut ↦
            if held
            then close_out engine snap decision.asset (λ after. (ok decision, after)) desk
            else (ok (vetoed decision nothing_to_cut), desk)
        | flip ↦ if held then close_out engine snap decision.asset go desk else go desk
        | hold ↦ (ok decision, desk)
        | skip ↦ (ok decision, desk)
        | other_action ↦ (ok decision, desk)
      ]
