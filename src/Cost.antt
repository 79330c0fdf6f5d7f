-- ===== src/Cost.antt =====
-- core/eps.py and core/cost.py: comparisons with a tolerance, and the cost of a round trip.
pub mod Agreement
use agora_perp_agent.Prelude.{Bool, not, none, some, if◌then◌else◌, ◌==◌}
use agora_perp_agent.Prelude.Errors.{Result, ok, err, ◌>>=◌, bad_notional, bad_hold, asset_mismatch}
use agora_perp_agent.Float.Ops.{
  Float, lit, ◌+◌, ◌-◌, ◌*◌, neg, zero, divide, sqrt, ◌<?◌, ◌>?◌, ◌<=?◌, ◌>=?◌,
}
use agora_perp_agent.Contracts.{
  Side, long, short, is_long, MarketData, Forecast, FeeSchedule, CostAssessment,
}

-- `CostModel.__init__`: the configured model.
pub record CostModel (F : Type 0) : Type 0 where
  pub schedule : FeeSchedule F
  pub hold_minutes : F

module _ {F : Type 0} ⦃f : Float F⦄ where
  -- `CROSS_EPS` and `_EPS`, 1e-12
  abbrev pub eps : F
  eps = lit 1 12

  -- `_BPS`
  abbrev pub bps : F
  bps = lit 10000 0

  abbrev pub gt_eps : F → F → Bool
  gt_eps a b = a >? b + eps

  abbrev pub lt_eps : F → F → Bool
  lt_eps a b = a + eps <? b

  abbrev pub le_eps : F → F → Bool
  le_eps a b = a <=? b + eps

  abbrev pub ge_eps : F → F → Bool
  ge_eps a b = a + eps >=? b

  unfoldable pub make_cost_model : FeeSchedule F → F → Result (CostModel F)
  make_cost_model schedule hold_minutes =
      if hold_minutes <? zero
      then err bad_hold
      else ok (record { schedule = schedule; hold_minutes = hold_minutes })

  -- `CostModel._direction`
  unfoldable pub direction : Forecast F → Side
  direction forecast = if gt_eps forecast.p_down forecast.p_up then short else long

  unfoldable pub signed_move_bps : Forecast F → Side → F
  signed_move_bps forecast side =
      if is_long side then forecast.expected_move_bps else neg forecast.expected_move_bps

  -- `CostModel._side_slippage_bps`
  unfoldable pub side_slippage_bps : CostModel F → F → MarketData F → Result F
  side_slippage_bps model notional market = elim market.book_depth [
    | none ↦ ok model.schedule.flat_slippage_bps
    | some depth ↦ if depth <=? eps then ok model.schedule.flat_slippage_bps else (do
      ratio ← divide notional depth
      root ← sqrt ratio
      ok (model.schedule.slippage_k * root * bps))
  ]

  unfoldable pub funding_bps : CostModel F → MarketData F → Side → Result F
  funding_bps model market side =
      let period_minutes = model.schedule.funding_period_hours * lit 60 0 in
      if period_minutes <=? eps then ok zero else (do
        fraction ← divide model.hold_minutes period_minutes
        let raw_bps = market.funding_rate * fraction * bps
        ok (if is_long side then raw_bps else neg raw_bps))

  unfoldable pub assess : CostModel F → Forecast F → MarketData F → F → Result (CostAssessment F)
  assess model forecast market notional =
      if notional <=? zero
      then err bad_notional
      else if not (forecast.asset == market.asset)
      then err asset_mismatch
      else (do
        let side = direction forecast
        let fee = lit 2 0 * model.schedule.taker_bps
        side_slippage ← side_slippage_bps model notional market
        let slippage = lit 2 0 * side_slippage
        funding ← funding_bps model market side
        let round_trip = fee + slippage + funding
        let edge = signed_move_bps forecast side - round_trip
        ok (record {
          asset = market.asset;
          notional = notional;
          fee_bps = fee;
          slippage_bps = slippage;
          funding_bps = funding;
          round_trip_bps = round_trip;
          breakeven_bps = round_trip;
          edge_after_cost_bps = edge;
          is_tradeable = gt_eps edge zero;
        }))
