-- ===== src/Sizing.antt =====
-- core/sizing.py: the sizing pipeline, its steps as functions of their own and `size` as their
-- composition.
pub mod Steps
pub mod Bounds
pub mod StandDown
use Prim.Native.Nat.{◌-◌ as ◌-ℕ◌}
use agora_perp_agent.Prelude.{String, not, none, some, List, [], ◌∷◌, if◌then◌else◌, ltb, length}
use agora_perp_agent.Prelude.Errors.{Result, ok, err, ◌>>=◌, too_few_bars, bad_mark}
use agora_perp_agent.Float.Ops.{Float, lit, ◌+◌, ◌-◌, ◌*◌, zero, divide, sqrt, min, ◌<=?◌, ◌>?◌}
use agora_perp_agent.Contracts.{
  AllocationCandidate, MarketData, OhlcBar, PortfolioState, RegimeTag, SizedCandidate, SizingConfig,
  StopTakePlan, LeverageCaps, Side, is_long, Tier, t1, t2, t3, t4, equity_usd,
}
use agora_perp_agent.Cost.{gt_eps}
use agora_perp_agent.Indicators.{atr, realized_vol}
use agora_perp_agent.Leverage.{choose_leverage, venue_max_leverage, operational_cap_of}
use agora_perp_agent.Regime.{playbook_multiplier}
use agora_perp_agent.Stops.{derive_stops_takes}

-- `TierRegimeSizer.__init__`
pub record Sizer (F : Type 0) : Type 0 where
  pub cfg : SizingConfig F
  pub hold_hours : F

-- Steps 1 to 5: the dollars at risk, step by step.
pub record Budget (F : Type 0) : Type 0 where
  pub base_risk : F
  pub tier_mult : F
  pub tier_risk : F
  pub playbook_mult : F
  pub playbook_risk : F
  pub vol_scale : F
  pub final_risk : F

module _ {F : Type 0} ⦃f : Float F⦄ where
  -- `_TIER_RISK_MULTIPLIER`
  abbrev pub tier_multiplier : Tier → F
  tier_multiplier t1 = lit 10 1
  tier_multiplier t2 = lit 6 1
  tier_multiplier t3 = lit 35 2
  tier_multiplier t4 = lit 2 1

  -- `_realized_vol_annualized`, with `_HOURS_PER_YEAR` written out
  unfoldable pub realized_vol_annualized : List (OhlcBar F) → Result F
  realized_vol_annualized bars =
      let last = length bars -ℕ 1 in
      if ltb (length bars) 21 then err too_few_bars else (do
        sigma_per_bar ← realized_vol bars (if ltb last 720 then last else 720)
        year ← sqrt (lit 24 0 * lit 365 0)
        ok (sigma_per_bar * year))

  unfoldable pub vol_scale_of : SizingConfig F → F → Result F
  vol_scale_of cfg realized =
      if gt_eps realized zero
      then (do scale ← divide cfg.vol_target_annualized realized; ok (min scale cfg.vol_scale_cap))
      else ok cfg.vol_scale_cap

  abbrev pub budget_of : SizingConfig F → F → Tier → F → F → Budget F
  budget_of cfg equity tier playbook_mult vol_scale =
      let base_risk = equity * cfg.base_risk_fraction in
      let tier_risk = base_risk * tier_multiplier tier in
      let playbook_risk = tier_risk * playbook_mult in
      record {
        base_risk = base_risk;
        tier_mult = tier_multiplier tier;
        tier_risk = tier_risk;
        playbook_mult = playbook_mult;
        playbook_risk = playbook_risk;
        vol_scale = vol_scale;
        final_risk = playbook_risk * vol_scale;
      }

  -- Step 6: the quantity and the levels.
  unfoldable pub quantity_of : F → F → Result F
  quantity_of final_risk stop_distance =
      if not (gt_eps stop_distance zero) then ok zero else divide final_risk stop_distance

  abbrev pub stop_level : Side → F → StopTakePlan F → F
  stop_level side mark plan =
      if is_long side then mark - plan.stop_distance else mark + plan.stop_distance

  abbrev pub take_level : Side → F → StopTakePlan F → F
  take_level side mark plan =
      if is_long side then mark + plan.take_distance else mark - plan.take_distance

  -- `_zero_caps`
  abbrev pub zero_caps : F → Tier → LeverageCaps F
  zero_caps venue tier = record {
    venue_cap = venue;
    operational_cap = operational_cap_of tier;
    liq_safety_cap = venue;
  }

  -- Step 7: the leverage, its caps and the margin.
  unfoldable pub leverage_of : Sizer F → String → F → Tier → F → F → Result (F × LeverageCaps F × F)
  leverage_of sizer asset notional tier stop_distance_pct funding_rate =
      if notional >? zero
      then (do
        (leverage, caps) ←
            choose_leverage asset notional tier stop_distance_pct funding_rate sizer.hold_hours
              sizer.cfg.funding_drag_max_pct
        margin ← divide notional leverage
        ok (leverage, caps, margin))
      else ok (zero, zero_caps (venue_max_leverage asset) tier, zero)

  -- The record of step 8 with its audit, of the numbers that the steps found.
  unfoldable pub sized_of :
      AllocationCandidate F
      → F
      → F
      → RegimeTag
      → Tier
      → F
      → Budget F
      → F
      → StopTakePlan F
      → F
      → F
      → F × LeverageCaps F × F
      → F
      → SizedCandidate F
  sized_of candidate mark equity regime tier vol_ann budget atr_14 plan qty stop_distance_pct
        (leverage, caps, margin) atr_multiple =
      let notional = qty * mark in
      record {
        candidate = candidate;
        tier = tier;
        regime = regime;
        qty = qty;
        notional = notional;
        leverage = leverage;
        margin_required = margin;
        stop_price = stop_level candidate.side mark plan;
        take_price = take_level candidate.side mark plan;
        stop_take_plan = plan;
        leverage_caps = caps;
        sizing_audit =
            ("equity_usd", some equity)
            ∷ ("base_risk_usd", some budget.base_risk)
            ∷ ("tier_multiplier", some budget.tier_mult)
            ∷ ("tier_risk_usd", some budget.tier_risk)
            ∷ ("playbook_multiplier", some budget.playbook_mult)
            ∷ ("playbook_risk_usd", some budget.playbook_risk)
            ∷ ("realized_vol_ann", some vol_ann)
            ∷ ("vol_scale", some budget.vol_scale)
            ∷ ("targeted_risk_usd", some budget.final_risk)
            ∷ ("kelly_cap_usd", none)
            ∷ ("final_risk_usd", some budget.final_risk)
            ∷ ("atr_14_1h", some atr_14)
            ∷ ("atr_multiplier", some atr_multiple)
            ∷ ("stop_distance", some plan.stop_distance)
            ∷ ("take_distance", some plan.take_distance)
            ∷ ("r_multiple", some plan.r_multiple)
            ∷ ("stop_distance_pct", some stop_distance_pct)
            ∷ ("qty", some qty)
            ∷ ("notional_usd", some notional)
            ∷ ("leverage_used", some leverage)
            ∷ ("venue_cap", some caps.venue_cap)
            ∷ ("operational_cap", some caps.operational_cap)
            ∷ ("liq_safety_cap", some caps.liq_safety_cap)
            ∷ ("margin_required_usd", some margin)
            ∷ [];
      }

  -- Steps 7 and 8, of the plan and the quantity.
  unfoldable pub finish :
      Sizer F
      → AllocationCandidate F
      → MarketData F
      → F
      → RegimeTag
      → Tier
      → F
      → Budget F
      → F
      → StopTakePlan F
      → F
      → Result (SizedCandidate F)
  finish sizer candidate market equity regime tier vol_ann budget atr_14 plan qty = do
    stop_distance_pct ← divide plan.stop_distance market.mark_price
    leveraged ←
        leverage_of sizer candidate.asset (qty * market.mark_price) tier stop_distance_pct
          market.funding_rate
    atr_multiple ← (if atr_14 >? zero then divide plan.stop_distance atr_14 else ok zero)
    ok (
        sized_of candidate market.mark_price equity regime tier vol_ann budget atr_14 plan qty
          stop_distance_pct leveraged atr_multiple)

  -- `TierRegimeSizer.size`
  unfoldable pub size :
      Sizer F
      → AllocationCandidate F
      → MarketData F
      → List (OhlcBar F)
      → PortfolioState F
      → RegimeTag
      → Tier
      → Result (SizedCandidate F)
  size sizer candidate market bars_1h portfolio regime tier =
      if market.mark_price <=? zero then err bad_mark else (do
        let equity = equity_usd portfolio
        vol_ann ← realized_vol_annualized bars_1h
        vol_scale ← vol_scale_of sizer.cfg vol_ann
        let budget = budget_of sizer.cfg equity tier (playbook_multiplier regime) vol_scale
        atr_14 ← atr bars_1h sizer.cfg.atr_period_stops
        plan ← derive_stops_takes market.mark_price atr_14 regime tier candidate.side
        qty ← quantity_of budget.final_risk plan.stop_distance
        finish sizer candidate market equity regime tier vol_ann budget atr_14 plan qty)
