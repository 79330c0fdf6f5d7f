-- ===== src/Contracts/Plan.antt =====
-- Tiers, regimes, exit plans and sized trades. The axes of a regime are texts in the source, of
-- which only the documented ones are ever built.
use agora_perp_agent.Prelude.{ℕ, Bool, Option}
use agora_perp_agent.Prelude.Dict.{Dict}
use agora_perp_agent.Contracts.Market.{AllocationCandidate}

pub data Tier : Type 0 where
  t1 t2 t3 t4 : Tier

pub data Trend : Type 0 where
  up down range : Trend

pub data Vol : Type 0 where
  compressed normal expanded crisis : Vol

pub data Funding : Type 0 where
  neutral bull_bias bear_bias extreme_pos extreme_neg : Funding

pub record RegimeTag : Type 0 where
  pub trend : Trend
  pub vol : Vol
  pub funding : Funding

pub record SizingConfig (F : Type 0) : Type 0 where
  pub base_risk_fraction : F
  pub vol_target_annualized : F
  pub vol_scale_cap : F
  pub kelly_fraction : F
  pub min_kelly_history : ℕ
  pub atr_period_stops : ℕ
  pub atr_period_regime_fast : ℕ
  pub atr_period_regime_slow : ℕ
  pub funding_drag_max_pct : F
  pub funding_cost_to_pnl_max : F

pub record LeverageCaps (F : Type 0) : Type 0 where
  pub venue_cap : F
  pub operational_cap : F
  pub liq_safety_cap : F

pub data Hardening : Type 0 where
  limit_stop market_stop soft_stop_scaled : Hardening

pub record StopTakePlan (F : Type 0) : Type 0 where
  pub stop_distance : F
  pub take_distance : F
  pub r_multiple : F
  pub scaled_exit : Bool
  pub trail_after_first_take : Bool
  pub stop_hardening : Hardening

pub record SizedCandidate (F : Type 0) : Type 0 where
  pub candidate : AllocationCandidate F
  pub tier : Tier
  pub regime : RegimeTag
  pub qty : F
  pub notional : F
  pub leverage : F
  pub margin_required : F
  pub stop_price : F
  pub take_price : F
  pub stop_take_plan : StopTakePlan F
  pub leverage_caps : LeverageCaps F
  -- `none` is the infinite Kelly cap
  pub sizing_audit : Dict (Option F)
