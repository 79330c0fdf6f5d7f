-- ===== src/Tests/Data.antt =====
-- The snapshots, schedules and trades of the tests.
use agora_perp_agent.Prelude.{ℕ, zero, suc, Option, none, some, List, [], ◌∷◌, true}
use agora_perp_agent.Prelude.Errors.{Result, ok, err}
use agora_perp_agent.Float.Ops.{lit}
use agora_perp_agent.Float.Fixed.{ℤ, fixed}
use agora_perp_agent.Contracts.{
  Side, MarketData, Forecast, FeeSchedule, CostAssessment, AllocationCandidate, OhlcBar,
  StopTakePlan, SizedCandidate, RegimeTag, up, down, normal, crisis, neutral, extreme_pos, t1,
  limit_stop, RiskConfig, Fill,
}
use agora_perp_agent.Cost.{CostModel}
use agora_perp_agent.Sizing.{Sizer}

abbrev pub schedule : FeeSchedule ℤ
schedule = record {
  maker_bps = lit 15 1;
  taker_bps = lit 45 1;
  funding_period_hours = lit 1 0;
  slippage_k = lit 1 1;
  flat_slippage_bps = lit 2 0;
}

abbrev pub market_at : ℕ → ℕ → MarketData ℤ
market_at time price = record {
  asset = "BTC";
  timestamp = time;
  mark_price = lit price 0;
  funding_rate = lit 1 4;
  bars = [];
  book_depth = some (lit 1000000 0);
}

abbrev pub market : MarketData ℤ
market = market_at 0 50000

-- One hour later, ten percent lower.
abbrev pub fallen : MarketData ℤ
fallen = market_at 3600000000 45000

abbrev pub forecast : Forecast ℤ
forecast = record {
  asset = "BTC";
  timestamp = 0;
  p_up = lit 7 1;
  p_down = lit 3 1;
  expected_move_bps = lit 300 0;
  confidence = lit 4 1;
}

abbrev pub cost : CostAssessment ℤ
cost = record {
  asset = "BTC";
  notional = lit 10000 0;
  fee_bps = lit 9 0;
  slippage_bps = lit 200 0;
  funding_bps = lit 0 0;
  round_trip_bps = lit 209 0;
  breakeven_bps = lit 209 0;
  edge_after_cost_bps = lit 91 0;
  is_tradeable = true;
}

abbrev pub candidate : AllocationCandidate ℤ
candidate = record {
  asset = "BTC";
  side = Side.long;
  notional = lit 10000 0;
  forecast = forecast;
  cost = cost;
  rank = 0;
}

abbrev pub calm : RegimeTag
calm = record { trend = up; vol = normal; funding = neutral }

abbrev pub btc_crisis : RegimeTag
btc_crisis = record { trend = down; vol = crisis; funding = neutral }

abbrev pub btc_squeezed : RegimeTag
btc_squeezed = record { trend = up; vol = normal; funding = extreme_pos }

abbrev pub plan : StopTakePlan ℤ
plan = record {
  stop_distance = lit 1500 0;
  take_distance = lit 3750 0;
  r_multiple = lit 25 1;
  scaled_exit = true;
  trail_after_first_take = true;
  stop_hardening = limit_stop;
}

abbrev pub sized : SizedCandidate ℤ
sized = record {
  candidate = candidate;
  tier = t1;
  regime = calm;
  qty = lit 2 1;
  notional = lit 10000 0;
  leverage = lit 5 0;
  margin_required = lit 2000 0;
  stop_price = lit 48500 0;
  take_price = lit 53750 0;
  stop_take_plan = plan;
  leverage_caps = record {
    venue_cap = lit 40 0;
    operational_cap = lit 5 0;
    liq_safety_cap = lit 7 0;
  };
  sizing_audit = [];
}

abbrev pub limits : RiskConfig ℤ
limits = record {
  max_positions = 2;
  min_edge_after_cost_bps = lit 5 0;
  max_notional_per_position_usd = lit 20000 0;
  max_total_exposure_usd = lit 100000 0;
}

abbrev pub model : CostModel ℤ
model = record { schedule = schedule; hold_minutes = lit 60 0 }

abbrev pub sizer : Sizer ℤ
sizer = record {
  cfg = record {
    base_risk_fraction = lit 1 2;
    vol_target_annualized = lit 6 1;
    vol_scale_cap = lit 15 1;
    kelly_fraction = lit 25 2;
    min_kelly_history = 100;
    atr_period_stops = 14;
    atr_period_regime_fast = 14;
    atr_period_regime_slow = 50;
    funding_drag_max_pct = lit 5 3;
    funding_cost_to_pnl_max = lit 3 1;
  };
  hold_hours = lit 4 0;
}

-- Hourly bars that swing by 100 around 50000, n pairs of them.
abbrev bar : ℕ → OhlcBar ℤ
bar price = record {
  timestamp = 0;
  opening = lit 50000 0;
  high = lit 50200 0;
  low = lit 49800 0;
  close = lit price 0;
  volume = lit 1 0;
}

abbrev pub bars : ℕ → List (OhlcBar ℤ)
bars zero = []
bars (suc n) = bar 50000 ∷ bar 50100 ∷ bars n

-- The value of a call that returned.
abbrev pub value : {A : Type 0} → A → Result A → A
value other (ok a) = a
value other (err e) = other

abbrev pub no_fill : Fill ℤ
no_fill = record {
  asset = "";
  timestamp = 0;
  side = Side.other;
  qty = lit 0 0;
  price = lit 0 0;
  fee_paid_usd = lit 0 0;
  is_open = true;
  realized_pnl_usd = lit 0 0;
}

abbrev pub fired_fill : Result (Option (Fill ℤ)) → Fill ℤ
fired_fill (ok (some fill)) = fill
fired_fill (ok none) = no_fill
fired_fill (err e) = no_fill
