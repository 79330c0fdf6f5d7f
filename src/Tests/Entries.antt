-- ===== src/Tests/Entries.antt =====
-- Decisions applied by the loop, on fifty-two hours with a bar each.
use Prim.Native.Nat.{◌*◌ as ◌*ℕ◌, ◌+◌ as ◌+ℕ◌}
use agora_perp_agent.Prelude.{ℕ, refl, zero, suc, none, some, List, [], ◌∷◌}
use agora_perp_agent.Float.Ops.{lit}
use agora_perp_agent.Float.Fixed.{
  ℤ, fixed, fixed-IsLawful, decimal, scale, plus, opposite, product, ratio, times, over,
  square_root, root_bits, total, logarithm, ceiling,
}
use agora_perp_agent.Contracts.{
  MarketData, OhlcBar, Decision, Side, enter, flip, equity_usd, unrealized_usd, unrealized_pnl_usd,
  exposure_usd,
}
use agora_perp_agent.Cost.{assess, side_slippage_bps, funding_bps, direction, signed_move_bps}
use agora_perp_agent.Tiers.{classify_tier}
use agora_perp_agent.Indicators.{
  realized_vol, atr, log_returns, true_range, wilder_average, wilder_from, along, ema, ema_from,
  adx, running, smoothed, dx_values,
}
use agora_perp_agent.Regime.{
  classify, classify_trend, classify_vol, classify_funding, trend_of, vol_bucket,
  playbook_multiplier,
}
use agora_perp_agent.Leverage.{
  choose_leverage, venue_max_leverage, interval_count, shrink, leverage_caps,
}
use agora_perp_agent.Stops.{derive_stops_takes, choose_r_multiple, choose_hardening}
use agora_perp_agent.Sizing.{
  size, realized_vol_annualized, vol_scale_of, quantity_of, leverage_of, finish, sized_of,
}
use agora_perp_agent.Executor.{
  open_sized, close, accrue_funding, side_slippage, entry_fill, exit_fill, price_pnl,
  sized_position,
}
use agora_perp_agent.Risk.{evaluate}
use agora_perp_agent.Allocate.{Board}
use agora_perp_agent.Prelude.Sort.{sort, insert_sorted}
use agora_perp_agent.Loop.Bars.{aggregate_to_1h, roll, add_bar, hourly_bar}
use agora_perp_agent.Loop.Decisions.{
  Engine, Desk, screen, size_entry, gate_sized, place, enter_sized, close_out, apply,
}
use agora_perp_agent.Loop.Entry.{OpensWithin, entry_within_limits}
use agora_perp_agent.Tests.Data.{schedule, market, forecast, cost, model, sizer, sized}

abbrev engine : Engine ℤ
engine = record {
  gate = record {
    max_positions = 3;
    min_edge_after_cost_bps = lit 5 0;
    max_notional_per_position_usd = lit 200000 0;
    max_total_exposure_usd = lit 300000 0;
  };
  schedule = schedule;
  cost_model = model;
  sizer = sizer;
}

abbrev hour_bar : ℕ → ℕ → OhlcBar ℤ
hour_bar hour price = record {
  timestamp = hour *ℕ 3_600_000_000;
  opening = lit 50000 0;
  high = lit 50200 0;
  low = lit 49800 0;
  close = lit price 0;
  volume = lit 1 0;
}

abbrev hours : ℕ → ℕ → List (OhlcBar ℤ)
hours zero start = []
hours (suc n) start = hour_bar start 50000 ∷ hour_bar (start +ℕ 1) 50100 ∷ hours n (start +ℕ 2)

abbrev snap : MarketData ℤ
snap = record market { bars = hours 26 0; funding_rate = lit 1 5 }

abbrev board : Board ℤ
board = ("BTC", (record forecast { expected_move_bps = lit 2000 0 }, cost)) ∷ []

abbrev desk : Desk ℤ
desk = record {
  portfolio = record {
    starting_balance_usd = lit 100000 0;
    balance_usd = lit 100000 0;
    positions = [];
  };
  recent_fills = [];
  last_sized = [];
}

abbrev decision : Decision ℤ
decision = record {
  asset = "BTC";
  action = enter;
  side = some Side.long;
  rationale = record {
    decision_id = "d-0001";
    indicators = [];
    numbers = [];
    reasoning = "edge";
    pros = [];
    cons = [];
  };
  vetoed_reason = none;
}

abbrev after : Desk ℤ
unfolding enter_sized
after = (enter_sized engine board none snap decision desk).1

entry_within_limits_example : OpensWithin engine snap desk after
unfolding after enter_sized screen size_entry gate_sized place close_out apply aggregate_to_1h roll
    add_bar hourly_bar sort insert_sorted classify classify_trend classify_vol classify_funding
    trend_of vol_bucket ema ema_from adx running smoothed dx_values assess side_slippage_bps
    funding_bps direction signed_move_bps evaluate exposure_usd open_sized close accrue_funding
    side_slippage entry_fill exit_fill price_pnl size decimal realized_vol_annualized realized_vol
    over total times logarithm ceiling vol_scale_of square_root root_bits atr derive_stops_takes
    quantity_of finish leverage_of equity_usd unrealized_pnl_usd unrealized_usd opposite plus
    product ratio scale along log_returns true_range wilder_average wilder_from choose_leverage
    interval_count leverage_caps shrink venue_max_leverage playbook_multiplier sized_of
    choose_hardening choose_r_multiple classify_tier
entry_within_limits_example =
    entry_within_limits engine fixed-IsLawful board none snap decision desk decision after refl refl

abbrev holding : Desk ℤ
holding = record desk {
  portfolio = record {
    starting_balance_usd = lit 100000 0;
    balance_usd = lit 99000 0;
    positions = ("BTC", sized_position sized market (lit 50100 0)) ∷ [];
  };
}

abbrev flipping : Decision ℤ
flipping = record decision { action = flip; side = none }
