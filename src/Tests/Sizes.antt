-- ===== src/Tests/Sizes.antt =====
-- The sizing of a trade on twenty-two hourly bars.
use agora_perp_agent.Prelude.{◌≡◌, refl, inl, ◌⊎◌, true, false}
use agora_perp_agent.Prelude.Errors.{Error, err}
use agora_perp_agent.Float.Ops.{lit, zero, one, ◌*◌, ◌≼◌}
use agora_perp_agent.Float.Fixed.{
  ℤ, fixed, fixed-IsLawful, decimal, scale, plus, opposite, product, ratio, times, over,
  square_root, root_bits, total, logarithm, ceiling,
}
use agora_perp_agent.Contracts.{
  PortfolioState, empty, equity_usd, unrealized_usd, unrealized_pnl_usd, is_long, SizedCandidate,
  t1,
}
use agora_perp_agent.Indicators.{
  realized_vol, atr, log_returns, true_range, wilder_average, wilder_from, along,
}
use agora_perp_agent.Executor.{open_sized}
use agora_perp_agent.Regime.{apply_btc_override, playbook_multiplier}
use agora_perp_agent.Leverage.{
  choose_leverage, venue_max_leverage, interval_count, shrink, leverage_caps,
}
use agora_perp_agent.Stops.{derive_stops_takes, choose_r_multiple, choose_hardening}
use agora_perp_agent.Sizing.{
  size, realized_vol_annualized, vol_scale_of, quantity_of, leverage_of, finish, sized_of,
}
use agora_perp_agent.Sizing.Bounds.{size_bounds}
use agora_perp_agent.Sizing.StandDown.{btc_blocks_opening}
use agora_perp_agent.Tests.Data.{
  schedule, market, fallen, candidate, sized, value, calm, btc_crisis, sizer, bars,
}

abbrev start : PortfolioState ℤ
unfolding empty
start = empty (lit 100000 0)

abbrev sized_calm : SizedCandidate ℤ
sized_calm = value sized (size sizer candidate market (bars 11) start calm t1)

positive : fixed.le sized_calm.qty zero ≡ false
unfolding size decimal realized_vol_annualized realized_vol over total times logarithm ceiling
    vol_scale_of square_root root_bits atr derive_stops_takes quantity_of finish leverage_of
    equity_usd unrealized_pnl_usd unrealized_usd opposite plus product ratio scale along log_returns
    true_range wilder_average wilder_from choose_leverage interval_count leverage_caps shrink
    venue_max_leverage playbook_multiplier sized_of choose_hardening choose_r_multiple start
positive = refl

size_bounds_example :
    let most = equity_usd start * lit 1 2 * one * lit 13 1 * lit 15 1 in
    (sized_calm.candidate ≡ candidate)
    × (sized_calm.notional ≡ sized_calm.qty * market.mark_price)
    × (zero ≼ sized_calm.qty)
    × (sized_calm.qty ≼ fixed.quotient most sized_calm.stop_take_plan.stop_distance)
    × (((is_long candidate.side ≡ true)
          × (sized_calm.stop_price ≼ market.mark_price)
          × (market.mark_price ≼ sized_calm.take_price))
        ⊎ ((is_long candidate.side ≡ false)
            × (sized_calm.take_price ≼ market.mark_price)
            × (market.mark_price ≼ sized_calm.stop_price)))
unfolding size decimal realized_vol_annualized realized_vol over total times logarithm ceiling
    vol_scale_of square_root root_bits atr derive_stops_takes quantity_of finish leverage_of
    equity_usd unrealized_pnl_usd unrealized_usd opposite plus product ratio scale along log_returns
    true_range wilder_average wilder_from choose_leverage interval_count leverage_caps shrink
    venue_max_leverage playbook_multiplier sized_of choose_hardening choose_r_multiple start
size_bounds_example =
    size_bounds fixed-IsLawful sizer candidate market (bars 11) start calm t1 sized_calm refl refl
      refl refl refl

abbrev sized_crisis : SizedCandidate ℤ
sized_crisis =
    value sized
      (size sizer candidate market (bars 11) start (apply_btc_override calm btc_crisis) t1)

btc_blocks_opening_example :
    (sized_crisis.qty ≼ zero)
    × ((e : Error) × (open_sized schedule sized_crisis fallen start ≡ (err e, start)))
unfolding size decimal realized_vol_annualized realized_vol over total times logarithm ceiling
    vol_scale_of square_root root_bits atr derive_stops_takes quantity_of finish leverage_of
    equity_usd unrealized_pnl_usd unrealized_usd opposite plus product ratio scale along log_returns
    true_range wilder_average wilder_from choose_leverage interval_count leverage_caps shrink
    venue_max_leverage playbook_multiplier sized_of choose_hardening choose_r_multiple start
    apply_btc_override
btc_blocks_opening_example =
    btc_blocks_opening fixed-IsLawful schedule sizer candidate market (bars 11) start calm
      btc_crisis t1 sized_crisis fallen start refl refl (inl refl) refl
