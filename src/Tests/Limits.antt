-- ===== src/Tests/Limits.antt =====
-- The gate, the leverage, the stops and the size of a trade.
use agora_perp_agent.Prelude.{◌≡◌, refl, ◌⊎◌, ◌↔◌, true}
use agora_perp_agent.Prelude.Errors.{ok}
use agora_perp_agent.Float.Ops.{lit, one, ◌≼◌}
use agora_perp_agent.Float.Fixed.{
  ℤ, fixed, fixed-IsLawful, decimal, scale, plus, opposite, product, ratio, times, over,
  square_root, root_bits,
}
use agora_perp_agent.Contracts.{PortfolioState, empty, approval, t1, LeverageCaps, Fill}
use agora_perp_agent.Executor.{open_sized}
use agora_perp_agent.Risk.{evaluate}
use agora_perp_agent.Risk.Admission.{FirstFailure, evaluate-FirstFailure}
use agora_perp_agent.Leverage.{
  choose_leverage, venue_max_leverage, operational_cap_of, drag, interval_count,
}
use agora_perp_agent.Leverage.Choice.{choose_leverage_bounds}
use agora_perp_agent.Tests.Data.{schedule, market, candidate, sized, value, no_fill, limits}

abbrev start : PortfolioState ℤ
unfolding empty
start = empty (lit 100000 0)

evaluate-FirstFailure_example :
    FirstFailure limits candidate start (evaluate limits candidate start).reason
    × (((evaluate limits candidate start).approved ≡ true)
        ↔ FirstFailure limits candidate start approval)
evaluate-FirstFailure_example = evaluate-FirstFailure limits candidate start fixed-IsLawful

abbrev after_open : PortfolioState ℤ
unfolding open_sized
after_open = (open_sized schedule sized market start).1

abbrev opening_fill : Fill ℤ
unfolding open_sized
opening_fill = value no_fill (open_sized schedule sized market start).0

choose_leverage_bounds_example :
    (leverage : ℤ) × (caps : LeverageCaps ℤ) × (choose_leverage "BTC"
        (lit 10000 0)
        t1
        (lit 3 2)
        (lit 1 3)
        (lit 4 0)
        (lit 5 3)
      ≡ ok (leverage, caps))
    × (caps.venue_cap ≡ venue_max_leverage "BTC")
    × (caps.operational_cap ≡ operational_cap_of t1)
    × (one ≼ leverage)
    × ((leverage ≼ one)
        ⊎ ((leverage ≼ caps.venue_cap)
            × (leverage ≼ caps.operational_cap)
            × (leverage ≼ caps.liq_safety_cap)
            × (drag (lit 1 3) (interval_count {F = ℤ} (lit 4 0)) leverage ≼ lit 5 3)))
unfolding decimal scale plus opposite product ratio times over square_root root_bits
choose_leverage_bounds_example =
    choose_leverage_bounds fixed-IsLawful "BTC" (lit 10000 0) t1 (lit 3 2) (lit 1 3) (lit 4 0)
      (lit 5 3) refl refl refl
