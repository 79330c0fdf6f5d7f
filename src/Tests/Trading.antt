-- ===== src/Tests/Trading.antt =====
-- The executor's calls on a small account.
use mathlib.Core.List.{foldl}
use agora_perp_agent.Prelude.{◌≡◌, refl, List, [], ◌∷◌, length, ◌⊎◌, true}
use agora_perp_agent.Prelude.Dict.{keys}
use agora_perp_agent.Float.Ops.{lit, zero, ◌≼◌}
use agora_perp_agent.Float.Fixed.{
  ℤ, fixed, fixed-IsLawful, decimal, scale, plus, opposite, product, ratio, times, over,
  square_root, root_bits,
}
use agora_perp_agent.Contracts.{PortfolioState, empty, is_long, is_short, Position, Fill}
use agora_perp_agent.Executor.{
  open_sized, close, check_stops, tick, accrue_funding, side_slippage, entry_fill, exit_fill,
  price_pnl, sized_position, tick_position,
}
use agora_perp_agent.Executor.Ledger.{
  Command, open_plan, cut, mark, guard_stops, call, call_all, settle, follow, call_all_accounts,
}
use agora_perp_agent.Executor.Invariant.{IsConsistent, call_all-IsConsistent}
use agora_perp_agent.Executor.RoundTrip.{round_trip_loses}
use agora_perp_agent.Executor.StopLoss.{stopped_price}
use agora_perp_agent.Tests.Data.{schedule, market, fallen, sized, value, no_fill, fired_fill}

abbrev start : PortfolioState ℤ
unfolding empty
start = empty (lit 100000 0)

-- A trade opened, ticked, stopped out, and two calls that raise.
abbrev session : List (Command ℤ)
session =
    open_plan sized market
    ∷ open_plan sized market
    ∷ mark fallen
    ∷ guard_stops fallen
    ∷ cut "BTC" fallen
    ∷ []

abbrev after_open : PortfolioState ℤ
unfolding open_sized
after_open = (open_sized schedule sized market start).1

abbrev opening_fill : Fill ℤ
unfolding open_sized
opening_fill = value no_fill (open_sized schedule sized market start).0

abbrev held : Position ℤ
held = sized_position sized market opening_fill.price

five_calls : length (call_all schedule session start).0 ≡ 2
unfolding call_all call start after_open opening_fill open_sized close check_stops tick
    tick_position accrue_funding side_slippage entry_fill exit_fill price_pnl decimal scale plus
    opposite product ratio times over square_root root_bits
five_calls = refl

call_all_accounts_example :
    let (fills, p') = call_all schedule session start in
    (p'.balance_usd ≡ foldl settle start.balance_usd fills)
    × (p'.starting_balance_usd ≡ start.starting_balance_usd)
    × (keys p'.positions ≡ foldl follow (keys start.positions) fills)
call_all_accounts_example = call_all_accounts schedule session start

call_all-IsConsistent_example : IsConsistent (call_all schedule session after_open).1
unfolding start after_open opening_fill open_sized close check_stops tick tick_position
    accrue_funding side_slippage entry_fill exit_fill price_pnl decimal scale plus opposite product
    ratio times over square_root root_bits
call_all-IsConsistent_example =
    call_all-IsConsistent schedule session after_open
      (record { keyed = (refl, tt); own_asset = (refl, tt) })

round_trip_loses_example :
    let closing = close schedule "BTC" market after_open in
    ((value no_fill closing.0).realized_pnl_usd ≼ zero)
    × (closing.1.balance_usd ≼ start.balance_usd)
unfolding start after_open opening_fill open_sized close check_stops tick tick_position
    accrue_funding side_slippage entry_fill exit_fill price_pnl decimal scale plus opposite product
    ratio times over square_root root_bits
round_trip_loses_example =
    round_trip_loses fixed-IsLawful schedule sized market start opening_fill after_open
      (value no_fill (close schedule "BTC" market after_open).0)
      (close schedule "BTC" market after_open).1 refl refl refl refl refl refl refl refl

stopped_price_example :
    let fill = fired_fill (check_stops schedule fallen after_open).0 in
    ((is_long held.side ≡ true) × (fill.price ≼ lit 48500 0))
    ⊎ ((is_short held.side ≡ true) × (lit 48500 0 ≼ fill.price))
unfolding start after_open opening_fill open_sized close check_stops tick tick_position
    accrue_funding side_slippage entry_fill exit_fill price_pnl decimal scale plus opposite product
    ratio times over square_root root_bits
stopped_price_example =
    stopped_price fixed-IsLawful schedule fallen after_open held (lit 48500 0)
      (fired_fill (check_stops schedule fallen after_open).0)
      (check_stops schedule fallen after_open).1 refl refl refl refl refl refl refl
