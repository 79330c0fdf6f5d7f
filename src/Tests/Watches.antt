-- ===== src/Tests/Watches.antt =====
-- The loop over the open positions, on a position whose stop level is passed.
use agora_perp_agent.Prelude.{◌≡◌, refl, [], ◌∷◌}
use agora_perp_agent.Prelude.Dict.{Dict}
use agora_perp_agent.Float.Ops.{lit}
use agora_perp_agent.Float.Fixed.{
  ℤ, fixed, decimal, scale, plus, opposite, product, ratio, times, over, square_root, root_bits,
}
use agora_perp_agent.Contracts.{MarketData}
use agora_perp_agent.Executor.{
  tick, tick_position, check_stops, close, accrue_funding, side_slippage, entry_fill, exit_fill,
  price_pnl, sized_position,
}
use agora_perp_agent.Loop.Decisions.{Desk}
use agora_perp_agent.Loop.Watch.{watch_assets, watch_stops}
use agora_perp_agent.Tests.Data.{schedule, market, fallen, sized}

abbrev desk : Desk ℤ
desk = record {
  portfolio = record {
    starting_balance_usd = lit 100000 0;
    balance_usd = lit 99000 0;
    positions = ("BTC", sized_position sized market (lit 50100 0)) ∷ [];
  };
  recent_fills = [];
  last_sized = ("BTC", sized) ∷ [];
}

abbrev snapshots : Dict (MarketData ℤ)
snapshots = ("ETH", market) ∷ ("BTC", fallen) ∷ []

watched : (watch_stops schedule snapshots desk).1.portfolio.positions ≡ []
unfolding watch_stops watch_assets tick tick_position check_stops close accrue_funding side_slippage
    entry_fill exit_fill price_pnl decimal scale plus opposite product ratio times over square_root
    root_bits
watched = refl
