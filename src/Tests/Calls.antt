-- ===== src/Tests/Calls.antt =====
-- Single calls of the executor.
use agora_perp_agent.Prelude.{[], ◌∷◌}
use agora_perp_agent.Float.Ops.{lit}
use agora_perp_agent.Float.Fixed.{ℤ, fixed}
use agora_perp_agent.Contracts.{PortfolioState}
use agora_perp_agent.Executor.{sized_position}
use agora_perp_agent.Tests.Data.{market, sized}

abbrev account : PortfolioState ℤ
account = record {
  starting_balance_usd = lit 100000 0;
  balance_usd = lit 99000 0;
  positions = ("BTC", sized_position sized market (lit 50100 0)) ∷ [];
}
