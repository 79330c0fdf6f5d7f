-- ===== src/Tests/Markets.antt =====
-- The cost model, the ranking and the regimes.
use mathlib.Core.List.{Perm}
use agora_perp_agent.Prelude.{
  ◌≡◌, refl, ◌⊎◌, true, false, not, ◌||◌, ◌≤◌, length, List, [], ◌∷◌, ◌++◌, All,
}
use agora_perp_agent.Prelude.Errors.{ok}
use agora_perp_agent.Float.Ops.{lit, ◌*◌, ◌≼◌}
use agora_perp_agent.Float.Fixed.{
  ℤ, fixed, fixed-IsLawful, decimal, scale, plus, opposite, product, ratio, times, over,
  square_root, root_bits,
}
use agora_perp_agent.Contracts.{CostAssessment}
use agora_perp_agent.Cost.{assess, side_slippage_bps, funding_bps, direction, signed_move_bps}
use agora_perp_agent.Cost.Agreement.{assess_slippage_agrees, tradeable_beats_cost}
use agora_perp_agent.Executor.{side_slippage}
use agora_perp_agent.Allocate.{Item, Board, allocate, nonneg, number_from, cost_of, side_of}
use agora_perp_agent.Allocate.Ranking.{SetAside, IsRanked, allocate_ranking}
use agora_perp_agent.Tests.Data.{market, forecast, cost, model, schedule, value}

abbrev assessed : CostAssessment ℤ
unfolding assess
assessed = value cost (assess model forecast market (lit 1000 0))

assess_slippage_agrees_example :
    (slippage : ℤ) × (side_slippage schedule (lit 1000 0) market ≡ ok slippage)
    × (assessed.slippage_bps ≡ lit 2 0 * slippage)
unfolding assessed assess side_slippage_bps funding_bps direction signed_move_bps decimal scale plus
    opposite product ratio times over square_root root_bits
assess_slippage_agrees_example =
    assess_slippage_agrees model forecast market (lit 1000 0) assessed refl

tradeable_beats_cost_example : assessed.breakeven_bps ≼ signed_move_bps forecast (side_of forecast)
unfolding assessed assess side_slippage_bps funding_bps direction signed_move_bps decimal scale plus
    opposite product ratio times over square_root root_bits
tradeable_beats_cost_example =
    tradeable_beats_cost fixed-IsLawful model forecast market (lit 1000 0) assessed refl refl

abbrev board : Board ℤ
board =
    ("ETH", (forecast, record cost { asset = "ETH"; edge_after_cost_bps = lit 20 0 }))
    ∷ ("BTC", (forecast, cost))
    ∷ ("SOL", (forecast, record cost { asset = "SOL"; is_tradeable = false }))
    ∷ []

allocate_ranking_example :
    (chosen rest aside : List (Item ℤ)) × (allocate board (nonneg 1) true
      ≡ ok (number_from 0 chosen))
    × Perm ((chosen ++ rest) ++ aside) board
    × SetAside true aside
    × IsRanked (chosen ++ rest)
    × (length chosen ≤ 1)
    × ((rest ≡ []) ⊎ (length chosen ≡ 1))
    × All (λ item. (not true || (cost_of item).is_tradeable) ≡ true) chosen
allocate_ranking_example = allocate_ranking fixed-IsLawful board 1 true
