-- ===== src/AgentTools.antt =====
-- core/agent_tools.py: read-only views of the agent's state, as dicts of scalars.
pub mod Views
use Prim.Native.String.{◌++◌}
use agora_perp_agent.Prelude.{String, none, some, List, [], ◌∷◌, map}
use agora_perp_agent.Prelude.Dict.{Dict, lookup}
use agora_perp_agent.Float.Ops.{Float}
use agora_perp_agent.Contracts.{
  AgentState, AllocationCandidate, CostAssessment, Forecast, Position, equity_usd, exposure_usd,
  realized_pnl_usd, unrealized_pnl_usd, unrealized_usd,
}
use agora_perp_agent.Contracts.Json.{Row, boolean, integer, number, words, side}

module _ {F : Type 0} where
  abbrev pub board_row : Forecast F × CostAssessment F → Row F
  board_row (forecast, cost) =
      ("p_up", number forecast.p_up)
      ∷ ("expected_move_bps", number forecast.expected_move_bps)
      ∷ ("round_trip_cost_bps", number cost.round_trip_bps)
      ∷ ("edge_after_cost_bps", number cost.edge_after_cost_bps)
      ∷ ("is_tradeable", boolean cost.is_tradeable)
      ∷ []

  unfoldable pub read_board : AgentState F → Dict (Row F)
  read_board state = map (λ e. (e.0, board_row e.1)) state.board

  abbrev pub candidate_row : AllocationCandidate F → Row F
  candidate_row c =
      ("rank", integer c.rank)
      ∷ ("asset", words c.asset)
      ∷ ("side", side c.side)
      ∷ ("notional_usd", number c.notional)
      ∷ ("edge_after_cost_bps", number c.cost.edge_after_cost_bps)
      ∷ []

  unfoldable pub read_candidates : AgentState F → List (Row F)
  read_candidates state = map candidate_row state.candidates

  unfoldable pub get_forecast : AgentState F → String → Row F
  get_forecast state asset = elim (lookup asset state.board) [
    | none ↦ ("error", words ("no board entry for " ++ asset)) ∷ []
    | some (forecast, cost) ↦
        ("asset", words asset)
        ∷ ("p_up", number forecast.p_up)
        ∷ ("p_down", number forecast.p_down)
        ∷ ("expected_move_bps", number forecast.expected_move_bps)
        ∷ ("confidence", number forecast.confidence)
        ∷ []
  ]

module _ {F : Type 0} ⦃f : Float F⦄ where
  abbrev pub position_row : Position F → Row F
  position_row pos =
      ("asset", words pos.asset)
      ∷ ("side", side pos.side)
      ∷ ("qty", number pos.qty)
      ∷ ("entry_price", number pos.entry_price)
      ∷ ("last_mark", number pos.last_mark)
      ∷ ("unrealized_pnl_usd", number (unrealized_pnl_usd pos))
      ∷ ("accrued_funding_usd", number pos.accrued_funding_usd)
      ∷ []

  -- The account's numbers, and the value of `open_positions`.
  unfoldable pub read_portfolio : AgentState F → Row F × List (Row F)
  read_portfolio state =
      let p = state.portfolio in
      (
        ("balance_usd", number p.balance_usd)
            ∷ ("realized_pnl_usd", number (realized_pnl_usd p))
            ∷ ("unrealized_usd", number (unrealized_usd p))
            ∷ ("equity_usd", number (equity_usd p))
            ∷ ("exposure_usd", number (exposure_usd p))
            ∷ [],
        map (λ e. position_row e.1) p.positions,
      )

  unfoldable pub get_position : AgentState F → String → Row F
  get_position state asset = elim (lookup asset state.portfolio.positions) [
    | none ↦ []
    | some pos ↦ position_row pos
  ]
