-- ===== src/Contracts/Agent.antt =====
-- What the agent decides per asset. The action is a text in the source: any text that the loop does
-- not test for is `other_action`. The veto reasons are constructors with what their texts print.
use agora_perp_agent.Prelude.{ℕ, String, Option, List}
use agora_perp_agent.Prelude.Errors.{Error}
use agora_perp_agent.Prelude.Dict.{Dict}
use agora_perp_agent.Contracts.Market.{Side, Forecast, CostAssessment, AllocationCandidate}
use agora_perp_agent.Contracts.Plan.{RegimeTag}
use agora_perp_agent.Contracts.Account.{Reason, PortfolioState, Fill}

pub record TradeRationale (F : Type 0) : Type 0 where
  pub decision_id : String
  pub indicators : Dict F
  pub numbers : Dict F
  pub reasoning : String
  pub pros : List String
  pub cons : List String

pub data Intent : Type 0 where
  enter hold cut flip skip other_action : Intent

pub data Veto (F : Type 0) : Type 0 where
  already_held : Veto F
  nothing_to_cut : Veto F
  without_side : Veto F
  no_board_entry : Veto F
  warm_up : ℕ → Veto F
  regime_error : Error → Veto F
  sizing_error : Error → Veto F
  stand_down : RegimeTag → Veto F
  gate_veto : Reason F → Veto F
  no_snapshot : Veto F

pub record Decision (F : Type 0) : Type 0 where
  pub asset : String
  pub action : Intent
  pub side : Option Side
  pub rationale : TradeRationale F
  pub vetoed_reason : Option (Veto F)

pub record Decisions (F : Type 0) : Type 0 where
  pub decisions : List (Decision F)
  pub summary : String

pub record AgentState (F : Type 0) : Type 0 where
  pub timestamp : ℕ
  pub board : Dict (Forecast F × CostAssessment F)
  pub candidates : List (AllocationCandidate F)
  pub portfolio : PortfolioState F
  pub recent_fills : List (Fill F)
