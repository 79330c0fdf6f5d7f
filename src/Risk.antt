-- ===== src/Risk.antt =====
-- core/risk.py: the gate.
pub mod Admission
use agora_perp_agent.Prelude.{true, false, none, if◌then◌else◌, leb, length}
use agora_perp_agent.Float.Ops.{Float, ◌+◌, ◌<?◌, ◌>?◌}
use agora_perp_agent.Contracts.{
  AllocationCandidate, PortfolioState, RiskConfig, RiskVerdict, Reason, approval, edge_below,
  already_open, max_open, over_position_cap, over_exposure_cap, has, exposure_usd,
}

module _ {F : Type 0} where
  abbrev pub veto : Reason F → RiskVerdict F
  veto reason = record { approved = false; reason = reason; adjusted_size = none }

  abbrev pub approve : RiskVerdict F
  approve = record { approved = true; reason = approval; adjusted_size = none }

module _ {F : Type 0} ⦃f : Float F⦄ where
  -- `RiskGate.evaluate`: the first rule that fails is the verdict.
  unfoldable pub evaluate : RiskConfig F → AllocationCandidate F → PortfolioState F → RiskVerdict F
  evaluate cfg candidate portfolio =
      let edge = candidate.cost.edge_after_cost_bps in
      let projected = exposure_usd portfolio + candidate.notional in
      if edge <? cfg.min_edge_after_cost_bps
      then veto (edge_below edge cfg.min_edge_after_cost_bps)
      else if has portfolio candidate.asset
      then veto (already_open candidate.asset)
      else if leb cfg.max_positions (length portfolio.positions)
      then veto (max_open cfg.max_positions)
      else if candidate.notional >? cfg.max_notional_per_position_usd
      then veto (over_position_cap candidate.notional cfg.max_notional_per_position_usd)
      else if projected >? cfg.max_total_exposure_usd
      then veto (over_exposure_cap projected cfg.max_total_exposure_usd)
      else approve
