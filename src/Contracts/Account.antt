-- ===== src/Contracts/Account.antt =====
-- Positions, the portfolio with its read-only views, fills, and the limits and verdict of the gate.
use agora_perp_agent.Prelude.{ℕ, String, Bool, Option, List, map, if◌then◌else◌}
use agora_perp_agent.Prelude.Dict.{Dict, contains}
use agora_perp_agent.Float.Ops.{Float, ◌+◌, ◌-◌, ◌*◌, sum}
use agora_perp_agent.Contracts.Market.{Side, is_long}
use agora_perp_agent.Contracts.Plan.{StopTakePlan}

pub record Position (F : Type 0) : Type 0 where
  pub asset : String
  pub side : Side
  pub qty : F
  pub entry_price : F
  pub entry_time : ℕ
  pub last_mark : F
  pub last_funding_ts : ℕ
  pub accrued_funding_usd : F
  pub stop_price : Option F
  pub take_price : Option F
  pub stop_take_plan : Option (StopTakePlan F)

pub record PortfolioState (F : Type 0) : Type 0 where
  pub starting_balance_usd : F
  pub balance_usd : F
  pub positions : Dict (Position F)

pub record Fill (F : Type 0) : Type 0 where
  pub asset : String
  pub timestamp : ℕ
  pub side : Side
  pub qty : F
  pub price : F
  pub fee_paid_usd : F
  pub is_open : Bool
  pub realized_pnl_usd : F

pub record RiskConfig (F : Type 0) : Type 0 where
  pub max_positions : ℕ
  pub min_edge_after_cost_bps : F
  pub max_notional_per_position_usd : F
  pub max_total_exposure_usd : F

-- The reason texts of the gate, with the numbers that they print.
pub data Reason (F : Type 0) : Type 0 where
  approval : Reason F
  edge_below : F → F → Reason F
  already_open : String → Reason F
  max_open : ℕ → Reason F
  over_position_cap : F → F → Reason F
  over_exposure_cap : F → F → Reason F

pub record RiskVerdict (F : Type 0) : Type 0 where
  pub approved : Bool
  pub reason : Reason F
  pub adjusted_size : Option F

-- `PortfolioState.has`
abbrev pub has : {F : Type 0} → PortfolioState F → String → Bool
has p asset = contains asset p.positions

module _ {F : Type 0} ⦃f : Float F⦄ where
  -- `Position.unrealized_pnl_usd`
  unfoldable pub unrealized_pnl_usd : Position F → F
  unrealized_pnl_usd pos =
      if is_long pos.side
      then (pos.last_mark - pos.entry_price) * pos.qty
      else (pos.entry_price - pos.last_mark) * pos.qty

  -- `PortfolioState.empty`
  unfoldable pub empty : F → PortfolioState F
  empty starting_balance = record {
    starting_balance_usd = starting_balance;
    balance_usd = starting_balance;
    positions = List.[];
  }

  unfoldable pub realized_pnl_usd : PortfolioState F → F
  realized_pnl_usd p = p.balance_usd - p.starting_balance_usd

  unfoldable pub unrealized_usd : PortfolioState F → F
  unfolding unrealized_pnl_usd
  unrealized_usd p = sum (map (λ e. unrealized_pnl_usd e.1 + e.1.accrued_funding_usd) p.positions)

  unfoldable pub equity_usd : PortfolioState F → F
  equity_usd p = p.balance_usd + unrealized_usd p

  unfoldable pub exposure_usd : PortfolioState F → F
  exposure_usd p = sum (map (λ e. e.1.qty * e.1.last_mark) p.positions)
