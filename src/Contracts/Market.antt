-- ===== src/Contracts/Market.antt =====
-- Snapshots, forecasts, fees and costs. A `datetime` is the number of microseconds since year 1;
-- an asset is its symbol. The side is a text in the source, `"long"` or `"short"` by its
-- documentation: any other text is `other`.
use agora_perp_agent.Prelude.{ℕ, String, Bool, true, false, Option, List}

pub data Side : Type 0 where
  long short other : Side

abbrev pub is_long : Side → Bool
is_long Side.long = true
is_long Side.short = false
is_long Side.other = false

abbrev pub is_short : Side → Bool
is_short Side.short = true
is_short Side.long = false
is_short Side.other = false

pub record OhlcBar (F : Type 0) : Type 0 where
  pub timestamp : ℕ
  pub opening : F
  pub high : F
  pub low : F
  pub close : F
  pub volume : F

pub record MarketData (F : Type 0) : Type 0 where
  pub asset : String
  pub timestamp : ℕ
  pub mark_price : F
  pub funding_rate : F
  pub bars : List (OhlcBar F)
  pub book_depth : Option F

pub record Forecast (F : Type 0) : Type 0 where
  pub asset : String
  pub timestamp : ℕ
  pub p_up : F
  pub p_down : F
  pub expected_move_bps : F
  pub confidence : F

pub record FeeSchedule (F : Type 0) : Type 0 where
  pub maker_bps : F
  pub taker_bps : F
  pub funding_period_hours : F
  pub slippage_k : F
  pub flat_slippage_bps : F

pub record CostAssessment (F : Type 0) : Type 0 where
  pub asset : String
  pub notional : F
  pub fee_bps : F
  pub slippage_bps : F
  pub funding_bps : F
  pub round_trip_bps : F
  pub breakeven_bps : F
  pub edge_after_cost_bps : F
  pub is_tradeable : Bool

pub record AllocationCandidate (F : Type 0) : Type 0 where
  pub asset : String
  pub side : Side
  pub notional : F
  pub forecast : Forecast F
  pub cost : CostAssessment F
  pub rank : ℕ
