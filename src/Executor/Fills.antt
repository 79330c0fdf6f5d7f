-- ===== src/Executor/Fills.antt =====
-- Fill prices, slippage and funding: the arithmetic of the methods, without the portfolio.
use Prim.Native.Nat.{◌-◌ as ◌-ℕ◌}
use agora_perp_agent.Prelude.{ℕ, none, some, if◌then◌else◌, leb}
use agora_perp_agent.Prelude.Errors.{Result, ok, ◌>>=◌}
use agora_perp_agent.Float.Ops.{Float, lit, ◌+◌, ◌-◌, ◌*◌, ◌/◌, neg, zero, one, divide, sqrt, ◌<=?◌}
use agora_perp_agent.Contracts.{Side, is_long, MarketData, FeeSchedule, Position}
use agora_perp_agent.Cost.{eps, bps}

module _ {F : Type 0} ⦃f : Float F⦄ where
  -- `SimExecutor._side_slippage_bps`
  unfoldable pub side_slippage : FeeSchedule F → F → MarketData F → Result F
  side_slippage schedule notional market = elim market.book_depth [
    | none ↦ ok schedule.flat_slippage_bps
    | some depth ↦ if depth <=? eps then ok schedule.flat_slippage_bps else (do
      ratio ← divide notional depth
      root ← sqrt ratio
      ok (schedule.slippage_k * root * bps))
  ]

  -- The price at which a position is entered and left, after slippage as a fraction.
  unfoldable pub entry_fill : Side → F → F → F
  entry_fill side mark slip_frac =
      if is_long side then mark * (one + slip_frac) else mark * (one - slip_frac)

  unfoldable pub exit_fill : Side → F → F → F
  exit_fill side mark slip_frac =
      if is_long side then mark * (one - slip_frac) else mark * (one + slip_frac)

  unfoldable pub price_pnl : Side → F → F → F → F
  price_pnl side entry_price exit_price qty =
      if is_long side then (exit_price - entry_price) * qty else (entry_price - exit_price) * qty

  -- `(now - then).total_seconds()`: whole microseconds over 10^6
  abbrev pub seconds_since : ℕ → ℕ → F
  seconds_since now before =
      if leb before now then lit (now -ℕ before) 6 else neg (lit (before -ℕ now) 6)

  -- `SimExecutor._accrue_funding`
  unfoldable pub accrue_funding : FeeSchedule F → MarketData F → Position F → Position F
  accrue_funding schedule market pos =
      let marked = record pos { last_mark = market.mark_price } in
      let period_min = schedule.funding_period_hours * lit 60 0 in
      let elapsed_min = seconds_since market.timestamp pos.last_funding_ts / lit 60 0 in
      if period_min <=? eps
      then marked
      else if elapsed_min <=? zero
      then marked
      else let notional = pos.qty * market.mark_price in
        let sign = if is_long pos.side then neg one else one in
        let cashflow = sign * market.funding_rate * notional * f.quotient elapsed_min period_min in
        record marked {
          accrued_funding_usd = pos.accrued_funding_usd + cashflow;
          last_funding_ts = market.timestamp;
        }
