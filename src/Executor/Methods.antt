-- ===== src/Executor/Methods.antt =====
-- `open`, `open_sized`, `close`, `tick` and `check_stops`.
use agora_perp_agent.Prelude.{
  String, Bool, true, false, not, ◌&&◌, ◌||◌, Option, none, some, if◌then◌else◌, ◌==◌, leb,
}
use agora_perp_agent.Prelude.Errors.{position_open, asset_mismatch, bad_qty, no_position}
use agora_perp_agent.Prelude.Dict.{lookup, insert, erase}
use agora_perp_agent.Float.Ops.{Float, ◌+◌, ◌-◌, ◌*◌, ◌/◌, zero, divide, ◌<=?◌, ◌>=?◌}
use agora_perp_agent.Contracts.{
  is_long, is_short, MarketData, FeeSchedule, AllocationCandidate, SizedCandidate, Position,
  PortfolioState, Fill, has,
}
use agora_perp_agent.Cost.{bps}
use agora_perp_agent.Executor.Calls.{
  Action, pure, lift, or_raise, gets, ◌>>=◌, ◌>>◌, raise_if, modify,
}
use agora_perp_agent.Executor.Fills.{
  side_slippage, entry_fill, exit_fill, price_pnl, accrue_funding,
}

module _ {F : Type 0} where
  -- `portfolio.positions[asset] = pos`, which is also what writing into the position's fields does.
  abbrev pub put : String → Position F → PortfolioState F → PortfolioState F
  put asset pos p = record p { positions = insert asset pos p.positions }

  -- `del portfolio.positions[asset]`
  abbrev pub remove : String → PortfolioState F → PortfolioState F
  remove asset p = record p { positions = erase asset p.positions }

  abbrev pub position_at : String → PortfolioState F → Option (Position F)
  position_at asset p = lookup asset p.positions

module _ {F : Type 0} ⦃f : Float F⦄ where
  abbrev pub credit : F → PortfolioState F → PortfolioState F
  credit amount p = record p { balance_usd = p.balance_usd + amount }

  abbrev pub debit : F → PortfolioState F → PortfolioState F
  debit amount p = record p { balance_usd = p.balance_usd - amount }

  -- `SimExecutor.open`
  unfoldable pub open_position :
      FeeSchedule F → AllocationCandidate F → MarketData F → Action F (Fill F)
  open_position schedule candidate market = do
    raise_if (← gets (λ p. has p candidate.asset)) position_open
    raise_if (not (candidate.asset == market.asset)) asset_mismatch
    slippage ← lift (side_slippage schedule candidate.notional market)
    let fill_price = entry_fill candidate.side market.mark_price (slippage / bps)
    qty ← lift (divide candidate.notional fill_price)
    let fee_usd = candidate.notional * schedule.taker_bps / bps
    modify (debit fee_usd)
    modify (
        put candidate.asset (record {
          asset = candidate.asset;
          side = candidate.side;
          qty = qty;
          entry_price = fill_price;
          entry_time = market.timestamp;
          last_mark = market.mark_price;
          last_funding_ts = market.timestamp;
          accrued_funding_usd = zero;
          stop_price = none;
          take_price = none;
          stop_take_plan = none;
        }))
    pure (record {
      asset = candidate.asset;
      timestamp = market.timestamp;
      side = candidate.side;
      qty = qty;
      price = fill_price;
      fee_paid_usd = fee_usd;
      is_open = true;
      realized_pnl_usd = zero;
    })

  -- The position that `open_sized` registers at a fill price.
  abbrev pub sized_position : SizedCandidate F → MarketData F → F → Position F
  sized_position sized market fill_price = record {
    asset = sized.candidate.asset;
    side = sized.candidate.side;
    qty = sized.qty;
    entry_price = fill_price;
    entry_time = market.timestamp;
    last_mark = market.mark_price;
    last_funding_ts = market.timestamp;
    accrued_funding_usd = zero;
    stop_price = some sized.stop_price;
    take_price = some sized.take_price;
    stop_take_plan = some sized.stop_take_plan;
  }

  -- `SimExecutor.open_sized`
  unfoldable pub open_sized : FeeSchedule F → SizedCandidate F → MarketData F → Action F (Fill F)
  open_sized schedule sized market = do
    let candidate = sized.candidate
    raise_if (← gets (λ p. has p candidate.asset)) position_open
    raise_if (not (candidate.asset == market.asset)) asset_mismatch
    raise_if (sized.qty <=? zero) bad_qty
    slippage ← lift (side_slippage schedule sized.notional market)
    let fill_price = entry_fill candidate.side market.mark_price (slippage / bps)
    let fee_usd = sized.notional * schedule.taker_bps / bps
    modify (debit fee_usd)
    modify (put candidate.asset (sized_position sized market fill_price))
    pure (record {
      asset = candidate.asset;
      timestamp = market.timestamp;
      side = candidate.side;
      qty = sized.qty;
      price = fill_price;
      fee_paid_usd = fee_usd;
      is_open = true;
      realized_pnl_usd = zero;
    })

  -- `SimExecutor.close`
  unfoldable pub close : FeeSchedule F → String → MarketData F → Action F (Fill F)
  close schedule asset market = do
    raise_if (not (asset == market.asset)) asset_mismatch
    held ← or_raise (← gets (position_at asset)) no_position
    let pos = accrue_funding schedule market held
    modify (put asset pos)
    slippage ← lift (side_slippage schedule (pos.qty * market.mark_price) market)
    let exit_price = exit_fill pos.side market.mark_price (slippage / bps)
    let pnl = price_pnl pos.side pos.entry_price exit_price pos.qty
    let exit_fee_usd = pos.qty * exit_price * schedule.taker_bps / bps
    let realized = pnl + pos.accrued_funding_usd - exit_fee_usd
    modify (credit realized)
    modify (remove asset)
    pure (record {
      asset = asset;
      timestamp = market.timestamp;
      side = pos.side;
      qty = pos.qty;
      price = exit_price;
      fee_paid_usd = exit_fee_usd;
      is_open = false;
      realized_pnl_usd = realized;
    })

  -- What `tick` does to a position.
  unfoldable pub tick_position : FeeSchedule F → MarketData F → Position F → Position F
  tick_position schedule market pos =
      let marked = record pos { last_mark = market.mark_price } in
      if leb market.timestamp pos.last_funding_ts
      then marked
      else accrue_funding schedule market marked

  -- `SimExecutor.tick`, which neither returns a value nor raises.
  unfoldable pub tick : FeeSchedule F → MarketData F → PortfolioState F → PortfolioState F
  tick schedule market p = elim (position_at market.asset p) [
    | none ↦ p
    | some pos ↦ put market.asset (tick_position schedule market pos) p
  ]

  -- The two tests of `check_stops` at a mark price.
  abbrev pub stop_hit : Position F → F → Bool
  stop_hit pos mark = elim pos.stop_price [
    | none ↦ false
    | some level ↦ (is_long pos.side && mark <=? level) || (is_short pos.side && mark >=? level)
  ]

  abbrev pub take_hit : Position F → F → Bool
  take_hit pos mark = elim pos.take_price [
    | none ↦ false
    | some level ↦ (is_long pos.side && mark >=? level) || (is_short pos.side && mark <=? level)
  ]

  -- `SimExecutor.check_stops`: `none` where neither level is breached.
  unfoldable pub check_stops : FeeSchedule F → MarketData F → Action F (Option (Fill F))
  check_stops schedule market = do
    held ← gets (position_at market.asset)
    let fire = close schedule market.asset market >>= λ fill. pure (some fill)
    elim held [
      | none ↦ pure none
      | some pos ↦
          if stop_hit pos market.mark_price
          then fire
          else if take_hit pos market.mark_price
          then fire
          else pure none
    ]
