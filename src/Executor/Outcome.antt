-- ===== src/Executor/Outcome.antt =====
-- What each method of the executor has done when it returns, on every path.
use agora_perp_agent.Prelude.{
  String, ◌≡◌, true, false, ◌||◌, Option, none, some, ◌⊎◌, inl, inr, arith, if◌then◌else◌, ◌==◌,
  Option-cases, Bool-cases,
}
use agora_perp_agent.Prelude.Errors.{Result, ok, err, no_position, asset_mismatch}
use agora_perp_agent.Prelude.Dict.{erase-insert}
use agora_perp_agent.Float.Ops.{Float, zero}
use agora_perp_agent.Contracts.{
  MarketData, FeeSchedule, AllocationCandidate, SizedCandidate, Position, PortfolioState, Fill, has,
}
use agora_perp_agent.Executor.{
  put, remove, position_at, credit, debit, sized_position, open_position, open_sized, close,
  accrue_funding, check_stops, stop_hit, take_hit,
}

module _ {F : Type 0} ⦃f : Float F⦄ where
  -- An opening call that returns charged the fee, registered a new position and nothing else; one
  -- that raised wrote nothing.
  abbrev pub Opened :
      String
      → (Fill F → Position F)
      → PortfolioState F
      → Result (Fill F) × PortfolioState F
      → Type 0
  Opened asset pos p (ok fill, p') =
      (has p asset ≡ false)
      × (fill.is_open ≡ true)
      × (fill.asset ≡ asset)
      × (p' ≡ put asset (pos fill) (debit fill.fee_paid_usd p))
  Opened asset pos p (err e, p') = p' ≡ p

  -- A closing call that returns paid the realized result and deleted the position; one that raised
  -- left the cash and has at most re-marked that one position.
  abbrev pub Closed :
      String → Position F → PortfolioState F → Result (Fill F) × PortfolioState F → Type 0
  Closed asset pos p (ok fill, p') =
      (has p asset ≡ true)
      × (fill.is_open ≡ false)
      × (fill.asset ≡ asset)
      × (p' ≡ remove asset (credit fill.realized_pnl_usd p))
  Closed asset pos p (err e, p') = (p' ≡ p) ⊎ ((has p asset ≡ true) × (p' ≡ put asset pos p))

  pub open_sized_outcome :
      (s : FeeSchedule F) (sized : SizedCandidate F) (m : MarketData F) (p : PortfolioState F)
      → Opened sized.candidate.asset
          (λ fill. sized_position sized m fill.price)
          p
          (open_sized s sized m p)
  unfolding open_sized
  open_sized_outcome s sized m p = ground arith

  -- The position that `open` registers, without exit levels.
  abbrev pub plain_position : AllocationCandidate F → MarketData F → Fill F → Position F
  plain_position candidate m fill = record {
    asset = candidate.asset;
    side = candidate.side;
    qty = fill.qty;
    entry_price = fill.price;
    entry_time = m.timestamp;
    last_mark = m.mark_price;
    last_funding_ts = m.timestamp;
    accrued_funding_usd = zero;
    stop_price = none;
    take_price = none;
    stop_take_plan = none;
  }

  -- `open` on every path: where it returns a fill, the asset had no position, the fill is an opening one
  -- on that asset, and the portfolio is the old one less the fee, with a position registered that has
  -- the quantity and the price of the fill and no exit levels. Where it raises, the portfolio is
  -- unchanged.
  pub open_position_outcome :
      (s : FeeSchedule F) (c : AllocationCandidate F) (m : MarketData F) (p : PortfolioState F)
      → Opened c.asset (plain_position c m) p (open_position s c m p)
  unfolding open_position
  open_position_outcome s c m p = ground arith

  pub close_outcome :
      (s : FeeSchedule F) (asset : String) (m : MarketData F) (pos : Position F)
      (p : PortfolioState F)
      → position_at asset p ≡ some pos
      → Closed asset (accrue_funding s m pos) p (close s asset m p)
  unfolding close
  close_outcome s asset m pos p held =
      ground (arith, erase-insert asset (accrue_funding s m pos) p.positions)

  -- With no position to close, the call raises and writes nothing.
  pub close_missing :
      (s : FeeSchedule F) (asset : String) (m : MarketData F) (p : PortfolioState F)
      → position_at asset p ≡ none
      → close s asset m p ≡ (err (if asset == m.asset then no_position else asset_mismatch), p)
  unfolding close
  close_missing s asset m p missing = ground arith

  -- The answer of `check_stops` from that of `close`.
  abbrev pub fired :
      Result (Fill F) × PortfolioState F → Result (Option (Fill F)) × PortfolioState F
  fired (ok fill, p) = (ok (some fill), p)
  fired (err e, p) = (err e, p)

  pub check_stops_cases :
      (s : FeeSchedule F) (m : MarketData F) (p : PortfolioState F)
      → (check_stops s m p ≡ (ok none, p)) ⊎ (check_stops s m p ≡ fired (close s m.asset m p))
  unfolding check_stops
  check_stops_cases s m p = elim (Option-cases (position_at m.asset p)) [
    | inl missing ↦ inl (ground arith)
    | inr (pos, held) ↦ elim (Bool-cases (stop_hit pos m.mark_price || take_hit pos m.mark_price)) [
      | inl hit ↦ inr (ground arith)
      | inr quiet ↦ inl (ground arith)
    ]
  ]
