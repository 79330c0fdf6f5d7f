-- ===== src/Executor/RoundTrip.antt =====
-- Opening a sized position and closing it on the same snapshot never makes money.
use agora_perp_agent.Prelude.{◌≡◌, false, some, arith, inl, inr, Bool-cases, eq_iff, refl, sym, ℕ}
use agora_perp_agent.Prelude.Errors.{ok, Result-cases}
use agora_perp_agent.Prelude.Dict.{lookup-insert}
use agora_perp_agent.Float.Ops.{Float, lit, ◌+◌, ◌-◌, ◌*◌, ◌/◌, zero, one, ◌≼◌}
use agora_perp_agent.Float.Laws.{
  IsLawful, le_of_not_le, mul_nonpos, mul_nonneg, add-le, sub-le, sub_nonpos,
}
use agora_perp_agent.Contracts.{
  Side, is_long, MarketData, FeeSchedule, Position, PortfolioState, SizedCandidate, Fill,
}
use agora_perp_agent.Cost.{bps}
use agora_perp_agent.Executor.{
  position_at, accrue_funding, open_sized, close, side_slippage, entry_fill, exit_fill, price_pnl,
  seconds_since, sized_position,
}
use agora_perp_agent.Executor.Slippage.{slip_nonneg, bps_pos, close_numbers, fills_against}

module _ {F : Type 0} ⦃f : Float F⦄ where
  -- The numbers of an opening fill.
  open_numbers :
      (s : FeeSchedule F) (sized : SizedCandidate F) (m : MarketData F) (p : PortfolioState F)
      (fill : Fill F) (p' : PortfolioState F)
      → open_sized s sized m p ≡ (ok fill, p')
      → (slippage : F) × (side_slippage s sized.notional m ≡ ok slippage)
        × (fill.price ≡ entry_fill sized.candidate.side m.mark_price (slippage / bps))
        × (position_at sized.candidate.asset p' ≡ some (sized_position sized m fill.price))
        × (p'.balance_usd ≡ p.balance_usd - sized.notional * s.taker_bps / bps)
        × (f.le sized.qty zero ≡ false)
  unfolding open_sized
  open_numbers s sized m p fill p' e =
      let asset = sized.candidate.asset in
      elim (Result-cases (side_slippage s sized.notional m)) [
        | inl (slippage, quoted) ↦ (
          slippage,
          quoted,
          ground arith,
          ground (
            arith,
            eq_iff asset asset,
            lookup-insert asset asset (sized_position sized m fill.price) p.positions,
          ),
          ground arith,
          ground arith,
        )
        | inr (error, raised) ↦ absurd (ground arith)
      ]

  module _ (laws : IsLawful F) where
    open laws use {le_refl, le_trans, lit-le, quotient_mono, quotient_one, lit_pos}

    zero_over_sixty : f.quotient zero (lit 60 0) ≼ zero
    zero_over_sixty =
        le_trans _ _ _
          (quotient_mono zero zero one (lit 60 0) (le_refl zero)
            (lit_pos 1 0 (omega arith) (omega arith)) (le_refl zero)
            (lit-le 1 0 60 0 (omega arith)))
          (quotient_one zero).0

    seconds_zero : (now : ℕ) → seconds_since now now ≡ f.lit 0 6
    seconds_zero now = ground arith

    no_time : (now : ℕ) → f.quotient (seconds_since now now) (f.lit 60 0) ≼ zero
    no_time now = rw (seconds_zero now) (
        le_trans _ _ _
          (quotient_mono (lit 0 6) zero (lit 60 0) (lit 60 0) (lit-le 0 0 0 6 (omega arith))
            (lit_pos 60 0 (omega arith) (omega arith)) (lit-le 0 6 0 0 (omega arith)) (le_refl _))
          zero_over_sixty)

    -- No funding falls due on the snapshot of the last accrual.
    accrue_funding_now :
        (s : FeeSchedule F) (m : MarketData F) (pos : Position F)
        → pos.last_funding_ts ≡ m.timestamp
        → accrue_funding s m pos ≡ record pos { last_mark = m.mark_price }
    unfolding accrue_funding
    accrue_funding_now s m pos now =
        let due = rw (sym now) at (no_time m.timestamp) in
        ground (arith, no_time pos.last_funding_ts)

    pnl_nonpos :
        (side : Side) (mark slip slip' qty : F)
        → zero ≼ mark
        → zero ≼ qty
        → zero ≼ slip
        → zero ≼ slip'
        → price_pnl side (entry_fill side mark slip) (exit_fill side mark slip') qty ≼ zero
    unfolding price_pnl
    pnl_nonpos side mark slip slip' qty m_pos q_pos s_pos s'_pos =
        let enter = fills_against laws side mark slip m_pos s_pos in
        let leave = fills_against laws side mark slip' m_pos s'_pos in
        elim (Bool-cases (is_long side)) [
          | inl is ↦ rw is (
              mul_nonpos laws _ qty
                (sub_nonpos laws _ _ (le_trans _ _ _ (leave.0 is).1 (enter.0 is).0)) q_pos)
          | inr is ↦ rw is (
              mul_nonpos laws _ qty
                (sub_nonpos laws _ _ (le_trans _ _ _ (enter.1 is).0 (leave.1 is).1)) q_pos)
        ]

    -- The price leg and the fee of leaving at once.
    leave_at_once :
        (side : Side) (mark slip slip' qty taker : F)
        → zero ≼ mark
        → zero ≼ qty
        → zero ≼ taker
        → zero ≼ slip
        → zero ≼ slip'
        → zero ≼ exit_fill side mark slip'
        → let price = exit_fill side mark slip' in
          price_pnl side (entry_fill side mark slip) price qty + zero - qty * price * taker / bps
          ≼ zero
    leave_at_once side mark slip slip' qty taker m_pos q_pos t_pos s_pos s'_pos price_pos =
        let price = exit_fill side mark slip' in
        let paid = mul_nonneg laws _ taker (mul_nonneg laws qty price q_pos price_pos) t_pos in
        le_trans _ _ _ (sub-le laws _ _ (laws.quotient_nonneg _ bps paid (bps_pos laws))) (
          le_trans _ _ _ (laws.add_zero _).0
            (pnl_nonpos side mark slip slip' qty m_pos q_pos s_pos s'_pos))

    -- Opening a sized trade and closing it on the same snapshot, if both calls return, realizes no gain and leaves no more
    -- cash than before. It holds if the mark, the notional, the schedule's taker fee and its two
    -- slippage parameters, and the price of the closing fill are not negative.
    pub round_trip_loses :
        (s : FeeSchedule F) (sized : SizedCandidate F) (m : MarketData F) (p : PortfolioState F)
        (fill : Fill F) (p' : PortfolioState F) (fill' : Fill F) (p'' : PortfolioState F)
        → zero ≼ m.mark_price
        → zero ≼ s.taker_bps
        → zero ≼ sized.notional
        → zero ≼ s.flat_slippage_bps
        → zero ≼ s.slippage_k
        → zero ≼ fill'.price
        → open_sized s sized m p ≡ (ok fill, p')
        → close s sized.candidate.asset m p' ≡ (ok fill', p'')
        → (fill'.realized_pnl_usd ≼ zero) × (p''.balance_usd ≼ p.balance_usd)
    round_trip_loses s sized m p fill p' fill' p'' m_pos t_pos n_pos flat k price_pos opens closes =
        let side = sized.candidate.side in
        let pos = sized_position sized m fill.price in
        let (slip, quoted, priced, held, charged, qty_pos) =
          open_numbers s sized m p fill p' opens in
        let (slip', quoted', priced', result, paid) =
          close_numbers s sized.candidate.asset m p' pos fill' p'' held closes in
        let now = accrue_funding_now s m pos refl in
        let slip_pos = slip_nonneg laws s m _ slip flat k quoted in
        let slip'_pos = slip_nonneg laws s m _ slip' flat k quoted' in
        let loss : fill'.realized_pnl_usd ≼ zero =
          rw (result, priced', now, priced)
            (leave_at_once side m.mark_price (slip / bps) (slip' / bps) sized.qty s.taker_bps m_pos
              (le_of_not_le laws _ _ qty_pos) t_pos slip_pos slip'_pos
              (rw now at (rw priced' at price_pos))) in
        let fee_pos = laws.quotient_nonneg _ bps (mul_nonneg laws _ _ n_pos t_pos) (bps_pos laws) in
        (loss, rw (paid, charged) (le_trans _ _ _ (add-le laws _ _ loss) (sub-le laws _ _ fee_pos)))
