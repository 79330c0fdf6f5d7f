-- ===== src/Executor/Slippage.antt =====
-- Fills against the mark: slippage always costs, on the way in, on the way out and in a stop.
use agora_perp_agent.Prelude.{
  String, ◌≡◌, true, false, some, arith, inl, inr, Bool-cases, subst, Option-cases,
}
use agora_perp_agent.Prelude.Errors.{ok, Result-cases}
use agora_perp_agent.Float.Ops.{Float, ◌+◌, ◌-◌, ◌*◌, ◌/◌, zero, one, ◌≼◌}
use agora_perp_agent.Float.Laws.{
  IsLawful, le_of_not_le, le_of_not_lt, mul_nonneg, mul_nonpos, le-add, sub-le, le_mul_self,
  mul_le_self,
}
use agora_perp_agent.Contracts.{
  Side, is_long, MarketData, FeeSchedule, Position, PortfolioState, Fill,
}
use agora_perp_agent.Cost.{bps}
use agora_perp_agent.Executor.{
  position_at, accrue_funding, close, side_slippage, entry_fill, exit_fill, price_pnl,
}

module _ {F : Type 0} ⦃f : Float F⦄ where
  -- The numbers of a closing fill, from the position after the last accrual.
  pub close_numbers :
      (s : FeeSchedule F) (asset : String) (m : MarketData F) (p : PortfolioState F)
      (held : Position F) (fill : Fill F) (p' : PortfolioState F)
      → position_at asset p ≡ some held
      → close s asset m p ≡ (ok fill, p')
      → let pos = accrue_funding s m held in
        (slippage : F) × (side_slippage s (pos.qty * m.mark_price) m ≡ ok slippage)
        × (fill.price ≡ exit_fill pos.side m.mark_price (slippage / bps))
        × (fill.realized_pnl_usd
            ≡ price_pnl pos.side pos.entry_price fill.price pos.qty
              + pos.accrued_funding_usd
              - pos.qty * fill.price * s.taker_bps / bps)
        × (p'.balance_usd ≡ p.balance_usd + fill.realized_pnl_usd)
  unfolding close
  close_numbers s asset m p held fill p' at e =
      let pos = accrue_funding s m held in
      elim (Result-cases (side_slippage s (pos.qty * m.mark_price) m)) [
        | inl (slippage, quoted) ↦ (slippage, quoted, ground arith, ground arith, ground arith)
        | inr (error, raised) ↦ absurd (ground arith)
      ]

  -- `_accrue_funding` changes the mark, the accrual and its time alone.
  pub accrue_funding_keeps :
      (s : FeeSchedule F) (m : MarketData F) (pos : Position F)
      → let pos' = accrue_funding s m pos in
        (pos'.asset ≡ pos.asset)
        × (pos'.side ≡ pos.side)
        × (pos'.qty ≡ pos.qty)
        × (pos'.entry_price ≡ pos.entry_price)
        × (pos'.stop_price ≡ pos.stop_price)
        × (pos'.take_price ≡ pos.take_price)
  unfolding accrue_funding
  accrue_funding_keeps s m pos = ground arith

  module _ (laws : IsLawful F) where
    open laws use {le_refl, le_trans, lit-le, add_mono, mul_mono}

    pub bps_pos : f.le bps zero ≡ false
    bps_pos = laws.lit_pos 10000 0 (omega arith) (omega arith)

    -- A quoted slippage is not negative under a schedule without negative parameters.
    pub slip_nonneg :
        (s : FeeSchedule F) (m : MarketData F) (notional slippage : F)
        → zero ≼ s.flat_slippage_bps
        → zero ≼ s.slippage_k
        → side_slippage s notional m ≡ ok slippage
        → zero ≼ slippage / bps
    unfolding side_slippage
    slip_nonneg s m notional slippage flat k quoted =
        laws.quotient_nonneg slippage bps
          (elim (Option-cases m.book_depth) [
            | inl unknown ↦ ground arith
            | inr (depth, known) ↦
                let root = f.root (f.quotient notional depth) in
                ground (
                  arith,
                  laws.root_nonneg (f.quotient notional depth),
                  le_of_not_lt laws (f.quotient notional depth) zero,
                  mul_nonneg laws s.slippage_k root,
                  mul_nonneg laws (s.slippage_k * root) bps,
                  le_of_not_le laws bps zero bps_pos,
                )
          ])
          bps_pos

    zero_le_one : f.lit 0 0 ≼ f.lit 1 0
    zero_le_one = lit-le 0 0 1 0 (omega arith)

    -- A price lowered or raised by a fraction.
    discounted : (mark slip : F) → zero ≼ mark → zero ≼ slip → mark * (one - slip) ≼ mark
    discounted mark slip m_pos s_pos = elim (Bool-cases (f.le zero (one - slip))) [
      | inl pos ↦ mul_le_self laws mark (one - slip) m_pos pos (sub-le laws one slip s_pos)
      | inr negative ↦
          le_trans _ _ _
            (subst (λ t. t ≼ zero) (laws.mul_comm (one - slip) mark)
              (mul_nonpos laws (one - slip) mark (le_of_not_le laws _ _ negative) m_pos))
            m_pos
    ]

    raised : (mark slip : F) → zero ≼ mark → zero ≼ slip → mark ≼ mark * (one + slip)
    raised mark slip m_pos s_pos =
        le_mul_self laws mark (one + slip) m_pos (le-add laws one slip s_pos)

    -- A long enters at or above the mark and leaves at or below it; a short the other way round.
    pub fills_against :
        (side : Side) (mark slip : F)
        → zero ≼ mark
        → zero ≼ slip
        → (is_long side ≡ true
            → (mark ≼ entry_fill side mark slip) × (exit_fill side mark slip ≼ mark))
          × (is_long side ≡ false
              → (entry_fill side mark slip ≼ mark) × (mark ≼ exit_fill side mark slip))
    unfolding entry_fill exit_fill
    fills_against side mark slip m_pos s_pos = (
      λ is. rw is (raised mark slip m_pos s_pos, discounted mark slip m_pos s_pos),
      λ is. rw is (discounted mark slip m_pos s_pos, raised mark slip m_pos s_pos),
    )
