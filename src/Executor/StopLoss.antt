-- ===== src/Executor/StopLoss.antt =====
-- `check_stops`: when it closes a position, and at what price.
use agora_perp_agent.Prelude.{
  ◌≡◌, true, false, ◌||◌, none, some, arith, ◌⊎◌, inl, inr, Bool-cases, ◌↔◌, ◌∙◌, sym, ap,
}
use agora_perp_agent.Prelude.Errors.{Result, ok, err}
use agora_perp_agent.Float.Ops.{Float, ◌/◌, zero, ◌≼◌}
use agora_perp_agent.Float.Laws.{IsLawful}
use agora_perp_agent.Contracts.{
  Side, is_long, is_short, MarketData, FeeSchedule, Position, PortfolioState, Fill,
}
use agora_perp_agent.Cost.{bps}
use agora_perp_agent.Executor.{position_at, close, check_stops, exit_fill, stop_hit, take_hit}
use agora_perp_agent.Executor.Outcome.{fired}
use agora_perp_agent.Executor.Slippage.{
  slip_nonneg, close_numbers, accrue_funding_keeps, fills_against,
}

module _ {F : Type 0} ⦃f : Float F⦄ where
  -- A level that is hit closes the position through `close`.
  check_stops_hit :
      (s : FeeSchedule F) (m : MarketData F) (p : PortfolioState F) (pos : Position F)
      → position_at m.asset p ≡ some pos
      → (stop_hit pos m.mark_price || take_hit pos m.mark_price) ≡ true
      → check_stops s m p ≡ fired (close s m.asset m p)
  unfolding check_stops
  check_stops_hit s m p pos held hit = ground arith

  pub fired_ok :
      (r : Result (Fill F)) (p : PortfolioState F) (fill : Fill F) (p' : PortfolioState F)
      → fired (r, p) ≡ (ok (some fill), p')
      → ◌≡◌ {A = Result (Fill F) × PortfolioState F} (r, p) (ok fill, p')
  fired_ok (ok fill') p fill p' e = ground arith
  fired_ok (err e') p fill p' e = ground arith

  -- For a long with both levels set, the check answers that nothing fired, and leaves the portfolio
  -- as it is, exactly while the mark is above the stop level and below the take level.
  pub check_stops_long :
      (s : FeeSchedule F) (m : MarketData F) (p : PortfolioState F) (pos : Position F)
      (stop take : F)
      → position_at m.asset p ≡ some pos
      → pos.side ≡ Side.long
      → pos.stop_price ≡ some stop
      → pos.take_price ≡ some take
      → ((f.le m.mark_price stop ≡ false) × (f.le take m.mark_price ≡ false))
        ↔ (check_stops s m p ≡ (ok none, p))
  unfolding check_stops close
  check_stops_long s m p pos stop take held side has_stop has_take = ground arith

  module _ (laws : IsLawful F) where
    -- Where the mark has passed the stop level and the check returns a fill, a long is filled at or below its stop level, a short at or above it, and so
    -- also where the take level is passed as well. The mark and the schedule's two slippage
    -- parameters are not negative.
    pub stopped_price :
        (s : FeeSchedule F) (m : MarketData F) (p : PortfolioState F) (pos : Position F) (level : F)
        (fill : Fill F) (p' : PortfolioState F)
        → zero ≼ m.mark_price
        → zero ≼ s.flat_slippage_bps
        → zero ≼ s.slippage_k
        → position_at m.asset p ≡ some pos
        → pos.stop_price ≡ some level
        → stop_hit pos m.mark_price ≡ true
        → check_stops s m p ≡ (ok (some fill), p')
        → ((is_long pos.side ≡ true) × (fill.price ≼ level))
          ⊎ ((is_short pos.side ≡ true) × (level ≼ fill.price))
    stopped_price s m p pos level fill p' m_pos flat k held has_stop hit e =
        let closes =
          fired_ok _ _ fill p' (sym (check_stops_hit s m p pos held (ground arith)) ∙ e) in
        let (slip, quoted, priced, _, _) = close_numbers s m.asset m p pos fill p' held closes in
        let keeps = accrue_funding_keeps s m pos in
        let against =
          fills_against laws pos.side m.mark_price (slip / bps) m_pos
            (slip_nonneg laws s m _ slip flat k quoted) in
        let price : fill.price ≡ exit_fill pos.side m.mark_price (slip / bps) =
          priced ∙ ap (λ d. exit_fill d m.mark_price (slip / bps)) keeps.1 in
        elim (Bool-cases (is_long pos.side)) [
          | inl is ↦ inl (is, rw price (laws.le_trans _ _ _ (against.0 is).1 (ground arith)))
          | inr is ↦
              inr (ground arith, rw price (laws.le_trans _ _ _ (ground arith) (against.1 is).1))
        ]
