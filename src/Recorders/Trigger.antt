-- ===== src/Recorders/Trigger.antt =====
-- The label of a closing that a level caused.
use agora_perp_agent.Prelude.{
  String, ◌≡◌, ◌==◌, ◌⊎◌, refl, true, false, some, arith, inl, inr, Bool-cases, ◌∙◌, sym, ap,
}
use agora_perp_agent.Prelude.Errors.{ok}
use agora_perp_agent.Float.Ops.{Float, ◌/◌, zero, ◌≼◌}
use agora_perp_agent.Float.Laws.{IsLawful}
use agora_perp_agent.Contracts.{
  Side, long, short, other, is_long, is_short, MarketData, FeeSchedule, Position, PortfolioState,
  Fill,
}
use agora_perp_agent.Cost.{bps}
use agora_perp_agent.Executor.{position_at, check_stops, exit_fill, take_hit}
use agora_perp_agent.Executor.StopLoss.{fired_ok}
use agora_perp_agent.Executor.Outcome.{check_stops_cases}
use agora_perp_agent.Executor.Slippage.{
  slip_nonneg, close_numbers, accrue_funding_keeps, fills_against,
}
use agora_perp_agent.Recorders.Exit.{trigger_of}

stop_not_take : ◌≡◌ {A = String} "stop" "take" → ⊥
stop_not_take e = let differ : false ≡ true = ap (λ t. t == "take") e in ground arith

module _ {F : Type 0} ⦃f : Float F⦄ (laws : IsLawful F) where
  -- The price that reached the take level for the label is no better than the mark.
  label_reaches :
      (pos : Position F) (take price mark : F)
      → pos.take_price ≡ some take
      → (is_long pos.side ≡ true → price ≼ mark)
      → (is_short pos.side ≡ true → mark ≼ price)
      → trigger_of pos price ≡ "take"
      → take_hit pos mark ≡ true
  unfolding trigger_of
  label_reaches pos take price mark has_take below above labelled =
      go pos.side refl (Bool-cases (f.le take price)) (Bool-cases (f.le price take))
    where
      go :
          (side : Side)
          → pos.side ≡ side
          → (f.le take price ≡ true) ⊎ (f.le take price ≡ false)
          → (f.le price take ≡ true) ⊎ (f.le price take ≡ false)
          → take_hit pos mark ≡ true
      go long e (inl over) _ =
          let reached : take ≼ mark = laws.le_trans _ _ _ over (below (ground arith)) in
          ground arith
      go long e (inr under) _ = absurd (stop_not_take (ground arith))
      go short e _ (inl under) =
          let reached : mark ≼ take = laws.le_trans _ _ _ (above (ground arith)) under in
          ground arith
      go short e _ (inr over) = absurd (stop_not_take (ground arith))
      go other e _ _ = absurd (stop_not_take (ground arith))

  -- A closing that the check of the levels made is recorded as a take only where the mark had reached
  -- the take level. The mark and the schedule's two slippage parameters are not negative, and the
  -- position has a take level.
  pub labelled_take :
      (s : FeeSchedule F) (m : MarketData F) (p : PortfolioState F) (pos : Position F) (take : F)
      (fill : Fill F) (p' : PortfolioState F)
      → zero ≼ m.mark_price
      → zero ≼ s.flat_slippage_bps
      → zero ≼ s.slippage_k
      → position_at m.asset p ≡ some pos
      → pos.take_price ≡ some take
      → check_stops s m p ≡ (ok (some fill), p')
      → trigger_of pos fill.price ≡ "take"
      → take_hit pos m.mark_price ≡ true
  labelled_take s m p pos take fill p' m_pos flat k held has_take e labelled =
      elim (check_stops_cases s m p) [
        | inl quiet ↦ absurd (ground arith)
        | inr closing ↦
            let closes = fired_ok _ _ fill p' (sym closing ∙ e) in
            let (slip, quoted, priced, _, _) =
              close_numbers s m.asset m p pos fill p' held closes in
            let against =
              fills_against laws pos.side m.mark_price (slip / bps) m_pos
                (slip_nonneg laws s m _ slip flat k quoted) in
            let price : fill.price ≡ exit_fill pos.side m.mark_price (slip / bps) =
              priced
              ∙ ap (λ d. exit_fill d m.mark_price (slip / bps)) (accrue_funding_keeps s m pos).1 in
            label_reaches pos take fill.price m.mark_price has_take
              (λ is. rw price (against.0 is).1) (λ is. rw price (against.1 (ground arith)).1)
              labelled
      ]
