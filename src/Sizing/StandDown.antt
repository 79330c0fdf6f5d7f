-- ===== src/Sizing/StandDown.antt =====
-- A stand-down regime sizes to nothing, which the executor refuses to open.
use agora_perp_agent.Prelude.{◌≡◌, ◌⊎◌, false, ◌==◌, arith, List, inl, inr, Bool-cases}
use agora_perp_agent.Prelude.Errors.{Error, ok, err, position_open, asset_mismatch, bad_qty}
use agora_perp_agent.Float.Ops.{Float, zero, ◌≼◌}
use agora_perp_agent.Float.Laws.{IsLawful, mul_nonpos, quotient_nonpos}
use agora_perp_agent.Contracts.{
  AllocationCandidate, MarketData, OhlcBar, PortfolioState, RegimeTag, SizedCandidate, SizingConfig,
  Tier, FeeSchedule, equity_usd, has, down, crisis, expanded,
}
use agora_perp_agent.Regime.{apply_btc_override, is_down}
use agora_perp_agent.Regime.Override.{btc_stands_down}
use agora_perp_agent.Executor.{open_sized}
use agora_perp_agent.Sizing.{Sizer, budget_of, quantity_of, size}
use agora_perp_agent.Sizing.Steps.{size_steps}
use agora_perp_agent.Sizing.Bounds.{vol_scale_bounds, plan_distances}

module _ {F : Type 0} ⦃f : Float F⦄ where
  -- A quantity that is not positive is refused, if no other guard came first.
  open_sized_refuses :
      (s : FeeSchedule F) (sized : SizedCandidate F) (m : MarketData F) (p : PortfolioState F)
      → sized.qty ≼ zero
      → (e : Error) × (open_sized s sized m p ≡ (err e, p))
  unfolding open_sized
  open_sized_refuses s sized m p none = elim (Bool-cases (has p sized.candidate.asset)) [
    | inl held ↦ (position_open, ground arith)
    | inr free ↦ elim (Bool-cases (sized.candidate.asset == m.asset)) [
      | inl same ↦ (bad_qty, ground arith)
      | inr differs ↦ (asset_mismatch, ground arith)
    ]
  ]

  module _ (laws : IsLawful F) where
    zero_risk :
        (cfg : SizingConfig F) (equity : F) (tier : Tier) (multiplier scale : F)
        → multiplier ≡ zero
        → zero ≼ scale
        → (budget_of cfg equity tier multiplier scale).final_risk ≼ zero
    zero_risk cfg equity tier multiplier scale off s_pos =
        mul_nonpos laws _ _ (rw off (laws.mul_zero _).0) s_pos

    zero_quantity :
        (risk stop qty : F)
        → risk ≼ zero
        → f.le stop zero ≡ false
        → quantity_of risk stop ≡ ok qty
        → qty ≼ zero
    unfolding quantity_of
    zero_quantity risk stop qty r_neg s_pos e =
        ground (arith, laws.le_refl zero, quotient_nonpos laws risk stop r_neg s_pos)

    -- While BTC is in a crisis, or falls in expanded volatility and the asset does not fall with it,
    -- a trade that is sized in the overridden regime has no positive quantity, and opening it
    -- raises and leaves the portfolio as it is, whatever the portfolio and the snapshot then. The
    -- volatility target and the cap of the volatility scale are not negative.
    pub btc_blocks_opening :
        (s : FeeSchedule F) (sizer : Sizer F) (c : AllocationCandidate F) (m : MarketData F)
        (bars : List (OhlcBar F)) (p : PortfolioState F) (regime btc : RegimeTag) (tier : Tier)
        (sized : SizedCandidate F) (m' : MarketData F) (p' : PortfolioState F)
        → zero ≼ sizer.cfg.vol_target_annualized
        → zero ≼ sizer.cfg.vol_scale_cap
        → (btc.vol ≡ crisis)
          ⊎ ((btc.trend ≡ down) × (btc.vol ≡ expanded) × (is_down regime.trend ≡ false))
        → size sizer c m bars p (apply_btc_override regime btc) tier ≡ ok sized
        → (sized.qty ≼ zero) × ((e : Error) × (open_sized s sized m' p' ≡ (err e, p')))
    btc_blocks_opening s sizer c m bars p regime btc tier sized m' p' target most stress e =
        let (vol, scale, atr_14, qty, plan, fine, scaled, planned, counted, built) =
          size_steps sizer c m bars p (apply_btc_override regime btc) tier sized e in
        let (s_pos, _) = vol_scale_bounds laws sizer.cfg vol scale target most scaled in
        let risk =
          zero_risk sizer.cfg (equity_usd p) tier _ scale (btc_stands_down regime btc stress)
            s_pos in
        let (away, _) = plan_distances laws m.mark_price atr_14 _ tier c.side plan planned in
        let nothing : sized.qty ≼ zero =
          rw (built.1) (zero_quantity _ plan.stop_distance qty risk away counted) in
        (nothing, open_sized_refuses s sized m' p' nothing)
