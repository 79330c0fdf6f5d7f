-- ===== src/Sizing/Bounds.antt =====
-- What a sized trade is: its levels, and how large it can get.
use agora_perp_agent.Prelude.{
  ◌≡◌, ◌⊎◌, true, false, arith, List, inl, inr, Bool-cases, ap, sym, ◌∙◌,
}
use agora_perp_agent.Prelude.Errors.{Result, ok, err}
use agora_perp_agent.Float.Ops.{Float, lit, ◌+◌, ◌*◌, zero, one, ◌≼◌}
use agora_perp_agent.Float.Laws.{IsLawful, mul_nonneg, le_of_not_le, min-le, le-min, le-add, sub-le}
use agora_perp_agent.Contracts.{
  AllocationCandidate, MarketData, OhlcBar, PortfolioState, RegimeTag, SizedCandidate, SizingConfig,
  StopTakePlan, Side, is_long, Tier, t1, t2, t3, t4, equity_usd,
}
use agora_perp_agent.Cost.{eps}
use agora_perp_agent.Regime.{playbook_multiplier}
use agora_perp_agent.Regime.Bins.{playbook_bounds}
use agora_perp_agent.Stops.Bounds.{derive_stops_takes_bounds}
use agora_perp_agent.Stops.{is_side, derive_stops_takes}
use agora_perp_agent.Sizing.{
  Sizer, tier_multiplier, vol_scale_of, budget_of, quantity_of, stop_level, take_level, size,
}
use agora_perp_agent.Sizing.Steps.{size_steps}

module _ {F : Type 0} ⦃f : Float F⦄ (laws : IsLawful F) where
  open laws use {le_trans, lit-le, mul_mono, le_refl}

  -- The stop lies on the losing side of the mark and the take on the winning side.
  levels :
      (side : Side) (mark : F) (plan : StopTakePlan F)
      → zero ≼ plan.stop_distance
      → zero ≼ plan.take_distance
      → ((is_long side ≡ true)
          × (stop_level side mark plan ≼ mark)
          × (mark ≼ take_level side mark plan))
        ⊎ ((is_long side ≡ false)
            × (take_level side mark plan ≼ mark)
            × (mark ≼ stop_level side mark plan))
  levels side mark plan stop take = elim (Bool-cases (is_long side)) [
    | inl is ↦ inl (is, rw is (sub-le laws _ _ stop), rw is (le-add laws _ _ take))
    | inr is ↦ inr (is, rw is (sub-le laws _ _ take), rw is (le-add laws _ _ stop))
  ]

  tier_multiplier_bounds :
      (tier : Tier) → (f.lit 0 0 ≼ tier_multiplier tier) × (tier_multiplier tier ≼ f.lit 1 0)
  tier_multiplier_bounds t1 = (lit-le 0 0 10 1 (omega arith), lit-le 10 1 1 0 (omega arith))
  tier_multiplier_bounds t2 = (lit-le 0 0 6 1 (omega arith), lit-le 6 1 1 0 (omega arith))
  tier_multiplier_bounds t3 = (lit-le 0 0 35 2 (omega arith), lit-le 35 2 1 0 (omega arith))
  tier_multiplier_bounds t4 = (lit-le 0 0 2 1 (omega arith), lit-le 2 1 1 0 (omega arith))

  above_eps : (a : F) → f.lt (zero + eps) a ≡ true → f.le a zero ≡ false
  above_eps a h = ground (
    arith,
    laws.lt-not-le (zero + eps) a,
    laws.le_trans a zero (zero + eps),
    le-add laws zero eps (lit-le 0 0 1 12 (omega arith)),
  )

  pub vol_scale_bounds :
      (cfg : SizingConfig F) (vol scale : F)
      → zero ≼ cfg.vol_target_annualized
      → zero ≼ cfg.vol_scale_cap
      → vol_scale_of cfg vol ≡ ok scale
      → (zero ≼ scale) × (scale ≼ cfg.vol_scale_cap)
  unfolding vol_scale_of
  vol_scale_bounds cfg vol scale target most e =
      let ratio = f.quotient cfg.vol_target_annualized vol in
      ground (
        arith,
        le_refl cfg.vol_scale_cap,
        (min-le laws ratio cfg.vol_scale_cap).1,
        le-min laws ratio cfg.vol_scale_cap zero,
        laws.quotient_nonneg cfg.vol_target_annualized vol,
        above_eps vol,
      )

  -- The targeted risk is at most that of a full tier in the best regime at the largest scale.
  risk_bounds :
      (cfg : SizingConfig F) (equity : F) (tier : Tier) (regime : RegimeTag) (scale : F)
      → zero ≼ equity
      → zero ≼ cfg.base_risk_fraction
      → zero ≼ scale
      → scale ≼ cfg.vol_scale_cap
      → let risk = (budget_of cfg equity tier (playbook_multiplier regime) scale).final_risk in
        (zero ≼ risk)
        × (risk ≼ equity * cfg.base_risk_fraction * one * lit 13 1 * cfg.vol_scale_cap)
  risk_bounds cfg equity tier regime scale e_pos b_pos s_pos s_le =
      let base = mul_nonneg laws equity cfg.base_risk_fraction e_pos b_pos in
      let (t_pos, t_le) = tier_multiplier_bounds tier in
      let (p_pos, p_le) = playbook_bounds laws regime in
      let tier_pos = mul_nonneg laws _ _ base t_pos in
      let playbook_pos = mul_nonneg laws _ _ tier_pos p_pos in
      (
        mul_nonneg laws _ _ playbook_pos s_pos,
        mul_mono _ _ _ _ playbook_pos s_pos
            (mul_mono _ _ _ _ tier_pos p_pos (mul_mono _ _ _ _ base t_pos (le_refl _) t_le) p_le)
            s_le,
      )

  -- A quantity is the risk over the stop distance, or nothing.
  quantity_bounds :
      (risk most stop qty : F)
      → zero ≼ risk
      → risk ≼ most
      → f.le stop zero ≡ false
      → quantity_of risk stop ≡ ok qty
      → (zero ≼ qty) × (qty ≼ f.quotient most stop)
  unfolding quantity_of
  quantity_bounds risk most stop qty r_pos r_le s_pos e = ground (
    arith,
    le_refl zero,
    laws.quotient_nonneg risk stop r_pos s_pos,
    laws.quotient_nonneg most stop (le_trans _ _ _ r_pos r_le) s_pos,
    laws.quotient_mono risk most stop stop r_pos s_pos r_le (le_refl stop),
  )

  same_plan : (a b : StopTakePlan F) → ◌≡◌ {A = Result (StopTakePlan F)} (ok a) (ok b) → a ≡ b
  same_plan a b e = ap (λ r. elim r [ ok c ↦ c | err x ↦ b ]) e

  plan_valid :
      (entry atr_14 : F) (regime : RegimeTag) (tier : Tier) (side : Side) (plan : StopTakePlan F)
      → derive_stops_takes entry atr_14 regime tier side ≡ ok plan
      → (is_side side ≡ true) × (f.le atr_14 zero ≡ false) × (f.le entry zero ≡ false)
  unfolding derive_stops_takes
  plan_valid entry atr_14 regime tier side plan e = ground arith

  -- The distances of a plan are not negative, and the stop is not at the mark.
  pub plan_distances :
      (entry atr_14 : F) (regime : RegimeTag) (tier : Tier) (side : Side) (plan : StopTakePlan F)
      → derive_stops_takes entry atr_14 regime tier side ≡ ok plan
      → (f.le plan.stop_distance zero ≡ false) × (zero ≼ plan.take_distance)
  plan_distances entry atr_14 regime tier side plan e =
      let (known, a_pos, e_pos) = plan_valid entry atr_14 regime tier side plan e in
      let (found, is, _, _, s_pos, farther, _, _, _) =
        derive_stops_takes_bounds laws entry atr_14 regime tier side known a_pos e_pos in
      rw (same_plan plan found (sym e ∙ is))
        (s_pos, le_trans _ _ _ (le_of_not_le laws _ _ s_pos) farther)

  -- A sized trade has its stop on the losing side of the mark and its take on the winning side. Its
  -- notional is its quantity at the mark, its quantity is not negative, and at most the risk of a
  -- full tier at the largest playbook multiplier and volatility scale over the stop distance. The
  -- equity, the base fraction, the volatility target and the cap of the scale are not negative.
  pub size_bounds :
      (sizer : Sizer F) (c : AllocationCandidate F) (m : MarketData F) (bars : List (OhlcBar F))
      (p : PortfolioState F) (regime : RegimeTag) (tier : Tier) (sized : SizedCandidate F)
      → zero ≼ equity_usd p
      → zero ≼ sizer.cfg.base_risk_fraction
      → zero ≼ sizer.cfg.vol_target_annualized
      → zero ≼ sizer.cfg.vol_scale_cap
      → size sizer c m bars p regime tier ≡ ok sized
      → let most =
          equity_usd p * sizer.cfg.base_risk_fraction * one * lit 13 1 * sizer.cfg.vol_scale_cap in
        (sized.candidate ≡ c)
        × (sized.notional ≡ sized.qty * m.mark_price)
        × (zero ≼ sized.qty)
        × (sized.qty ≼ f.quotient most sized.stop_take_plan.stop_distance)
        × (((is_long c.side ≡ true)
              × (sized.stop_price ≼ m.mark_price)
              × (m.mark_price ≼ sized.take_price))
            ⊎ ((is_long c.side ≡ false)
                × (sized.take_price ≼ m.mark_price)
                × (m.mark_price ≼ sized.stop_price)))
  size_bounds sizer c m bars p regime tier sized e_pos b_pos target most e =
      let (vol, scale, atr_14, qty, plan, fine, scaled, planned, counted, built) =
        size_steps sizer c m bars p regime tier sized e in
      let (same, quantity, planned_as, worth, stopped, taken) = built in
      let (s_pos, s_le) = vol_scale_bounds sizer.cfg vol scale target most scaled in
      let (r_pos, r_le) =
        risk_bounds sizer.cfg (equity_usd p) tier regime scale e_pos b_pos s_pos s_le in
      let (away, take) = plan_distances m.mark_price atr_14 regime tier c.side plan planned in
      let (q_pos, q_le) = quantity_bounds _ _ plan.stop_distance qty r_pos r_le away counted in
      let sides = levels c.side m.mark_price plan (le_of_not_le laws _ _ away) take in
      (
        same,
        worth ∙ ap (λ q. q * m.mark_price) (sym quantity),
        rw quantity q_pos,
        rw (quantity, planned_as) q_le,
        rw (stopped, taken) sides,
      )
