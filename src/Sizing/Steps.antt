-- ===== src/Sizing/Steps.antt =====
-- What a call of `size` that returned went through.
use agora_perp_agent.Prelude.{
  ◌≡◌, refl, true, false, arith, List, inl, inr, Bool, Bool-cases, if◌then◌else◌,
}
use agora_perp_agent.Prelude.Errors.{Result, ok, err, ◌>>=◌}
use agora_perp_agent.Float.Ops.{Float, ◌*◌, zero, divide, ◌<=?◌}
use agora_perp_agent.Contracts.{
  AllocationCandidate, MarketData, OhlcBar, PortfolioState, RegimeTag, SizedCandidate, StopTakePlan,
  Tier, equity_usd,
}
use agora_perp_agent.Indicators.{atr}
use agora_perp_agent.Regime.{playbook_multiplier}
use agora_perp_agent.Stops.{derive_stops_takes}
use agora_perp_agent.Sizing.{
  Sizer, realized_vol_annualized, vol_scale_of, budget_of, quantity_of, stop_level, take_level,
  leverage_of, finish, sized_of, size, Budget,
}

-- What a chain that returned went through.
bind_ok :
    {A B : Type 0} (r : Result A) (k : A → Result B) (b : B)
    → (r >>= k) ≡ ok b
    → (a : A) × (r ≡ ok a) × (k a ≡ ok b)
bind_ok (ok a) k b e = (a, refl, e)
bind_ok (err x) k b e = absurd (ground arith)

past_guard : {A : Type 0} (b : Bool) (x y z : A) → b ≡ false → (if b then x else y) ≡ z → y ≡ z
past_guard true x y z fine e = absurd (ground arith)
past_guard false x y z fine e = e

module _ {F : Type 0} ⦃f : Float F⦄ where
  -- What the last steps put into a trade.
  abbrev pub IsBuiltOf :
      AllocationCandidate F → MarketData F → StopTakePlan F → F → SizedCandidate F → Type 0
  IsBuiltOf c m plan qty sized =
      (sized.candidate ≡ c)
      × (sized.qty ≡ qty)
      × (sized.stop_take_plan ≡ plan)
      × (sized.notional ≡ qty * m.mark_price)
      × (sized.stop_price ≡ stop_level c.side m.mark_price plan)
      × (sized.take_price ≡ take_level c.side m.mark_price plan)

  finish_parts :
      (sizer : Sizer F) (c : AllocationCandidate F) (m : MarketData F) (equity : F)
      (regime : RegimeTag) (tier : Tier) (vol : F) (budget : Budget F) (atr_14 : F)
      (plan : StopTakePlan F) (qty : F) (sized : SizedCandidate F)
      → finish sizer c m equity regime tier vol budget atr_14 plan qty ≡ ok sized
      → IsBuiltOf c m plan qty sized
  unfolding finish sized_of
  finish_parts sizer c m equity regime tier vol budget atr_14 plan qty sized e =
      let (pct, _, e6) = bind_ok (divide plan.stop_distance m.mark_price) _ sized e in
      let (leveraged, _, e7) =
        bind_ok (leverage_of sizer c.asset (qty * m.mark_price) tier pct m.funding_rate) _ sized
          e6 in
      let (multiple, _, e8) =
        bind_ok (if f.lt zero atr_14 then divide plan.stop_distance atr_14 else ok zero) _ sized
          e7 in
      ground arith

  -- The steps behind a sized trade.
  pub size_steps :
      (sizer : Sizer F) (c : AllocationCandidate F) (m : MarketData F) (bars : List (OhlcBar F))
      (p : PortfolioState F) (regime : RegimeTag) (tier : Tier) (sized : SizedCandidate F)
      → size sizer c m bars p regime tier ≡ ok sized
      → (vol scale atr_14 qty : F) × (plan : StopTakePlan F) × (f.le m.mark_price zero ≡ false)
        × (vol_scale_of sizer.cfg vol ≡ ok scale)
        × (derive_stops_takes m.mark_price atr_14 regime tier c.side ≡ ok plan)
        × (quantity_of
              (budget_of sizer.cfg
                (equity_usd p)
                tier
                (playbook_multiplier regime)
                scale).final_risk
              plan.stop_distance
            ≡ ok qty)
        × IsBuiltOf c m plan qty sized
  unfolding size
  size_steps sizer c m bars p regime tier sized e = elim (Bool-cases (m.mark_price <=? zero)) [
    | inl bad ↦ absurd (ground arith)
    | inr fine ↦
        let (vol, _, e1) =
          bind_ok (realized_vol_annualized bars) _ sized (past_guard _ _ _ _ fine e) in
        let (scale, scaled, e2) = bind_ok (vol_scale_of sizer.cfg vol) _ sized e1 in
        let (atr_14, _, e3) = bind_ok (atr bars sizer.cfg.atr_period_stops) _ sized e2 in
        let (plan, planned, e4) =
          bind_ok (derive_stops_takes m.mark_price atr_14 regime tier c.side) _ sized e3 in
        let (qty, counted, e5) = bind_ok (quantity_of _ plan.stop_distance) _ sized e4 in
        (
          vol,
          scale,
          atr_14,
          qty,
          plan,
          fine,
          scaled,
          planned,
          counted,
          finish_parts sizer c m _ regime tier _ _ atr_14 plan qty sized e5,
        )
  ]
