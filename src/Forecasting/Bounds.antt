-- ===== src/Forecasting/Bounds.antt =====
-- The forecast's probabilities and its confidence are between 0 and 1.
use agora_perp_agent.Prelude.{
  ◌≡◌, refl, Bool, if◌then◌else◌, true, false, Bool-cases, inl, inr, arith, subst,
}
use agora_perp_agent.Prelude.Errors.{Result, ok, err, Returns, bind-Returns, zero_division}
use agora_perp_agent.Float.Ops.{Float, lit, zero, one, neg, abs, is_zero, ◌+◌, ◌-◌, ◌*◌, ◌≼◌}
use agora_perp_agent.Float.Laws.{IsLawful, le-add, sub-le, sub_nonneg, abs_nonneg, mul_nonneg}
use agora_perp_agent.Contracts.{MarketData, Forecast}
use agora_perp_agent.Indicators.{sma, atr, rsi, adx}
use agora_perp_agent.Forecasting.{BaselineForecast, logistic, trend_of, move_of, forecast}

module _ {F : Type 0} ⦃f : Float F⦄ (laws : IsLawful F) where
  abbrev pub InUnit : F → Type 0
  InUnit a = (zero ≼ a) × (a ≼ one)

  -- What the forecaster promises of its numbers.
  abbrev pub IsCalibrated : Forecast F → Type 0
  IsCalibrated fc =
      InUnit fc.p_up × InUnit fc.p_down × InUnit fc.confidence × (fc.p_down ≡ one - fc.p_up)

  above_one_pos : (a : F) → one ≼ a → f.le a zero ≡ false
  above_one_pos a h = elim (Bool-cases (f.le a zero)) [
    | inr above ↦ above
    | inl below ↦ absurd (
        ground
          (arith, laws.le_trans one a zero h below, laws.lit_pos 1 0 (omega arith) (omega arith)))
  ]

  quotient_unit : (a : F) → zero ≼ a → InUnit (f.quotient one (one + a))
  quotient_unit a h =
      let above = le-add laws one a h in
      let one_nonneg : zero {F = F} ≼ one = laws.lit-le 0 0 1 0 (omega arith) in
      (
        laws.quotient_nonneg one (one + a) one_nonneg (above_one_pos (one + a) above),
        laws.le_trans _ _ _
            (laws.quotient_mono one one one (one + a) one_nonneg
              (laws.lit_pos 1 0 (omega arith) (omega arith)) (laws.le_refl one) above)
            (laws.quotient_one one).0,
      )

  logistic_unit :
      (exp : F → Result F)
      → ((x y : F) → exp x ≡ ok y → zero ≼ y)
      → (x : F) → Returns InUnit (logistic exp x)
  unfolding logistic
  logistic_unit exp positive x =
      bind-Returns InUnit (exp (neg x)) _
        (λ power e. divided power (is_zero (one + power)) (positive (neg x) power e))
    where
      divided :
          (power : F) (b : Bool)
          → zero ≼ power
          → Returns InUnit (if b then err zero_division else ok (f.quotient one (one + power)))
      divided power true h = tt
      divided power false h = quotient_unit power h

  confidence_unit : (p : F) → InUnit p → InUnit (abs (lit 2 0 * p - one))
  confidence_unit p (low, high) =
      let two_nonneg : zero {F = F} ≼ lit 2 0 = laws.lit-le 0 0 2 0 (omega arith) in
      let doubled : lit 2 0 * p ≼ lit 2 0 =
        laws.le_trans _ _ _
          (laws.mul_mono (lit 2 0) (lit 2 0) p one two_nonneg low (laws.le_refl _) high)
          (laws.mul_one (lit 2 0)).0 in
      let above : lit 2 0 * p - one ≼ one =
        laws.le_trans _ _ _ (laws.add_mono _ _ _ _ doubled (laws.le_refl (neg one)))
          (laws.lit-sub-le 1 1 (omega arith)) in
      let below : neg one ≼ lit 2 0 * p - one =
        subst (λ t. neg one ≼ t) (laws.add_comm (neg one) (lit 2 0 * p))
          (le-add laws (neg one) (lit 2 0 * p) (mul_nonneg laws (lit 2 0) p two_nonneg low)) in
      (abs_nonneg laws _, bounded (lit 2 0 * p - one) below above)
    where
      bounded : (a : F) → neg one ≼ a → a ≼ one → abs a ≼ one
      bounded a low high = elim (Bool-cases (f.lt a zero)) [
        | inr positive ↦ rw positive high
        | inl negative ↦
            rw negative (subst (λ t. neg a ≼ t) (laws.neg_neg one) (laws.neg_anti (neg one) a low))
      ]

  calibrated :
      (market : MarketData F) (move p : F)
      → InUnit p
      → IsCalibrated (record {
        asset = market.asset;
        timestamp = market.timestamp;
        p_up = p;
        p_down = one - p;
        expected_move_bps = move;
        confidence = abs (lit 2 0 * p - one);
      })
  calibrated market move p unit =
      (unit, (sub_nonneg laws one p unit.1, sub-le laws one p unit.0), confidence_unit p unit, refl)

  forecast-Returns :
      (exp : F → Result F) (cfg : BaselineForecast F) (market : MarketData F)
      → ((x y : F) → exp x ≡ ok y → zero ≼ y)
      → Returns IsCalibrated (forecast exp cfg market)
  unfolding forecast
  forecast-Returns exp cfg market positive = bind-Returns _ (sma market.bars cfg.sma_n) _ (λ ma _.
      bind-Returns _ (atr market.bars cfg.atr_n) _ (λ rng _.
        bind-Returns _ (rsi market.bars cfg.rsi_n) _ (λ momentum _.
          bind-Returns _ (adx market.bars cfg.adx_n) _ (λ strength _.
            bind-Returns _ (trend_of market.mark_price ma rng strength.0) _ (λ trend _.
              bind-Returns _ (logistic exp _) _ (λ p e.
                bind-Returns _ (move_of p rng market.mark_price) _ (λ move _.
                  calibrated market move p
                    (subst (Returns InUnit) e (logistic_unit exp positive _)))))))))

  -- A forecast that is returned has its probabilities and its confidence between 0 and 1, and the
  -- probability of a fall is 1 less that of a rise, if the exponential is never negative.
  pub forecast-IsCalibrated :
      (exp : F → Result F) (cfg : BaselineForecast F) (market : MarketData F) (fc : Forecast F)
      → ((x y : F) → exp x ≡ ok y → zero ≼ y)
      → forecast exp cfg market ≡ ok fc
      → IsCalibrated fc
  forecast-IsCalibrated exp cfg market fc positive e =
      subst (Returns IsCalibrated) e (forecast-Returns exp cfg market positive)
