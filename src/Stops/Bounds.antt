-- ===== src/Stops/Bounds.antt =====
-- The plan of `derive_stops_takes`: when there is one, and how far its levels lie.
use agora_perp_agent.Prelude.{◌≡◌, refl, true, false, arith}
use agora_perp_agent.Prelude.Errors.{ok}
use agora_perp_agent.Float.Ops.{Float, lit, ◌*◌, zero, one, ◌≼◌}
use agora_perp_agent.Float.Laws.{IsLawful, le_of_not_le, le_mul_self}
use agora_perp_agent.Contracts.{RegimeTag, Tier, Side, StopTakePlan, Trend, Vol, Funding}
use agora_perp_agent.Stops.{
  derive_stops_takes, atr_multiplier, trend_multiple, choose_r_multiple, is_side, plan_of,
}

module _ {F : Type 0} ⦃f : Float F⦄ (laws : IsLawful F) where
  open laws use {le_trans, lit-le, mul_mono}

  atr_multiplier_bounds :
      (tier : Tier) (vol : Vol)
      → (f.lit 15 1 ≼ atr_multiplier tier vol) × (atr_multiplier tier vol ≼ f.lit 35 1)
  atr_multiplier_bounds tier vol = ground (
    arith,
    lit-le 15 1 15 1 (omega arith),
    lit-le 15 1 20 1 (omega arith),
    lit-le 15 1 25 1 (omega arith),
    lit-le 15 1 30 1 (omega arith),
    lit-le 15 1 35 1 (omega arith),
    lit-le 20 1 35 1 (omega arith),
    lit-le 25 1 35 1 (omega arith),
    lit-le 30 1 35 1 (omega arith),
    lit-le 35 1 35 1 (omega arith),
  )

  trend_multiple_bounds :
      (trend : Trend) (vol : Vol) (funding : Funding)
      → (f.lit 15 1 ≼ trend_multiple trend vol funding)
        × (trend_multiple trend vol funding ≼ f.lit 30 1)
  trend_multiple_bounds trend vol funding = ground (
    arith,
    lit-le 15 1 15 1 (omega arith),
    lit-le 15 1 20 1 (omega arith),
    lit-le 15 1 25 1 (omega arith),
    lit-le 15 1 30 1 (omega arith),
    lit-le 20 1 30 1 (omega arith),
    lit-le 25 1 30 1 (omega arith),
    lit-le 30 1 30 1 (omega arith),
  )

  -- On a known side, a positive ATR and a positive entry the call returns a plan. The stop then lies
  -- at least one ATR and at most 3.5 ATR away, and is not at zero distance; the take lies at least
  -- as far as the stop, at 1.5 to 3 times its distance.
  pub derive_stops_takes_bounds :
      (entry atr : F) (regime : RegimeTag) (tier : Tier) (side : Side)
      → is_side side ≡ true
      → f.le atr zero ≡ false
      → f.le entry zero ≡ false
      → (plan : StopTakePlan F) × (derive_stops_takes entry atr regime tier side ≡ ok plan)
        × (atr ≼ plan.stop_distance)
        × (plan.stop_distance ≼ lit 35 1 * atr)
        × (f.le plan.stop_distance zero ≡ false)
        × (plan.stop_distance ≼ plan.take_distance)
        × (plan.take_distance ≡ plan.r_multiple * plan.stop_distance)
        × (lit 15 1 ≼ plan.r_multiple)
        × (plan.r_multiple ≼ lit 30 1)
  unfolding derive_stops_takes choose_r_multiple
  derive_stops_takes_bounds entry atr regime tier side known a_pos e_pos =
      let factor : F = atr_multiplier tier regime.vol in
      let stop : F = factor * atr in
      let r_mult : F = trend_multiple regime.trend regime.vol regime.funding in
      let a_nonneg = le_of_not_le laws _ _ a_pos in
      let (low, high) = atr_multiplier_bounds tier regime.vol in
      let (r_low, r_high) = trend_multiple_bounds regime.trend regime.vol regime.funding in
      let far : atr ≼ stop = rw (laws.mul_comm factor atr) (
        le_mul_self laws atr factor a_nonneg
          (le_trans one (lit 15 1) factor (lit-le 1 0 15 1 (omega arith)) low)) in
      let farther : stop ≼ r_mult * stop = rw (laws.mul_comm r_mult stop) (
        le_mul_self laws stop r_mult (le_trans _ _ _ a_nonneg far)
          (le_trans one (lit 15 1) r_mult (lit-le 1 0 15 1 (omega arith)) r_low)) in
      (
        plan_of atr regime tier,
        rw (known, a_pos, e_pos),
        far,
        mul_mono _ _ _ _ (le_trans zero (lit 15 1) factor (lit-le 0 0 15 1 (omega arith)) low)
            a_nonneg high (laws.le_refl atr),
        ground (arith, le_trans atr stop zero far),
        farther,
        refl,
        r_low,
        r_high,
      )
