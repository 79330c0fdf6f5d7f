-- ===== src/Leverage/Choice.antt =====
-- `choose_leverage` on valid arguments: it never raises, its loop ends, and the result is bounded.
use agora_perp_agent.Prelude.{
  ◌≡◌, ◌⊎◌, inl, inr, true, false, arith, Bool-cases, String, refl, subst, sym,
}
use agora_perp_agent.Prelude.Errors.{ok}
use agora_perp_agent.Float.Ops.{Float, lit, ◌*◌, ◌+◌, zero, one, ◌≼◌, min, max, divide, is_zero}
use agora_perp_agent.Float.Laws.{IsLawful, min-le, le-max, le_mul_self}
use agora_perp_agent.Contracts.{Tier, t1, t2, t3, t4, LeverageCaps}
use agora_perp_agent.Leverage.{
  rounds, drag, tightest, operational_cap_of, venue_max_leverage, leverage_caps, interval_count,
  choose_leverage,
}
use agora_perp_agent.Leverage.Bounds.{shrink_total, shrink_result}

module _ {F : Type 0} ⦃f : Float F⦄ (laws : IsLawful F) where
  open laws use {le_trans, lit-le}

  operational-le : (tier : Tier) → operational_cap_of {F = F} tier ≼ lit 5 0
  operational-le t1 = lit-le 5 0 5 0 (omega arith)
  operational-le t2 = lit-le 3 0 5 0 (omega arith)
  operational-le t3 = lit-le 3 0 5 0 (omega arith)
  operational-le t4 = lit-le 15 1 5 0 (omega arith)

  -- A number that is not at most 0 is no divisor that raises.
  not_zero : (a : F) → f.le a zero ≡ false → is_zero a ≡ false
  not_zero a h = ground arith

  above_zero : (a : F) → f.lt zero a ≡ true → f.le a zero ≡ false
  above_zero a h = ground (arith, laws.lt-not-le zero a)

  venue_pos : (asset : String) → f.lit 1 0 ≼ venue_max_leverage asset
  unfolding venue_max_leverage
  venue_pos asset = grind (
    arith,
    lit-le 1 0 40 0 (omega arith),
    lit-le 1 0 25 0 (omega arith),
    lit-le 1 0 20 0 (omega arith),
    lit-le 1 0 10 0 (omega arith),
  )

  doubled_pos : (asset : String) → f.le (f.lit 2 0 * venue_max_leverage asset) zero ≡ false
  doubled_pos asset =
      let at_least =
        le_mul_self laws (lit 2 0) (venue_max_leverage asset) (lit-le 0 0 2 0 (omega arith))
          (venue_pos asset) in
      ground (
        arith,
        le_trans (lit 2 0) (lit 2 0 * venue_max_leverage asset) zero,
        laws.lit_pos 2 0 (omega arith) (omega arith),
      )

  -- The caps are those of the tables, and computing them raises nothing.
  leverage_caps_total :
      (asset : String) (tier : Tier) (stop_pct : F)
      → (caps : LeverageCaps F) × (leverage_caps asset tier stop_pct ≡ ok caps)
        × (caps.venue_cap ≡ venue_max_leverage asset)
        × (caps.operational_cap ≡ operational_cap_of tier)
  unfolding leverage_caps
  leverage_caps_total asset tier stop_pct =
      let venue = venue_max_leverage asset in
      let mm_rate = f.quotient one (lit 2 0 * venue) in
      let denom = lit 4 0 * stop_pct + mm_rate in
      let positive : f.lt zero venue ≡ true = ground (
        arith,
        laws.lt-not-le zero venue,
        le_trans one venue zero (venue_pos asset),
        laws.lit_pos 1 0 (omega arith) (omega arith),
      ) in
      let fine : divide one (lit 2 0 * venue) ≡ ok mm_rate = rw (not_zero _ (doubled_pos asset)) in
      elim (Bool-cases (f.lt zero denom)) [
        | inl safe ↦ (
          record {
            venue_cap = venue;
            operational_cap = operational_cap_of tier;
            liq_safety_cap = f.quotient one denom;
          },
          rw (positive, fine, safe, not_zero denom (above_zero denom safe)),
          refl,
          refl,
        )
        | inr degenerate ↦ (
          record {
            venue_cap = venue;
            operational_cap = operational_cap_of tier;
            liq_safety_cap = venue;
          },
          rw (positive, fine, degenerate),
          refl,
          refl,
        )
      ]

  max_above : (c : F) → f.le (max c one) one ≡ false → (max c one ≡ c) × (f.le c one ≡ false)
  max_above c h = ground (arith, laws.lt-not-le c one, laws.le_refl one)

  meets_limit : {P : Type 0} (c : F) → f.le c one ≡ false → P ⊎ (c ≼ one) → P
  meets_limit c over (inl h) = h
  meets_limit c over (inr low) = absurd (ground arith)

  -- For a positive notional and stop distance and a hold that is not negative, the choice raises
  -- nothing and its loop ends. The leverage is at least 1, and is 1 at most or else within the venue's cap, the
  -- tier's cap and the liquidation cap, and its funding drag over the hold is within the limit.
  pub choose_leverage_bounds :
      (asset : String) (notional : F) (tier : Tier) (stop_pct rate hours limit : F)
      → f.le notional zero ≡ false
      → f.le stop_pct zero ≡ false
      → f.lt hours zero ≡ false
      → (leverage : F) × (caps : LeverageCaps F) × (choose_leverage asset notional tier stop_pct
            rate hours limit
          ≡ ok (leverage, caps))
        × (caps.venue_cap ≡ venue_max_leverage asset)
        × (caps.operational_cap ≡ operational_cap_of tier)
        × (one ≼ leverage)
        × ((leverage ≼ one)
            ⊎ ((leverage ≼ caps.venue_cap)
                × (leverage ≼ caps.operational_cap)
                × (leverage ≼ caps.liq_safety_cap)
                × (drag rate (interval_count hours) leverage ≼ limit)))
  unfolding choose_leverage
  choose_leverage_bounds asset notional tier stop_pct rate hours limit n_pos s_pos h_pos =
      let (caps, computed, venue, operational) = leverage_caps_total asset tier stop_pct in
      let intervals = interval_count hours in
      let outer = min-le laws (min caps.venue_cap caps.operational_cap) caps.liq_safety_cap in
      let inner = min-le laws caps.venue_cap caps.operational_cap in
      let five : tightest caps ≼ lit 5 0 = le_trans _ _ _ outer.0 (
        le_trans _ _ _ inner.1
          (subst (λ t. t ≼ lit 5 0) (sym operational) (operational-le tier))) in
      let (c, ends) = shrink_total laws limit rate intervals (tightest caps) five in
      let (below, meets) = shrink_result laws limit rate intervals rounds (tightest caps) c ends in
      (
        max c one,
        caps,
        rw (n_pos, s_pos, h_pos, computed) (ground arith),
        venue,
        operational,
        (le-max laws c one).1,
        elim (Bool-cases (f.le (max c one) one)) [
          | inl floor ↦ inl floor
          | inr above ↦
              let (same, over) = max_above c above in
              inr (
                rw same (
                  le_trans _ _ _ below (le_trans _ _ _ outer.0 inner.0),
                  le_trans _ _ _ below (le_trans _ _ _ outer.0 inner.1),
                  le_trans _ _ _ below outer.1,
                  meets_limit c over meets,
                ))
        ],
      )
