-- ===== src/Leverage/Bounds.antt =====
-- The funding-drag loop ends within its fuel, and the leverage that comes out.
use Prim.Native.Nat.{◌*◌ as ◌*ℕ◌, ◌+◌ as ◌+ℕ◌, ◌^◌}
use agora_perp_agent.Prelude.{
  ℕ, suc, zero, ◌≡◌, ◌≤◌, ◌⊎◌, inl, inr, true, some, arith, Bool-cases, subst,
}
use agora_perp_agent.Float.Ops.{Float, lit, ◌*◌, one, ◌≼◌}
use agora_perp_agent.Float.Laws.{IsLawful, le_of_lt, le_of_not_lt, mul_le_self}
use agora_perp_agent.Leverage.{shrink, rounds, drag}

module _ {F : Type 0} ⦃f : Float F⦄ (laws : IsLawful F) where
  open laws use {le_trans, lit-le, mul_mono, lit-mul-le}

  module _ (limit rate : F) (intervals : ℕ) where
    -- A round starts above 1, so it lowers the leverage.
    round_bound :
        (b b' : ℕ) (chosen : F)
        → b *ℕ 8 *ℕ 10 ^ 2 *ℕ (10 ^ 15 +ℕ 1) ≤ b' *ℕ 10 ^ 2 *ℕ 10 ^ 1 *ℕ 10 ^ 15
        → f.lt one chosen ≡ true
        → chosen ≼ lit b 2
        → chosen * lit 8 1 ≼ lit b' 2
    round_bound b b' chosen h above at_most =
        le_trans _ _ _
          (mul_mono chosen (lit b 2) (lit 8 1) (lit 8 1)
            (le_trans _ _ _ (lit-le 0 0 1 0 (omega arith)) (le_of_lt laws one chosen above))
            (lit-le 0 0 8 1 (omega arith)) at_most (laws.le_refl _))
          (lit-mul-le b 2 8 1 b' 2 h)

    abbrev Ends : ℕ → F → Type 0
    Ends fuel chosen = (c : F) × (shrink fuel limit rate intervals chosen ≡ some c)

    one_round :
        (fuel b b' : ℕ)
        → b *ℕ 8 *ℕ 10 ^ 2 *ℕ (10 ^ 15 +ℕ 1) ≤ b' *ℕ 10 ^ 2 *ℕ 10 ^ 1 *ℕ 10 ^ 15
        → ((chosen : F) → chosen ≼ lit b' 2 → Ends fuel chosen)
        → (chosen : F) → chosen ≼ lit b 2
        → Ends (suc fuel) chosen
    unfolding shrink
    one_round fuel b b' h rest chosen at_most =
        elim (Bool-cases (f.lt limit (drag rate intervals chosen))) [
          | inr fits ↦ (chosen, ground arith)
          | inl drags ↦ elim (Bool-cases (f.lt one chosen)) [
            | inr low ↦ (chosen, ground arith)
            | inl above ↦
                let (c, e) = rest (chosen * lit 8 1) (round_bound b b' chosen h above at_most) in
                (c, ground arith)
          ]
        ]

    last_round : (chosen : F) → chosen ≼ lit 86 2 → Ends 1 chosen
    unfolding shrink
    last_round chosen at_most =
        let low = le_trans _ _ _ at_most (lit-le 86 2 1 0 (omega arith)) in
        (chosen, ground (arith, laws.lt-not-le one chosen))

    -- From 5 at most, the loop ends within its fuel.
    pub shrink_total : (chosen : F) → chosen ≼ lit 5 0 → Ends rounds chosen
    shrink_total chosen at_most =
        one_round 8 500 401 (omega arith)
          (one_round 7 401 321 (omega arith) (
            one_round 6 321 257 (omega arith) (
              one_round 5 257 206 (omega arith) (
                one_round 4 206 165 (omega arith) (
                  one_round 3 165 133 (omega arith) (
                    one_round 2 133 107 (omega arith)
                      (one_round 1 107 86 (omega arith) last_round)))))))
          chosen (le_trans _ _ _ at_most (lit-le 5 0 500 2 (omega arith)))

    -- What the loop returns is no more than it was given, and meets the limit or is at most 1.
    pub shrink_result :
        (fuel : ℕ) (chosen c : F)
        → shrink fuel limit rate intervals chosen ≡ some c
        → (c ≼ chosen) × ((drag rate intervals c ≼ limit) ⊎ (c ≼ one))
    unfolding shrink
    shrink_result zero chosen c e = absurd (ground arith)
    shrink_result (suc fuel) chosen c e =
        elim (Bool-cases (f.lt limit (drag rate intervals chosen))) [
          | inr fits ↦
              let same : chosen ≡ c = ground arith in
              subst (λ t. (t ≼ chosen) × ((drag rate intervals t ≼ limit) ⊎ (t ≼ one))) same
                (laws.le_refl chosen, inl (le_of_not_lt laws _ _ fits))
          | inl drags ↦ elim (Bool-cases (f.lt one chosen)) [
            | inr low ↦
                let same : chosen ≡ c = ground arith in
                subst (λ t. (t ≼ chosen) × ((drag rate intervals t ≼ limit) ⊎ (t ≼ one))) same
                  (laws.le_refl chosen, inr (le_of_not_lt laws _ _ low))
            | inl above ↦
                let (lower, meets) = shrink_result fuel (chosen * lit 8 1) c (ground arith) in
                (
                  le_trans _ _ _ lower (
                      mul_le_self laws chosen (lit 8 1)
                        (le_trans _ _ _ (lit-le 0 0 1 0 (omega arith))
                          (le_of_lt laws one chosen above))
                        (lit-le 0 0 8 1 (omega arith)) (lit-le 8 1 1 0 (omega arith))),
                  meets,
                )
          ]
        ]
