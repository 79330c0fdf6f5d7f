-- ===== src/Regime/Override.antt =====
-- `apply_btc_override`: applied twice it is applied once, it never invents a tag, and a BTC crisis
-- stands every asset down.
use Prim.Native.Nat.{◌+◌}
use agora_perp_agent.Prelude.{ℕ, ◌≡◌, ◌⊎◌, true, false, arith}
use agora_perp_agent.Float.Ops.{Float, zero}
use agora_perp_agent.Contracts.{
  RegimeTag, down, expanded, crisis, Funding, neutral, bull_bias, bear_bias, extreme_pos,
  extreme_neg,
}
use agora_perp_agent.Regime.{
  apply_btc_override, playbook_multiplier, is_extreme, is_crisis, is_expanded, is_down,
}

-- Overriding by the same BTC regime a second time changes nothing; the trend is always kept, the
-- volatility is kept or becomes a crisis, and the funding is kept or becomes BTC's extreme.
pub apply_btc_override_effect :
    (regime btc : RegimeTag)
    → let once = apply_btc_override regime btc in
      (apply_btc_override once btc ≡ once)
      × (once.trend ≡ regime.trend)
      × ((once.vol ≡ regime.vol) ⊎ (once.vol ≡ crisis))
      × ((once.funding ≡ regime.funding)
          ⊎ ((once.funding ≡ btc.funding) × (is_extreme btc.funding ≡ true)))
unfolding apply_btc_override
apply_btc_override_effect regime btc = (ground arith, ground arith, ground arith, ground arith)

module _ {F : Type 0} ⦃f : Float F⦄ where
  -- While BTC is in a crisis, or falls in expanded volatility and the asset does not fall with it,
  -- the playbook multiplier of the overridden regime is 0.
  pub btc_stands_down :
      (regime btc : RegimeTag)
      → (btc.vol ≡ crisis)
        ⊎ ((btc.trend ≡ down) × (btc.vol ≡ expanded) × (is_down regime.trend ≡ false))
      → playbook_multiplier (apply_btc_override regime btc) ≡ zero {F = F}
  unfolding apply_btc_override playbook_multiplier
  btc_stands_down regime btc h = ground arith

-- The funding bins in order.
abbrev pub bucket : Funding → ℕ
bucket extreme_neg = 0
bucket bear_bias = 1
bucket neutral = 2
bucket bull_bias = 3
bucket extreme_pos = 4

-- While BTC's funding is extreme and BTC is neither in a crisis nor in expanded volatility, an asset
-- with neutral funding is moved two bins at once, to BTC's extreme.
pub override_skips_bin :
    (regime btc : RegimeTag)
    → is_crisis btc.vol ≡ false
    → is_expanded btc.vol ≡ false
    → is_extreme btc.funding ≡ true
    → regime.funding ≡ neutral
    → let once = apply_btc_override regime btc in
      (once.funding ≡ btc.funding)
      × ((bucket once.funding ≡ bucket regime.funding + 2)
          ⊎ (bucket once.funding + 2 ≡ bucket regime.funding))
unfolding apply_btc_override
override_skips_bin regime btc calm narrow extreme level = ground arith
