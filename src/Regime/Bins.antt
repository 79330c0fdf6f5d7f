-- ===== src/Regime/Bins.antt =====
-- The funding bins and the playbook multipliers.
use agora_perp_agent.Prelude.{ℕ, ◌≤◌, ◌≡◌, true, false, arith}
use agora_perp_agent.Float.Ops.{Float, neg, zero, abs, ◌≼◌}
use agora_perp_agent.Float.Laws.{IsLawful, neg_nonpos, neg_nonneg}
use agora_perp_agent.Contracts.{
  RegimeTag, Tier, t1, t2, t3, t4, Trend, Vol, Funding, neutral, bull_bias, bear_bias, extreme_pos,
  extreme_neg,
}
use agora_perp_agent.Regime.{
  classify_funding, neutral_bin, extreme_bin, playbook_table, playbook_multiplier,
}

abbrev pub mirror : Funding → Funding
mirror neutral = neutral
mirror bull_bias = bear_bias
mirror bear_bias = bull_bias
mirror extreme_pos = extreme_neg
mirror extreme_neg = extreme_pos

-- How far a bin lies from the neutral one.
abbrev pub severity : Funding → ℕ
severity neutral = 0
severity bull_bias = 1
severity bear_bias = 1
severity extreme_pos = 2
severity extreme_neg = 2

module _ {F : Type 0} ⦃f : Float F⦄ (laws : IsLawful F) where
  neutral_bin_pos : (tier : Tier) → f.le (neutral_bin tier) zero ≡ false
  neutral_bin_pos t1 = laws.lit_pos 1 4 (omega arith) (omega arith)
  neutral_bin_pos t2 = laws.lit_pos 2 4 (omega arith) (omega arith)
  neutral_bin_pos t3 = laws.lit_pos 4 4 (omega arith) (omega arith)
  neutral_bin_pos t4 = laws.lit_pos 4 4 (omega arith) (omega arith)

  -- The opposite rate falls into the mirrored bin, for every tier.
  pub classify_funding-neg :
      (rate : F) (tier : Tier)
      → classify_funding (neg rate) tier ≡ mirror (classify_funding rate tier)
  unfolding classify_funding
  classify_funding-neg rate tier = ground (
    arith,
    neutral_bin_pos tier,
    laws.lt-not-le rate zero,
    laws.lt-not-le zero rate,
    laws.lt-not-le (neg rate) zero,
    laws.lt-not-le zero (neg rate),
    laws.lt-not-le rate (neutral_bin tier),
    laws.lt-not-le (neg rate) (neutral_bin tier),
    laws.neg_neg rate,
    neg_nonpos laws rate,
    neg_nonneg laws rate,
    neg_nonpos laws (neg rate),
    neg_nonneg laws (neg rate),
    laws.le_total rate zero,
    laws.le_trans (neutral_bin tier) rate zero,
    laws.le_trans (neutral_bin tier) (neg rate) zero,
  )

  lt_trans_lit : (a b c : F) → f.lt a b ≡ true → b ≼ c → f.lt a c ≡ true
  lt_trans_lit a b c h k =
      ground (arith, laws.lt-not-le a b, laws.lt-not-le a c, laws.le_trans b c a)

  neutral_bin_widens : (tier : Tier) → neutral_bin {F = F} t1 ≼ neutral_bin tier
  neutral_bin_widens t1 = laws.le_refl _
  neutral_bin_widens t2 = laws.lit-le 1 4 2 4 (omega arith)
  neutral_bin_widens t3 = laws.lit-le 1 4 4 4 (omega arith)
  neutral_bin_widens t4 = laws.lit-le 1 4 4 4 (omega arith)

  extreme_bin_widens : (tier : Tier) → extreme_bin {F = F} t1 ≼ extreme_bin tier
  extreme_bin_widens t1 = laws.le_refl _
  extreme_bin_widens t2 = laws.lit-le 5 4 8 4 (omega arith)
  extreme_bin_widens t3 = laws.lit-le 5 4 15 4 (omega arith)
  extreme_bin_widens t4 = laws.lit-le 5 4 15 4 (omega arith)

  -- The bins of the majors are the tightest: no tier reads a rate as more severe than T1 does.
  pub majors_tightest :
      (rate : F) (tier : Tier)
      → severity (classify_funding rate tier) ≤ severity (classify_funding rate t1)
  unfolding classify_funding
  majors_tightest rate tier = ground (
    arith,
    lt_trans_lit (abs rate) (neutral_bin t1) (neutral_bin tier),
    neutral_bin_widens tier,
    lt_trans_lit (abs rate) (extreme_bin t1) (extreme_bin tier),
    extreme_bin_widens tier,
  )

  table_bounds :
      (trend : Trend) (vol : Vol) (funding : Funding)
      → (f.lit 0 0 ≼ playbook_table trend vol funding)
        × (playbook_table trend vol funding ≼ f.lit 13 1)
  table_bounds trend vol funding = ground (
    arith,
    laws.lit-le 0 0 0 0 (omega arith),
    laws.lit-le 0 0 1 0 (omega arith),
    laws.lit-le 0 0 5 1 (omega arith),
    laws.lit-le 0 0 3 1 (omega arith),
    laws.lit-le 0 0 13 1 (omega arith),
    laws.lit-le 0 0 7 1 (omega arith),
    laws.lit-le 0 0 9 1 (omega arith),
    laws.lit-le 1 0 13 1 (omega arith),
    laws.lit-le 5 1 13 1 (omega arith),
    laws.lit-le 3 1 13 1 (omega arith),
    laws.lit-le 13 1 13 1 (omega arith),
    laws.lit-le 7 1 13 1 (omega arith),
    laws.lit-le 9 1 13 1 (omega arith),
  )

  -- Every multiplier is between 0 and 1.3.
  pub playbook_bounds :
      (regime : RegimeTag)
      → (f.lit 0 0 ≼ playbook_multiplier regime) × (playbook_multiplier regime ≼ f.lit 13 1)
  unfolding playbook_multiplier
  playbook_bounds regime = ground (
    arith,
    table_bounds regime.trend regime.vol regime.funding,
    laws.lit-le 0 0 0 0 (omega arith),
    laws.lit-le 0 0 13 1 (omega arith),
  )
