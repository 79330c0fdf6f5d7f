-- ===== src/Regime.antt =====
-- core/regime.py: the three-axis classifier, the BTC override and the playbook table.
pub mod Override
pub mod Bins
use agora_perp_agent.Prelude.{Bool, ◌&&◌, not, List, if◌then◌else◌}
use agora_perp_agent.Prelude.Errors.{Result, ok, ◌>>=◌}
use agora_perp_agent.Float.Ops.{
  Float, lit, ◌-◌, neg, zero, one, divide, abs, ◌<?◌, ◌>?◌, ◌>=?◌, ◌<=?◌,
}
use agora_perp_agent.Contracts.{
  OhlcBar, RegimeTag, Tier, t1, t2, t3, t4, Trend, up, down, range, Vol, compressed, normal,
  expanded, crisis, Funding, neutral, bull_bias, bear_bias, extreme_pos, extreme_neg,
}
use agora_perp_agent.Indicators.{ema, atr, adx}

module _ {F : Type 0} ⦃f : Float F⦄ where
  -- `_FUNDING_BINS`: the bounds of the neutral bin and of the extreme one
  abbrev pub neutral_bin : Tier → F
  neutral_bin t1 = lit 1 4
  neutral_bin t2 = lit 2 4
  neutral_bin t3 = lit 4 4
  neutral_bin t4 = lit 4 4

  abbrev pub extreme_bin : Tier → F
  extreme_bin t1 = lit 5 4
  extreme_bin t2 = lit 8 4
  extreme_bin t3 = lit 15 4
  extreme_bin t4 = lit 15 4

  -- `_trend` after the indicators: from the two averages and the ADX
  unfoldable pub trend_of : F → F → F → Result Trend
  trend_of ema_20 ema_50 adx_val = do
    separation ← (if ema_50 >? zero then divide (ema_20 - ema_50) ema_50 else ok zero)
    ok (
        if adx_val <? lit 25 0
        then range
        else if separation >=? lit 5 3
        then up
        else if separation <=? neg (lit 5 3)
        then down
        else range)

  unfoldable pub classify_trend : List (OhlcBar F) → Result Trend
  unfolding trend_of
  classify_trend bars = do
    ema_20 ← ema bars 20
    ema_50 ← ema bars 50
    (adx_val, plus_di, minus_di) ← adx bars 14
    trend_of ema_20 ema_50 adx_val

  -- `_vol` after the indicators
  unfoldable pub vol_bucket : F → Vol
  vol_bucket ratio =
      if ratio <? lit 65 2
      then compressed
      else if ratio <? lit 130 2
      then normal
      else if ratio <? lit 180 2
      then expanded
      else crisis

  unfoldable pub classify_vol : List (OhlcBar F) → Result Vol
  unfolding vol_bucket
  classify_vol bars = do
    atr_10 ← atr bars 10
    atr_50 ← atr bars 50
    ratio ← (if atr_50 >? zero then divide atr_10 atr_50 else ok one)
    ok (vol_bucket ratio)

  unfoldable pub classify_funding : F → Tier → Funding
  classify_funding rate tier =
      let abs_rate = abs rate in
      if abs_rate <? neutral_bin tier
      then neutral
      else if abs_rate <? extreme_bin tier
      then (if rate >? zero then bull_bias else bear_bias)
      else (if rate >? zero then extreme_pos else extreme_neg)

  -- `BaselineRegimeClassifier.classify`
  unfoldable pub classify : List (OhlcBar F) → F → Tier → Result RegimeTag
  unfolding classify_trend classify_vol classify_funding
  classify bars_1h funding_rate tier = do
    trend ← classify_trend bars_1h
    vol ← classify_vol bars_1h
    ok (record { trend = trend; vol = vol; funding = classify_funding funding_rate tier })

  -- `_PLAYBOOK_TABLE`, whose missing rows read as 0.0
  abbrev pub playbook_table : Trend → Vol → Funding → F
  playbook_table up normal neutral = one
  playbook_table up expanded neutral = lit 5 1
  playbook_table up compressed neutral = lit 3 1
  playbook_table up normal bull_bias = one
  playbook_table up normal extreme_pos = zero
  playbook_table up normal extreme_neg = lit 13 1
  playbook_table down normal neutral = one
  playbook_table down expanded neutral = lit 5 1
  playbook_table down normal bear_bias = one
  playbook_table down normal extreme_pos = lit 13 1
  playbook_table down normal extreme_neg = zero
  playbook_table range normal neutral = lit 7 1
  playbook_table range compressed neutral = lit 9 1
  playbook_table _ _ _ = zero

  unfoldable pub playbook_multiplier : RegimeTag → F
  playbook_multiplier regime = elim regime.vol [
    | crisis ↦ zero
    | _ ↦ playbook_table regime.trend regime.vol regime.funding
  ]

-- `regime.trend != "DOWN"`, and the membership tests of the override
abbrev pub is_down : Trend → Bool
is_down up = Bool.false
is_down down = Bool.true
is_down range = Bool.false

abbrev pub is_crisis : Vol → Bool
is_crisis crisis = Bool.true
is_crisis _ = Bool.false

abbrev pub is_expanded : Vol → Bool
is_expanded expanded = Bool.true
is_expanded _ = Bool.false

abbrev pub is_extreme : Funding → Bool
is_extreme extreme_pos = Bool.true
is_extreme extreme_neg = Bool.true
is_extreme _ = Bool.false

unfoldable pub apply_btc_override : RegimeTag → RegimeTag → RegimeTag
apply_btc_override regime btc =
    let in_crisis : RegimeTag = record {
      trend = regime.trend;
      vol = crisis;
      funding = regime.funding;
    } in
    if is_crisis btc.vol
    then in_crisis
    else if is_down btc.trend && is_expanded btc.vol && not (is_down regime.trend)
    then in_crisis
    else if is_extreme btc.funding && not (is_extreme regime.funding)
    then record { trend = regime.trend; vol = regime.vol; funding = btc.funding }
    else regime
