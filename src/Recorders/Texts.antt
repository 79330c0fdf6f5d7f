-- ===== src/Recorders/Texts.antt =====
-- cli/run.py and core/contracts.py: the texts of sides, tiers and regimes.
use agora_perp_agent.Prelude.{String}
use Prim.Native.String.{◌++◌ as ◌+++◌}
use agora_perp_agent.Contracts.{
  RegimeTag, Side, long, short, other, Tier, t1, t2, t3, t4, Trend, up, down, range, Vol,
  compressed, normal, expanded, crisis, Funding, neutral, bull_bias, bear_bias, extreme_pos,
  extreme_neg,
}

-- The text of a side; no other side than these two is built from an answer of the agent.
abbrev pub side_text : Side → String
side_text long = "long"
side_text short = "short"
side_text other = "other"

abbrev pub tier_text : Tier → String
tier_text t1 = "T1"
tier_text t2 = "T2"
tier_text t3 = "T3"
tier_text t4 = "T4"

abbrev pub trend_text : Trend → String
trend_text up = "UP"
trend_text down = "DOWN"
trend_text range = "RANGE"

abbrev pub vol_text : Vol → String
vol_text compressed = "COMPRESSED"
vol_text normal = "NORMAL"
vol_text expanded = "EXPANDED"
vol_text crisis = "CRISIS"

abbrev pub funding_text : Funding → String
funding_text neutral = "NEUTRAL"
funding_text bull_bias = "BULL_BIAS"
funding_text bear_bias = "BEAR_BIAS"
funding_text extreme_pos = "EXTREME_POS"
funding_text extreme_neg = "EXTREME_NEG"

-- `_TREND_SHORT`, `_VOL_SHORT` and `_FUNDING_SHORT`
abbrev pub trend_short : Trend → String
trend_short up = "UP"
trend_short down = "DN"
trend_short range = "RG"

abbrev pub vol_short : Vol → String
vol_short compressed = "COMP"
vol_short normal = "NORM"
vol_short expanded = "EXP"
vol_short crisis = "CRIS"

abbrev pub funding_short : Funding → String
funding_short neutral = "NEU"
funding_short bull_bias = "B+"
funding_short bear_bias = "B-"
funding_short extreme_pos = "E+"
funding_short extreme_neg = "E-"

-- `_fmt_regime` of a regime
abbrev pub fmt_regime : RegimeTag → String
fmt_regime regime =
    trend_short regime.trend
    +++ "·"
    +++ vol_short regime.vol
    +++ "·"
    +++ funding_short regime.funding
