-- ===== src/Forecasting.antt =====
-- core/forecast.py: `BaselineForecast`. `math.exp` is a parameter, which raises `OverflowError` where
-- the power is too large.
pub mod Bounds
use agora_perp_agent.Prelude.{ℕ, Bool, if◌then◌else◌}
use agora_perp_agent.Prelude.Errors.{Result, ok, err, ◌>>=◌}
use agora_perp_agent.Float.Ops.{
  Float, lit, zero, one, neg, abs, min, max, divide, ◌+◌, ◌-◌, ◌*◌, ◌/◌, ◌>?◌,
}
use agora_perp_agent.Contracts.{MarketData, Forecast}
use agora_perp_agent.Indicators.{sma, atr, rsi, adx}

-- The configured periods and the gain.
pub record BaselineForecast (F : Type 0) : Type 0 where
  pub sma_n : ℕ
  pub rsi_n : ℕ
  pub adx_n : ℕ
  pub atr_n : ℕ
  pub gain : F

module _ {F : Type 0} ⦃f : Float F⦄ where
  -- The defaults of `__init__`.
  abbrev pub default_forecast : BaselineForecast F
  default_forecast = record { sma_n = 20; rsi_n = 14; adx_n = 14; atr_n = 14; gain = lit 2 0 }

  -- `_EPS`
  abbrev pub eps : F
  eps = lit 1 12

  unfoldable pub logistic : (F → Result F) → F → Result F
  logistic exp x = exp (neg x) >>= λ power. divide one (one + power)

  -- The clamped trend, scaled by the strength of the trend.
  unfoldable pub trend_of : F → F → F → F → Result F
  trend_of price ma rng adx_value = do
    raw ← if rng >? eps then divide (price - ma) rng else ok zero
    ok (max (neg (lit 3 0)) (min (lit 3 0) raw) / lit 3 0 * (min adx_value (lit 50 0) / lit 50 0))

  unfoldable pub move_of : F → F → F → Result F
  move_of p_up rng price =
      if price >? eps
      then (divide rng price >>= λ part. ok ((lit 2 0 * p_up - one) * part * lit 10000 0))
      else ok zero

  -- `forecast`
  unfoldable pub forecast : (F → Result F) → BaselineForecast F → MarketData F → Result (Forecast F)
  forecast exp cfg market = do
    ma ← sma market.bars cfg.sma_n
    rng ← atr market.bars cfg.atr_n
    momentum_rsi ← rsi market.bars cfg.rsi_n
    (adx_value, plus_di, minus_di) ← adx market.bars cfg.adx_n
    trend ← trend_of market.mark_price ma rng adx_value
    p_up ←
        logistic exp
          (cfg.gain * (lit 5 1 * trend + lit 5 1 * ((momentum_rsi - lit 50 0) / lit 50 0)))
    move ← move_of p_up rng market.mark_price
    ok (record {
      asset = market.asset;
      timestamp = market.timestamp;
      p_up = p_up;
      p_down = one - p_up;
      expected_move_bps = move;
      confidence = abs (lit 2 0 * p_up - one);
    })
