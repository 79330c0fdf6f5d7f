-- ===== src/Tests/Forecasts.antt =====
-- The baseline forecast on fifty-two bars that swing around one price.
use agora_perp_agent.Prelude.{◌≡◌, refl, subst}
use agora_perp_agent.Prelude.Errors.{Result, ok, Returns}
use agora_perp_agent.Float.Ops.{lit, zero, ◌≼◌}
use agora_perp_agent.Float.Fixed.{ℤ, fixed, fixed-IsLawful, decimal, plus, times, over, total}
use agora_perp_agent.Contracts.{MarketData}
use agora_perp_agent.Indicators.{sma, atr, rsi, adx}
use agora_perp_agent.Forecasting.{default_forecast, logistic, trend_of, move_of, forecast}
use agora_perp_agent.Forecasting.Bounds.{IsCalibrated, forecast-IsCalibrated}
use agora_perp_agent.Tests.Data.{market, bars, value, forecast as no_forecast}

-- Any function that is never negative serves.
abbrev exp : ℤ → Result ℤ
exp x = ok (lit 5 1)

abbrev snap : MarketData ℤ
snap = record market { bars = bars 20 }

never_negative : (x y : ℤ) → exp x ≡ ok y → zero ≼ y
unfolding decimal
never_negative x y e = subst (Returns (λ a. zero ≼ a)) e refl

forecast-IsCalibrated_example :
    IsCalibrated fixed-IsLawful (value no_forecast (forecast exp default_forecast snap))
unfolding forecast sma decimal atr rsi over plus times total adx trend_of logistic move_of
forecast-IsCalibrated_example =
    forecast-IsCalibrated fixed-IsLawful exp default_forecast snap
      (value no_forecast (forecast exp default_forecast snap)) never_negative refl
