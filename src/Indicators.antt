-- ===== src/Indicators.antt =====
-- core/indicators.py: SMA, EMA, ROC, realized volatility, ATR, RSI and ADX over bars, oldest first.
-- A period is a natural number; with a period of 0 the source divides by zero, as the model does.
mod Defs
unfoldable pub use Defs.*
