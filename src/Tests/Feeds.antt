-- ===== src/Tests/Feeds.antt =====
-- The web socket feed on one coin, with the same candles, metadata and book as a fetch over the network.
use agora_perp_agent.Prelude.{
  ℕ, String, ◌≡◌, refl, true, false, none, some, List, [], ◌∷◌, if◌then◌else◌, ltb,
}
use agora_perp_agent.Prelude.Errors.{ok}
use agora_perp_agent.Float.Ops.{lit}
use agora_perp_agent.Float.Fixed.{ℤ, fixed}
use agora_perp_agent.Contracts.{MarketData, OhlcBar}
use agora_perp_agent.Contracts.Json.{Json, array, nil, item, end}
use agora_perp_agent.Synthesis.Answer.{iterate}
use agora_perp_agent.MarketSource.{
  parse_candle, parse_candles, find_ctx, parse_ctx, parse_l2book, fetch,
}
use agora_perp_agent.Feed.{
  CoinCache, Feed, FeedEvent, book_pushed, ohlcv_polled, readiness_checked, fetch_cached,
  watch_readiness, poll_ohlcv, feed_steps,
}
use agora_perp_agent.Feed.Symbols.{resolve_symbol}
use agora_perp_agent.Feed.Agreement.{fetch_cached-fetch}
use agora_perp_agent.Feed.Ready.{ready_fetches}
use agora_perp_agent.Feed.Stale.{bars_at, stale_for_good}
use agora_perp_agent.Tests.Fetches.{reading, candles, meta, book}

abbrev bar : OhlcBar ℤ
bar = record {
  timestamp = 60_000;
  opening = lit 2 0;
  high = lit 2 0;
  low = lit 2 0;
  close = lit 2 0;
  volume = lit 2 0;
}

abbrev cache : CoinCache ℤ
cache = record {
  bars = bar ∷ bar ∷ [];
  bids = (lit 2 0, lit 2 0) ∷ [];
  asks = (lit 2 0, lit 2 0) ∷ [];
  bars_fetched_at = 7;
}

abbrev feed : Feed ℤ
feed = record { caches = ("BTC", cache) ∷ []; stopped = false; ready = false; crashed = [] }

fetch_cached-fetch_example :
    fetch_cached reading (lit 50 0) (ok meta) "BTC" 1 feed
    ≡ fetch reading (lit 50 0) (ok candles) (ok meta) (ok book) "BTC" 1
unfolding parse_candles parse_candle parse_l2book iterate
fetch_cached-fetch_example =
    fetch_cached-fetch reading (lit 50 0) (ok meta) candles book "BTC" 1 feed cache refl refl refl
      refl refl

ready_fetches_example :
    (m : MarketData ℤ) × (fetch_cached reading (lit 50 0) (ok meta) "BTC" 1 (watch_readiness feed)
      ≡ ok m)
    × (m.asset ≡ "BTC")
unfolding watch_readiness parse_ctx find_ctx iterate
ready_fetches_example =
    ready_fetches reading (lit 50 0) meta (lit 2 0, lit 2 0) "BTC" cache 1 feed refl refl refl refl

-- A row that has no time.
abbrev broken : Json ℤ
broken = array (item (array nil) nil)

abbrev later : List (FeedEvent ℤ)
later = book_pushed "BTC" (ok end) ∷ ohlcv_polled "BTC" (ok (array nil)) 8 ∷ readiness_checked ∷ []

stale_for_good_example :
    bars_at "BTC" (feed_steps reading later (poll_ohlcv reading "BTC" (ok broken) 7 feed))
    ≡ some (bar ∷ bar ∷ [])
unfolding iterate
stale_for_good_example = stale_for_good reading "BTC" broken _ 7 feed later refl refl

resolved :
    resolve_symbol (("ETH/USDC:USDC", true) ∷ ("BTC/USDT", false) ∷ ("BTC/X", true) ∷ []) "BTC"
    ≡ ok "BTC/X"
unfolding resolve_symbol agora_perp_agent.Prelude.Text.starts_with
resolved = refl
