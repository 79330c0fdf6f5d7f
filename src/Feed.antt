-- ===== src/Feed.antt =====
-- core/ws.py: `HyperliquidWsSource`, the cache that background tasks fill and from which `fetch` reads. The
-- tasks of the event loop are steps on the cache, with what the exchange answered; the lock makes each
-- of them one step. A turn of a task that began before `close` counts as a step before it. A time is a number of the monotonic clock.
pub mod Symbols
pub mod Agreement
pub mod Ready
pub mod Stale
use agora_perp_agent.Prelude.{
  ℕ, String, Bool, true, false, not, ◌&&◌, ◌==◌, Option, none, some, List, [], ◌∷◌, if◌then◌else◌,
}
use agora_perp_agent.Prelude.Errors.{
  Result, ok, err, ◌>>=◌, index_error, not_subscribed, no_bars_yet, no_book_yet,
}
use agora_perp_agent.Prelude.Dict.{Dict, lookup, insert}
use agora_perp_agent.Float.Ops.{Float}
use agora_perp_agent.Contracts.{MarketData, OhlcBar}
use agora_perp_agent.Contracts.Json.{Json, leaf, array, object, Fields, nil, get}
use agora_perp_agent.Synthesis.Answer.{iterate}
use agora_perp_agent.MarketSource.{Reading, traverse, at_index, last_window, parse_ctx, snapshot_of}

-- `_CoinCache`
pub record CoinCache (F : Type 0) : Type 0 where
  pub bars : List (OhlcBar F)
  pub bids : List (F × F)
  pub asks : List (F × F)
  pub bars_fetched_at : ℕ

-- The caches, the two events, and the coins whose task for candles has ended with an exception.
pub record Feed (F : Type 0) : Type 0 where
  pub caches : Dict (CoinCache F)
  pub stopped : Bool
  pub ready : Bool
  pub crashed : List String

-- `coin in coins`
abbrev pub is_among : String → List String → Bool
is_among coin [] = false
is_among coin (c ∷ cs) = if c == coin then true else is_among coin cs

-- A step of one of the tasks, or the call of `close`.
pub data FeedEvent (F : Type 0) : Type 0 where
  book_pushed : String → Result (Fields F) → FeedEvent F
  ohlcv_polled : String → Result (Json F) → ℕ → FeedEvent F
  readiness_checked : FeedEvent F
  feed_closed : FeedEvent F

module _ {A : Type 0} where
  -- `bool(items)`
  abbrev pub has_some : List A → Bool
  has_some [] = false
  has_some (x ∷ xs) = true

module _ {F : Type 0} where
  abbrev pub has_book : CoinCache F → Bool
  has_book cache = has_some cache.bids && has_some cache.asks

  abbrev pub empty_cache : CoinCache F
  empty_cache = record { bars = []; bids = []; asks = []; bars_fetched_at = 0 }

  -- `{c: _CoinCache() for c in coins}`
  abbrev pub caches_of : List String → Dict (CoinCache F) → Dict (CoinCache F)
  caches_of [] caches = caches
  caches_of (coin ∷ coins) caches = caches_of coins (insert coin empty_cache caches)

  -- `__init__`
  unfoldable pub subscribe : List String → Feed F
  subscribe coins = record {
    caches = caches_of coins [];
    stopped = false;
    ready = false;
    crashed = [];
  }

  -- What `fetch` reads under the lock: the bars of the window and the two sides of the book.
  unfoldable pub read_cache :
      Option (CoinCache F) → ℕ → Result (List (OhlcBar F) × List (F × F) × List (F × F))
  read_cache none window = err not_subscribed
  read_cache (some cache) window =
      if has_some cache.bars
      then if has_book cache
        then ok (last_window window cache.bars, cache.bids, cache.asks)
        else err no_book_yet
      else err no_bars_yet

module _ {F : Type 0} ⦃f : Float F⦄ where
  -- The snapshot of what was read. Neither side of the book is empty, so that the middle is between
  -- the two best prices.
  abbrev pub build :
      Reading F
      → F
      → Result (Json F)
      → String
      → List (OhlcBar F) × List (F × F) × List (F × F)
      → Result (MarketData F)
  build reading band_bps meta asset (bars, bids, asks) = do
    meta_raw ← meta
    ctx ← parse_ctx reading meta_raw asset
    elim bars [
      | [] ↦ err index_error
      | bar ∷ later ↦ ok (snapshot_of asset band_bps ctx (bids, asks) bar later)
    ]

  -- `fetch`, with what `_meta` returns.
  unfoldable pub fetch_cached :
      Reading F → F → Result (Json F) → String → ℕ → Feed F → Result (MarketData F)
  unfolding read_cache
  fetch_cached reading band_bps meta asset window feed =
      read_cache (lookup asset feed.caches) window >>= build reading band_bps meta asset

module _ {F : Type 0} where
  abbrev pub read_level : Reading F → Json F → Result (F × F)
  read_level reading level = do
    p ← at_index 0 level
    px ← reading.float_of p
    s ← at_index 1 level
    sz ← reading.float_of s
    ok (px, sz)

  -- `ob.get(side, [])`
  abbrev pub side_levels : String → Fields F → Json F
  side_levels name fields = elim (get name fields) [ none ↦ array nil | some side ↦ side ]

  abbrev pub read_side : Reading F → String → Fields F → Result (List (F × F))
  read_side reading name fields =
      iterate (side_levels name fields) >>= traverse (read_level reading)

  abbrev pub with_book : List (F × F) × List (F × F) → CoinCache F → CoinCache F
  with_book (bids, asks) cache = record cache { bids = bids; asks = asks }

  -- A write into the cache of a coin that has one.
  abbrev pub write_cache : String → (CoinCache F → CoinCache F) → Feed F → Feed F
  write_cache coin change feed = elim (lookup coin feed.caches) [
    | none ↦ feed
    | some cache ↦ record feed { caches = insert coin (change cache) feed.caches }
  ]

  -- One turn of `_watch_book_loop`: an exception is printed and changes nothing.
  unfoldable pub watch_book : Reading F → String → Result (Fields F) → Feed F → Feed F
  watch_book reading coin answer feed =
      let levels = answer >>= λ ob. read_side reading "bids" ob >>= λ bids.
      read_side reading "asks" ob >>= λ asks. ok (bids, asks) in
      if feed.stopped
      then feed
      else elim levels [ err e ↦ feed | ok sides ↦ write_cache coin (with_book sides) feed ]

  -- A row of the candles: the time and five numbers.
  abbrev pub read_bar : Reading F → Json F → Result (OhlcBar F)
  read_bar reading b = do
    t ← at_index 0 b
    timestamp ← reading.time_of t
    o ← at_index 1 b
    opening ← reading.float_of o
    h ← at_index 2 b
    high ← reading.float_of h
    l ← at_index 3 b
    low ← reading.float_of l
    c ← at_index 4 b
    close ← reading.float_of c
    v ← at_index 5 b
    volume ← reading.float_of v
    ok (record {
      timestamp = timestamp;
      opening = opening;
      high = high;
      low = low;
      close = close;
      volume = volume;
    })

  abbrev pub with_bars : List (OhlcBar F) → ℕ → CoinCache F → CoinCache F
  with_bars bars now cache = record cache { bars = bars; bars_fetched_at = now }

  -- `_poll_ohlcv_once` in its loop: an exception of the exchange is printed, one of the conversion ends
  -- the coin's task.
  unfoldable pub poll_ohlcv : Reading F → String → Result (Json F) → ℕ → Feed F → Feed F
  poll_ohlcv reading coin answer now feed =
      if feed.stopped then feed else if is_among coin feed.crashed then feed else elim answer [
        | err e ↦ feed
        | ok ohlcv ↦ elim (iterate ohlcv >>= traverse (read_bar reading)) [
          | err e ↦ record feed { crashed = coin ∷ feed.crashed }
          | ok bars ↦ write_cache coin (with_bars bars now) feed
        ]
      ]

  abbrev pub all_filled : Dict (CoinCache F) → Bool
  all_filled [] = true
  all_filled ((coin, cache) ∷ caches) = (has_some cache.bars && has_book cache) && all_filled caches

  -- A turn of `_readiness_watcher`.
  unfoldable pub watch_readiness : Feed F → Feed F
  watch_readiness feed =
      if feed.stopped
      then feed
      else if all_filled feed.caches
      then record feed { ready = true }
      else feed

  -- `close`, up to the wait for the thread.
  unfoldable pub close_feed : Feed F → Feed F
  close_feed feed = record feed { stopped = true }

  unfoldable pub feed_step : Reading F → FeedEvent F → Feed F → Feed F
  unfolding watch_book poll_ohlcv watch_readiness close_feed
  feed_step reading (book_pushed coin answer) feed = watch_book reading coin answer feed
  feed_step reading (ohlcv_polled coin answer now) feed = poll_ohlcv reading coin answer now feed
  feed_step reading readiness_checked feed = watch_readiness feed
  feed_step reading feed_closed feed = close_feed feed

  unfoldable pub feed_steps : Reading F → List (FeedEvent F) → Feed F → Feed F
  feed_steps reading [] feed = feed
  feed_steps reading (e ∷ es) feed = feed_steps reading es (feed_step reading e feed)
