-- ===== src/Feed/Agreement.antt =====
-- Reading from the cache agrees with fetching over the network.
use agora_perp_agent.Prelude.{
  zero, suc, ◌<◌, length, length-drop, take_last, ℕ, String, ◌≡◌, refl, some, List, [], ◌∷◌, true,
  arith,
}
use Prim.Native.Nat.{◌-◌}
use agora_perp_agent.Prelude.Errors.{Result, ok, err, ◌>>=◌}
use agora_perp_agent.Prelude.Dict.{lookup}
use agora_perp_agent.Float.Ops.{Float}
use agora_perp_agent.Contracts.{OhlcBar}
use agora_perp_agent.Contracts.Json.{Json}
use agora_perp_agent.MarketSource.{
  Reading, snapshot_of, parse_candles, parse_l2book, parse_ctx, last_window, finish_fetch, fetch,
}
use agora_perp_agent.Feed.{CoinCache, Feed, has_some, has_book, read_cache, build, fetch_cached}

pub last_window_lem :
    {A : Type 0} (window : ℕ) (xs : List A)
    → has_some xs ≡ true
    → has_some (last_window window xs) ≡ true
last_window_lem zero xs h = h
last_window_lem {A = A} (suc n) xs h =
    filled (take_last (suc n) xs)
      (omega (arith, length-drop (length xs - suc n) xs, has_length xs h))
  where
    has_length : (xs : List A) → has_some xs ≡ true → 0 < length xs
    has_length [] h = absurd (ground arith)
    has_length (x ∷ xs) h = omega arith

    filled : (xs : List A) → 0 < length xs → has_some xs ≡ true
    filled [] h = absurd (omega arith)
    filled (x ∷ xs) h = refl

module _ {F : Type 0} ⦃f : Float F⦄ where
  build_lem :
      (reading : Reading F) (band_bps : F) (meta : Result (Json F)) (book_raw : Json F)
      (asset : String) (bars : List (OhlcBar F)) (bids asks : List (F × F))
      → parse_l2book reading book_raw ≡ ok (bids, asks)
      → has_some bars ≡ true
      → build reading band_bps meta asset (bars, bids, asks)
        ≡ finish_fetch reading band_bps meta (ok book_raw) asset bars
  build_lem reading band_bps meta book_raw asset [] bids asks parsed some_bar =
      absurd (ground arith)
  build_lem reading band_bps (err e) book_raw asset (bar ∷ bars) bids asks parsed some_bar = refl
  build_lem reading band_bps (ok meta_raw) book_raw asset (bar ∷ bars) bids asks parsed some_bar =
      go (parse_ctx reading meta_raw asset)
    where
      go :
          (r : Result (F × F))
          → (r >>= λ ctx. ok (snapshot_of asset band_bps ctx (bids, asks) bar bars)) ≡ (
              r >>= λ ctx. parse_l2book reading book_raw >>= λ levels.
              ok (snapshot_of asset band_bps ctx levels bar bars))
      go (ok ctx) = rw parsed refl
      go (err e) = refl

  -- Reading the cache of a coin gives what fetching over the network gives, be it a snapshot or an
  -- exception, where the cache holds what the parsers make of the service's candles and book and
  -- neither the candles nor a side of the book are empty.
  pub fetch_cached-fetch :
      (reading : Reading F) (band_bps : F) (meta : Result (Json F)) (candles_raw book_raw : Json F)
      (asset : String) (window : ℕ) (feed : Feed F) (cache : CoinCache F)
      → lookup asset feed.caches ≡ some cache
      → parse_candles reading candles_raw ≡ ok cache.bars
      → parse_l2book reading book_raw ≡ ok (cache.bids, cache.asks)
      → has_some cache.bars ≡ true
      → has_book cache ≡ true
      → fetch_cached reading band_bps meta asset window feed
        ≡ fetch reading band_bps (ok candles_raw) meta (ok book_raw) asset window
  unfolding fetch_cached read_cache fetch
  fetch_cached-fetch reading band_bps meta candles_raw book_raw asset window feed cache found parsed
        book some_bar some_book =
      simp (fetch_cached, found, read_cache, some_bar, some_book, parsed)
        (build_lem reading band_bps meta book_raw asset (last_window window cache.bars) cache.bids
          cache.asks book (last_window_lem window cache.bars some_bar))
