-- ===== src/Feed/Ready.antt =====
-- What the readiness of the feed means.
use agora_perp_agent.Prelude.{
  ℕ, String, ◌≡◌, refl, true, false, ◌&&◌, some, List, [], ◌∷◌, arith, ◌==◌, inl, inr, Bool-cases,
}
use agora_perp_agent.Prelude.Errors.{ok}
use agora_perp_agent.Prelude.Dict.{Dict, lookup}
use agora_perp_agent.Float.Ops.{Float}
use agora_perp_agent.Contracts.{MarketData, OhlcBar}
use agora_perp_agent.Contracts.Json.{Json}
use agora_perp_agent.MarketSource.{Reading, snapshot_of, parse_ctx, last_window}
use agora_perp_agent.Feed.{
  CoinCache, Feed, has_some, has_book, all_filled, read_cache, build, fetch_cached, watch_readiness,
}
use agora_perp_agent.Feed.Agreement.{last_window_lem}

module _ {F : Type 0} ⦃f : Float F⦄ where
  filled :
      (coin : String) (cache : CoinCache F) (caches : Dict (CoinCache F))
      → lookup coin caches ≡ some cache
      → all_filled caches ≡ true
      → (has_some cache.bars && has_book cache) ≡ true
  filled coin cache [] found h = absurd (ground arith)
  filled coin cache ((c, first) ∷ caches) found h = elim (Bool-cases (c == coin)) [
    | inl same ↦ ground arith
    | inr other ↦ filled coin cache caches (ground arith) (ground arith)
  ]

  -- When the watcher finds the feed ready, a fetch of any subscribed coin, over any window, returns a
  -- snapshot of that coin, if the exchange's metadata is there and lists the coin.
  pub ready_fetches :
      (reading : Reading F) (band_bps : F) (meta_raw : Json F) (ctx : F × F) (coin : String)
      (cache : CoinCache F) (window : ℕ) (feed : Feed F)
      → feed.ready ≡ false
      → (watch_readiness feed).ready ≡ true
      → lookup coin feed.caches ≡ some cache
      → parse_ctx reading meta_raw coin ≡ ok ctx
      → (m : MarketData F) × (fetch_cached reading band_bps
            (ok meta_raw)
            coin
            window
            (watch_readiness feed)
          ≡ ok m)
        × (m.asset ≡ coin)
  unfolding watch_readiness fetch_cached read_cache
  ready_fetches reading band_bps meta_raw ctx coin cache window feed not_yet ready found listed =
      elim (Bool-cases feed.stopped) [
        | inl over ↦ absurd (ground arith)
        | inr going ↦ elim (Bool-cases (all_filled feed.caches)) [
          | inr lacking ↦ absurd (ground arith)
          | inl full ↦
              let both = filled coin cache feed.caches found full in
              let some_bar : has_some cache.bars ≡ true = ground arith in
              let some_book : has_book cache ≡ true = ground arith in
              simp
                (watch_readiness, going, full, fetch_cached, found, read_cache, some_bar, some_book)
                (built (last_window window cache.bars) (last_window_lem window cache.bars some_bar))
        ]
      ]
    where
      built :
          (bars : List (OhlcBar F))
          → has_some bars ≡ true
          → (m : MarketData F) × (build reading band_bps
                (ok meta_raw)
                coin
                (bars, cache.bids, cache.asks)
              ≡ ok m)
            × (m.asset ≡ coin)
      built [] h = absurd (ground arith)
      built (bar ∷ bars) h =
          (snapshot_of coin band_bps ctx (cache.bids, cache.asks) bar bars, rw listed refl, refl)
