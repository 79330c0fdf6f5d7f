-- ===== src/Feed/Stale.antt =====
-- A row of candles that cannot be converted ends the refreshing of its coin for good.
use agora_perp_agent.Prelude.{
  ℕ, String, ◌≡◌, ◌⊎◌, subst, refl, sym, ◌∙◌, true, false, ◌==◌, eq_iff, eq_refl, Option, none,
  some, List, [], ◌∷◌, arith, inl, inr, Bool-cases, Option-cases,
}
use agora_perp_agent.Prelude.Errors.{Error, Result, ok, err, ◌>>=◌}
use agora_perp_agent.Prelude.Dict.{lookup, lookup-insert}
use agora_perp_agent.Contracts.{OhlcBar}
use agora_perp_agent.Contracts.Json.{Json, Fields}
use agora_perp_agent.Synthesis.Answer.{iterate}
use agora_perp_agent.MarketSource.{Reading, traverse}
use agora_perp_agent.Feed.{
  Feed, FeedEvent, book_pushed, ohlcv_polled, readiness_checked, feed_closed, is_among, read_side,
  read_bar, with_book, with_bars, write_cache, watch_book, poll_ohlcv, watch_readiness, close_feed,
  feed_step, feed_steps,
}

module _ {F : Type 0} where
  -- The bars of a coin, if it has a cache.
  abbrev pub bars_at : String → Feed F → Option (List (OhlcBar F))
  bars_at coin feed = elim (lookup coin feed.caches) [ none ↦ none | some c ↦ some c.bars ]

  -- The coin's task has ended and its bars are these.
  abbrev pub IsStuck : String → Option (List (OhlcBar F)) → Feed F → Type 0
  IsStuck coin bars feed = (is_among coin feed.crashed ≡ true) × (bars_at coin feed ≡ bars)

  book_bars :
      (sides : List (F × F) × List (F × F)) (c coin : String) (feed : Feed F)
      → bars_at coin (write_cache c (with_book sides) feed) ≡ bars_at coin feed
  book_bars sides c coin feed = elim (Option-cases (lookup c feed.caches)) [
    | inl missing ↦ rw (write_cache, missing) refl
    | inr (cache, found) ↦
        ground (arith, eq_iff c coin, lookup-insert c coin (with_book sides cache) feed.caches)
  ]

  other_bars :
      (bars : List (OhlcBar F)) (now : ℕ) (c coin : String) (feed : Feed F)
      → (c == coin) ≡ false
      → bars_at coin (write_cache c (with_bars bars now) feed) ≡ bars_at coin feed
  other_bars bars now c coin feed other = elim (Option-cases (lookup c feed.caches)) [
    | inl missing ↦ rw (write_cache, missing) refl
    | inr (cache, found) ↦
        ground (arith, other, lookup-insert c coin (with_bars bars now cache) feed.caches)
  ]

  book_crashed :
      (sides : List (F × F) × List (F × F)) (c coin : String) (feed : Feed F)
      → is_among coin feed.crashed ≡ true
      → is_among coin (write_cache c (with_book sides) feed).crashed ≡ true
  book_crashed sides c coin feed ended = elim (Option-cases (lookup c feed.caches)) [
    | inl missing ↦ rw (write_cache, missing) ended
    | inr (cache, found) ↦ rw (write_cache, found) ended
  ]

  bars_crashed :
      (bars : List (OhlcBar F)) (now : ℕ) (c coin : String) (feed : Feed F)
      → is_among coin feed.crashed ≡ true
      → is_among coin (write_cache c (with_bars bars now) feed).crashed ≡ true
  bars_crashed bars now c coin feed ended = elim (Option-cases (lookup c feed.caches)) [
    | inl missing ↦ rw (write_cache, missing) ended
    | inr (cache, found) ↦ rw (write_cache, found) ended
  ]

module _ {F : Type 0} (reading : Reading F) where
  watch_book-IsStuck :
      (c coin : String) (answer : Result (Fields F)) (bars : Option (List (OhlcBar F)))
      (feed : Feed F)
      → IsStuck coin bars feed
      → IsStuck coin bars (watch_book reading c answer feed)
  unfolding watch_book
  watch_book-IsStuck c coin answer bars feed (ended, same) = elim (Bool-cases feed.stopped) [
    | inl over ↦ simp (watch_book, over) (ended, same)
    | inr going ↦ simp (watch_book, going) (go levels)
  ]
    where
      levels : Result (List (F × F) × List (F × F))
      levels = answer >>= λ ob. read_side reading "bids" ob >>= λ bids.
          read_side reading "asks" ob >>= λ asks. ok (bids, asks)

      go :
          (r : Result (List (F × F) × List (F × F)))
          → IsStuck coin bars
              (elim r [ err e ↦ feed | ok sides ↦ write_cache c (with_book sides) feed ])
      go (err e) = (ended, same)
      go (ok sides) = (book_crashed sides c coin feed ended, book_bars sides c coin feed ∙ same)

  poll_ohlcv-IsStuck :
      (c coin : String) (answer : Result (Json F)) (now : ℕ) (bars : Option (List (OhlcBar F)))
      (feed : Feed F)
      → IsStuck coin bars feed
      → IsStuck coin bars (poll_ohlcv reading c answer now feed)
  unfolding poll_ohlcv
  poll_ohlcv-IsStuck c coin answer now bars feed (ended, same) = elim (Bool-cases feed.stopped) [
    | inl over ↦ simp (poll_ohlcv, over) (ended, same)
    | inr going ↦ elim (Bool-cases (is_among c feed.crashed)) [
      | inl crashed ↦ simp (poll_ohlcv, going, crashed) (ended, same)
      | inr alive ↦
          simp (poll_ohlcv, going, alive) (go answer (other alive (Bool-cases (c == coin))))
    ]
  ]
    where
      other :
          is_among c feed.crashed ≡ false
          → ((c == coin) ≡ true) ⊎ ((c == coin) ≡ false)
          → (c == coin) ≡ false
      other alive (inl equal) = absurd (
          let together : is_among c feed.crashed ≡ true =
            subst (λ t. is_among t feed.crashed ≡ true) (sym ((eq_iff c coin).0 equal)) ended in
          ground arith)
      other alive (inr differs) = differs

      polled :
          (c == coin) ≡ false
          → (r : Result (List (OhlcBar F)))
          → IsStuck coin bars (elim r [
            | err e ↦ record feed { crashed = c ∷ feed.crashed }
            | ok rows ↦ write_cache c (with_bars rows now) feed
          ])
      polled differs (err e) = (ground arith, same)
      polled differs (ok rows) =
          (bars_crashed rows now c coin feed ended, other_bars rows now c coin feed differs ∙ same)

      go :
          (answer : Result (Json F))
          → (c == coin) ≡ false
          → IsStuck coin bars (elim answer [
            | err e ↦ feed
            | ok ohlcv ↦ elim (iterate ohlcv >>= traverse (read_bar reading)) [
              | err e ↦ record feed { crashed = c ∷ feed.crashed }
              | ok rows ↦ write_cache c (with_bars rows now) feed
            ]
          ])
      go (err e) differs = (ended, same)
      go (ok ohlcv) differs = polled differs (iterate ohlcv >>= traverse (read_bar reading))

  step-IsStuck :
      (coin : String) (bars : Option (List (OhlcBar F))) (e : FeedEvent F) (feed : Feed F)
      → IsStuck coin bars feed
      → IsStuck coin bars (feed_step reading e feed)
  unfolding feed_step watch_readiness close_feed
  step-IsStuck coin bars (book_pushed c answer) feed h =
      watch_book-IsStuck c coin answer bars feed h
  step-IsStuck coin bars (ohlcv_polled c answer now) feed h =
      poll_ohlcv-IsStuck c coin answer now bars feed h
  step-IsStuck coin bars readiness_checked feed (ended, same) = ground arith
  step-IsStuck coin bars feed_closed feed (ended, same) = (ended, same)

  steps-IsStuck :
      (coin : String) (bars : Option (List (OhlcBar F))) (es : List (FeedEvent F)) (feed : Feed F)
      → IsStuck coin bars feed
      → IsStuck coin bars (feed_steps reading es feed)
  unfolding feed_steps
  steps-IsStuck coin bars [] feed h = h
  steps-IsStuck coin bars (e ∷ es) feed h =
      steps-IsStuck coin bars es (feed_step reading e feed) (step-IsStuck coin bars e feed h)

  -- Once the exchange has answered a coin's poll with candles of which one cannot be converted, the
  -- cached candles of that coin never change again, whatever the later polls answer: `fetch` goes on
  -- with those that it had.
  pub stale_for_good :
      (coin : String) (ohlcv : Json F) (x : Error) (now : ℕ) (feed : Feed F)
      (es : List (FeedEvent F))
      → feed.stopped ≡ false
      → (iterate ohlcv >>= traverse (read_bar reading)) ≡ err x
      → bars_at coin (feed_steps reading es (poll_ohlcv reading coin (ok ohlcv) now feed))
        ≡ bars_at coin feed
  unfolding poll_ohlcv
  stale_for_good coin ohlcv x now feed es going broken =
      (steps-IsStuck coin (bars_at coin feed) es _ (elim (Bool-cases (is_among coin feed.crashed)) [
        | inl already ↦ simp (poll_ohlcv, going, already) (refl, refl)
        | inr alive ↦ simp (poll_ohlcv, going, alive, broken) (ground (arith, eq_refl coin), refl)
      ])).1
