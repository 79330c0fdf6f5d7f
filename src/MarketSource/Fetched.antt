-- ===== src/MarketSource/Fetched.antt =====
-- What a fetched snapshot holds.
use agora_perp_agent.Prelude.{
  ℕ, zero, suc, String, ◌≡◌, ◌≤◌, ◌<◌, ◌⊎◌, List, [], ◌∷◌, ◌++◌, length, length-take_last, arith,
}
use agora_perp_agent.Prelude.Errors.{Result, ok}
use agora_perp_agent.Float.Ops.{Float}
use agora_perp_agent.Contracts.{MarketData, OhlcBar}
use agora_perp_agent.Contracts.Json.{Json}
use agora_perp_agent.MarketSource.{Reading, parse_candles, parse_ctx, last_window}

module _ {F : Type 0} ⦃f : Float F⦄ where
  -- The bars are the last ones, all of them or as many as the window.
  abbrev pub IsEndOf : List (OhlcBar F) → ℕ → List (OhlcBar F) → Type 0
  IsEndOf all window bars =
      (older : List (OhlcBar F)) × (all ≡ older ++ bars)
      × ((older ≡ []) ⊎ (length bars ≡ window))
      × (0 < window → length bars ≤ window)

  -- The snapshot is of the asset; its bars are the last of the candles that were read, all of them or
  -- as many as the window, and it is dated at the one that stands last; its mark price and its
  -- funding rate are those of the asset in the metadata.
  abbrev pub IsSnapshot :
      Reading F → Result (Json F) → Result (Json F) → String → ℕ → MarketData F → Type 0
  IsSnapshot reading candles meta asset window m =
      (m.asset ≡ asset)
      × ((earlier : List (OhlcBar F)) × (last_bar : OhlcBar F) × (m.bars ≡ earlier ++ last_bar ∷ [])
          × (m.timestamp ≡ last_bar.timestamp))
      × ((raw : Json F) × (all : List (OhlcBar F)) × (candles ≡ ok raw)
          × (parse_candles reading raw ≡ ok all)
          × IsEndOf all window m.bars)
      × ((raw : Json F) × (meta ≡ ok raw)
          × (parse_ctx reading raw asset ≡ ok (m.mark_price, m.funding_rate)))

  pub length-last_window :
      (window : ℕ) (xs : List (OhlcBar F)) → 0 < window → length (last_window window xs) ≤ window
  length-last_window zero xs h = absurd (omega arith)
  length-last_window (suc n) xs h = length-take_last (suc n) xs
