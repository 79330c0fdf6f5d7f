-- ===== src/Tests/Fetches.antt =====
-- A snapshot of two candles, a universe of one asset and a book of one level a side.
use agora_perp_agent.Prelude.{◌≡◌, refl, List, [], ◌∷◌, String, if◌then◌else◌, leb}
use agora_perp_agent.Prelude.Errors.{ok, err, http_error}
use agora_perp_agent.Float.Ops.{lit}
use agora_perp_agent.Float.Fixed.{ℤ, fixed}
use agora_perp_agent.Contracts.Json.{
  Json, leaf, array, object, nil, item, Fields, end, field, words,
}
use agora_perp_agent.MarketSource.{Reading, post, post_from, Response}

abbrev pub reading : Reading ℤ
reading = record { float_of = λ j. ok (lit 2 0); time_of = λ j. ok 60_000 }

abbrev fields_at : List String → Fields ℤ
fields_at [] = end
fields_at (k ∷ ks) = field k (leaf (words "2")) (fields_at ks)

abbrev texts_at : List String → Json ℤ
texts_at ks = object (fields_at ks)

abbrev candle : Json ℤ
candle = texts_at ("t" ∷ "o" ∷ "h" ∷ "l" ∷ "c" ∷ "v" ∷ [])

abbrev pub candles : Json ℤ
candles = array (item candle (item candle nil))

abbrev pub meta : Json ℤ
meta = array (
    item
      (object
        (field "universe" (array (item (object (field "name" (leaf (words "BTC")) end)) nil)) end))
      (item (array (item (texts_at ("markPx" ∷ "funding" ∷ [])) nil)) nil))

abbrev pub book : Json ℤ
book =
    let side = array (item (texts_at ("px" ∷ "sz" ∷ [])) nil) in
    object (field "levels" (array (item side (item side nil))) end)

abbrev throttled : Response ℤ
throttled = record { status = 429; content = err http_error }

abbrev answered : Response ℤ
answered = record { status = 200; content = ok book }

-- Throttled once, and then answered.
retried : post (λ attempt. if leb attempt 0 then ok throttled else ok answered) ≡ ok book
unfolding post post_from
retried = refl
