-- ===== src/MarketSource.antt =====
-- core/data.py: `HyperliquidSource`, from the responses of the service to a snapshot. What is not of
-- the program is a parameter: `float`, the conversion of a time in milliseconds, and the responses.
pub mod Fetched
pub mod Board
pub mod Csv
pub mod Meta
use Prim.Native.Nat.{◌+◌ as ◌+ℕ◌}
use agora_perp_agent.Prelude.{
  ℕ, zero, suc, String, Bool, true, false, ◌==◌, ◌&&◌, ◌||◌, Option, none, some, List, [], ◌∷◌, map,
  if◌then◌else◌, ltb, leb, take_last,
}
use agora_perp_agent.Prelude.Errors.{
  Error, Result, ok, err, ◌>>=◌, key_error, type_error, index_error, bad_payload, unknown_asset,
  no_candles, unreachable,
}
use agora_perp_agent.Float.Ops.{Float, lit, zero as none_left, sum, ◌+◌, ◌-◌, ◌*◌, ◌/◌, ◌<=?◌}
use agora_perp_agent.Contracts.{MarketData, OhlcBar}
use agora_perp_agent.Contracts.Json.{
  Json, leaf, array, object, Items, nil, item, Fields, get, words,
}
use agora_perp_agent.Synthesis.Answer.{iterate, items_of}

pub record Reading (F : Type 0) : Type 0 where
  pub float_of : Json F → Result F
  pub time_of : Json F → Result ℕ

pub record Response (F : Type 0) : Type 0 where
  pub status : ℕ
  -- what `raise_for_status` and then `json` give
  pub content : Result (Json F)

abbrev pub is_throttled : ℕ → Bool
is_throttled status = leb status 429 && leb 429 status

-- `_post` with what the service answers to each request, over the attempts that are left of
-- `range(3)`.
unfoldable pub post_from : {F : Type 0} → (ℕ → Result (Response F)) → List ℕ → Result (Json F)
post_from answers [] = err unreachable
post_from answers (attempt ∷ attempts) =
    let again = post_from answers attempts in
    answers attempt >>= λ resp.
    if is_throttled resp.status && ltb attempt 2 then again else resp.content

unfoldable pub post : {F : Type 0} → (ℕ → Result (Response F)) → Result (Json F)
unfolding post_from
post answers = post_from answers (0 ∷ 1 ∷ 2 ∷ [])

-- `map` with exceptions.
abbrev pub traverse : {A B : Type 0} → (A → Result B) → List A → Result (List B)
traverse g [] = ok []
traverse g (x ∷ xs) = g x >>= λ y. traverse g xs >>= λ ys. ok (y ∷ ys)

-- `xs[-window:]`: a window of 0 keeps all.
abbrev pub last_window : {A : Type 0} → ℕ → List A → List A
last_window zero xs = xs
last_window (suc n) xs = take_last (suc n) xs

module _ {F : Type 0} where
  -- `v[key]`
  abbrev pub subscript : String → Json F → Result (Json F)
  subscript key (object fields) = elim (get key fields) [ none ↦ err key_error | some v ↦ ok v ]
  subscript key (array items) = err type_error
  subscript key (leaf s) = err type_error

  abbrev pub nth : ℕ → List (Json F) → Result (Json F)
  nth n [] = err index_error
  nth zero (j ∷ js) = ok j
  nth (suc n) (j ∷ js) = nth n js

  -- `v[idx]`; a text gives a character, on which the next subscript raises `TypeError` as well.
  abbrev pub at_index : ℕ → Json F → Result (Json F)
  at_index n (array items) = nth n (items_of items)
  at_index n (object fields) = err key_error
  at_index n (leaf s) = err type_error

  abbrev pub is_named : String → Json F → Bool
  is_named asset (leaf (words t)) = t == asset
  is_named asset _ = false

module _ {F : Type 0} (reading : Reading F) where
  unfoldable pub parse_candle : Json F → Result (OhlcBar F)
  parse_candle c = do
    t ← subscript "t" c
    timestamp ← reading.time_of t
    o ← subscript "o" c
    opening ← reading.float_of o
    h ← subscript "h" c
    high ← reading.float_of h
    l ← subscript "l" c
    low ← reading.float_of l
    x ← subscript "c" c
    close ← reading.float_of x
    v ← subscript "v" c
    volume ← reading.float_of v
    ok (record {
      timestamp = timestamp;
      opening = opening;
      high = high;
      low = low;
      close = close;
      volume = volume;
    })

  unfoldable pub parse_candles : Json F → Result (List (OhlcBar F))
  unfolding parse_candle
  parse_candles (array items) = traverse parse_candle (items_of items)
  parse_candles (object fields) = err bad_payload
  parse_candles (leaf s) = err bad_payload

  abbrev pub read_ctx : Json F → Result (F × F)
  read_ctx ctx = do
    m ← subscript "markPx" ctx
    mark ← reading.float_of m
    r ← subscript "funding" ctx
    funding ← reading.float_of r
    ok (mark, funding)

  -- The loop over the universe, from an index.
  unfoldable pub find_ctx : String → Json F → ℕ → List (Json F) → Result (F × F)
  find_ctx asset ctxs idx [] = err unknown_asset
  find_ctx asset ctxs idx (entry ∷ entries) =
      let rest = find_ctx asset ctxs (idx +ℕ 1) entries in
      subscript "name" entry >>= λ name.
      if is_named asset name then at_index idx ctxs >>= read_ctx else rest

  unfoldable pub parse_ctx : Json F → String → Result (F × F)
  unfolding find_ctx
  parse_ctx (array (item meta (item ctxs nil))) asset = do
    universe ← subscript "universe" meta
    entries ← iterate universe
    find_ctx asset ctxs 0 entries
  parse_ctx _ asset = err bad_payload

  abbrev pub parse_level : Json F → Result (F × F)
  parse_level lv = do
    p ← subscript "px" lv
    px ← reading.float_of p
    s ← subscript "sz" lv
    sz ← reading.float_of s
    ok (px, sz)

  abbrev pub parse_side : Json F → Result (List (F × F))
  parse_side raw = iterate raw >>= traverse parse_level

  abbrev pub parse_levels : Option (Json F) → Result (List (F × F) × List (F × F))
  parse_levels (some (array (item bids_raw (item asks_raw nil)))) = do
    bids ← parse_side bids_raw
    asks ← parse_side asks_raw
    ok (bids, asks)
  parse_levels _ = err bad_payload

  unfoldable pub parse_l2book : Json F → Result (List (F × F) × List (F × F))
  parse_l2book (object fields) = parse_levels (get "levels" fields)
  parse_l2book (array items) = err bad_payload
  parse_l2book (leaf s) = err bad_payload

module _ {F : Type 0} ⦃f : Float F⦄ where
  -- The notional of the levels whose distance is within the band.
  abbrev pub within : (F → F) → F → List (F × F) → List F
  within distance band [] = []
  within distance band ((px, sz) ∷ levels) =
      let rest = within distance band levels in
      if distance px <=? band then px * sz ∷ rest else rest

  unfoldable pub compute_depth : List (F × F) → List (F × F) → F → F → F
  compute_depth bids asks mid band_bps =
      if (mid <=? none_left) || (band_bps <=? none_left)
      then none_left
      else let band = mid * band_bps / lit 10000 0 in
        lit 5 1
        * (sum (within (λ px. mid - px) band bids) + sum (within (λ px. px - mid) band asks))

  abbrev pub mid_of : F → List (F × F) → List (F × F) → F
  mid_of mark (bid ∷ bids) (ask ∷ asks) = lit 5 1 * (bid.0 + ask.0)
  mid_of mark (bid ∷ bids) [] = mark
  mid_of mark [] asks = mark

  abbrev pub last_timestamp : OhlcBar F → List (OhlcBar F) → ℕ
  last_timestamp bar [] = bar.timestamp
  last_timestamp bar (next ∷ bars) = last_timestamp next bars

  -- The snapshot of the bars that are left of the candles.
  abbrev pub snapshot_of :
      String → F → F × F → List (F × F) × List (F × F) → OhlcBar F → List (OhlcBar F) → MarketData F
  snapshot_of asset band_bps (mark, funding) (bids, asks) bar bars = record {
    asset = asset;
    timestamp = last_timestamp bar bars;
    mark_price = mark;
    funding_rate = funding;
    bars = bar ∷ bars;
    book_depth = some (compute_depth bids asks (mid_of mark bids asks) band_bps);
  }

  abbrev pub finish_fetch :
      Reading F
      → F
      → Result (Json F)
      → Result (Json F)
      → String
      → List (OhlcBar F)
      → Result (MarketData F)
  finish_fetch reading band_bps meta book asset [] = err no_candles
  finish_fetch reading band_bps meta book asset (bar ∷ bars) = do
    meta_raw ← meta
    ctx ← parse_ctx reading meta_raw asset
    book_raw ← book
    levels ← parse_l2book reading book_raw
    ok (snapshot_of asset band_bps ctx levels bar bars)

  -- `fetch`, with what its three calls of `_post` and `_meta` return.
  unfoldable pub fetch :
      Reading F
      → F
      → Result (Json F)
      → Result (Json F)
      → Result (Json F)
      → String
      → ℕ
      → Result (MarketData F)
  fetch reading band_bps candles meta book asset window = do
    candles_raw ← candles
    bars ← parse_candles reading candles_raw
    finish_fetch reading band_bps meta book asset (last_window window bars)
