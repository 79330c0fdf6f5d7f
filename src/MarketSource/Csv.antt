-- ===== src/MarketSource/Csv.antt =====
-- core/data.py: `CsvSource`. The rows are those of `csv.DictReader`; the parsers of numbers and of times
-- are parameters, as is what stands on the disk.
use agora_perp_agent.Prelude.{
  ℕ, String, ◌≡◌, ◌≤◌, ◌<◌, ◌==◌, refl, Option, none, some, List, [], ◌∷◌, ◌++◌, if◌then◌else◌,
  length,
}
use agora_perp_agent.Prelude.Errors.{
  Result, ok, err, ◌>>=◌, Returns, bind-Returns, key_error, type_error, no_csv_path, csv_missing,
  csv_empty,
}
use agora_perp_agent.Prelude.Dict.{Dict, lookup}
use agora_perp_agent.Float.Ops.{Float, zero as nothing}
use agora_perp_agent.Contracts.{MarketData, OhlcBar}
use agora_perp_agent.MarketSource.{last_window}
use agora_perp_agent.MarketSource.Fetched.{length-last_window}

pub record CsvReading (F : Type 0) : Type 0 where
  pub float_of : String → Result F
  pub fromisoformat : String → Result ℕ

abbrev pub CsvRow : Type 0
CsvRow = Dict (Option String)

module _ {F : Type 0} (reading : CsvReading F) where
  -- `row[key]`; a cell that a short row lacks is `None`, on which the parsers raise.
  abbrev pub cell : String → CsvRow → Result String
  cell key row = elim (lookup key row) [
    | none ↦ err key_error
    | some none ↦ err type_error
    | some (some t) ↦ ok t
  ]

  abbrev pub csv_bar : CsvRow → Result (OhlcBar F)
  csv_bar row = do
    t ← cell "timestamp" row
    timestamp ← reading.fromisoformat t
    o ← cell "open" row
    opening ← reading.float_of o
    h ← cell "high" row
    high ← reading.float_of h
    l ← cell "low" row
    low ← reading.float_of l
    c ← cell "close" row
    close ← reading.float_of c
    v ← cell "volume" row
    volume ← reading.float_of v
    ok (record {
      timestamp = timestamp;
      opening = opening;
      high = high;
      low = low;
      close = close;
      volume = volume;
    })

  -- The funding after a row: that of its cell, unless it is missing or empty.
  abbrev pub next_funding : F → Option (Option String) → Result F
  next_funding funding none = ok funding
  next_funding funding (some none) = ok funding
  next_funding funding (some (some t)) = if t == "" then ok funding else reading.float_of t

  -- The loop over the rows, from the bars and the funding so far.
  unfoldable pub read_rows : List (OhlcBar F) → F → List CsvRow → Result (List (OhlcBar F) × F)
  read_rows bars funding [] = ok (bars, funding)
  read_rows bars funding (row ∷ rows) = csv_bar row >>= λ bar.
      next_funding funding (lookup "funding" row) >>= λ funding'.
      read_rows (bars ++ bar ∷ []) funding' rows

module _ {F : Type 0} ⦃f : Float F⦄ where
  abbrev pub last_bar : OhlcBar F → List (OhlcBar F) → OhlcBar F
  last_bar bar [] = bar
  last_bar bar (next ∷ bars) = last_bar next bars

  abbrev pub csv_snapshot : String → F → List (OhlcBar F) → Result (MarketData F)
  csv_snapshot asset funding [] = err csv_empty
  csv_snapshot asset funding (bar ∷ bars) =
      let last = last_bar bar bars in
      ok (record {
        asset = asset;
        timestamp = last.timestamp;
        mark_price = last.close;
        funding_rate = funding;
        bars = bar ∷ bars;
        book_depth = none;
      })

  -- `fetch`, on the configured paths and what the disk has under each.
  unfoldable pub csv_fetch :
      CsvReading F
      → Dict String
      → (String → Option (List CsvRow))
      → String
      → ℕ
      → Result (MarketData F)
  unfolding read_rows
  csv_fetch reading paths disk asset window = elim (lookup asset paths) [
    | none ↦ err no_csv_path
    | some path ↦ elim (disk path) [
      | none ↦ err csv_missing
      | some rows ↦ read_rows reading [] nothing rows >>= λ (bars, funding).
          csv_snapshot asset funding (last_window window bars)
    ]
  ]

  -- A snapshot of the files: of the asset, with a bar, dated and marked at its last bar, and with no
  -- more bars than a window that is not 0.
  abbrev pub IsReplay : String → ℕ → MarketData F → Type 0
  IsReplay asset window m =
      (m.asset ≡ asset)
      × ((bar : OhlcBar F) × (bars : List (OhlcBar F)) × (m.bars ≡ bar ∷ bars)
          × (m.timestamp ≡ (last_bar bar bars).timestamp)
          × (m.mark_price ≡ (last_bar bar bars).close))
      × (0 < window → length m.bars ≤ window)
      × (m.book_depth ≡ none)

  csv_snapshot-Returns :
      (asset : String) (window : ℕ) (funding : F) (bars : List (OhlcBar F))
      → (0 < window → length bars ≤ window)
      → Returns (IsReplay asset window) (csv_snapshot asset funding bars)
  csv_snapshot-Returns asset window funding [] h = tt
  csv_snapshot-Returns asset window funding (bar ∷ bars) h =
      (refl, (bar, bars, refl, refl, refl), h, refl)

  -- A replay that returns gives a snapshot of the asset with at least one bar, dated and marked at the
  -- last one, without a depth, and with no more bars than the window, unless the window is 0.
  pub csv_fetch-IsReplay :
      (reading : CsvReading F) (paths : Dict String) (disk : String → Option (List CsvRow))
      (asset : String) (window : ℕ)
      → Returns (IsReplay asset window) (csv_fetch reading paths disk asset window)
  unfolding csv_fetch
  csv_fetch-IsReplay reading paths disk asset window = go (lookup asset paths)
    where
      found :
          (rows : Option (List CsvRow))
          → Returns (IsReplay asset window) (elim rows [
            | none ↦ err csv_missing
            | some rows ↦ read_rows reading [] nothing rows >>= λ (bars, funding).
                csv_snapshot asset funding (last_window window bars)
          ])
      found none = tt
      found (some rows) = bind-Returns _ (read_rows reading [] nothing rows) _ (λ (bars, funding) _.
          csv_snapshot-Returns asset window funding (last_window window bars)
            (length-last_window window bars))

      go :
          (path : Option String)
          → Returns (IsReplay asset window) (elim path [
            | none ↦ err no_csv_path
            | some path ↦ elim (disk path) [
              | none ↦ err csv_missing
              | some rows ↦ read_rows reading [] nothing rows >>= λ (bars, funding).
                  csv_snapshot asset funding (last_window window bars)
            ]
          ])
      go none = tt
      go (some path) = found (disk path)
