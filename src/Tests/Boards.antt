-- ===== src/Tests/Boards.antt =====
-- A board of three assets of which one cannot be fetched, and the cache of the metadata.
use agora_perp_agent.Prelude.{
  String, ◌≡◌, ◌⊎◌, refl, ◌==◌, Option, none, some, [], ◌∷◌, if◌then◌else◌,
}
use agora_perp_agent.Prelude.Errors.{Error, Result, ok, err, http_error}
use agora_perp_agent.Float.Ops.{lit}
use agora_perp_agent.Float.Fixed.{ℤ, fixed, decimal, plus, opposite}
use agora_perp_agent.Contracts.{MarketData}
use agora_perp_agent.Contracts.Json.{Json, leaf, words}
use agora_perp_agent.Prelude.Dict.{lookup}
use agora_perp_agent.MarketSource.Board.{fetch_board, fetch_board_isolates}
use agora_perp_agent.MarketSource.Meta.{warm, meta_of, IsFresh, meta_of_outcome}
use agora_perp_agent.Tests.Data.{market}

abbrev served : String → Result (MarketData ℤ)
served asset = if asset == "ETH" then err http_error else ok (record market { asset = asset })

fetch_board_isolates_example :
    lookup "SOL" (fetch_board served ("BTC" ∷ "ETH" ∷ "SOL" ∷ []))
    ≡ some (record market { asset = "SOL" })
fetch_board_isolates_example = fetch_board_isolates served ("BTC" ∷ "ETH" ∷ "SOL" ∷ []) "SOL"

abbrev old : Json ℤ
old = leaf (words "old")

abbrev fresh : Json ℤ
fresh = leaf (words "fresh")

-- At the time 9 the entry of the time 5 is too old; the other thread has left none.
meta_of_outcome_example :
    ((payload : Json ℤ) × (◌≡◌ {A = Result (Json ℤ)} (ok fresh) (ok payload))
      × (IsFresh (lit 2 0) (lit 9 0) (some (lit 5 0, old)) payload
          ⊎ IsFresh (lit 2 0) (lit 9 0) none payload))
    ⊎ ((◌≡◌ {A = Result (Json ℤ)} (ok fresh) (ok fresh))
        × (warm (lit 2 0) (lit 9 0) (some (lit 5 0, old)) ≡ none)
        × (warm {F = ℤ} (lit 2 0) (lit 9 0) none ≡ none)
        × (((payload : Json ℤ) × (◌≡◌ {A = Result (Json ℤ)} (ok fresh) (ok payload))
              × (◌≡◌ {A = Option (ℤ × Json ℤ)} (some (lit 10 0, fresh)) (some (lit 10 0, payload))))
            ⊎ ((x : Error) × (◌≡◌ {A = Result (Json ℤ)} (ok fresh) (err x))
                × (◌≡◌ {A = Option (ℤ × Json ℤ)} (some (lit 10 0, fresh)) none))))
unfolding meta_of warm decimal plus opposite
meta_of_outcome_example =
    meta_of_outcome (lit 2 0) (lit 9 0) (some (lit 5 0, old)) (lit 9 0) none (ok fresh) (lit 10 0)
      (ok fresh) (some (lit 10 0, fresh)) refl
