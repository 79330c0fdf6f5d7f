-- ===== src/Wallet/Settled.antt =====
-- When the polling of a transaction ends, and with what.
use mathlib.Core.Logic.{◌≢◌}
use agora_perp_agent.Prelude.{String, ◌≡◌, ◌⊎◌, true, some, List, [], ◌∷◌, ◌++◌, All}
use agora_perp_agent.Prelude.Errors.{Result, ok}
use agora_perp_agent.Float.Ops.{Float}
use agora_perp_agent.Contracts.Json.{Json, leaf, words, Fields, get}
use agora_perp_agent.Synthesis.Answer.{truthy, as_object}
use agora_perp_agent.MarketSource.{subscript}

module _ {F : Type 0} ⦃f : Float F⦄ where
  abbrev pub in_words : String → Json F
  in_words t = leaf (words t)

  -- The answer is a document whose transaction has these fields.
  abbrev pub Tells : Result (Json F) → Fields F → Type 0
  Tells answer tx =
      (json data_part transaction : Json F) × (answer ≡ ok json)
      × (subscript "data" json ≡ ok data_part)
      × (subscript "transaction" data_part ≡ ok transaction)
      × (as_object transaction ≡ ok tx)

  -- The transaction is carried out, or it is sent and its hash is known.
  abbrev pub IsFinal : Fields F → Json F × Json F → Type 0
  IsFinal tx (state, tx_hash) =
      (get "state" tx ≡ some state)
      × ((state ≡ in_words "CONFIRMED")
          ⊎ (state ≡ in_words "COMPLETE")
          ⊎ ((state ≡ in_words "SENT") × (truthy tx_hash ≡ true)))

  -- None of the states that end the polling whatever the hash.
  abbrev pub IsGoingOn : Json F → Type 0
  IsGoingOn state =
      (state ≢ in_words "CONFIRMED")
      × (state ≢ in_words "COMPLETE")
      × (state ≢ in_words "FAILED")
      × (state ≢ in_words "DENIED")
      × (state ≢ in_words "CANCELLED")

  -- An answer that settles nothing.
  abbrev pub IsOpen : Result (Json F) → Type 0
  IsOpen answer =
      (tx : Fields F) × Tells answer tx
      × ((state : Json F) → get "state" tx ≡ some state → IsGoingOn state)

  -- One of the answers has the hash.
  abbrev pub IsTold : Json F → List (Result (Json F)) → Type 0
  IsTold tx_hash [] = ⊥
  IsTold tx_hash (answer ∷ answers) =
      ((tx : Fields F) × Tells answer tx × (get "txHash" tx ≡ some tx_hash))
      ⊎ IsTold tx_hash answers

  -- The polling ended at an answer that is final, and those before it are open; or all are.
  abbrev pub Settled : Json F → List (Result (Json F)) → Json F × Json F → Type 0
  Settled last_hash answers (state, tx_hash) =
      ((earlier later : List (Result (Json F))) × (answer : Result (Json F)) × (tx : Fields F)
        × (answers ≡ earlier ++ answer ∷ later)
        × All IsOpen earlier
        × Tells answer tx
        × IsFinal tx (state, tx_hash)
        × ((tx_hash ≡ last_hash) ⊎ IsTold tx_hash (earlier ++ answer ∷ [])))
      ⊎ (All IsOpen answers × ((tx_hash ≡ last_hash) ⊎ IsTold tx_hash answers))
