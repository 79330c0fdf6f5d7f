-- ===== src/Tests/Wallets.antt =====
-- A transaction that is polled twice.
use agora_perp_agent.Prelude.Errors.{Result, ok}
use agora_perp_agent.Float.Fixed.{ℤ, fixed}
use agora_perp_agent.Contracts.Json.{Json, leaf, words, object, Fields, field, end}
use agora_perp_agent.Wallet.Settled.{Settled}

abbrev polled : Fields ℤ → Result (Json ℤ)
polled tx = ok (object (field "data" (object (field "transaction" (object tx) end)) end))

abbrev queued : Result (Json ℤ)
queued = polled (field "state" (leaf (words "QUEUED")) end)

abbrev sent : Result (Json ℤ)
sent = polled (field "state" (leaf (words "SENT")) (field "txHash" (leaf (words "0x1")) end))
