-- ===== src/Feed/Symbols.antt =====
-- core/ws.py: the symbol of a coin on the exchange, and loading the markets with retries. The markets are
-- the exchange's, each with whether it is a swap; which errors speak of a rate limit is a parameter.
use agora_perp_agent.Prelude.{
  ℕ, String, Bool, ◌&&◌, Option, none, some, List, [], ◌∷◌, if◌then◌else◌,
}
use Prim.Native.String.{◌++◌ as ◌+++◌}
use agora_perp_agent.Prelude.Errors.{Error, Result, ok, err, no_symbol}
use agora_perp_agent.Prelude.Dict.{Dict, contains}
use agora_perp_agent.Prelude.Text.{starts_with}
use agora_perp_agent.Float.Ops.{Float, lit, min, ◌*◌}

-- The second loop of `_resolve_symbol`.
abbrev pub first_swap : String → Dict Bool → Result String
first_swap coin [] = err no_symbol
first_swap coin ((symbol, swap) ∷ markets) =
    let rest = first_swap coin markets in
    if starts_with symbol (coin +++ "/") && swap then ok symbol else rest

unfoldable pub resolve_symbol : Dict Bool → String → Result String
resolve_symbol markets coin =
    if contains (coin +++ "/USDC:USDC") markets
    then ok (coin +++ "/USDC:USDC")
    else if contains (coin +++ "/USDT:USDT") markets
    then ok (coin +++ "/USDT:USDT")
    else first_swap coin markets

module _ {F : Type 0} ⦃f : Float F⦄ where
  -- `_load_markets_with_retry` from a delay on, over the attempts that are left, with the last error and
  -- the exchange's answer to each: what it returns or raises, and the delays that it slept.
  unfoldable pub load_from :
      (Error → Bool)
      → (ℕ → Result (Unit {0}))
      → Option Error
      → F
      → List ℕ
      → Result (Unit {0}) × List F
  load_from throttled answers none delay [] = (ok tt, [])
  load_from throttled answers (some e) delay [] = (err e, [])
  load_from throttled answers last_err delay (i ∷ attempts) =
      let again = λ (e : Error).
        load_from throttled answers (some e) (min (delay * lit 16 1) (lit 30 0)) attempts in
      elim (answers i) [
        | ok done ↦ (ok tt, [])
        | err e ↦
            let (r, delays) = again e in if throttled e then (r, delay ∷ delays) else (err e, [])
      ]

  unfoldable pub load_markets :
      (Error → Bool) → (ℕ → Result (Unit {0})) → Result (Unit {0}) × List F
  unfolding load_from
  load_markets throttled answers =
      load_from throttled answers none (lit 2 0) (0 ∷ 1 ∷ 2 ∷ 3 ∷ 4 ∷ 5 ∷ [])
