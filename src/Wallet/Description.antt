-- ===== src/Wallet/Description.antt =====
-- agent/on_chain.py: `_build_description`, `_compact` and `anchor_record`. Formatting numbers and slicing
-- texts are parameters.
use agora_perp_agent.Prelude.{
  ℕ, String, ◌==◌, Option, none, some, List, [], ◌∷◌, ◌++◌, if◌then◌else◌,
}
use Prim.Native.String.{◌++◌ as ◌+++◌}
use agora_perp_agent.Prelude.Errors.{Result, ok, err, ◌>>=◌, type_error}
use agora_perp_agent.Prelude.Dict.{Dict, lookup}
use agora_perp_agent.Float.Ops.{Float}
use agora_perp_agent.Contracts.Json.{Json, leaf, Fields, end, null, words, get}
use agora_perp_agent.Synthesis.Answer.{truthy, as_object}
use agora_perp_agent.Audit.Record.{Codec, AuditRecord, anchor_hash}
use agora_perp_agent.MarketSource.{Response}
use agora_perp_agent.Wallet.{AnchorResult, anchor_described}

pub record Wording (F : Type 0) : Type 0 where
  -- `f"{value:.nf}"`, which raises for what is not a number
  pub fixed : ℕ → Json F → Result String
  -- `str(value)`
  pub str : Json F → String
  -- `text[:n]`
  pub first : ℕ → String → String

-- `_REGIME_SHORT`
abbrev pub regime_short : Dict String
regime_short =
    ("UP", "UP")
    ∷ ("DOWN", "DN")
    ∷ ("RANGE", "RG")
    ∷ ("COMPRESSED", "CMP")
    ∷ ("NORMAL", "NRM")
    ∷ ("EXPANDED", "EXP")
    ∷ ("CRISIS", "CRI")
    ∷ ("NEUTRAL", "NEU")
    ∷ ("BULL_BIAS", "B+")
    ∷ ("BEAR_BIAS", "B-")
    ∷ ("EXTREME_POS", "E+")
    ∷ ("EXTREME_NEG", "E-")
    ∷ []

-- `" · ".join(parts)`
abbrev pub joined : List String → String
joined [] = ""
joined (part ∷ []) = part
joined (part ∷ next ∷ parts) = part +++ " · " +++ joined (next ∷ parts)

module _ {F : Type 0} ⦃f : Float F⦄ (wording : Wording F) where
  -- `_compact`; what is not a text has no slice that is a key.
  abbrev pub compact : Json F → Result String
  compact (leaf (words label)) = elim (lookup label regime_short) [
    | none ↦ ok (wording.first 4 label)
    | some short ↦ ok short
  ]
  compact j = err type_error

  -- `value is not None`, of what `get` returned
  abbrev pub present : Option (Json F) → Option (Json F)
  present none = none
  present (some (leaf null)) = none
  present (some v) = some v

  abbrev pub set_value : Option (Json F) → Option (Json F)
  set_value none = none
  set_value (some v) = if truthy v then some v else none

  -- `record.sized or {}`
  abbrev pub sized_dict : Json F → Result (Fields F)
  sized_dict sized = if truthy sized then as_object sized else ok end

  abbrev pub side_label : Option String → String
  side_label none = "?"
  side_label (some side) = if side == "" then "?" else side

  abbrev pub trade_part : String → String → Option (Json F) → Option (Json F) → Result String
  trade_part asset side (some qty) (some leverage) = do
    q ← wording.fixed 4 qty
    l ← wording.fixed 1 leverage
    ok (asset +++ " " +++ side +++ " " +++ q +++ " @ " +++ l +++ "x")
  trade_part asset side none leverage = ok (asset +++ " " +++ side)
  trade_part asset side (some qty) none = ok (asset +++ " " +++ side)

  abbrev pub notional_part : Option (Json F) → Result (List String)
  notional_part none = ok []
  notional_part (some notional) =
      wording.fixed 0 notional >>= λ n. ok (("$" +++ n +++ " notional") ∷ [])

  abbrev pub levels_part : Option (Json F) → Option (Json F) → Result (List String)
  levels_part (some stop) (some take) = do
    s ← wording.fixed 4 stop
    t ← wording.fixed 4 take
    ok (("stop $" +++ s +++ " take $" +++ t) ∷ [])
  levels_part none take = ok []
  levels_part (some stop) none = ok []

  abbrev pub tier_part : Option (Json F) → List String
  tier_part none = []
  tier_part (some tier) = ("tier " +++ wording.str tier) ∷ []

  abbrev pub regime_part :
      Option (Json F) → Option (Json F) → Option (Json F) → Result (List String)
  regime_part (some trend) (some vol) (some fund) = do
    t ← compact trend
    v ← compact vol
    n ← compact fund
    ok (("regime " +++ t +++ "/" +++ v +++ "/" +++ n) ∷ [])
  regime_part (some trend) (some vol) none = ok []
  regime_part (some trend) none fund = ok []
  regime_part none vol fund = ok []

  -- `_build_description`
  unfoldable pub build_description : AuditRecord F → String → Result String
  build_description r hash_hex = do
    sized ← sized_dict r.sized
    trade ←
        trade_part r.asset (side_label r.side) (present (get "qty" sized))
          (present (get "leverage" sized))
    notional ← notional_part (present (get "notional_usd" sized))
    levels ← levels_part (present (get "stop_price" sized)) (present (get "take_price" sized))
    regime ←
        regime_part (set_value (get "regime_trend" sized)) (set_value (get "regime_vol" sized))
          (set_value (get "regime_funding" sized))
    ok (
        joined (
          "agora-perp-agent" ∷ trade ∷ notional
          ++ levels
          ++ tier_part (set_value (get "tier" sized))
          ++ regime
          ++ (("audit " +++ wording.first 8 r.audit_id) ∷ ("keccak " +++ hash_hex) ∷ [])))

module _ {F T : Type 0} ⦃f : Float F⦄ (codec : Codec F T) (wording : Wording F) where
  -- `anchor_record`, with the service's answers to the request and to the polls.
  unfoldable pub anchor_record :
      Result (Response F)
      → (Json F → List (Result (Json F)))
      → AuditRecord F
      → Result (AnchorResult F)
  unfolding anchor_described build_description
  anchor_record posted polls r = do
    description ← build_description wording r ("0x" +++ anchor_hash codec r)
    anchor_described wording.str posted polls description ("0x" +++ anchor_hash codec r)
