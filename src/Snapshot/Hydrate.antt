-- ===== src/Snapshot/Hydrate.antt =====
-- agent/snapshot.py: `hydrate_from_audit_store`. `json.loads` is a parameter, and so is `str`.
use agora_perp_agent.Prelude.{
  String, Bool, true, false, not, ◌&&◌, ◌==◌, Option, none, some, [], ◌∷◌, if◌then◌else◌,
}
use Prim.Native.String.{◌++◌ as ◌+++◌}
use agora_perp_agent.Prelude.Errors.{Result, ok, err, bad_json, attribute_error}
use agora_perp_agent.Float.Ops.{Float}
use agora_perp_agent.Contracts.Json.{
  Scalar, Row, null, words, Json, leaf, array, object, Fields, end, get,
}
use agora_perp_agent.Synthesis.Answer.{truthy}
use agora_perp_agent.Audit.Store.{Table}
use agora_perp_agent.Snapshot.{SnapshotState, record_decision}
use agora_perp_agent.Snapshot.History.{IsKept, record_decision-IsKept}

-- Some row of these has the identifier and the verdict.
abbrev pub comes_again : {T : Type 0} → String → Table T → Bool
comes_again id [] = false
comes_again id (row ∷ rows) =
    if row.verdict == "EXECUTE" && row.audit_id == id then true else comes_again id rows

-- The query: of the rows with the verdict, the last one of each identifier, in the order of the rows.
unfoldable pub distinct_rows : {T : Type 0} → Table T → Table T
distinct_rows [] = []
distinct_rows (row ∷ rows) =
    if row.verdict == "EXECUTE" && not (comes_again row.audit_id rows)
    then row ∷ distinct_rows rows
    else distinct_rows rows

module _ {F : Type 0} ⦃f : Float F⦄ where
  -- A value for a row of the dashboard. One that is a list or a dict, which no record has there, is
  -- read as `None`.
  abbrev pub scalar_of : Option (Json F) → Scalar F
  scalar_of none = null
  scalar_of (some (leaf s)) = s
  scalar_of (some (array items)) = null
  scalar_of (some (object fields)) = null

  -- `rec.get("sized") or {}`, on which `get` is called then.
  abbrev pub sized_fields : Option (Json F) → Result (Fields F)
  sized_fields none = ok end
  sized_fields (some (object fields)) = ok fields
  sized_fields (some (leaf s)) = if truthy (leaf s) then err attribute_error else ok end
  sized_fields (some (array items)) = if truthy (array items) then err attribute_error else ok end

  -- The text of `sized.get(key, "?")` in an f-string.
  abbrev pub shown_text : (Json F → String) → Option (Json F) → String
  shown_text str none = "?"
  shown_text str (some v) = str v

  abbrev pub is_set : Option (Json F) → Bool
  is_set none = false
  is_set (some v) = truthy v

  abbrev pub prior_row : (Json F → String) → Fields F → Fields F → Row F
  prior_row str rec sized =
      let tx_hash = get "arc_tx_hash" rec in
      ("audit_id", scalar_of (get "audit_id" rec))
      ∷ ("decision_id", scalar_of (get "decision_id" rec))
      ∷ ("asset", scalar_of (get "asset" rec))
      ∷ ("side", scalar_of (get "side" rec))
      ∷ ("action", words "open")
      ∷ ("verdict", scalar_of (get "verdict" rec))
      ∷ ("tier", scalar_of (get "tier" sized))
      ∷ (
        "regime",
        words (
            shown_text str (get "regime_trend" sized)
            +++ "·"
            +++ shown_text str (get "regime_vol" sized)
            +++ "·"
            +++ shown_text str (get "regime_funding" sized)),
      )
      ∷ ("leverage", scalar_of (get "leverage" sized))
      ∷ ("stop_price", scalar_of (get "stop_price" sized))
      ∷ ("take_price", scalar_of (get "take_price" sized))
      ∷ ("notional_usd", scalar_of (get "notional_usd" sized))
      ∷ ("qty", scalar_of (get "qty" sized))
      ∷ ("entry_price", null)
      ∷ ("edge_after_cost_bps", null)
      ∷ ("reasoning", scalar_of (get "reasoning" rec))
      ∷ ("decided_at_iso", scalar_of (get "decided_at_iso" rec))
      ∷ ("anchor_state", words (if is_set tx_hash then "complete" else "unknown"))
      ∷ ("arc_tx_hash", scalar_of tx_hash)
      ∷ (
        "arcscan_url",
        if is_set tx_hash
            then words ("https://testnet.arcscan.app/tx/" +++ shown_text str tx_hash)
            else null,
      )
      ∷ []

  -- The row of one record.
  abbrev pub read_prior : (Json F → String) → Option (Json F) → Result (Row F)
  read_prior str none = err bad_json
  read_prior str (some (leaf s)) = err attribute_error
  read_prior str (some (array items)) = err attribute_error
  read_prior str (some (object rec)) = elim (sized_fields (get "sized" rec)) [
    | err e ↦ err e
    | ok sized ↦ ok (prior_row str rec sized)
  ]

  -- The rest of the loop after a row was read.
  abbrev pub replayed :
      (SnapshotState F → Result (Unit {0}) × SnapshotState F)
      → SnapshotState F
      → Result (Row F)
      → Result (Unit {0}) × SnapshotState F
  replayed rest state (err e) = (err e, state)
  replayed rest state (ok entry) = rest (record_decision entry state)

module _ {F T : Type 0} ⦃f : Float F⦄ (loads : T → Option (Json F)) (str : Json F → String) where
  -- The loop over the rows; an exception, which `main` catches, leaves what was done before it.
  unfoldable pub replay : Table T → SnapshotState F → Result (Unit {0}) × SnapshotState F
  replay [] state = (ok tt, state)
  replay (row ∷ rows) state = replayed (replay rows) state (read_prior str (loads row.record_json))

  -- `hydrate_from_audit_store`
  unfoldable pub hydrate_from_audit_store :
      Table T → SnapshotState F → Result (Unit {0}) × SnapshotState F
  unfolding distinct_rows replay
  hydrate_from_audit_store table state = replay (distinct_rows table) state

  replay-IsKept :
      (rows : Table T) (state : SnapshotState F) → IsKept state → IsKept (replay rows state).1
  unfolding replay
  replay-IsKept [] state h = h
  replay-IsKept (row ∷ rows) state h =
      go (replay-IsKept rows) (read_prior str (loads row.record_json))
    where
      go :
          ((state : SnapshotState F) → IsKept state → IsKept (replay rows state).1)
          → (r : Result (Row F)) → IsKept (replayed (replay rows) state r).1
      go later (err e) = h
      go later (ok entry) = later _ (record_decision-IsKept entry state h)

  -- Filling the memory from the store keeps its bounds, and it shows no decision twice, whether the
  -- filling comes to its end or an exception stops it.
  pub hydrate-IsKept :
      (table : Table T) (state : SnapshotState F)
      → IsKept state
      → IsKept (hydrate_from_audit_store table state).1
  unfolding hydrate_from_audit_store
  hydrate-IsKept table state h = replay-IsKept (distinct_rows table) state h
