-- ===== src/Snapshot/Document.antt =====
-- agent/snapshot.py: `_serialise_positions` and the document that `write` puts into the file. Writing
-- the file is not modelled.
use agora_perp_agent.Prelude.{String, none, some, List, [], ◌∷◌}
use agora_perp_agent.Prelude.Dict.{Dict, lookup}
use agora_perp_agent.Float.Ops.{Float, ◌*◌}
use agora_perp_agent.Contracts.{
  Position, PortfolioState, unrealized_pnl_usd, unrealized_usd, equity_usd, realized_pnl_usd,
}
use agora_perp_agent.Contracts.Json.{
  Scalar, Row, number, integer, words, side, moment, Json, leaf, array, object, Items, nil, item,
  Fields, end, field,
}
use agora_perp_agent.Snapshot.{SnapshotState, got, optional_number}

module _ {F : Type 0} where
  -- `audit_links.get(asset, {})`
  abbrev pub link_at : String → Dict (Row F) → Row F
  link_at asset links = elim (lookup asset links) [ none ↦ [] | some link ↦ link ]

  -- `link.get("anchor_state", "n/a")`
  abbrev pub anchor_state_at : Row F → Scalar F
  anchor_state_at link = elim (lookup "anchor_state" link) [
    | none ↦ words "n/a"
    | some state ↦ state
  ]

module _ {F : Type 0} ⦃f : Float F⦄ where
  abbrev pub open_row : String → Position F → Row F → Row F
  open_row asset pos link =
      ("asset", words asset)
      ∷ ("side", side pos.side)
      ∷ ("qty", number pos.qty)
      ∷ ("entry_price", number pos.entry_price)
      ∷ ("mark_price", number pos.last_mark)
      ∷ ("notional_usd", number (pos.qty * pos.last_mark))
      ∷ ("unrealized_pnl_usd", number (unrealized_pnl_usd pos))
      ∷ ("accrued_funding_usd", number pos.accrued_funding_usd)
      ∷ ("stop_price", optional_number pos.stop_price)
      ∷ ("take_price", optional_number pos.take_price)
      ∷ ("entry_time_iso", moment pos.entry_time)
      ∷ ("tier", got "tier" link)
      ∷ ("regime", got "regime" link)
      ∷ ("leverage", got "leverage" link)
      ∷ ("audit_id", got "audit_id" link)
      ∷ ("decision_id", got "decision_id" link)
      ∷ ("arc_tx_hash", got "arc_tx_hash" link)
      ∷ ("arcscan_url", got "arcscan_url" link)
      ∷ ("anchor_state", anchor_state_at link)
      ∷ []

  -- `_serialise_positions`
  unfoldable pub serialise_positions : Dict (Position F) → Dict (Row F) → List (Row F)
  serialise_positions [] links = []
  serialise_positions ((asset, pos) ∷ positions) links =
      open_row asset pos (link_at asset links) ∷ serialise_positions positions links

module _ {F : Type 0} where
  -- A row, and a list of rows, as JSON.
  abbrev pub row_fields : Row F → Fields F
  row_fields [] = end
  row_fields ((key, value) ∷ row) = field key (leaf value) (row_fields row)

  abbrev pub row_items : List (Row F) → Items F
  row_items [] = nil
  row_items (row ∷ rows) = item (object (row_fields row)) (row_items rows)

module _ {F : Type 0} ⦃f : Float F⦄ where
  -- The payload of `write`.
  unfoldable pub document : String → SnapshotState F → PortfolioState F → Json F
  unfolding serialise_positions
  document now_iso state portfolio =
      let rows = λ (l : List (Row F)). array (row_items l) in
      object (
        field "schema_version" (leaf (words "v1")) (
          field "generated_at_iso" (leaf (words now_iso)) (
            field "agent_wallet" (leaf (words state.agent_wallet)) (
              field "starting_balance_usd" (leaf (number state.starting_balance_usd)) (
                field "equity_usd" (leaf (number (equity_usd portfolio))) (
                  field "balance_usd" (leaf (number portfolio.balance_usd)) (
                    field "realized_pnl_usd" (leaf (number (realized_pnl_usd portfolio))) (
                      field "unrealized_pnl_usd" (leaf (number (unrealized_usd portfolio))) (
                        field "agent_status" (leaf (words state.agent_status)) (
                          field "ticks_processed" (leaf (integer state.ticks_processed)) (
                            field "open_positions"
                              (rows (serialise_positions portfolio.positions state.audit_links))
                              (field "recent_decisions" (rows state.recent_decisions) (
                                field "trade_history" (rows state.trade_history)
                                  (field "equity_curve" (rows state.equity_curve) end))))))))))))))
