-- ===== src/Recorders/Entry.antt =====
-- cli/run.py, `_enter_sized` from the fill on: the audit record of an entry, the dashboard's link and row,
-- and the submission of the anchor.
use agora_perp_agent.Prelude.{String, none, some, [], ◌∷◌, length}
use agora_perp_agent.Prelude.Errors.{Result, ok, err}
use agora_perp_agent.Contracts.{
  MarketData, Forecast, CostAssessment, SizedCandidate, Fill, Decision,
}
use agora_perp_agent.Contracts.Json.{
  Row, null, number, words, moment, Json, leaf, object, end, field,
}
use agora_perp_agent.Audit.Record.{AuditRecord, Fresh, execute, verdict_value, new_record}
use agora_perp_agent.Snapshot.{Opening, record_open, record_decision, optional_number}
use agora_perp_agent.Recorders.Texts.{
  side_text, tier_text, trend_text, vol_text, funding_text, fmt_regime,
}
use agora_perp_agent.Recorders.Books.{
  Stamp, Tools, Books, table_of, append_row, submit_job, anchor_state_of, show,
}
use agora_perp_agent.Recorders.Callback.{overtaken}

module _ {F : Type 0} where
  abbrev pub market_payload : MarketData F → Json F
  market_payload snap = object (
      field "asset" (leaf (words snap.asset)) (
        field "mark" (leaf (number snap.mark_price)) (
          field "funding_rate" (leaf (number snap.funding_rate)) (
            field "book_depth" (leaf (optional_number snap.book_depth))
              (field "timestamp" (leaf (moment snap.timestamp)) end)))))

  abbrev pub forecast_payload : Forecast F → Json F
  forecast_payload fc = object (
      field "p_up" (leaf (number fc.p_up)) (
        field "expected_move_bps" (leaf (number fc.expected_move_bps))
          (field "confidence" (leaf (number fc.confidence)) end)))

  abbrev pub cost_payload : CostAssessment F → Json F
  cost_payload ca = object (
      field "round_trip_bps" (leaf (number ca.round_trip_bps))
        (field "edge_after_cost_bps" (leaf (number ca.edge_after_cost_bps)) end))

  abbrev pub sized_payload : SizedCandidate F → Json F
  sized_payload sized = object (
      field "qty" (leaf (number sized.qty)) (
        field "notional_usd" (leaf (number sized.notional)) (
          field "leverage" (leaf (number sized.leverage)) (
            field "stop_price" (leaf (number sized.stop_price)) (
              field "take_price" (leaf (number sized.take_price)) (
                field "tier" (leaf (words (tier_text sized.tier))) (
                  field "regime_trend" (leaf (words (trend_text sized.regime.trend))) (
                    field "regime_vol" (leaf (words (vol_text sized.regime.vol))) (
                      field "regime_funding" (leaf (words (funding_text sized.regime.funding)))
                        end)))))))))

  abbrev pub opening_of : AuditRecord F → Decision F → SizedCandidate F → Fill F → Opening F
  opening_of r decision sized fill = record {
    asset = decision.asset;
    side_text = side_text sized.candidate.side;
    qty = sized.qty;
    leverage = sized.leverage;
    entry_price = fill.price;
    stop_price = some sized.stop_price;
    take_price = some sized.take_price;
    tier = tier_text sized.tier;
    regime = fmt_regime sized.regime;
    notional_usd = sized.notional;
    audit_id = r.audit_id;
    decision_id = decision.rationale.decision_id;
  }

  abbrev pub decision_row :
      AuditRecord F → String → String → Decision F → SizedCandidate F → Fill F → Row F
  decision_row r anchor_state decided_at_iso decision sized fill =
      ("audit_id", words r.audit_id)
      ∷ ("decision_id", words decision.rationale.decision_id)
      ∷ ("asset", words decision.asset)
      ∷ ("side", words (side_text sized.candidate.side))
      ∷ ("action", words "open")
      ∷ ("verdict", words (verdict_value execute))
      ∷ ("tier", words (tier_text sized.tier))
      ∷ ("regime", words (fmt_regime sized.regime))
      ∷ ("leverage", number sized.leverage)
      ∷ ("stop_price", number sized.stop_price)
      ∷ ("take_price", number sized.take_price)
      ∷ ("notional_usd", number sized.notional)
      ∷ ("qty", number sized.qty)
      ∷ ("entry_price", number fill.price)
      ∷ ("edge_after_cost_bps", number sized.candidate.cost.edge_after_cost_bps)
      ∷ ("reasoning", words decision.rationale.reasoning)
      ∷ ("decided_at_iso", words decided_at_iso)
      ∷ ("anchor_state", words anchor_state)
      ∷ ("arc_tx_hash", null)
      ∷ ("arcscan_url", null)
      ∷ []

module _ {F T : Type 0} where
  -- `audit.hash_input`
  unfoldable pub hash_input : Tools F T → Json F → String
  hash_input tools payload = tools.codec.keccak (tools.dumps payload) ""

  abbrev pub digest : Tools F T → Json F → Json F
  digest tools payload = leaf (words (hash_input tools payload))

  -- The audit record of an entry. The forecast, the cost and the side are those of the candidate that
  -- the sizer was given and passes on.
  unfoldable pub record_of :
      Tools F T → Fresh → MarketData F → Decision F → SizedCandidate F → AuditRecord F
  unfolding new_record hash_input
  record_of tools fresh snap decision sized =
      new_record
        (record {
          decision_id = decision.rationale.decision_id;
          agent_address = tools.agent_wallet;
          chain_id = tools.chain_id;
          venue = "hyperliquid-paper";
          asset = decision.asset;
          side = some (side_text sized.candidate.side);
          verdict = execute;
          input_hashes = object (
              field "market" (digest tools (market_payload snap)) (
                field "forecast" (digest tools (forecast_payload sized.candidate.forecast))
                  (field "cost" (digest tools (cost_payload sized.candidate.cost)) end)));
          sized = sized_payload sized;
          reasoning = decision.rationale.reasoning;
        })
        fresh

  -- What is recorded of an entry when its row has been inserted. The anchoring thread may take turns
  -- before the dashboard is told, and before the record is submitted to it.
  abbrev pub log_appended :
      Tools F T
      → Stamp
      → AuditRecord F
      → Decision F
      → SizedCandidate F
      → Fill F
      → Books F T
      → Books F T
  log_appended tools stamp r decision sized fill books =
      let row =
        decision_row r (anchor_state_of books.trail) stamp.decided_at_iso decision sized fill in
      let written =
        overtaken tools.codec (record books { trail = append_row tools.codec r books.trail }) in
      let opened = overtaken tools.codec (
        show (λ state. record_decision row (record_open (opening_of r decision sized fill) state))
          written) in
      record opened { trail = submit_job r decision.asset opened.trail }

  -- Everything that is recorded of an entry; where the append raises, nothing is.
  unfoldable pub log_open :
      Tools F T
      → MarketData F
      → Decision F
      → SizedCandidate F
      → Fill F
      → Books F T
      → Result (Unit {0}) × Books F T
  unfolding append_row submit_job overtaken record_of record_open record_decision
  log_open tools snap decision sized fill books =
      let before = overtaken tools.codec books in
      let n = length (table_of before.trail) in
      let stamp = tools.stamp n in
      let r = record_of tools stamp.fresh snap decision sized in
      elim (tools.refuses n) [
        | some e ↦ (err e, before)
        | none ↦ (ok tt, log_appended tools stamp r decision sized fill before)
      ]
