-- ===== src/Recorders/Exit.antt =====
-- cli/run.py, `_apply` and `step`: what the dashboard is told of a closing.
use agora_perp_agent.Prelude.{String, Option, none, some, if◌then◌else◌, ◌&&◌, ◌||◌}
use agora_perp_agent.Float.Ops.{Float, ◌<=?◌, ◌>=?◌}
use agora_perp_agent.Contracts.{Position, Fill, is_long, is_short}
use agora_perp_agent.Snapshot.{Closing, record_close}
use agora_perp_agent.Recorders.Texts.{side_text}
use agora_perp_agent.Recorders.Books.{Tools, Books, show}
use agora_perp_agent.Recorders.Callback.{overtaken}

module _ {F : Type 0} ⦃f : Float F⦄ where
  -- The level that is said to have fired, from the position before the closing and the price of the
  -- closing fill.
  unfoldable pub trigger_of : Position F → F → String
  trigger_of pos exit_price = elim pos.take_price [
    | none ↦ "stop"
    | some take ↦
        let long_hit_take = is_long pos.side && exit_price >=? take in
        let short_hit_take = is_short pos.side && exit_price <=? take in
        if long_hit_take || short_hit_take then "take" else "stop"
  ]

module _ {F T : Type 0} ⦃f : Float F⦄ where
  abbrev pub closing_of : Tools F T → String → String → Position F → Fill F → Closing F
  closing_of tools trigger asset pos fill = record {
    asset = asset;
    side_text = side_text pos.side;
    qty = pos.qty;
    entry_price = pos.entry_price;
    exit_price = fill.price;
    realized_pnl_usd = fill.realized_pnl_usd;
    entry_time_iso = tools.iso pos.entry_time;
    exit_time_iso = tools.iso fill.timestamp;
    accrued_funding_usd = pos.accrued_funding_usd;
    trigger = trigger;
  }

  unfoldable pub log_close :
      Tools F T → String → String → Position F → Fill F → Books F T → Books F T
  unfolding record_close overtaken
  log_close tools trigger asset pos fill books =
      show (record_close tools.seconds (closing_of tools trigger asset pos fill))
        (overtaken tools.codec books)

  -- After a check of the levels; `pos` is the position before it.
  unfoldable pub log_stop :
      Tools F T → String → Option (Position F) → Fill F → Books F T → Books F T
  unfolding log_close trigger_of
  log_stop tools asset none fill books = books
  log_stop tools asset (some pos) fill books =
      log_close tools (trigger_of pos fill.price) asset pos fill books
