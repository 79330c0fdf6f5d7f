-- ===== src/Snapshot.antt =====
-- agent/snapshot.py: `SnapshotState`, what the loop remembers for the dashboard, and the rows of the
-- open positions. Entries are dicts of scalars. What is not of the program is an argument: the time as
-- text, the parsing of times, and the texts that are composed of others.
pub mod History
pub mod Changes
pub mod Document
pub mod Hydrate
use agora_perp_agent.Prelude.{
  ℕ, String, Bool, false, ◌==◌, Option, none, some, List, [], ◌∷◌, ◌++◌, map, if◌then◌else◌, take,
  take_last,
}
use Prim.Native.Nat.{◌+◌ as ◌+ℕ◌}
use Prim.Native.String.{◌++◌ as ◌+++◌}
use agora_perp_agent.Prelude.Errors.{Result, ok, err}
use agora_perp_agent.Prelude.Dict.{Dict, lookup, insert, erase}
use agora_perp_agent.Float.Ops.{Float, lit, zero, max, ◌*◌, ◌>?◌, divide}
use agora_perp_agent.Contracts.Json.{Scalar, Row, null, number, words}

pub record SnapshotState (F : Type 0) : Type 0 where
  pub starting_balance_usd : F
  pub agent_wallet : String
  pub equity_curve : List (Row F)
  pub trade_history : List (Row F)
  pub recent_decisions : List (Row F)
  pub audit_links : Dict (Row F)
  pub ticks_processed : ℕ
  pub agent_status : String

-- The keyword arguments of `record_open` and of `record_close`.
pub record Opening (F : Type 0) : Type 0 where
  pub asset : String
  pub side_text : String
  pub qty : F
  pub leverage : F
  pub entry_price : F
  pub stop_price : Option F
  pub take_price : Option F
  pub tier : String
  pub regime : String
  pub notional_usd : F
  pub audit_id : String
  pub decision_id : String

pub record Closing (F : Type 0) : Type 0 where
  pub asset : String
  pub side_text : String
  pub qty : F
  pub entry_price : F
  pub exit_price : F
  pub realized_pnl_usd : F
  pub entry_time_iso : String
  pub exit_time_iso : String
  pub accrued_funding_usd : F
  pub trigger : String

module _ {F : Type 0} where
  abbrev pub optional_number : Option F → Scalar F
  optional_number none = null
  optional_number (some a) = number a

  abbrev pub optional_words : Option String → Scalar F
  optional_words none = null
  optional_words (some t) = words t

  -- `link.get(key)`, which is `None` on a missing key.
  abbrev pub got : String → Row F → Scalar F
  got key link = elim (lookup key link) [ none ↦ null | some v ↦ v ]

  -- `audit_links.pop(asset, {})`, the value
  abbrev pub link_of : String → Dict (Row F) → Row F
  link_of asset links = elim (lookup asset links) [ none ↦ [] | some link ↦ link ]

  -- `entry.get("audit_id") == audit_id`
  abbrev pub is_text : String → Option (Scalar F) → Bool
  is_text id (some (words t)) = t == id
  is_text id _ = false

  abbrev pub has_audit_id : String → Row F → Bool
  has_audit_id id entry = is_text id (lookup "audit_id" entry)

  -- The text under `audit_id`; an entry without one reads as the empty text, which is as false.
  abbrev pub text_or_empty : Option (Scalar F) → String
  text_or_empty (some (words t)) = t
  text_or_empty _ = ""

  abbrev pub audit_id_of : Row F → String
  audit_id_of entry = text_or_empty (lookup "audit_id" entry)

  unfoldable pub record_equity : String → F → SnapshotState F → SnapshotState F
  record_equity now_iso equity_usd state = record state {
    equity_curve = take_last 720 (
        state.equity_curve
        ++ (("timestamp_iso", words now_iso) ∷ ("equity_usd", number equity_usd) ∷ []) ∷ []);
  }

  unfoldable pub record_open : Opening F → SnapshotState F → SnapshotState F
  record_open o state = record state {
    audit_links =
        insert o.asset
          (("audit_id", words o.audit_id)
            ∷ ("decision_id", words o.decision_id)
            ∷ ("tier", words o.tier)
            ∷ ("regime", words o.regime)
            ∷ ("leverage", number o.leverage)
            ∷ ("stop_price", optional_number o.stop_price)
            ∷ ("take_price", optional_number o.take_price)
            ∷ ("entry_price", number o.entry_price)
            ∷ ("qty_open", number o.qty)
            ∷ ("notional_open_usd", number o.notional_usd)
            ∷ ("side", words o.side_text)
            ∷ ("arc_tx_hash", null)
            ∷ ("arcscan_url", null)
            ∷ ("anchor_state", words "pending")
            ∷ [])
          state.audit_links;
  }

  -- The three writes to an entry whose `audit_id` is the given one.
  abbrev pub patched : String → Option String → Option String → String → Row F → Row F
  patched audit_id arc_tx_hash arcscan_url anchor_state entry =
      if has_audit_id audit_id entry
      then insert "anchor_state" (words anchor_state) (
          insert "arcscan_url" (optional_words arcscan_url)
            (insert "arc_tx_hash" (optional_words arc_tx_hash) entry))
      else entry

  -- The writes to the link of an asset that has one.
  abbrev pub patched_link : Option String → (Row F → Row F) → Dict (Row F) → Dict (Row F)
  patched_link none patch links = links
  patched_link (some asset) patch links = elim (lookup asset links) [
    | none ↦ links
    | some link ↦ insert asset (patch link) links
  ]

  unfoldable pub update_anchor :
      Option String
      → String
      → Option String
      → Option String
      → String
      → SnapshotState F
      → SnapshotState F
  update_anchor asset audit_id arc_tx_hash arcscan_url anchor_state state =
      let patch = patched audit_id arc_tx_hash arcscan_url anchor_state in
      record state {
        audit_links = patched_link asset patch state.audit_links;
        recent_decisions = map patch state.recent_decisions;
      }

  -- The entries that are left when each of those with an identifier was removed.
  abbrev pub without : String → List (Row F) → List (Row F)
  without id [] = []
  without id (entry ∷ entries) =
      if has_audit_id id entry then without id entries else entry ∷ without id entries

  unfoldable pub record_decision : Row F → SnapshotState F → SnapshotState F
  record_decision entry state =
      let others =
        if audit_id_of entry == ""
        then state.recent_decisions
        else without (audit_id_of entry) state.recent_decisions in
      record state { recent_decisions = take 30 (entry ∷ others) }

  unfoldable pub tick : SnapshotState F → SnapshotState F
  tick state = record state { ticks_processed = state.ticks_processed +ℕ 1 }

module _ {F : Type 0} ⦃f : Float F⦄ where
  -- `held_seconds`, of what the parser says of the two times.
  abbrev pub held_of : Result F → Scalar F
  held_of (ok seconds) = number (max zero seconds)
  held_of (err e) = null

  -- `pnl_pct`; a division by zero is caught.
  abbrev pub pnl_pct_of : Closing F → Scalar F
  pnl_pct_of c =
      if c.entry_price >? zero
      then if c.qty >? zero
        then elim (divide c.realized_pnl_usd (c.entry_price * c.qty)) [
          | ok part ↦ number (part * lit 100 0)
          | err e ↦ null
        ]
        else null
      else null

  abbrev pub history_row : Closing F → Row F → Scalar F → Row F
  history_row c link held_seconds =
      ("asset", words c.asset)
      ∷ ("side", words c.side_text)
      ∷ ("qty", number c.qty)
      ∷ ("entry_price", number c.entry_price)
      ∷ ("exit_price", number c.exit_price)
      ∷ ("realized_pnl_usd", number c.realized_pnl_usd)
      ∷ ("accrued_funding_usd", number c.accrued_funding_usd)
      ∷ ("entry_time_iso", words c.entry_time_iso)
      ∷ ("exit_time_iso", words c.exit_time_iso)
      ∷ ("held_seconds", held_seconds)
      ∷ ("audit_id", got "audit_id" link)
      ∷ ("decision_id", got "decision_id" link)
      ∷ ("leverage_at_open", got "leverage" link)
      ∷ ("tier", got "tier" link)
      ∷ ("regime", got "regime" link)
      ∷ ("arc_tx_hash", got "arc_tx_hash" link)
      ∷ ("arcscan_url", got "arcscan_url" link)
      ∷ ("trigger", words c.trigger)
      ∷ []

  abbrev pub closing_row : Closing F → Row F → Scalar F → Row F
  closing_row c link held_seconds =
      ("audit_id", words ("close-" +++ c.asset +++ "-" +++ c.exit_time_iso))
      ∷ ("decision_id", got "decision_id" link)
      ∷ ("asset", words c.asset)
      ∷ ("side", words c.side_text)
      ∷ ("action", words "close")
      ∷ ("trigger", words c.trigger)
      ∷ ("qty", number c.qty)
      ∷ ("entry_price", number c.entry_price)
      ∷ ("exit_price", number c.exit_price)
      ∷ ("realized_pnl_usd", number c.realized_pnl_usd)
      ∷ ("realized_pnl_pct", pnl_pct_of c)
      ∷ ("held_seconds", held_seconds)
      ∷ ("leverage", got "leverage" link)
      ∷ ("tier", got "tier" link)
      ∷ ("regime", got "regime" link)
      ∷ ("open_audit_id", got "audit_id" link)
      ∷ ("arc_tx_hash", got "arc_tx_hash" link)
      ∷ ("arcscan_url", got "arcscan_url" link)
      ∷ ("decided_at_iso", words c.exit_time_iso)
      ∷ ("anchor_state", words "n/a")
      ∷ []

  -- `record_close`, with the seconds between two times as `datetime` computes them.
  unfoldable pub record_close :
      (String → String → Result F) → Closing F → SnapshotState F → SnapshotState F
  unfolding record_decision
  record_close seconds c state =
      let link = link_of c.asset state.audit_links in
      let held_seconds = held_of (seconds c.entry_time_iso c.exit_time_iso) in
      record_decision (closing_row c link held_seconds) (record state {
        audit_links = erase c.asset state.audit_links;
        trade_history = take 50 (history_row c link held_seconds ∷ state.trade_history);
      })
