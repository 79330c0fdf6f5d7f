-- ===== src/Snapshot/Changes.antt =====
-- The dashboard's memory under any sequence of the calls that the program makes.
use agora_perp_agent.Prelude.{
  String, Option, List, [], ◌∷◌, ◌++◌, take, length-take-le, length-take_last,
}
use agora_perp_agent.Prelude.Errors.{Result}
use agora_perp_agent.Prelude.Dict.{erase}
use agora_perp_agent.Float.Ops.{Float}
use agora_perp_agent.Contracts.Json.{Row, number, words}
use agora_perp_agent.Snapshot.{
  SnapshotState, Opening, Closing, patched, record_equity, record_open, update_anchor,
  record_decision, tick, record_close, closing_row, history_row, held_of, link_of,
}
use agora_perp_agent.Snapshot.History.{
  IsKept, record_decision-IsKept, lookup-patched, map-IsUnique, length-map,
}

-- A call of one of the methods.
pub data Change (F : Type 0) : Type 0 where
  sampled : String → F → Change F
  opened : Opening F → Change F
  anchored : Option String → String → Option String → Option String → String → Change F
  closed : Closing F → Change F
  decided : Row F → Change F
  ticked : Change F

module _ {F : Type 0} ⦃f : Float F⦄ (seconds : String → String → Result F) where
  unfoldable pub change : Change F → SnapshotState F → SnapshotState F
  unfolding record_equity record_open update_anchor record_close record_decision tick
  change (sampled now_iso equity_usd) state = record_equity now_iso equity_usd state
  change (opened o) state = record_open o state
  change (anchored asset id hash url anchor_state) state =
      update_anchor asset id hash url anchor_state state
  change (closed c) state = record_close seconds c state
  change (decided entry) state = record_decision entry state
  change ticked state = tick state

  unfoldable pub change_all : List (Change F) → SnapshotState F → SnapshotState F
  change_all [] state = state
  change_all (c ∷ cs) state = change_all cs (change c state)

  change-IsKept : (c : Change F) (state : SnapshotState F) → IsKept state → IsKept (change c state)
  unfolding change record_equity record_open update_anchor record_close tick
  change-IsKept (sampled now_iso equity_usd) state h = record {
    equity_bound = length-take_last 720 (
        state.equity_curve
        ++ (("timestamp_iso", words now_iso) ∷ ("equity_usd", number equity_usd) ∷ []) ∷ []);
    history_bound = h.history_bound;
    decisions_bound = h.decisions_bound;
    unique = h.unique;
  }
  change-IsKept (opened o) state h = record {
    equity_bound = h.equity_bound;
    history_bound = h.history_bound;
    decisions_bound = h.decisions_bound;
    unique = h.unique;
  }
  change-IsKept (anchored asset id hash url anchor_state) state h =
      let patch = patched id hash url anchor_state in
      record {
        equity_bound = h.equity_bound;
        history_bound = h.history_bound;
        decisions_bound = rw (length-map patch state.recent_decisions) h.decisions_bound;
        unique =
            map-IsUnique patch (lookup-patched id hash url anchor_state) state.recent_decisions
              h.unique;
      }
  change-IsKept (closed c) state h =
      let link = link_of c.asset state.audit_links in
      let held_seconds = held_of (seconds c.entry_time_iso c.exit_time_iso) in
      let history = history_row c link held_seconds ∷ state.trade_history in
      record_decision-IsKept (closing_row c link held_seconds)
        (record state {
          audit_links = erase c.asset state.audit_links;
          trade_history = take 50 history;
        })
        (record {
          equity_bound = h.equity_bound;
          history_bound = length-take-le 50 history;
          decisions_bound = h.decisions_bound;
          unique = h.unique;
        })
  change-IsKept (decided entry) state h = record_decision-IsKept entry state h
  change-IsKept ticked state h = record {
    equity_bound = h.equity_bound;
    history_bound = h.history_bound;
    decisions_bound = h.decisions_bound;
    unique = h.unique;
  }

  -- Under any sequence of calls the equity curve, the trade history and the recent decisions stay
  -- within 720, 50 and 30 rows, and no two recent decisions have the same identifier, if that holds at
  -- the start.
  pub change_all-IsKept :
      (cs : List (Change F)) (state : SnapshotState F) → IsKept state → IsKept (change_all cs state)
  unfolding change_all
  change_all-IsKept [] state h = h
  change_all-IsKept (c ∷ cs) state h =
      change_all-IsKept cs (change c state) (change-IsKept c state h)
