-- ===== src/Tests/Dashboards.antt =====
-- The dashboard's memory through a trade.
use agora_perp_agent.Prelude.{none, some, List, [], ◌∷◌, String, arith}
use agora_perp_agent.Prelude.Errors.{Result, ok}
use agora_perp_agent.Float.Ops.{lit}
use agora_perp_agent.Float.Fixed.{ℤ, fixed}
use agora_perp_agent.Contracts.Json.{words}
use agora_perp_agent.Snapshot.{SnapshotState}
use agora_perp_agent.Snapshot.History.{IsKept}
use agora_perp_agent.Snapshot.Changes.{
  Change, sampled, opened, anchored, closed, decided, ticked, change_all, change_all-IsKept,
}

abbrev seconds : String → String → Result ℤ
seconds entry exit = ok (lit 60 0)

abbrev pub fresh : SnapshotState ℤ
fresh = record {
  starting_balance_usd = lit 100000 0;
  agent_wallet = "0x0";
  equity_curve = [];
  trade_history = [];
  recent_decisions = [];
  audit_links = [];
  ticks_processed = 0;
  agent_status = "idle";
}

-- A trade that is opened, shown twice, anchored and closed.
abbrev trade : List (Change ℤ)
trade =
    ticked
    ∷ opened (record {
      asset = "BTC";
      side_text = "long";
      qty = lit 1 0;
      leverage = lit 2 0;
      entry_price = lit 50000 0;
      stop_price = some (lit 49000 0);
      take_price = none;
      tier = "T1";
      regime = "UP";
      notional_usd = lit 50000 0;
      audit_id = "u-1";
      decision_id = "d-0001";
    })
    ∷ decided (("audit_id", words "u-1") ∷ [])
    ∷ decided (("audit_id", words "u-1") ∷ [])
    ∷ anchored (some "BTC") "u-1" (some "0x1") none "complete"
    ∷ sampled "now" (lit 100000 0)
    ∷ closed (record {
      asset = "BTC";
      side_text = "long";
      qty = lit 1 0;
      entry_price = lit 50000 0;
      exit_price = lit 51000 0;
      realized_pnl_usd = lit 1000 0;
      entry_time_iso = "then";
      exit_time_iso = "now";
      accrued_funding_usd = lit 0 0;
      trigger = "take";
    })
    ∷ []

change_all-IsKept_example : IsKept (change_all seconds trade fresh)
change_all-IsKept_example = change_all-IsKept seconds trade fresh (record {
  equity_bound = omega arith;
  history_bound = omega arith;
  decisions_bound = omega arith;
  unique = tt;
})
