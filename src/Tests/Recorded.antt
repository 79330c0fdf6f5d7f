-- ===== src/Tests/Recorded.antt =====
-- The loop with its recorders, on one held asset whose entry has been recorded.

use agora_perp_agent.Prelude.{
  Option, false, map, ltb, if◌then◌else◌, ◌⊎◌, All, inl, ◌≡◌, refl, true, arith, none, some, List,
  [], ◌∷◌,
}
use agora_perp_agent.Prelude.Errors.{Error, ok, err, http_error, os_failure}
use agora_perp_agent.Prelude.Dict.{lookup, keys}
use agora_perp_agent.Float.Ops.{lit}
use agora_perp_agent.Float.Fixed.{
  ℤ, fixed, fixed-IsLawful, decimal, scale, plus, opposite, product, ratio, times, over,
  square_root, root_bits,
}
use agora_perp_agent.Contracts.{MarketData, Position, PortfolioState}
use agora_perp_agent.Contracts.Json.{Json, leaf, null, words}
use agora_perp_agent.Executor.{
  check_stops, tick, tick_position, close, accrue_funding, side_slippage, entry_fill, exit_fill,
  price_pnl, sized_position, take_hit,
}
use agora_perp_agent.Loop.Step.{run, Session, launch}
use agora_perp_agent.Recorders.Books.{Tools, Books, anchored, table_of}
use agora_perp_agent.Recorders.Exit.{trigger_of}
use agora_perp_agent.Recorders.Step.{
  Moment, stepped, anchoring_turn, run_and_record, step_and_record,
}
use agora_perp_agent.Recorders.Callback.{turn_and_record}
use agora_perp_agent.Allocate.{allocate, number_from}
use agora_perp_agent.Prelude.Sort.{sort}
use agora_perp_agent.Loop.Scoring.{fetch_and_score, add_entries}
use agora_perp_agent.Recorders.Decide.{apply_and_record}
use agora_perp_agent.Recorders.SameRun.{inputs_of, run_and_record-run}
use agora_perp_agent.Recorders.Told.{IsLinkedTo}
use agora_perp_agent.Recorders.LinkedRun.{run_and_record-IsLinkedTo}
use agora_perp_agent.Audit.Store.{Table}
use agora_perp_agent.Snapshot.{SnapshotState}
use agora_perp_agent.Snapshot.Document.{serialise_positions}
use agora_perp_agent.Recorders.Links.{Audited, IsLinked}
use agora_perp_agent.Recorders.Linked.{Unrecorded}
use agora_perp_agent.Recorders.Published.{published-Audited}
use agora_perp_agent.Recorders.Trigger.{labelled_take}
use agora_perp_agent.Tests.Audits.{codec}
use agora_perp_agent.Tests.Dashboards.{fresh}
use agora_perp_agent.Tests.Data.{fired_fill, schedule, market_at, market, sized}
use agora_perp_agent.Tests.Steps.{setup, waiting, ends_early, ends_late}

abbrev tools : Tools ℤ (Json ℤ)
tools = record {
  codec = codec;
  dumps = λ j. j;
  stamp = λ n. record {
    fresh = record { when_iso = "now"; uuid = "u-n"; nonce_hex = "00"; first_2048 = λ t. t };
    decided_at_iso = "now";
  };
  iso = λ n. "now";
  seconds = λ entry exit. ok (lit 60 0);
  chain_id = 5042002;
  agent_wallet = "0x0";
  refuses = λ n. none;
}

-- A store that takes no third row.
abbrev full_tools : Tools ℤ (Json ℤ)
full_tools = record tools { refuses = λ n. if ltb n 2 then none else some os_failure }

abbrev table : Table (Json ℤ)
table =
    record {
      audit_id = "u-0";
      decision_id = "d-0000";
      agent_address = "0x0";
      asset = "BTC";
      verdict = "EXECUTE";
      outcome = "PENDING";
      decided_at_iso = "then";
      anchor_hash_hex = "00";
      arc_tx_hash = none;
      arc_job_id = none;
      record_json = leaf null;
    }
    ∷ []

abbrev remembered : SnapshotState ℤ
remembered = record fresh { audit_links = ("BTC", ("audit_id", words "u-0") ∷ []) ∷ [] }

abbrev books : Books ℤ (Json ℤ)
books = record {
  trail =
      anchored
        (record { max_queue = 8; queue = []; stopped = false; table = table; completions = [] });
  dashboard = some remembered;
  turns = (record { anchored = err http_error; write_error = none } ∷ []) ∷ [];
}

abbrev moments : List (Moment ℤ)
moments =
    stepped ends_early "now"
    ∷ anchoring_turn (record {
      anchored = ok (record { arc_tx_hash = some "0x1"; arc_job_id = none });
      write_error = none;
    })
    ∷ stepped ends_late "later"
    ∷ []

run_and_record-run_example :
    (run_and_record setup tools moments waiting books).0 ≡ run setup (inputs_of moments) waiting
run_and_record-run_example = run_and_record-run tools (λ n. refl) setup moments waiting books

abbrev remembered-IsLinked : IsLinked waiting.desk.portfolio.positions table remembered
remembered-IsLinked = record {
  keyed_positions = (refl, tt);
  keyed_links = (refl, tt);
  linked = λ asset. ground arith;
  audited = (("u-0", refl, inl refl), tt);
}

run_and_record-IsLinkedTo_example :
    let (session', books') = run_and_record setup full_tools moments waiting books in
    IsLinkedTo books' session'.desk.portfolio.positions
    ⊎ ((e : Error) × Unrecorded full_tools e books' session'.desk.portfolio.positions)
run_and_record-IsLinkedTo_example =
    run_and_record-IsLinkedTo full_tools setup moments waiting books ((refl, tt), (tt, (tt, tt)))
      (tt, remembered-IsLinked)

abbrev held : Position ℤ
held = sized_position sized market (lit 50100 0)

abbrev portfolio : PortfolioState ℤ
portfolio = record {
  starting_balance_usd = lit 100000 0;
  balance_usd = lit 99000 0;
  positions = ("BTC", held) ∷ [];
}

-- Well above the take level, and exactly at it.
abbrev risen : MarketData ℤ
risen = market_at 3600000000 60000

abbrev just_risen : MarketData ℤ
just_risen = market_at 3600000000 53750

labelled_take_example : take_hit held risen.mark_price ≡ true
unfolding trigger_of check_stops close accrue_funding side_slippage entry_fill exit_fill price_pnl
    decimal scale plus opposite product ratio times over square_root root_bits
labelled_take_example =
    labelled_take fixed-IsLawful schedule risen portfolio held (lit 53750 0)
      (fired_fill (check_stops schedule risen portfolio).0) (check_stops schedule risen portfolio).1
      refl refl refl refl refl refl refl

-- A take at its very level fills below it and is called a stop.
taken_as_stop :
    trigger_of held (fired_fill (check_stops schedule just_risen portfolio).0).price ≡ "stop"
unfolding trigger_of check_stops close accrue_funding side_slippage entry_fill exit_fill price_pnl
    decimal scale plus opposite product ratio times over square_root root_bits
taken_as_stop = refl

-- Its result is a gain.
taken_with_gain :
    fixed.lt (lit 0 0) (fired_fill (check_stops schedule just_risen portfolio).0).realized_pnl_usd
    ≡ true
unfolding trigger_of check_stops close accrue_funding side_slippage entry_fill exit_fill price_pnl
    decimal scale plus opposite product ratio times over square_root root_bits
taken_with_gain = refl

abbrev final : Session ℤ × Books ℤ (Json ℤ)
final = run_and_record setup tools moments waiting books

abbrev final_state : Option (SnapshotState ℤ) → SnapshotState ℤ
final_state none = remembered
final_state (some state) = state

published-Audited_example :
    let held = final.0.desk.portfolio.positions in
    let rows = serialise_positions held (final_state final.1.dashboard).audit_links in
    (map (lookup "asset") rows ≡ map (λ asset. some (words asset)) (keys held))
    × All (Audited (table_of final.1.trail)) rows
unfolding run_and_record step_and_record turn_and_record check_stops tick tick_position decimal
    allocate fetch_and_score apply_and_record launch number_from sort add_entries
published-Audited_example =
    published-Audited tools setup moments waiting final.0 books final.1
      (final_state final.1.dashboard) (λ n. refl) ((refl, tt), (tt, (tt, tt)))
      (tt, remembered-IsLinked) refl refl
