-- ===== src/Tests/Steps.antt =====
-- Steps of the loop around a call of the agent.
use agora_perp_agent.Prelude.{◌≡◌, refl, arith, none, some, [], ◌∷◌}
use agora_perp_agent.Prelude.Errors.{ok, err, too_few_bars, http_error}
use agora_perp_agent.Float.Ops.{lit}
use agora_perp_agent.Float.Fixed.{ℤ, fixed, decimal}
use agora_perp_agent.Contracts.{AgentState, Decision, Decisions, hold}
use agora_perp_agent.Allocate.{nonneg, allocate, number_from}
use agora_perp_agent.Executor.{tick, tick_position, check_stops, sized_position}
use agora_perp_agent.Prelude.Sort.{sort}
use agora_perp_agent.Synthesis.Formats.{Formats}
use agora_perp_agent.Loop.Agent.{pending}
use agora_perp_agent.Loop.Scoring.{add_entries}
use agora_perp_agent.Loop.Decisions.{Desk, apply}
use agora_perp_agent.Loop.Sound.{IsSound, run-IsSound}
use agora_perp_agent.Loop.Stepped.{Delivered}
use agora_perp_agent.Loop.Delivery.{
  CarriedOut, finished_call-Delivered, due_call_launched, late_result_lost,
}
use agora_perp_agent.Loop.Step.{Setup, Input, Session, Shown, step, run}
use agora_perp_agent.Tests.Data.{schedule, market, sized, sizer, model, limits, value}

abbrev pub formats : Formats ℤ
formats = record {
  signed2 = λ a. "+0.00";
  decimal = λ n. "1";
  padded4 = λ n. "0001";
  message = λ e. "failed";
}

abbrev pub setup : Setup ℤ
setup = record {
  engine = record { gate = limits; schedule = schedule; cost_model = model; sizer = sizer };
  forecaster = λ snap. err too_few_bars;
  notional = lit 1000 0;
  max_positions = nonneg 3;
  formats = formats;
}

abbrev desk : Desk ℤ
desk = record {
  portfolio = record {
    starting_balance_usd = lit 100000 0;
    balance_usd = lit 99000 0;
    positions = ("BTC", sized_position sized market (lit 50100 0)) ∷ [];
  };
  recent_fills = [];
  last_sized = [];
}

abbrev asked : AgentState ℤ
asked = record {
  timestamp = 0;
  board = [];
  candidates = [];
  portfolio = desk.portfolio;
  recent_fills = [];
}

abbrev keep : Decision ℤ
keep = record {
  asset = "BTC";
  action = hold;
  side = none;
  rationale = record {
    decision_id = "d-0001";
    indicators = [];
    numbers = [];
    reasoning = "";
    pros = [];
    cons = [];
  };
  vetoed_reason = none;
}

abbrev answer : Decisions ℤ
answer = record { decisions = keep ∷ record keep { asset = "ETH" } ∷ []; summary = "hold" }

abbrev pub waiting : Session ℤ
waiting = record {
  desk = desk;
  agent = some (pending asked);
  scheduler = record {
    period_s = lit 30 0;
    last_started = some 0;
    last_completed = none;
    last_decisions = record { decisions = []; summary = "" };
  };
}

-- A minute later, with a snapshot of the one held asset.
abbrev pub ends_early : Input ℤ
ends_early = record {
  fetched = ok (("BTC", market) ∷ []);
  now = 60_000_000;
  before_poll = some (ok answer);
  after_poll = none;
}

abbrev pub ends_late : Input ℤ
ends_late = record ends_early {
  fetched = err http_error;
  before_poll = none;
  after_poll = some (ok answer);
}

abbrev no_show : Shown ℤ
no_show = record {
  scored = record { snapshots = []; forecasts = []; assessments = [] };
  candidates = [];
  decisions = answer;
  btc_regime = none;
}

run-IsSound_example :
    IsSound setup.engine (run setup (ends_late ∷ ends_early ∷ ends_early ∷ []) waiting).desk
run-IsSound_example = run-IsSound setup (ends_late ∷ ends_early ∷ ends_early ∷ []) waiting (record {
  tidy = record {
    consistent = record { keyed = (refl, tt); own_asset = (refl, tt) };
    recent = omega arith;
  };
  limited = omega arith;
})

finished_call-Delivered_example :
    CarriedOut setup ends_early (ok answer) waiting (step setup ends_early waiting).1
    × Delivered setup ends_early (ok answer) (step setup ends_early waiting).1.scheduler
unfolding step check_stops tick tick_position decimal allocate apply
finished_call-Delivered_example =
    finished_call-Delivered setup ends_early waiting (step setup ends_early waiting).1
      (value no_show (step setup ends_early waiting).0) (ok answer) refl refl

due_call_launched_example :
    (state : AgentState ℤ) × ((step setup ends_early waiting).1.agent ≡ some (pending state))
    × (state.timestamp ≡ 60_000_000)
    × (state.portfolio ≡ (step setup ends_early waiting).1.desk.portfolio)
    × ((step setup ends_early waiting).1.scheduler.last_started ≡ some 60_000_000)
unfolding step decimal check_stops tick tick_position allocate apply number_from sort add_entries
due_call_launched_example =
    due_call_launched setup ends_early waiting (step setup ends_early waiting).1
      (value no_show (step setup ends_early waiting).0) refl refl refl refl

late_result_lost_example :
    ((state : AgentState ℤ) × ((step setup ends_late waiting).1.agent ≡ some (pending state))
      × (state.timestamp ≡ 60_000_000))
    × ((step setup ends_late waiting).1.scheduler.last_decisions ≡ waiting.scheduler.last_decisions)
    × ((step setup ends_late waiting).1.scheduler.last_completed ≡ none)
unfolding step decimal allocate number_from sort add_entries
late_result_lost_example =
    late_result_lost setup ends_late waiting (step setup ends_late waiting).1
      (value no_show (step setup ends_late waiting).0) asked (ok answer) refl refl refl refl refl
      refl
