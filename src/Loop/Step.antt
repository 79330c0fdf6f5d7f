-- ===== src/Loop/Step.antt =====
-- cli/run.py: `step`, with the recorders of audits, anchors and snapshots absent, which is their
-- default. What a step takes from outside is its input: the fetched snapshots, the clock, and whether
-- the worker thread ends its call before the loop polls it, or after that and before the loop asks
-- whether a call is in flight.
use agora_perp_agent.Prelude.{
  ℕ, Bool, true, false, not, ◌&&◌, ◌||◌, Option, none, some, List, [], ◌∷◌, if◌then◌else◌,
  take_last,
}
use agora_perp_agent.Prelude.Errors.{Result, ok, err}
use agora_perp_agent.Prelude.Dict.{Dict, lookup}
use agora_perp_agent.Float.Ops.{Float}
use agora_perp_agent.Contracts.{
  MarketData, Forecast, AllocationCandidate, AgentState, Decision, Decisions, RegimeTag,
  no_snapshot,
}
use agora_perp_agent.Allocate.{Board, Count, allocate}
use agora_perp_agent.Synthesis.Formats.{Formats}
use agora_perp_agent.Loop.Agent.{
  AsyncAgent, Scheduler, in_flight, start, poll, finish, mark_started, record_completion,
  should_call,
}
use agora_perp_agent.Loop.Scoring.{Scored, board_of, fetch_and_score}
use agora_perp_agent.Loop.Decisions.{Engine, Desk, vetoed, compute_btc_regime, apply}
use agora_perp_agent.Loop.Watch.{watch_stops}

-- The configured arguments of `step`.
pub record Setup (F : Type 0) : Type 0 where
  pub engine : Engine F
  pub forecaster : MarketData F → Result (Forecast F)
  pub notional : F
  pub max_positions : Count
  pub formats : Formats F

pub record Input (F : Type 0) : Type 0 where
  pub fetched : Result (Dict (MarketData F))
  pub now : ℕ
  pub before_poll : Option (Result (Decisions F))
  pub after_poll : Option (Result (Decisions F))

-- What the steps mutate.
pub record Session (F : Type 0) : Type 0 where
  pub desk : Desk F
  pub agent : AsyncAgent F
  pub scheduler : Scheduler F

-- What a step returns for the screen.
pub record Shown (F : Type 0) : Type 0 where
  pub scored : Scored F
  pub candidates : List (AllocationCandidate F)
  pub decisions : Decisions F
  pub btc_regime : Option RegimeTag

abbrev pub is_empty : {A : Type 0} → List A → Bool
is_empty [] = true
is_empty (x ∷ xs) = false

module _ {F : Type 0} where
  -- The decisions after a first one.
  abbrev pub preceded :
      Decision F → Result (List (Decision F)) × Desk F → Result (List (Decision F)) × Desk F
  preceded d (err e, desk) = (err e, desk)
  preceded d (ok ds, desk) = (ok (d ∷ ds), desk)

  -- The rest of the loop after a decision was applied.
  abbrev pub continued :
      (Desk F → Result (List (Decision F)) × Desk F)
      → Result (Decision F) × Desk F
      → Result (List (Decision F)) × Desk F
  continued rest (err e, desk) = (err e, desk)
  continued rest (ok d, desk) = preceded d (rest desk)

  -- The session after the decisions of a call were applied.
  abbrev pub recorded :
      ℕ
      → Decisions F
      → Session F
      → Result (List (Decision F)) × Desk F
      → Result (Unit {0}) × Session F
  recorded now completed session (err e, desk) = (err e, record session { desk = desk })
  recorded now completed session (ok applied, desk) = (
    ok tt,
    record session {
      desk = desk;
      scheduler =
          record_completion now (record { decisions = applied; summary = completed.summary })
            session.scheduler;
    },
  )

  -- `while len(recent_fills) > 20: recent_fills.popleft()`
  abbrev pub trim : Session F → Session F
  trim session = record session {
    desk = record session.desk { recent_fills = take_last 20 session.desk.recent_fills };
  }

  -- What the agent is told.
  abbrev pub told : Board F → List (AllocationCandidate F) → ℕ → Desk F → AgentState F
  told board candidates now desk = record {
    timestamp = now;
    board = board;
    candidates = candidates;
    portfolio = desk.portfolio;
    recent_fills = desk.recent_fills;
  }

module _ {F : Type 0} ⦃f : Float F⦄ where
  -- The loop over `completed.decisions`.
  unfoldable pub apply_all :
      Engine F
      → Board F
      → Option RegimeTag
      → Dict (MarketData F)
      → List (Decision F)
      → Desk F
      → Result (List (Decision F)) × Desk F
  apply_all engine board btc_regime snapshots [] desk = (ok [], desk)
  apply_all engine board btc_regime snapshots (d ∷ ds) desk =
      let rest = apply_all engine board btc_regime snapshots ds in
      elim (lookup d.asset snapshots) [
        | none ↦ preceded (vetoed d no_snapshot) (rest desk)
        | some snap ↦ continued rest (apply engine board btc_regime snap d desk)
      ]

  -- What is done with the answer of the poll.
  abbrev pub delivered :
      Setup F
      → Board F
      → Option RegimeTag
      → Dict (MarketData F)
      → ℕ
      → Session F
      → Option (Decisions F)
      → Result (Unit {0}) × Session F
  delivered setup board btc_regime snapshots now session none = (ok tt, session)
  delivered setup board btc_regime snapshots now session (some completed) =
      recorded now completed session
        (apply_all setup.engine board btc_regime snapshots completed.decisions session.desk)

  -- Draining the agent.
  unfoldable pub drain :
      Setup F
      → Board F
      → Option RegimeTag
      → Dict (MarketData F)
      → ℕ
      → Session F
      → Result (Unit {0}) × Session F
  unfolding apply_all
  drain setup board btc_regime snapshots now session =
      let (completed, agent) = poll setup.formats session.agent in
      delivered setup board btc_regime snapshots now (record session { agent = agent }) completed

  -- Launching the agent.
  unfoldable pub launch : Board F → List (AllocationCandidate F) → ℕ → Session F → Session F
  launch board candidates now session =
      let have_signal =
        not (is_empty candidates) || not (is_empty session.desk.portfolio.positions) in
      if not (in_flight session.agent) && (should_call session.scheduler now && have_signal)
      then record session {
        agent = start (told board candidates now session.desk) session.agent;
        scheduler = mark_started now session.scheduler;
      }
      else session

  -- From the poll to the end of the step.
  abbrev pub launched :
      Board F
      → List (AllocationCandidate F)
      → Input F
      → Result (Unit {0}) × Session F
      → Result (Unit {0}) × Session F
  launched board candidates input (err e, session) = (err e, session)
  launched board candidates input (ok done, session) =
      let raced = record session { agent = finish input.after_poll session.agent } in
      (ok done, trim (launch board candidates input.now raced))

  -- The value of the step, if no exception ended it.
  abbrev pub shown :
      Scored F
      → List (AllocationCandidate F)
      → Option RegimeTag
      → Result (Unit {0}) × Session F
      → Result (Shown F) × Session F
  shown scored candidates btc_regime (err e, session) = (err e, session)
  shown scored candidates btc_regime (ok done, session) = (
    ok (record {
      scored = scored;
      candidates = candidates;
      decisions = session.scheduler.last_decisions;
      btc_regime = btc_regime;
    }),
    session,
  )

  -- The step from the candidates on.
  unfoldable pub run_agent :
      Setup F
      → Input F
      → Scored F
      → List (AllocationCandidate F)
      → Session F
      → Result (Shown F) × Session F
  unfolding drain launch
  run_agent setup input scored candidates session =
      let board = board_of scored in
      let btc_regime = compute_btc_regime scored.snapshots in
      let ready = record session { agent = finish input.before_poll session.agent } in
      shown scored candidates btc_regime (
        launched board candidates input
          (drain setup board btc_regime scored.snapshots input.now ready))

  -- The step after the loop over the open positions.
  abbrev pub watched :
      Setup F
      → Input F
      → Scored F
      → Session F
      → Result (Unit {0}) × Desk F
      → Result (Shown F) × Session F
  watched setup input scored session (err e, desk) = (err e, record session { desk = desk })
  watched setup input scored session (ok done, desk) =
      elim (allocate (board_of scored) setup.max_positions false) [
        | err e ↦ (err e, record session { desk = desk })
        | ok candidates ↦ run_agent setup input scored candidates (record session { desk = desk })
      ]

  unfoldable pub step : Setup F → Input F → Session F → Result (Shown F) × Session F
  unfolding run_agent fetch_and_score watch_stops
  step setup input session =
      let scored =
        fetch_and_score setup.forecaster setup.engine.cost_model setup.notional input.fetched in
      watched setup input scored session
        (watch_stops setup.engine.schedule scored.snapshots session.desk)

  -- The next steps, if no exception ended the one before.
  abbrev pub repeated : (Session F → Session F) → Result (Shown F) × Session F → Session F
  repeated rest (err e, session) = session
  repeated rest (ok out, session) = rest session

  -- `while True` of `main`: the steps until an exception ends the program.
  unfoldable pub run : Setup F → List (Input F) → Session F → Session F
  unfolding step
  run setup [] session = session
  run setup (input ∷ inputs) session = repeated (run setup inputs) (step setup input session)
