-- ===== src/Recorders/Step.antt =====
-- cli/run.py: `step` and the loop of `main`, with the recorders. The turns of the anchoring thread stand
-- between the steps, and before each access of a step to what the loop and the thread share.
use agora_perp_agent.Prelude.{
  ℕ, String, Option, none, some, List, [], ◌∷◌, map, if◌then◌else◌, false,
}
use agora_perp_agent.Prelude.Errors.{Result, ok, err}
use agora_perp_agent.Prelude.Dict.{Dict, lookup}
use agora_perp_agent.Float.Ops.{Float}
use agora_perp_agent.Contracts.{
  MarketData, RegimeTag, Decision, Decisions, AllocationCandidate, no_snapshot, equity_usd,
}
use agora_perp_agent.Allocate.{Board, allocate}
use agora_perp_agent.Audit.Anchor.{Answers}
use agora_perp_agent.Snapshot.{SnapshotState, tick, record_equity}
use agora_perp_agent.Loop.Agent.{in_flight, poll, finish}
use agora_perp_agent.Loop.Scoring.{Scored, board_of, fetch_and_score}
use agora_perp_agent.Loop.Decisions.{Engine, Desk, vetoed, compute_btc_regime}
use agora_perp_agent.Loop.Step.{Setup, Input, Session, Shown, recorded, launched, shown}
use agora_perp_agent.Recorders.Books.{Tools, Books, show}
use agora_perp_agent.Recorders.Callback.{turn_and_record, overtaken}
use agora_perp_agent.Recorders.Decide.{Recorded, apply_and_record, watch_and_record}

-- What the steps keep, with the books.
abbrev pub Kept : Type 0 → Type 0 → Type 0 → Type 0
Kept F T A = Result A × Session F × Books F T

-- A step of the loop, with the time of the equity sample, or a turn of the anchoring worker.
pub data Moment (F : Type 0) : Type 0 where
  stepped : Input F → String → Moment F
  anchoring_turn : Answers → Moment F

module _ {F T : Type 0} where
  -- The decisions after a first one.
  abbrev pub after_first :
      Decision F → Recorded F T (List (Decision F)) → Recorded F T (List (Decision F))
  after_first d (err e, desk, books) = (err e, desk, books)
  after_first d (ok ds, desk, books) = (ok (d ∷ ds), desk, books)

  abbrev pub continue_with :
      (Desk F → Books F T → Recorded F T (List (Decision F)))
      → Recorded F T (Decision F)
      → Recorded F T (List (Decision F))
  continue_with rest (err e, desk, books) = (err e, desk, books)
  continue_with rest (ok d, desk, books) = after_first d (rest desk books)

  -- The session after the decisions of a call were applied.
  abbrev pub completed_with :
      ℕ → Decisions F → Session F → Recorded F T (List (Decision F)) → Kept F T (Unit {0})
  completed_with now completed session (r, desk, books) =
      let (out, after) = recorded now completed session (r, desk) in (out, after, books)

module _ {F : Type 0} ⦃f : Float F⦄ where
  -- The calls on the dashboard's memory at the end of the step.
  abbrev pub with_sample : String → Session F → SnapshotState F → SnapshotState F
  with_sample now_iso session state =
      let shown_state = record_equity now_iso (equity_usd session.desk.portfolio) (tick state) in
      record shown_state { agent_status = if in_flight session.agent then "thinking" else "idle" }

module _ {F T : Type 0} ⦃f : Float F⦄ where
  unfoldable pub apply_all_and_record :
      Engine F
      → Tools F T
      → Board F
      → Option RegimeTag
      → Dict (MarketData F)
      → List (Decision F)
      → Desk F
      → Books F T
      → Recorded F T (List (Decision F))
  apply_all_and_record engine tools board btc_regime snapshots [] desk books = (ok [], desk, books)
  apply_all_and_record engine tools board btc_regime snapshots (d ∷ ds) desk books =
      let rest = apply_all_and_record engine tools board btc_regime snapshots ds in
      elim (lookup d.asset snapshots) [
        | none ↦ after_first (vetoed d no_snapshot) (rest desk books)
        | some snap ↦
            continue_with rest (apply_and_record engine tools board btc_regime snap d desk books)
      ]

  abbrev pub deliver_and_record :
      Setup F
      → Tools F T
      → Board F
      → Option RegimeTag
      → Dict (MarketData F)
      → ℕ
      → Session F
      → Books F T
      → Option (Decisions F)
      → Kept F T (Unit {0})
  deliver_and_record setup tools board btc_regime snapshots now session books none =
      (ok tt, session, books)
  deliver_and_record setup tools board btc_regime snapshots now session books (some completed) =
      completed_with now completed session (
        apply_all_and_record setup.engine tools board btc_regime snapshots completed.decisions
          session.desk books)

  -- Draining the agent.
  unfoldable pub drain_and_record :
      Setup F
      → Tools F T
      → Board F
      → Option RegimeTag
      → Dict (MarketData F)
      → ℕ
      → Session F
      → Books F T
      → Kept F T (Unit {0})
  unfolding apply_all_and_record
  drain_and_record setup tools board btc_regime snapshots now session books =
      let (completed, agent) = poll setup.formats session.agent in
      deliver_and_record setup tools board btc_regime snapshots now
        (record session { agent = agent }) books completed

  abbrev pub sample_books :
      Tools F T → String → Result (Shown F) × Session F → Books F T → Kept F T (Shown F)
  sample_books tools now_iso (err e, session) books = (err e, session, books)
  sample_books tools now_iso (ok out, session) books =
      (ok out, session, show (with_sample now_iso session) (overtaken tools.codec books))

  -- The step from the candidates on.
  unfoldable pub run_agent_and_record :
      Setup F
      → Tools F T
      → Input F
      → String
      → Scored F
      → List (AllocationCandidate F)
      → Session F
      → Books F T
      → Kept F T (Shown F)
  unfolding drain_and_record overtaken
  run_agent_and_record setup tools input now_iso scored candidates session books =
      let board = board_of scored in
      let btc_regime = compute_btc_regime scored.snapshots in
      let ready = record session { agent = finish input.before_poll session.agent } in
      let (drained, after, told) =
        drain_and_record setup tools board btc_regime scored.snapshots input.now ready books in
      sample_books tools now_iso
        (shown scored candidates btc_regime (launched board candidates input (drained, after))) told

  -- The step after the loop over the open positions.
  abbrev pub rest_of_step :
      Setup F
      → Tools F T
      → Input F
      → String
      → Scored F
      → Session F
      → Recorded F T (Unit {0})
      → Kept F T (Shown F)
  rest_of_step setup tools input now_iso scored session (err e, desk, books) =
      (err e, record session { desk = desk }, books)
  rest_of_step setup tools input now_iso scored session (ok done, desk, books) =
      elim (allocate (board_of scored) setup.max_positions false) [
        | err e ↦ (err e, record session { desk = desk }, books)
        | ok candidates ↦
            run_agent_and_record setup tools input now_iso scored candidates
              (record session { desk = desk }) books
      ]

  -- `step`
  unfoldable pub step_and_record :
      Setup F → Tools F T → Input F → String → Session F → Books F T → Kept F T (Shown F)
  unfolding run_agent_and_record watch_and_record
  step_and_record setup tools input now_iso session books =
      let scored =
        fetch_and_score setup.forecaster setup.engine.cost_model setup.notional input.fetched in
      rest_of_step setup tools input now_iso scored session (
        watch_and_record setup.engine.schedule tools scored.snapshots
          (map (λ e. e.0) session.desk.portfolio.positions) session.desk books)

  -- The rest of the run, if no exception ended the step.
  abbrev pub repeat_and_record :
      (Session F → Books F T → Session F × Books F T) → Kept F T (Shown F) → Session F × Books F T
  repeat_and_record rest (err e, session, books) = (session, books)
  repeat_and_record rest (ok out, session, books) = rest session books

  -- `while True` of `main`
  unfoldable pub run_and_record :
      Setup F → Tools F T → List (Moment F) → Session F → Books F T → Session F × Books F T
  unfolding step_and_record
  run_and_record setup tools [] session books = (session, books)
  run_and_record setup tools (stepped input now_iso ∷ moments) session books =
      let rest = run_and_record setup tools moments in
      repeat_and_record rest (step_and_record setup tools input now_iso session books)
  run_and_record setup tools (anchoring_turn answers ∷ moments) session books =
      run_and_record setup tools moments session
        (turn_and_record tools.codec answers books.trail books)
