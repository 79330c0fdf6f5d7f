-- ===== src/Recorders/SameRun.antt =====
-- The steps of the loop with the recorders trade as the steps without them.
use agora_perp_agent.Prelude.{
  ℕ, String, ◌≡◌, refl, ap, ◌∙◌, Option, none, some, List, [], ◌∷◌, map, inl, inr, false,
  Option-cases,
}
use agora_perp_agent.Prelude.Errors.{Result, ok, err, Result-cases}
use agora_perp_agent.Prelude.Dict.{Dict, lookup}
use agora_perp_agent.Float.Ops.{Float}
use agora_perp_agent.Contracts.{MarketData, RegimeTag, Decision, Decisions, AllocationCandidate}
use agora_perp_agent.Allocate.{Board, allocate}
use agora_perp_agent.Loop.Agent.{AsyncAgent, poll, finish}
use agora_perp_agent.Loop.Scoring.{Scored, board_of, fetch_and_score}
use agora_perp_agent.Loop.Decisions.{Engine, Desk, compute_btc_regime}
use agora_perp_agent.Loop.Watch.{watch_stops}
use agora_perp_agent.Loop.Step.{
  Setup, Input, Session, Shown, preceded, continued, recorded, apply_all, delivered, drain,
  launched, shown, run_agent, watched, step, repeated, run,
}
use agora_perp_agent.Recorders.Books.{Tools, Books}
use agora_perp_agent.Recorders.Decide.{Recorded, apply_and_record, watch_and_record}
use agora_perp_agent.Recorders.Same.{forget, forget-apply_and_record, forget-watch_and_record}
use agora_perp_agent.Recorders.Step.{
  Kept, Moment, stepped, anchoring_turn, after_first, continue_with, apply_all_and_record,
  deliver_and_record, drain_and_record, sample_books, run_agent_and_record, rest_of_step,
  step_and_record, repeat_and_record, run_and_record,
}

abbrev pub forget_books : {F T A : Type 0} → Kept F T A → Result A × Session F
forget_books (r, session, books) = (r, session)

-- The steps among the moments.
abbrev pub inputs_of : {F : Type 0} → List (Moment F) → List (Input F)
inputs_of [] = []
inputs_of (stepped input now_iso ∷ moments) = input ∷ inputs_of moments
inputs_of (anchoring_turn answers ∷ moments) = inputs_of moments

module _ {F T : Type 0} ⦃f : Float F⦄ (tools : Tools F T)
    (accepts : (n : ℕ) → tools.refuses n ≡ none) where
  after_first_lem :
      (d : Decision F) (x : Recorded F T (List (Decision F)))
      → forget (after_first d x) ≡ preceded d (forget x)
  after_first_lem d (ok ds, desk, books) = refl
  after_first_lem d (err e, desk, books) = refl

  forget-apply_all :
      (engine : Engine F) (board : Board F) (btc : Option RegimeTag)
      (snapshots : Dict (MarketData F)) (ds : List (Decision F)) (desk : Desk F) (books : Books F T)
      → forget (apply_all_and_record engine tools board btc snapshots ds desk books)
        ≡ apply_all engine board btc snapshots ds desk
  unfolding apply_all_and_record apply_all
  forget-apply_all engine board btc snapshots [] desk books = refl
  forget-apply_all engine board btc snapshots (d ∷ ds) desk books =
      elim (Option-cases (lookup d.asset snapshots)) [
        | inl missing ↦
            rw (apply_all_and_record, apply_all, missing)
              (after_first_lem _ (rest desk books)
                ∙ ap (preceded _) (forget-apply_all engine board btc snapshots ds desk books))
        | inr (snap, found) ↦
            rw (apply_all_and_record, apply_all, found)
              (go (forget-apply_all engine board btc snapshots ds)
                  (apply_and_record engine tools board btc snap d desk books)
                ∙ ap (continued (apply_all engine board btc snapshots ds))
                    (forget-apply_and_record engine tools accepts board btc snap d desk books))
      ]
    where
      rest : Desk F → Books F T → Recorded F T (List (Decision F))
      rest = apply_all_and_record engine tools board btc snapshots ds

      go :
          ((after : Desk F) (told : Books F T)
            → forget (apply_all_and_record engine tools board btc snapshots ds after told)
              ≡ apply_all engine board btc snapshots ds after)
          → (x : Recorded F T (Decision F))
          → forget (continue_with (apply_all_and_record engine tools board btc snapshots ds) x)
            ≡ continued (apply_all engine board btc snapshots ds) (forget x)
      go later (ok d', after, told) =
          after_first_lem d' (rest after told) ∙ ap (preceded d') (later after told)
      go later (err e, after, told) = refl

  forget-drain :
      (setup : Setup F) (board : Board F) (btc : Option RegimeTag) (snapshots : Dict (MarketData F))
      (now : ℕ) (session : Session F) (books : Books F T)
      → forget_books (drain_and_record setup tools board btc snapshots now session books)
        ≡ drain setup board btc snapshots now session
  unfolding drain_and_record drain
  forget-drain setup board btc snapshots now session books =
      go (poll setup.formats session.agent).0 (poll setup.formats session.agent).1
    where
      go :
          (completed : Option (Decisions F)) (agent : AsyncAgent F)
          → forget_books (
              deliver_and_record setup tools board btc snapshots now
                (record session { agent = agent })
                books
                completed)
            ≡ delivered setup board btc snapshots now (record session { agent = agent }) completed
      go none agent = refl
      go (some c) agent =
          ap (recorded now c (record session { agent = agent }))
            (forget-apply_all setup.engine board btc snapshots c.decisions session.desk books)

  forget-sample :
      (now_iso : String) (x : Result (Shown F) × Session F) (books : Books F T)
      → forget_books (sample_books tools now_iso x books) ≡ x
  forget-sample now_iso (ok out, session) books = refl
  forget-sample now_iso (err e, session) books = refl

  forget-run_agent :
      (setup : Setup F) (input : Input F) (now_iso : String) (scored : Scored F)
      (candidates : List (AllocationCandidate F)) (session : Session F) (books : Books F T)
      → forget_books
          (run_agent_and_record setup tools input now_iso scored candidates session books)
        ≡ run_agent setup input scored candidates session
  unfolding run_agent_and_record run_agent
  forget-run_agent setup input now_iso scored candidates session books =
      let board = board_of scored in
      let btc = compute_btc_regime scored.snapshots in
      let ready = record session { agent = finish input.before_poll session.agent } in
      forget-sample now_iso _ _
      ∙ ap (λ x. shown scored candidates btc (launched board candidates input x))
          (forget-drain setup board btc scored.snapshots input.now ready books)

  forget-step :
      (setup : Setup F) (input : Input F) (now_iso : String) (session : Session F)
      (books : Books F T)
      → forget_books (step_and_record setup tools input now_iso session books)
        ≡ step setup input session
  unfolding step_and_record step watch_stops
  forget-step setup input now_iso session books =
      go (watch_and_record setup.engine.schedule tools scored.snapshots held session.desk books)
      ∙ ap (watched setup input scored session) (
          forget-watch_and_record setup.engine.schedule tools scored.snapshots held session.desk
            books)
    where
      scored : Scored F
      scored = fetch_and_score setup.forecaster setup.engine.cost_model setup.notional input.fetched

      held : List String
      held = map (λ e. e.0) session.desk.portfolio.positions

      go :
          (x : Recorded F T (Unit {0}))
          → forget_books (rest_of_step setup tools input now_iso scored session x)
            ≡ watched setup input scored session (forget x)
      go (err e, desk, told) = refl
      go (ok done, desk, told) =
          elim (Result-cases (allocate (board_of scored) setup.max_positions false)) [
            | inl (candidates, ranks) ↦
                rw (rest_of_step, watched, ranks)
                  (forget-run_agent setup input now_iso scored candidates
                    (record session { desk = desk }) told)
            | inr (e, failed) ↦ rw (rest_of_step, watched, failed) refl
          ]

  -- Where the store accepts each append of the loop, recording changes nothing of the trading: whatever
  -- the anchoring worker, its service and its own writes to the store, and the dashboard's memory do,
  -- and wherever the worker's turns fall between the steps and before each access of a step to the
  -- books, the run ends with the portfolio, the fills, the agent and the scheduler with which it ends
  -- without any recorder.
  pub run_and_record-run :
      (setup : Setup F) (moments : List (Moment F)) (session : Session F) (books : Books F T)
      → (run_and_record setup tools moments session books).0 ≡ run setup (inputs_of moments) session
  unfolding run_and_record run
  run_and_record-run setup [] session books = refl
  run_and_record-run setup (anchoring_turn answers ∷ moments) session books =
      run_and_record-run setup moments session _
  run_and_record-run setup (stepped input now_iso ∷ moments) session books =
      go (run_and_record-run setup moments)
        (step_and_record setup tools input now_iso session books)
      ∙ ap (repeated (run setup (inputs_of moments)))
          (forget-step setup input now_iso session books)
    where
      go :
          ((after : Session F) (told : Books F T)
            → (run_and_record setup tools moments after told).0
              ≡ run setup (inputs_of moments) after)
          → (x : Kept F T (Shown F))
          → (repeat_and_record (run_and_record setup tools moments) x).0
            ≡ repeated (run setup (inputs_of moments)) (forget_books x)
      go later (ok out, after, told) = later after told
      go later (err e, after, told) = refl
