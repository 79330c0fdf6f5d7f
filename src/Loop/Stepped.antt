-- ===== src/Loop/Stepped.antt =====
-- A step that returns, taken apart: what draining and launching leave of the agent and the scheduler.
use agora_perp_agent.Prelude.{
  ◌≡◌, true, false, Option, none, some, List, inl, inr, refl, Each, arith, subst, Option-cases,
}
use agora_perp_agent.Prelude.Errors.{Result, ok, err, Returns, Result-cases}
use agora_perp_agent.Prelude.Dict.{Dict}
use agora_perp_agent.Float.Ops.{Float}
use agora_perp_agent.Contracts.{
  MarketData, RegimeTag, Decision, Decisions, AllocationCandidate, AgentState,
}
use agora_perp_agent.Allocate.{Board, allocate}
use agora_perp_agent.Loop.Agent.{
  AsyncAgent, Scheduler, pending, done, poll, mark_started, finish, in_flight, should_call,
  collected,
}
use agora_perp_agent.Loop.Scoring.{Scored, board_of, fetch_and_score}
use agora_perp_agent.Loop.Decisions.{Desk, compute_btc_regime}
use agora_perp_agent.Loop.Watch.{watch_stops}
use agora_perp_agent.Loop.Resolved.{Resolved, apply_all-Resolved}
use agora_perp_agent.Loop.Carried.{Carried, CarriedTo, apply_all-CarriedTo}
use agora_perp_agent.Loop.Step.{
  Setup, Input, Session, recorded, trim, apply_all, drain, delivered, launch, launched, shown,
  run_agent, watched, step, Shown, is_empty, told,
}

module _ {F : Type 0} ⦃f : Float F⦄ (setup : Setup F) (input : Input F) where
  -- The session when the loop polls.
  abbrev pub ready : Session F → Desk F → Session F
  ready session desk = record session {
    desk = desk;
    agent = finish input.before_poll session.agent;
  }

  abbrev pub raced : Session F → Session F
  raced session = record session { agent = finish input.after_poll session.agent }

  abbrev pub drained : Scored F → Session F → Desk F → Result (Unit {0}) × Session F
  drained scored session desk =
      drain setup (board_of scored) (compute_btc_regime scored.snapshots) scored.snapshots input.now
        (ready session desk)

  -- How a step that returned came to its session.
  abbrev pub Stepped : Session F → Session F → Type 0
  Stepped session after =
      (scored : Scored F) × (desk : Desk F) × (candidates : List (AllocationCandidate F))
      × (middle : Session F) × (drained scored session desk ≡ (ok tt, middle))
      × (after ≡ trim (launch (board_of scored) candidates input.now (raced middle)))
      × (scored
          ≡ fetch_and_score setup.forecaster setup.engine.cost_model setup.notional input.fetched)
      × (watch_stops setup.engine.schedule scored.snapshots session.desk ≡ (ok tt, desk))

  abbrev pub StepsTo : Session F → Result (Shown F) × Session F → Type 0
  StepsTo session (ok out, after) = Stepped session after
  StepsTo session (err e, after) = Unit

  pub step-StepsTo : (session : Session F) → StepsTo session (step setup input session)
  unfolding step
  step-StepsTo session = go (watch_stops setup.engine.schedule s.snapshots session.desk) refl
    where
      s : Scored F
      s = fetch_and_score setup.forecaster setup.engine.cost_model setup.notional input.fetched

      ended :
          (desk : Desk F) (candidates : List (AllocationCandidate F))
          (r : Result (Unit {0}) × Session F)
          → drained s session desk ≡ r
          → watch_stops setup.engine.schedule s.snapshots session.desk ≡ (ok tt, desk)
          → StepsTo session (
              shown s candidates
                (compute_btc_regime s.snapshots)
                (launched (board_of s) candidates input r))
      ended desk candidates (ok u, middle) e watches =
          (s, desk, candidates, middle, e, refl, refl, watches)
      ended desk candidates (err x, middle) e watches = tt

      go :
          (r : Result (Unit {0}) × Desk F)
          → watch_stops setup.engine.schedule s.snapshots session.desk ≡ r
          → StepsTo session (watched setup input s session r)
      go (err e, desk) watches = tt
      go (ok u, desk) watches =
          elim (Result-cases (allocate (board_of s) setup.max_positions false)) [
            | inl (candidates, ranks) ↦
                rw (watched, ranks)
                  (unfold run_agent in ended desk candidates (drained s session desk) refl watches)
            | inr (e, failed) ↦ rw (watched, failed) tt
          ]

  -- Draining takes the future that it collects, and no more of the scheduler than the completion.
  abbrev pub Keeps : Session F → Session F → Type 0
  Keeps session middle =
      (middle.agent ≡ (poll setup.formats session.agent).1)
      × (middle.scheduler.period_s ≡ session.scheduler.period_s)
      × (middle.scheduler.last_started ≡ session.scheduler.last_started)

  pub drain-Keeps :
      (board : Board F) (btc : Option RegimeTag) (snapshots : Dict (MarketData F))
      (session : Session F)
      → Keeps session (drain setup board btc snapshots input.now session).1
  unfolding drain
  drain-Keeps board btc snapshots session = go (poll setup.formats session.agent).0
    where
      polled : Session F
      polled = record session { agent = (poll setup.formats session.agent).1 }

      kept :
          (c : Decisions F) (r : Result (List (Decision F)) × Desk F)
          → Keeps session (recorded input.now c polled r).1
      kept c (ok applied, desk) = (refl, refl, refl)
      kept c (err e, desk) = (refl, refl, refl)

      go :
          (completed : Option (Decisions F))
          → Keeps session (delivered setup board btc snapshots input.now polled completed).1
      go none = (refl, refl, refl)
      go (some c) = kept c (apply_all setup.engine board btc snapshots c.decisions session.desk)

  -- What the draining of a finished call leaves in the scheduler.
  abbrev pub Delivered : Result (Decisions F) → Scheduler F → Type 0
  Delivered r scheduler =
      (scheduler.last_completed ≡ some input.now)
      × Each Resolved (collected setup.formats r).decisions scheduler.last_decisions.decisions
      × (scheduler.last_decisions.summary ≡ (collected setup.formats r).summary)

  pub drain-Delivered :
      (board : Board F) (btc : Option RegimeTag) (snapshots : Dict (MarketData F))
      (session : Session F) (r : Result (Decisions F))
      → session.agent ≡ some (done r)
      → Returns
          (λ _. Delivered r (drain setup board btc snapshots input.now session).1.scheduler)
          (drain setup board btc snapshots input.now session).0
  unfolding drain
  drain-Delivered board btc snapshots session r e = rw e (
      go (apply_all setup.engine board btc snapshots c.decisions session.desk)
        (apply_all-Resolved setup.engine board btc snapshots c.decisions session.desk))
    where
      c : Decisions F
      c = collected setup.formats r

      go :
          (outcome : Result (List (Decision F)) × Desk F)
          → Returns (Each Resolved c.decisions) outcome.0
          → Returns
              (λ _.
                Delivered r
                  (recorded input.now c (record session { agent = none }) outcome).1.scheduler)
              (recorded input.now c (record session { agent = none }) outcome).0
      go (ok applied, desk) each = (refl, each, refl)
      go (err x, desk) each = tt

  -- The decisions of a finished call, carried out on the desk of the session.
  pub drain-Carried :
      (board : Board F) (btc : Option RegimeTag) (snapshots : Dict (MarketData F))
      (session : Session F) (r : Result (Decisions F))
      → session.agent ≡ some (done r)
      → let (out, after) = drain setup board btc snapshots input.now session in
        Returns
          (λ _.
            Carried setup.engine board btc snapshots
              (collected setup.formats r).decisions
              session.desk
              after.scheduler.last_decisions.decisions
              after.desk)
          out
  unfolding drain
  drain-Carried board btc snapshots session r e = rw e (
      go (apply_all setup.engine board btc snapshots c.decisions session.desk)
        (apply_all-CarriedTo setup.engine board btc snapshots c.decisions session.desk))
    where
      c : Decisions F
      c = collected setup.formats r

      go :
          (outcome : Result (List (Decision F)) × Desk F)
          → CarriedTo setup.engine board btc snapshots c.decisions session.desk outcome
          → let (out, after) = recorded input.now c (record session { agent = none }) outcome in
            Returns
              (λ _.
                Carried setup.engine board btc snapshots c.decisions session.desk
                  after.scheduler.last_decisions.decisions after.desk)
              out
      go (ok applied, desk) k = k
      go (err x, desk) k = tt

  pub launch_decisions :
      (board : Board F) (candidates : List (AllocationCandidate F)) (session : Session F)
      → ((launch board candidates input.now session).scheduler.last_completed
          ≡ session.scheduler.last_completed)
        × ((launch board candidates input.now session).scheduler.last_decisions
            ≡ session.scheduler.last_decisions)
  unfolding launch
  launch_decisions board candidates session = ground arith

  pub launch_due :
      (board : Board F) (candidates : List (AllocationCandidate F)) (session : Session F)
      → in_flight session.agent ≡ false
      → should_call session.scheduler input.now ≡ true
      → is_empty session.desk.portfolio.positions ≡ false
      → launch board candidates input.now session ≡ record session {
        agent = some (pending (told board candidates input.now session.desk));
        scheduler = mark_started input.now session.scheduler;
      }
  unfolding launch
  launch_due board candidates session idle due signal = ground arith

  -- A step that returned, as its parts.
  pub stepped :
      (session after : Session F) (out : Shown F)
      → step setup input session ≡ (ok out, after)
      → Stepped session after
  stepped session after out e = subst (StepsTo session) e (step-StepsTo session)

  pub middle-Keeps :
      (scored : Scored F) (session middle : Session F) (desk : Desk F)
      → drained scored session desk ≡ (ok tt, middle)
      → Keeps (ready session desk) middle
  middle-Keeps scored session middle desk e =
      subst (λ r. Keeps (ready session desk) r.1) e
        (drain-Keeps (board_of scored) (compute_btc_regime scored.snapshots) scored.snapshots
          (ready session desk))

  pub should_call_same :
      (s s' : Scheduler F)
      → s'.period_s ≡ s.period_s
      → s'.last_started ≡ s.last_started
      → should_call s' input.now ≡ should_call s input.now
  should_call_same s s' period started = elim (Option-cases s.last_started) [
    | inl never ↦ simp (should_call, started, never)
    | inr (time, at) ↦ simp (should_call, started, at, period)
  ]

  pub drain_pending :
      (board : Board F) (btc : Option RegimeTag) (snapshots : Dict (MarketData F))
      (session : Session F) (state : AgentState F)
      → session.agent ≡ some (pending state)
      → (drain setup board btc snapshots input.now session).1.scheduler ≡ session.scheduler
  unfolding drain
  drain_pending board btc snapshots session state e = rw (drain, e) refl

  pub poll_idle :
      (agent : AsyncAgent F) → in_flight agent ≡ false → (poll setup.formats agent).1 ≡ none
  poll_idle none h = refl
  poll_idle (some (done r)) h = refl
  poll_idle (some (pending state)) h = absurd (ground (arith, h))

  pub finish-none : (o : Option (Result (Decisions F))) → finish o none ≡ none
  finish-none none = refl
  finish-none (some r) = refl
