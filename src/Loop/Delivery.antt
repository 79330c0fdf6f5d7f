-- ===== src/Loop/Delivery.antt =====
-- The calls of the agent over a step: when one starts, and when its decisions arrive.
use agora_perp_agent.Prelude.{
  ◌≡◌, true, false, none, some, List, take_last, refl, sym, ap, subst, ◌∙◌,
}
use agora_perp_agent.Prelude.Errors.{Result, ok, Returns}
use agora_perp_agent.Float.Ops.{Float}
use agora_perp_agent.Contracts.{Decisions, AllocationCandidate, AgentState}
use agora_perp_agent.Loop.Agent.{pending, done, poll, finish, in_flight, should_call, collected}
use agora_perp_agent.Loop.Scoring.{Scored, board_of, fetch_and_score}
use agora_perp_agent.Loop.Watch.{watch_stops}
use agora_perp_agent.Loop.Carried.{Carried}
use agora_perp_agent.Loop.Decisions.{Desk, compute_btc_regime}
use agora_perp_agent.Loop.Sound.{launch_desk}
use agora_perp_agent.Loop.Stepped.{
  ready, raced, drained, Delivered, drain-Delivered, drain-Carried, launch_decisions, launch_due,
  stepped, middle-Keeps, should_call_same, drain_pending, poll_idle, finish-none,
}
use agora_perp_agent.Loop.Step.{Setup, Input, Session, trim, launch, step, Shown, is_empty, told}

module _ {F : Type 0} ⦃f : Float F⦄ (setup : Setup F) (input : Input F) where
  -- What a launch leaves, with what it shows of the state before it.
  abbrev Launched : Session F → Session F → Type 0
  Launched middle after =
      (state : AgentState F) × (after.agent ≡ some (pending state))
      × (state.timestamp ≡ input.now)
      × (state.portfolio ≡ after.desk.portfolio)
      × (after.scheduler.last_started ≡ some input.now)
      × (after.scheduler.last_decisions ≡ middle.scheduler.last_decisions)
      × (after.scheduler.last_completed ≡ middle.scheduler.last_completed)

  launch-Launched :
      (session middle after : Session F) (scored : Scored F) (desk : Desk F)
      (candidates : List (AllocationCandidate F))
      → drained setup input scored session desk ≡ (ok tt, middle)
      → after ≡ trim (launch (board_of scored) candidates input.now (raced setup input middle))
      → in_flight (raced setup input middle).agent ≡ false
      → should_call session.scheduler input.now ≡ true
      → is_empty after.desk.portfolio.positions ≡ false
      → Launched middle after
  launch-Launched session middle after scored desk candidates through to free due signal =
      let board = board_of scored in
      let (agent, period, started) = middle-Keeps setup input scored session middle desk through in
      let same_desk = launch_desk board candidates input.now (raced setup input middle) in
      let open_after : is_empty middle.desk.portfolio.positions ≡ false =
        sym (
          ap (λ s. is_empty s.desk.portfolio.positions) to
          ∙ ap (λ d. is_empty d.portfolio.positions) same_desk)
        ∙ signal in
      let launches =
        launch_due setup input board candidates (raced setup input middle) free
          (should_call_same setup input session.scheduler middle.scheduler period started ∙ due)
          open_after in
      rw (to, launches)
        (told board candidates input.now middle.desk, refl, refl, refl, refl, refl, refl)

  -- The decisions of the call carried out one after the other, from the desk that the check of the stops
  -- leaves to the desk after the step, whose fills are cut to the last twenty.
  abbrev pub CarriedOut : Result (Decisions F) → Session F → Session F → Type 0
  CarriedOut r session after =
      let scored =
        fetch_and_score setup.forecaster setup.engine.cost_model setup.notional input.fetched in
      (desk last_desk : Desk F) × (watch_stops setup.engine.schedule scored.snapshots session.desk
        ≡ (ok tt, desk))
      × Carried setup.engine (board_of scored) (compute_btc_regime scored.snapshots)
          scored.snapshots (collected setup.formats r).decisions desk
          after.scheduler.last_decisions.decisions last_desk
      × (after.desk ≡ record last_desk { recent_fills = take_last 20 last_desk.recent_fills })

  -- Where a call of the agent has ended when the loop polls, with decisions or with an exception, and
  -- the step returns, the decisions of that call were carried out in order, each on the desk that the
  -- one before left, from the desk after the check of the stops to the desk after the step: applied
  -- with the snapshot of its asset, or vetoed where there is none. The scheduler shows what became of
  -- each, which is the decision as it came or with a veto, the call's summary and the time of the
  -- step. An exception of the agent counts as no decisions.
  pub finished_call-Delivered :
      (session after : Session F) (out : Shown F) (r : Result (Decisions F))
      → finish input.before_poll session.agent ≡ some (done r)
      → step setup input session ≡ (ok out, after)
      → CarriedOut r session after × Delivered setup input r after.scheduler
  finished_call-Delivered session after out r ended e =
      let (scored, desk, candidates, middle, through, to, from, watches) =
        stepped setup input session after out e in
      let board = board_of scored in
      let btc = compute_btc_regime scored.snapshots in
      let (completed, shown_last) =
        launch_decisions setup input board candidates (raced setup input middle) in
      let arrived : Delivered setup input r middle.scheduler =
        subst (λ q. Returns (λ _. Delivered setup input r q.1.scheduler) q.0) through
          (drain-Delivered setup input board btc scored.snapshots (ready setup input session desk) r
            ended) in
      let carried : Carried setup.engine board btc scored.snapshots
          (collected setup.formats r).decisions desk middle.scheduler.last_decisions.decisions
          middle.desk =
        subst
          (λ q.
            Returns
              (λ _.
                Carried setup.engine board btc scored.snapshots
                  (collected setup.formats r).decisions desk q.1.scheduler.last_decisions.decisions
                  q.1.desk)
              q.0)
          through
          (drain-Carried setup input board btc scored.snapshots (ready setup input session desk) r
            ended) in
      (
        subst
            (λ s.
              (desk last_desk : Desk F) × (watch_stops setup.engine.schedule s.snapshots
                  session.desk
                ≡ (ok tt, desk))
              × Carried setup.engine (board_of s) (compute_btc_regime s.snapshots) s.snapshots
                  (collected setup.formats r).decisions desk
                  after.scheduler.last_decisions.decisions last_desk
              × (after.desk
                  ≡ record last_desk { recent_fills = take_last 20 last_desk.recent_fills }))
            from
            (
              desk,
              middle.desk,
              watches,
              rw (to, shown_last) carried,
              ap (λ s. s.desk) to
                  ∙ ap {A = Desk F} {B = Desk F}
                      (λ d. record d { recent_fills = take_last 20 d.recent_fills })
                      (launch_desk board candidates input.now (raced setup input middle)),
            ),
        rw (to, completed, shown_last) arrived,
      )

  -- Where no call is running when the loop polls, the period since the last start is over, a position
  -- is open after the step and the step returns, a new call runs after it: it was given the time of
  -- the step and the portfolio, and the scheduler has its start.
  pub due_call_launched :
      (session after : Session F) (out : Shown F)
      → in_flight (finish input.before_poll session.agent) ≡ false
      → should_call session.scheduler input.now ≡ true
      → step setup input session ≡ (ok out, after)
      → is_empty after.desk.portfolio.positions ≡ false
      → (state : AgentState F) × (after.agent ≡ some (pending state))
        × (state.timestamp ≡ input.now)
        × (state.portfolio ≡ after.desk.portfolio)
        × (after.scheduler.last_started ≡ some input.now)
  due_call_launched session after out idle due e signal =
      let (scored, desk, candidates, middle, through, to, _, _) =
        stepped setup input session after out e in
      let (agent, _, _) = middle-Keeps setup input scored session middle desk through in
      let free : (raced setup input middle).agent ≡ none =
        ap (finish input.after_poll) (agent ∙ poll_idle setup input _ idle)
        ∙ finish-none setup input input.after_poll in
      let (state, runs, time, portfolio, started, _, _) =
        launch-Launched session middle after scored desk candidates through to (ap in_flight free)
          due signal in
      (state, runs, time, portfolio, started)

  -- A call that ends after the poll and before the loop asks whether one is running, when the period is
  -- over and a position is open, is replaced by a new one: after a step that returns the new call
  -- runs, and the scheduler shows the same last decisions as before, so that those of the call that
  -- ended are never applied.
  pub late_result_lost :
      (session after : Session F) (out : Shown F) (earlier : AgentState F)
      (r : Result (Decisions F))
      → session.agent ≡ some (pending earlier)
      → input.before_poll ≡ none
      → input.after_poll ≡ some r
      → should_call session.scheduler input.now ≡ true
      → step setup input session ≡ (ok out, after)
      → is_empty after.desk.portfolio.positions ≡ false
      → ((state : AgentState F) × (after.agent ≡ some (pending state))
          × (state.timestamp ≡ input.now))
        × (after.scheduler.last_decisions ≡ session.scheduler.last_decisions)
        × (after.scheduler.last_completed ≡ session.scheduler.last_completed)
  late_result_lost session after out earlier r runs none_yet ends due e signal =
      let (scored, desk, candidates, middle, through, to, _, _) =
        stepped setup input session after out e in
      let polls : (ready setup input session desk).agent ≡ some (pending earlier) =
        rw (none_yet, runs) refl in
      let (agent, _, _) = middle-Keeps setup input scored session middle desk through in
      let ended : (raced setup input middle).agent ≡ some (done r) =
        rw (ends) (ap (finish (some r)) (agent ∙ ap (λ a. (poll setup.formats a).1) polls)) in
      let unchanged : middle.scheduler ≡ session.scheduler =
        subst (λ q. q.1.scheduler ≡ session.scheduler) through
          (drain_pending setup input (board_of scored) (compute_btc_regime scored.snapshots)
            scored.snapshots (ready setup input session desk) earlier polls) in
      let (state, new, time, _, _, decisions, completed) =
        launch-Launched session middle after scored desk candidates through to (ap in_flight ended)
          due signal in
      (
        (state, new, time),
        decisions ∙ ap (λ s. s.last_decisions) unchanged,
        completed ∙ ap (λ s. s.last_completed) unchanged,
      )
