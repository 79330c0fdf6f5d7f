-- ===== src/Loop/Sound.antt =====
-- The steps of the loop keep its state well formed, whatever the market, the agent and the timing of
-- the worker thread are.
use agora_perp_agent.Prelude.{
  ℕ, String, ◌≡◌, ◌≤◌, false, Option, none, some, List, [], ◌∷◌, arith, inl, inr, length,
  length-take_last, Option-cases, subst, sym,
}
use agora_perp_agent.Prelude.Errors.{Result, ok, err, Result-cases}
use agora_perp_agent.Prelude.Dict.{Dict, lookup}
use agora_perp_agent.Float.Ops.{Float}
use agora_perp_agent.Contracts.{
  MarketData, PortfolioState, Fill, RegimeTag, Decision, Decisions, AllocationCandidate,
}
use agora_perp_agent.Allocate.{Board, allocate}
use agora_perp_agent.Executor.{check_stops, tick}
use agora_perp_agent.Executor.Ledger.{mark, guard_stops, call}
use agora_perp_agent.Executor.Invariant.{IsConsistent, call-IsConsistent}
use agora_perp_agent.Loop.Agent.{AsyncAgent, poll, finish}
use agora_perp_agent.Loop.Scoring.{Scored, board_of, fetch_and_score}
use agora_perp_agent.Loop.Decisions.{Engine, Desk, apply, compute_btc_regime}
use agora_perp_agent.Loop.Limits.{apply_count}
use agora_perp_agent.Loop.Watch.{noted, watch_assets, watch_stops}
use agora_perp_agent.Loop.Kept.{IsTidy, apply-IsTidy, after_fill, tick_count, check_stops_count}
use agora_perp_agent.Loop.Step.{
  Setup, Input, Session, preceded, continued, recorded, trim, apply_all, drain, launch, launched,
  shown, run_agent, delivered, repeated, watched, step, run, Shown,
}

module _ {F : Type 0} ⦃f : Float F⦄ where
  -- The portfolio's map is well formed, the positions are within the gate's limit, and at most twenty
  -- fills are remembered.
  pub record IsSound (engine : Engine F) (desk : Desk F) : Type 0 where
    pub tidy : IsTidy desk
    pub limited : length desk.portfolio.positions ≤ engine.gate.max_positions

  apply-IsSound :
      (engine : Engine F) (board : Board F) (btc : Option RegimeTag) (snap : MarketData F)
      (d : Decision F) (desk : Desk F)
      → IsSound engine desk
      → IsSound engine (apply engine board btc snap d desk).1
  apply-IsSound engine board btc snap d desk h = record {
    tidy = apply-IsTidy engine board btc snap d desk h.tidy;
    limited = apply_count engine board btc snap d desk h.limited;
  }

  watch_assets-IsSound :
      (engine : Engine F) (snapshots : Dict (MarketData F)) (assets : List String) (desk : Desk F)
      → IsSound engine desk
      → IsSound engine (watch_assets engine.schedule snapshots assets desk).1
  unfolding watch_assets call
  watch_assets-IsSound engine snapshots [] desk h = h
  watch_assets-IsSound engine snapshots (asset ∷ assets) desk h =
      elim (Option-cases (lookup asset snapshots)) [
        | inl missing ↦
            rw (watch_assets, missing) (watch_assets-IsSound engine snapshots assets desk h)
        | inr (snap, found) ↦
            let ticked = tick engine.schedule snap desk.portfolio in
            rw (watch_assets, found)
              (go (watch_assets-IsSound engine snapshots assets)
                (check_stops engine.schedule snap ticked)
                (call-IsConsistent engine.schedule (guard_stops snap) ticked
                  (call-IsConsistent engine.schedule (mark snap) desk.portfolio h.tidy.consistent))
                (omega (
                  arith,
                  check_stops_count engine snap ticked,
                  tick_count engine engine.schedule snap desk.portfolio,
                  h.limited,
                )))
      ]
    where
      go :
          ((after : Desk F)
            → IsSound engine after
            → IsSound engine (watch_assets engine.schedule snapshots assets after).1)
          → (r : Result (Option (Fill F)) × PortfolioState F) → IsConsistent r.1
          → length r.1.positions ≤ engine.gate.max_positions
          → IsSound engine (noted asset (watch_assets engine.schedule snapshots assets) desk r).1
      go later (err x, p) c l = record {
        tidy = record { consistent = c; recent = h.tidy.recent };
        limited = l;
      }
      go later (ok none, p) c l =
          later _ (record { tidy = record { consistent = c; recent = h.tidy.recent }; limited = l })
      go later (ok (some fill), p) c l = later _ (record {
        tidy = record { consistent = c; recent = after_fill engine fill desk.recent_fills };
        limited = l;
      })

  apply_all-IsSound :
      (engine : Engine F) (board : Board F) (btc : Option RegimeTag)
      (snapshots : Dict (MarketData F)) (ds : List (Decision F)) (desk : Desk F)
      → IsSound engine desk
      → IsSound engine (apply_all engine board btc snapshots ds desk).1
  unfolding apply_all
  apply_all-IsSound engine board btc snapshots [] desk h = h
  apply_all-IsSound engine board btc snapshots (d ∷ ds) desk h =
      elim (Option-cases (lookup d.asset snapshots)) [
        | inl missing ↦
            rw (apply_all, missing)
              (before _ (apply_all engine board btc snapshots ds desk)
                (apply_all-IsSound engine board btc snapshots ds desk h))
        | inr (snap, found) ↦
            rw (apply_all, found)
              (go (apply_all-IsSound engine board btc snapshots ds)
                (apply engine board btc snap d desk) (apply-IsSound engine board btc snap d desk h))
      ]
    where
      before :
          (first : Decision F) (r : Result (List (Decision F)) × Desk F)
          → IsSound engine r.1
          → IsSound engine (preceded first r).1
      before first (ok rest, after) k = k
      before first (err e, after) k = k

      go :
          ((after : Desk F)
            → IsSound engine after
            → IsSound engine (apply_all engine board btc snapshots ds after).1)
          → (r : Result (Decision F) × Desk F) → IsSound engine r.1
          → IsSound engine (continued (apply_all engine board btc snapshots ds) r).1
      go later (ok first, after) k =
          before first (apply_all engine board btc snapshots ds after) (later after k)
      go later (err e, after) k = k

  drain-IsSound :
      (setup : Setup F) (board : Board F) (btc : Option RegimeTag) (snapshots : Dict (MarketData F))
      (now : ℕ) (session : Session F)
      → IsSound setup.engine session.desk
      → IsSound setup.engine (drain setup board btc snapshots now session).1.desk
  unfolding drain
  drain-IsSound setup board btc snapshots now session h =
      go (poll setup.formats session.agent).0 (poll setup.formats session.agent).1
    where
      keeps :
          (c : Decisions F) (polled : Session F) (r : Result (List (Decision F)) × Desk F)
          → IsSound setup.engine r.1
          → IsSound setup.engine (recorded now c polled r).1.desk
      keeps c polled (ok applied, after) k = k
      keeps c polled (err e, after) k = k

      go :
          (completed : Option (Decisions F)) (agent : AsyncAgent F)
          → IsSound setup.engine
              (delivered setup board btc snapshots now
                (record session { agent = agent })
                completed).1.desk
      go none agent = h
      go (some c) agent =
          keeps c (record session { agent = agent })
            (apply_all setup.engine board btc snapshots c.decisions session.desk)
            (apply_all-IsSound setup.engine board btc snapshots c.decisions session.desk h)

  pub launch_desk :
      (board : Board F) (candidates : List (AllocationCandidate F)) (now : ℕ) (session : Session F)
      → (launch board candidates now session).desk ≡ session.desk
  unfolding launch
  launch_desk board candidates now session = ground arith

  run_agent-IsSound :
      (setup : Setup F) (input : Input F) (scored : Scored F)
      (candidates : List (AllocationCandidate F)) (session : Session F)
      → IsSound setup.engine session.desk
      → IsSound setup.engine (run_agent setup input scored candidates session).1.desk
  unfolding run_agent
  run_agent-IsSound setup input scored candidates session h =
      go (drain setup board btc scored.snapshots input.now ready)
        (drain-IsSound setup board btc scored.snapshots input.now ready h)
    where
      board : Board F
      board = board_of scored

      btc : Option RegimeTag
      btc = compute_btc_regime scored.snapshots

      ready : Session F
      ready = record session { agent = finish input.before_poll session.agent }

      trimmed :
          (after : Session F)
          → IsSound setup.engine after.desk
          → IsSound setup.engine (trim after).desk
      trimmed after k = record {
        tidy = record {
          consistent = k.tidy.consistent;
          recent = length-take_last 20 after.desk.recent_fills;
        };
        limited = k.limited;
      }

      go :
          (r : Result (Unit {0}) × Session F)
          → IsSound setup.engine r.1.desk
          → IsSound setup.engine
              (shown scored candidates btc (launched board candidates input r)).1.desk
      go (err e, after) k = k
      go (ok done, after) k =
          let raced = record after { agent = finish input.after_poll after.agent } in
          trimmed (launch board candidates input.now raced)
            (subst (IsSound setup.engine) (sym (launch_desk board candidates input.now raced)) k)

  step-IsSound :
      (setup : Setup F) (input : Input F) (session : Session F)
      → IsSound setup.engine session.desk
      → IsSound setup.engine (step setup input session).1.desk
  unfolding step watch_stops
  step-IsSound setup input session h =
      go (watch_stops setup.engine.schedule scored.snapshots session.desk)
        (watch_assets-IsSound setup.engine scored.snapshots _ session.desk h)
    where
      scored : Scored F
      scored = fetch_and_score setup.forecaster setup.engine.cost_model setup.notional input.fetched

      go :
          (r : Result (Unit {0}) × Desk F)
          → IsSound setup.engine r.1
          → IsSound setup.engine (watched setup input scored session r).1.desk
      go (err e, desk) k = k
      go (ok done, desk) k =
          elim (Result-cases (allocate (board_of scored) setup.max_positions false)) [
            | inl (candidates, ranks) ↦
                rw (watched, ranks)
                  (run_agent-IsSound setup input scored candidates (record session { desk = desk })
                    k)
            | inr (e, failed) ↦ rw (watched, failed) k
          ]

  -- However many steps the loop makes, to an exception or not, whatever the snapshots, the forecaster,
  -- the agent's decisions and the moments at which the worker thread ends its calls are: no asset gets
  -- a second position, each position stays under its own asset, the open positions stay within the
  -- gate's limit and at most twenty fills are remembered, if that holds at the start.
  pub run-IsSound :
      (setup : Setup F) (inputs : List (Input F)) (session : Session F)
      → IsSound setup.engine session.desk
      → IsSound setup.engine (run setup inputs session).desk
  unfolding run
  run-IsSound setup [] session h = h
  run-IsSound setup (input ∷ inputs) session h =
      go (step setup input session) (step-IsSound setup input session h) (run-IsSound setup inputs)
    where
      go :
          (r : Result (Shown F) × Session F)
          → IsSound setup.engine r.1.desk
          → ((after : Session F)
              → IsSound setup.engine after.desk
              → IsSound setup.engine (run setup inputs after).desk)
          → IsSound setup.engine (repeated (run setup inputs) r).desk
      go (ok out, after) k later = later after k
      go (err e, after) k later = k
