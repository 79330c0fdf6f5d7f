-- ===== src/Recorders/LinkedRun.antt =====
-- The steps of the loop and the turns of the anchoring worker keep the books in order.
use agora_perp_agent.Prelude.{
  ℕ, String, ◌≡◌, ◌⊎◌, refl, sym, subst, Option, none, some, List, [], ◌∷◌, map, false, All, inl,
  inr, Option-cases,
}
use agora_perp_agent.Prelude.Errors.{Error, Result, ok, err, Result-cases, Returns}
use agora_perp_agent.Prelude.Dict.{Dict, lookup}
use agora_perp_agent.Float.Ops.{Float}
use agora_perp_agent.Contracts.{
  MarketData, RegimeTag, Decision, Decisions, AllocationCandidate, Position,
}
use agora_perp_agent.Allocate.{Board, allocate}
use agora_perp_agent.Snapshot.{SnapshotState, tick, record_equity}
use agora_perp_agent.Loop.Agent.{AsyncAgent, poll, finish}
use agora_perp_agent.Loop.Scoring.{Scored, board_of, fetch_and_score, score}
use agora_perp_agent.Loop.Decisions.{Engine, Desk, compute_btc_regime}
use agora_perp_agent.Loop.Sound.{launch_desk}
use agora_perp_agent.Loop.Step.{Setup, Input, Session, Shown, launch, launched, trim, shown}
use agora_perp_agent.Recorders.Books.{Tools, Books, table_of, show}
use agora_perp_agent.Recorders.Decide.{Recorded, apply_and_record, watch_and_record}
use agora_perp_agent.Recorders.Linked.{
  LeavesLinked, Unrecorded, apply-LeavesLinked, IsTitled, watch-LeavesLinked,
}
use agora_perp_agent.Recorders.LinkedTurn.{turn-IsLinkedTo, overtaken-IsLinkedTo}
use agora_perp_agent.Recorders.Callback.{overtaken}
use agora_perp_agent.Recorders.Step.{
  Kept, Moment, stepped, anchoring_turn, after_first, continue_with, completed_with,
  apply_all_and_record, deliver_and_record, drain_and_record, with_sample, sample_books,
  run_agent_and_record, rest_of_step, step_and_record, repeat_and_record, run_and_record,
}
use agora_perp_agent.Recorders.Told.{IsLinkedTo, Shows}

-- The snapshots that a step fetches are each of the asset that they are filed under.
abbrev pub TitledMoment : {F : Type 0} → Moment F → Type 0
TitledMoment (stepped input now_iso) = Returns IsTitled input.fetched
TitledMoment (anchoring_turn answers) = Unit

module _ {F T : Type 0} where
  abbrev pub KeepsLinked : {A : Type 0} → Tools F T → Kept F T A → Type 0
  KeepsLinked tools (ok a, session, books) = IsLinkedTo books session.desk.portfolio.positions
  KeepsLinked tools (err e, session, books) =
      IsLinkedTo books session.desk.portfolio.positions
      ⊎ Unrecorded tools e books session.desk.portfolio.positions

module _ {F T : Type 0} ⦃f : Float F⦄ (tools : Tools F T) where
  score_snapshots :
      (setup : Setup F) (snapshots : List (String × MarketData F)) (scored : Scored F)
      → (score setup.forecaster setup.engine.cost_model setup.notional snapshots scored).snapshots
        ≡ scored.snapshots
  unfolding score
  score_snapshots setup [] scored = refl
  score_snapshots setup ((coin, snap) ∷ snapshots) scored = score_snapshots setup snapshots _

  apply_all-LeavesLinked :
      (engine : Engine F) (board : Board F) (btc : Option RegimeTag)
      (snapshots : Dict (MarketData F)) (ds : List (Decision F)) (desk : Desk F) (books : Books F T)
      → IsLinkedTo books desk.portfolio.positions
      → LeavesLinked tools (apply_all_and_record engine tools board btc snapshots ds desk books)
  unfolding apply_all_and_record
  apply_all-LeavesLinked engine board btc snapshots [] desk books h = h
  apply_all-LeavesLinked engine board btc snapshots (d ∷ ds) desk books h =
      elim (Option-cases (lookup d.asset snapshots)) [
        | inl missing ↦
            rw (apply_all_and_record, missing)
              (first _ (rest desk books)
                (apply_all-LeavesLinked engine board btc snapshots ds desk books h))
        | inr (snap, found) ↦
            rw (apply_all_and_record, found)
              (go (apply_all-LeavesLinked engine board btc snapshots ds)
                (apply_and_record engine tools board btc snap d desk books)
                (apply-LeavesLinked engine tools board btc snap d desk books h))
      ]
    where
      rest : Desk F → Books F T → Recorded F T (List (Decision F))
      rest = apply_all_and_record engine tools board btc snapshots ds

      first :
          (d' : Decision F) (x : Recorded F T (List (Decision F)))
          → LeavesLinked tools x
          → LeavesLinked tools (after_first d' x)
      first d' (ok ds, after, told) k = k
      first d' (err e, after, told) k = k

      go :
          ((after : Desk F) (told : Books F T)
            → IsLinkedTo told after.portfolio.positions
            → LeavesLinked tools
                (apply_all_and_record engine tools board btc snapshots ds after told))
          → (x : Recorded F T (Decision F)) → LeavesLinked tools x
          → LeavesLinked tools
              (continue_with (apply_all_and_record engine tools board btc snapshots ds) x)
      go later (ok d', after, told) k = first d' (rest after told) (later after told k)
      go later (err e, after, told) k = k

  drain-KeepsLinked :
      (setup : Setup F) (board : Board F) (btc : Option RegimeTag) (snapshots : Dict (MarketData F))
      (now : ℕ) (session : Session F) (books : Books F T)
      → IsLinkedTo books session.desk.portfolio.positions
      → KeepsLinked tools (drain_and_record setup tools board btc snapshots now session books)
  unfolding drain_and_record
  drain-KeepsLinked setup board btc snapshots now session books h =
      go (poll setup.formats session.agent).0 (poll setup.formats session.agent).1
    where
      completed :
          (c : Decisions F) (polled : Session F) (x : Recorded F T (List (Decision F)))
          → LeavesLinked tools x
          → KeepsLinked tools (completed_with now c polled x)
      completed c polled (ok applied, after, told) k = k
      completed c polled (err e, after, told) k = k

      go :
          (c : Option (Decisions F)) (agent : AsyncAgent F)
          → KeepsLinked tools (
              deliver_and_record setup tools board btc snapshots now
                (record session { agent = agent })
                books
                c)
      go none agent = h
      go (some c) agent =
          completed c (record session { agent = agent }) _
            (apply_all-LeavesLinked setup.engine board btc snapshots c.decisions session.desk books
              h)

  sampled-IsLinkedTo :
      (now_iso : String) (session : Session F) (held : Dict (Position F)) (books : Books F T)
      → IsLinkedTo books held
      → IsLinkedTo (show (with_sample now_iso session) books) held
  unfolding tick record_equity
  sampled-IsLinkedTo now_iso session held books (ahead, shows) = (ahead, go books.dashboard shows)
    where
      go :
          (dashboard : Option (SnapshotState F))
          → Shows held (table_of books.trail) dashboard
          → Shows held
              (table_of books.trail)
              (show
                (with_sample now_iso session)
                (record books { dashboard = dashboard })).dashboard
      go none h = tt
      go (some state) h = record {
        keyed_positions = h.keyed_positions;
        keyed_links = h.keyed_links;
        linked = h.linked;
        audited = h.audited;
      }

  run_agent-KeepsLinked :
      (setup : Setup F) (input : Input F) (now_iso : String) (scored : Scored F)
      (candidates : List (AllocationCandidate F)) (session : Session F) (books : Books F T)
      → IsLinkedTo books session.desk.portfolio.positions
      → KeepsLinked tools
          (run_agent_and_record setup tools input now_iso scored candidates session books)
  unfolding run_agent_and_record
  run_agent-KeepsLinked setup input now_iso scored candidates session books h =
      go (drain_and_record setup tools board btc scored.snapshots input.now ready books)
        (drain-KeepsLinked setup board btc scored.snapshots input.now ready books h)
    where
      board : Board F
      board = board_of scored

      btc : Option RegimeTag
      btc = compute_btc_regime scored.snapshots

      ready : Session F
      ready = record session { agent = finish input.before_poll session.agent }

      go :
          (x : Kept F T (Unit {0}))
          → KeepsLinked tools x
          → KeepsLinked tools (
              sample_books tools now_iso
                (shown scored candidates btc (launched board candidates input (x.0, x.1)))
                x.2)
      go (err e, after, told) k = k
      go (ok done, after, told) k =
          let raced = record after { agent = finish input.after_poll after.agent } in
          let launched_session = launch board candidates input.now raced in
          let held = launched_session.desk.portfolio.positions in
          sampled-IsLinkedTo now_iso (trim launched_session) held (overtaken tools.codec told) (
            overtaken-IsLinkedTo tools.codec told held (
              subst (λ desk. IsLinkedTo told desk.portfolio.positions)
                (sym (launch_desk board candidates input.now raced)) k))

  step-KeepsLinked :
      (setup : Setup F) (input : Input F) (now_iso : String) (session : Session F)
      (books : Books F T)
      → Returns IsTitled input.fetched
      → IsLinkedTo books session.desk.portfolio.positions
      → KeepsLinked tools (step_and_record setup tools input now_iso session books)
  unfolding step_and_record fetch_and_score
  step-KeepsLinked setup input now_iso session books titled h =
      go (watch_and_record setup.engine.schedule tools scored.snapshots held session.desk books) (
        watch-LeavesLinked setup.engine.schedule tools scored.snapshots
          (scored_titled input.fetched titled) held session.desk books h)
    where
      scored : Scored F
      scored = fetch_and_score setup.forecaster setup.engine.cost_model setup.notional input.fetched

      held : List String
      held = map (λ e. e.0) session.desk.portfolio.positions

      scored_titled :
          (fetched : Result (Dict (MarketData F)))
          → Returns IsTitled fetched
          → IsTitled
              (fetch_and_score setup.forecaster setup.engine.cost_model setup.notional
                fetched).snapshots
      scored_titled (err e) k = tt
      scored_titled (ok snapshots) k = rw (score_snapshots setup snapshots _) k

      go :
          (x : Recorded F T (Unit {0}))
          → LeavesLinked tools x
          → KeepsLinked tools (rest_of_step setup tools input now_iso scored session x)
      go (err e, desk, told) k = k
      go (ok done, desk, told) k =
          elim (Result-cases (allocate (board_of scored) setup.max_positions false)) [
            | inl (candidates, ranks) ↦
                rw (rest_of_step, ranks)
                  (run_agent-KeepsLinked setup input now_iso scored candidates
                    (record session { desk = desk }) told k)
            | inr (e, failed) ↦ rw (rest_of_step, failed) (inl k)
          ]

  -- However many steps the loop makes, and wherever the turns of the anchoring thread fall between the
  -- steps and before each access of a step to the books, whatever the market, the agent, the
  -- anchoring service and the database answer, and also after an exception: an asset has a link on the
  -- dashboard exactly while it has an open position, each link names a row of the audit store, and
  -- every record in the worker's queue has been written to the store before. The one exception is a
  -- run that ends because the append of an entry's row was refused: then this holds without the
  -- position that had just been opened, which is open and unrecorded. It holds if it does at the start
  -- and each fetched snapshot is of the asset that it is filed under.
  pub run_and_record-IsLinkedTo :
      (setup : Setup F) (moments : List (Moment F)) (session : Session F) (books : Books F T)
      → All TitledMoment moments
      → IsLinkedTo books session.desk.portfolio.positions
      → let (session', books') = run_and_record setup tools moments session books in
        IsLinkedTo books' session'.desk.portfolio.positions
        ⊎ ((e : Error) × Unrecorded tools e books' session'.desk.portfolio.positions)
  unfolding run_and_record
  run_and_record-IsLinkedTo setup [] session books titled h = inl h
  run_and_record-IsLinkedTo setup (anchoring_turn answers ∷ moments) session books titled h =
      run_and_record-IsLinkedTo setup moments session _ titled.1
        (turn-IsLinkedTo tools.codec answers books session.desk.portfolio.positions h)
  run_and_record-IsLinkedTo setup (stepped input now_iso ∷ moments) session books titled h =
      go (run_and_record-IsLinkedTo setup moments)
        (step_and_record setup tools input now_iso session books)
        (step-KeepsLinked setup input now_iso session books titled.0 h)
    where
      go :
          ((after : Session F) (told : Books F T)
            → All TitledMoment moments
            → IsLinkedTo told after.desk.portfolio.positions
            → let (session', books') = run_and_record setup tools moments after told in
              IsLinkedTo books' session'.desk.portfolio.positions
              ⊎ ((e : Error) × Unrecorded tools e books' session'.desk.portfolio.positions))
          → (x : Kept F T (Shown F)) → KeepsLinked tools x
          → let (session', books') = repeat_and_record (run_and_record setup tools moments) x in
            IsLinkedTo books' session'.desk.portfolio.positions
            ⊎ ((e : Error) × Unrecorded tools e books' session'.desk.portfolio.positions)
      go later (ok out, after, told) k = later after told titled.1 k
      go later (err e, after, told) (inl k) = inl k
      go later (err e, after, told) (inr k) = inr (e, k)
