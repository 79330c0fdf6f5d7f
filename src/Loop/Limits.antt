-- ===== src/Loop/Limits.antt =====
-- Applying a decision keeps to the limit on open positions.
use agora_perp_agent.Prelude.{
  String, ◌≡◌, ◌≤◌, refl, Option, arith, inl, inr, length, Option-cases, Bool-cases, subst,
}
use agora_perp_agent.Prelude.Errors.{Result, ok, err}
use agora_perp_agent.Prelude.Dict.{length-insert, length-erase}
use agora_perp_agent.Float.Ops.{Float}
use agora_perp_agent.Contracts.{
  MarketData, SizedCandidate, PortfolioState, Fill, RegimeTag, Decision, has, Position, Intent,
  enter, cut, flip, hold, skip, other_action,
}
use agora_perp_agent.Risk.Admission.{admitted_open_count}
use agora_perp_agent.Allocate.{Board}
use agora_perp_agent.Executor.{open_sized, close, position_at, accrue_funding}
use agora_perp_agent.Executor.Outcome.{
  Closed, Opened, close_outcome, open_sized_outcome, close_missing,
}
use agora_perp_agent.Loop.Decisions.{
  Engine, Desk, candidate_at, place, enter_sized, close_out, apply, placed, closed_out,
}
use agora_perp_agent.Loop.Admitted.{Admitted, Entered, enter_sized-Entered}

module _ {F : Type 0} ⦃f : Float F⦄ (engine : Engine F) where
  -- A trade that is placed leaves no more positions than the gate allows.
  place_count :
      (snap : MarketData F) (d : Decision F) (sized : SizedCandidate F) (desk : Desk F)
      → Admitted engine snap desk.portfolio sized
      → length desk.portfolio.positions ≤ engine.gate.max_positions
      → length (place engine snap d sized desk).1.portfolio.positions ≤ engine.gate.max_positions
  unfolding place
  place_count snap d sized desk (asset, side, forecast, cost, _, _, approved) room =
      go (open_sized engine.schedule sized snap desk.portfolio) refl
    where
      go :
          (r : Result (Fill F) × PortfolioState F)
          → open_sized engine.schedule sized snap desk.portfolio ≡ r
          → length (placed d sized desk r).1.portfolio.positions ≤ engine.gate.max_positions
      go (ok fill, p) e =
          admitted_open_count engine.gate (candidate_at asset side sized.notional forecast cost)
            desk.portfolio engine.schedule sized snap fill p approved e
      go (err x, p) e =
          let same : p ≡ desk.portfolio =
            subst (Opened _ _ desk.portfolio) e
              (open_sized_outcome engine.schedule sized snap desk.portfolio) in
          rw same room

  Entered-count :
      (snap : MarketData F) (d : Decision F) (desk : Desk F) (r : Result (Decision F) × Desk F)
      → Entered engine snap d desk r
      → length desk.portfolio.positions ≤ engine.gate.max_positions
      → length r.1.portfolio.positions ≤ engine.gate.max_positions
  Entered-count snap d desk r (inl (reason, e)) room = rw e room
  Entered-count snap d desk r (inr (inl (x, e))) room = rw e room
  Entered-count snap d desk r (inr (inr (sized, e, admitted))) room =
      rw e (place_count snap d sized desk admitted room)

  -- Closing adds no position.
  pub close_count :
      (snap : MarketData F) (asset : String) (p : PortfolioState F)
      → length (close engine.schedule asset snap p).1.positions ≤ length p.positions
  close_count snap asset p = elim (Option-cases (position_at asset p)) [
    | inl missing ↦ rw (close_missing engine.schedule asset snap p missing) (omega arith)
    | inr (pos, held) ↦
        go (accrue_funding engine.schedule snap pos) (close engine.schedule asset snap p)
          (close_outcome engine.schedule asset snap pos p held)
  ]
    where
      go :
          (pos : Position F) (r : Result (Fill F) × PortfolioState F)
          → Closed asset pos p r
          → length r.1.positions ≤ length p.positions
      go pos (ok fill, p') (held, _, _, e) = rw e (ground (arith, length-erase asset p.positions))
      go pos (err x, p') (inl same) = rw same (omega arith)
      go pos (err x, p') (inr (held, same)) =
          rw same (ground (arith, length-insert asset pos p.positions))

  close_out_count :
      (snap : MarketData F) (asset : String) (rest : Desk F → Result (Decision F) × Desk F)
      (desk : Desk F)
      → ((after : Desk F)
          → length after.portfolio.positions ≤ engine.gate.max_positions
          → length (rest after).1.portfolio.positions ≤ engine.gate.max_positions)
      → length desk.portfolio.positions ≤ engine.gate.max_positions
      → length (close_out engine snap asset rest desk).1.portfolio.positions
        ≤ engine.gate.max_positions
  unfolding close_out
  close_out_count snap asset rest desk keeps room =
      go (close engine.schedule asset snap desk.portfolio)
        (omega (arith, close_count snap asset desk.portfolio, room))
    where
      go :
          (r : Result (Fill F) × PortfolioState F)
          → length r.1.positions ≤ engine.gate.max_positions
          → length (closed_out asset rest desk r).1.portfolio.positions ≤ engine.gate.max_positions
      go (ok fill, p) h = keeps _ h
      go (err x, p) h = h

  -- Applying any decision, to its end or to an exception, leaves no more positions than the gate's
  -- limit, if there were no more before.
  pub apply_count :
      (board : Board F) (btc : Option RegimeTag) (snap : MarketData F) (d : Decision F)
      (desk : Desk F)
      → length desk.portfolio.positions ≤ engine.gate.max_positions
      → length (apply engine board btc snap d desk).1.portfolio.positions
        ≤ engine.gate.max_positions
  unfolding apply
  apply_count board btc snap d desk room = go d.action refl
    where
      entry :
          (after : Desk F)
          → length after.portfolio.positions ≤ engine.gate.max_positions
          → length (enter_sized engine board btc snap d after).1.portfolio.positions
            ≤ engine.gate.max_positions
      entry after h =
          Entered-count snap d after _ (enter_sized-Entered engine board btc snap d after) h

      closing :
          (rest : Desk F → Result (Decision F) × Desk F)
          → ((after : Desk F)
              → length after.portfolio.positions ≤ engine.gate.max_positions
              → length (rest after).1.portfolio.positions ≤ engine.gate.max_positions)
          → length (close_out engine snap d.asset rest desk).1.portfolio.positions
            ≤ engine.gate.max_positions
      closing rest keeps = close_out_count snap d.asset rest desk keeps room

      go :
          (action : Intent)
          → d.action ≡ action
          → length (apply engine board btc snap d desk).1.portfolio.positions
            ≤ engine.gate.max_positions
      go enter e = elim (Bool-cases (has desk.portfolio d.asset)) [
        | inl held ↦ ground arith
        | inr free ↦ ground (arith, entry desk room)
      ]
      go cut e = elim (Bool-cases (has desk.portfolio d.asset)) [
        | inl held ↦ ground (arith, closing (λ after. (ok d, after)) (λ after h. h))
        | inr free ↦ ground arith
      ]
      go flip e = elim (Bool-cases (has desk.portfolio d.asset)) [
        | inl held ↦ ground (arith, closing (enter_sized engine board btc snap d) entry)
        | inr free ↦ ground (arith, entry desk room)
      ]
      go hold e = ground arith
      go skip e = ground arith
      go other_action e = ground arith
