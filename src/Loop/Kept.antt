-- ===== src/Loop/Kept.antt =====
-- What applying decisions and watching the levels keep of the desk: the portfolio's map stays well
-- formed and no more than twenty fills are remembered.
use agora_perp_agent.Prelude.{
  String, ◌≡◌, ◌≤◌, Option, List, [], ◌∷◌, ◌++◌, arith, inl, inr, length, length-take_last,
  Option-cases, Bool, true, false, refl,
}
use agora_perp_agent.Prelude.Errors.{Result, ok, err}
use agora_perp_agent.Prelude.Dict.{length-insert}
use agora_perp_agent.Float.Ops.{Float}
use agora_perp_agent.Contracts.{
  FeeSchedule, MarketData, SizedCandidate, PortfolioState, Fill, RegimeTag, Decision, has, Intent,
  enter, cut, flip, hold, skip, other_action,
}
use agora_perp_agent.Allocate.{Board}
use agora_perp_agent.Executor.{open_sized, close, check_stops, tick, tick_position, position_at}
use agora_perp_agent.Executor.Outcome.{check_stops_cases, fired}
use agora_perp_agent.Executor.Ledger.{open_plan, cut as cut_call, call}
use agora_perp_agent.Executor.Invariant.{IsConsistent, call-IsConsistent}
use agora_perp_agent.Loop.Decisions.{
  Engine, Desk, remember, place, placed, enter_sized, close_out, closed_out, apply,
}
use agora_perp_agent.Loop.Admitted.{Entered, enter_sized-Entered}
use agora_perp_agent.Loop.Limits.{close_count}

pub record IsTidy {F : Type 0} (desk : Desk F) : Type 0 where
  pub consistent : IsConsistent desk.portfolio
  pub recent : length desk.recent_fills ≤ 20

module _ {F : Type 0} ⦃f : Float F⦄ (engine : Engine F) where
  pub after_fill : (fill : Fill F) (fills : List (Fill F)) → length (remember fill fills) ≤ 20
  after_fill fill fills = length-take_last 20 (fills ++ fill ∷ [])

  place-IsTidy :
      (snap : MarketData F) (d : Decision F) (sized : SizedCandidate F) (desk : Desk F)
      → IsTidy desk
      → IsTidy (place engine snap d sized desk).1
  unfolding place call
  place-IsTidy snap d sized desk tidy =
      go (open_sized engine.schedule sized snap desk.portfolio)
        (call-IsConsistent engine.schedule (open_plan sized snap) desk.portfolio tidy.consistent)
    where
      go :
          (r : Result (Fill F) × PortfolioState F)
          → IsConsistent r.1
          → IsTidy (placed d sized desk r).1
      go (ok fill, p) h = record { consistent = h; recent = after_fill fill desk.recent_fills }
      go (err e, p) h = record { consistent = h; recent = tidy.recent }

  enter_sized-IsTidy :
      (board : Board F) (btc : Option RegimeTag) (snap : MarketData F) (d : Decision F)
      (desk : Desk F)
      → IsTidy desk
      → IsTidy (enter_sized engine board btc snap d desk).1
  enter_sized-IsTidy board btc snap d desk tidy =
      go _ (enter_sized-Entered engine board btc snap d desk)
    where
      go : (r : Result (Decision F) × Desk F) → Entered engine snap d desk r → IsTidy r.1
      go r (inl (reason, e)) = rw e tidy
      go r (inr (inl (x, e))) = rw e tidy
      go r (inr (inr (sized, e, admitted))) = rw e (place-IsTidy snap d sized desk tidy)

  close_out-IsTidy :
      (snap : MarketData F) (asset : String) (rest : Desk F → Result (Decision F) × Desk F)
      (desk : Desk F)
      → ((after : Desk F) → IsTidy after → IsTidy (rest after).1)
      → IsTidy desk
      → IsTidy (close_out engine snap asset rest desk).1
  unfolding close_out call
  close_out-IsTidy snap asset rest desk keeps tidy =
      go (close engine.schedule asset snap desk.portfolio)
        (call-IsConsistent engine.schedule (cut_call asset snap) desk.portfolio tidy.consistent)
    where
      go :
          (r : Result (Fill F) × PortfolioState F)
          → IsConsistent r.1
          → IsTidy (closed_out asset rest desk r).1
      go (ok fill, p) h =
          keeps _ (record { consistent = h; recent = after_fill fill desk.recent_fills })
      go (err e, p) h = record { consistent = h; recent = tidy.recent }

  pub apply-IsTidy :
      (board : Board F) (btc : Option RegimeTag) (snap : MarketData F) (d : Decision F)
      (desk : Desk F)
      → IsTidy desk
      → IsTidy (apply engine board btc snap d desk).1
  unfolding apply
  apply-IsTidy board btc snap d desk tidy = go d.action refl (has desk.portfolio d.asset) refl
    where
      entry : (after : Desk F) → IsTidy after → IsTidy (enter_sized engine board btc snap d after).1
      entry after = enter_sized-IsTidy board btc snap d after

      go :
          (action : Intent)
          → d.action ≡ action
          → (held : Bool) → has desk.portfolio d.asset ≡ held
          → IsTidy (apply engine board btc snap d desk).1
      go enter e true h = rw (apply, e, h) tidy
      go enter e false h = rw (apply, e, h) (entry desk tidy)
      go cut e true h =
          rw (apply, e, h)
            (close_out-IsTidy snap d.asset (λ after. (ok d, after)) desk (λ after k. k) tidy)
      go cut e false h = rw (apply, e, h) tidy
      go flip e true h =
          rw (apply, e, h)
            (close_out-IsTidy snap d.asset (enter_sized engine board btc snap d) desk entry tidy)
      go flip e false h = rw (apply, e, h) (entry desk tidy)
      go hold e held h = rw (apply, e) tidy
      go skip e held h = rw (apply, e) tidy
      go other_action e held h = rw (apply, e) tidy

  -- Watching the levels adds no position.
  pub tick_count :
      (s : FeeSchedule F) (m : MarketData F) (p : PortfolioState F)
      → length (tick s m p).positions ≤ length p.positions
  unfolding tick
  tick_count s m p = elim (Option-cases (position_at m.asset p)) [
    | inl missing ↦ rw (tick, missing) (omega arith)
    | inr (pos, held) ↦
        rw (tick, held)
          (ground (arith, held, length-insert m.asset (tick_position s m pos) p.positions))
  ]

  pub check_stops_count :
      (snap : MarketData F) (p : PortfolioState F)
      → length (check_stops engine.schedule snap p).1.positions ≤ length p.positions
  check_stops_count snap p = elim (check_stops_cases engine.schedule snap p) [
    | inl quiet ↦ rw quiet (omega arith)
    | inr closes ↦
        rw closes
          (go (close engine.schedule snap.asset snap p) (close_count engine snap snap.asset p))
  ]
    where
      go :
          (r : Result (Fill F) × PortfolioState F)
          → length r.1.positions ≤ length p.positions
          → length (fired r).1.positions ≤ length p.positions
      go (ok fill, p') h = h
      go (err e, p') h = h
