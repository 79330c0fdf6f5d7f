-- ===== src/Loop/Resolved.antt =====
-- What applying a decision returns: the decision itself or that decision with a veto.
use agora_perp_agent.Prelude.{
  ◌≡◌, ◌⊎◌, Bool, true, false, Option, List, [], ◌∷◌, inl, inr, refl, Each, Option-cases,
}
use agora_perp_agent.Prelude.Errors.{Result, ok, err, Returns}
use agora_perp_agent.Prelude.Dict.{Dict, lookup}
use agora_perp_agent.Float.Ops.{Float}
use agora_perp_agent.Contracts.{
  MarketData, SizedCandidate, PortfolioState, Fill, RegimeTag, Decision, Veto, has, Intent, enter,
  cut, flip, hold, skip, other_action, already_held, nothing_to_cut, no_snapshot,
}
use agora_perp_agent.Allocate.{Board}
use agora_perp_agent.Executor.{open_sized, close}
use agora_perp_agent.Loop.Decisions.{
  Engine, Desk, place, placed, enter_sized, close_out, closed_out, apply, vetoed,
}
use agora_perp_agent.Loop.Admitted.{Entered, enter_sized-Entered}
use agora_perp_agent.Loop.Step.{preceded, continued, apply_all}

-- The decision as it came, or with a reason why it was not carried out.
abbrev pub Resolved : {F : Type 0} → Decision F → Decision F → Type 0
Resolved {F} d d' = (d' ≡ d) ⊎ ((reason : Veto F) × (d' ≡ vetoed d reason))

module _ {F : Type 0} ⦃f : Float F⦄ (engine : Engine F) where
  enter_sized-Resolved :
      (board : Board F) (btc : Option RegimeTag) (snap : MarketData F) (d : Decision F)
      (desk : Desk F)
      → Returns (Resolved d) (enter_sized engine board btc snap d desk).0
  unfolding place
  enter_sized-Resolved board btc snap d desk =
      go _ (enter_sized-Entered engine board btc snap d desk)
    where
      filled :
          (sized : SizedCandidate F) (r : Result (Fill F) × PortfolioState F)
          → Returns (Resolved d) (placed d sized desk r).0
      filled sized (ok fill, p) = inl refl
      filled sized (err e, p) = tt

      go :
          (r : Result (Decision F) × Desk F)
          → Entered engine snap d desk r
          → Returns (Resolved d) r.0
      go r (inl (reason, e)) = rw e (inr (reason, refl))
      go r (inr (inl (x, e))) = rw e tt
      go r (inr (inr (sized, e, admitted))) =
          rw e (filled sized (open_sized engine.schedule sized snap desk.portfolio))

  close_out-Resolved :
      (snap : MarketData F) (d : Decision F) (rest : Desk F → Result (Decision F) × Desk F)
      (desk : Desk F)
      → ((after : Desk F) → Returns (Resolved d) (rest after).0)
      → Returns (Resolved d) (close_out engine snap d.asset rest desk).0
  unfolding close_out
  close_out-Resolved snap d rest desk keeps = go (close engine.schedule d.asset snap desk.portfolio)
    where
      go :
          (r : Result (Fill F) × PortfolioState F)
          → Returns (Resolved d) (closed_out d.asset rest desk r).0
      go (ok fill, p) = keeps _
      go (err e, p) = tt

  apply-Resolved :
      (board : Board F) (btc : Option RegimeTag) (snap : MarketData F) (d : Decision F)
      (desk : Desk F)
      → Returns (Resolved d) (apply engine board btc snap d desk).0
  unfolding apply
  apply-Resolved board btc snap d desk = go d.action refl (has desk.portfolio d.asset) refl
    where
      entry : (after : Desk F) → Returns (Resolved d) (enter_sized engine board btc snap d after).0
      entry after = enter_sized-Resolved board btc snap d after

      go :
          (action : Intent)
          → d.action ≡ action
          → (held : Bool) → has desk.portfolio d.asset ≡ held
          → Returns (Resolved d) (apply engine board btc snap d desk).0
      go enter e true h = simp (apply, e, h) (inr (already_held, refl))
      go enter e false h = simp (apply, e, h) (entry desk)
      go cut e true h =
          simp (apply, e, h)
            (close_out-Resolved snap d (λ after. (ok d, after)) desk (λ after. inl refl))
      go cut e false h = simp (apply, e, h) (inr (nothing_to_cut, refl))
      go flip e true h =
          simp (apply, e, h)
            (close_out-Resolved snap d (enter_sized engine board btc snap d) desk entry)
      go flip e false h = simp (apply, e, h) (entry desk)
      go hold e held h = simp (apply, e) (inl refl)
      go skip e held h = simp (apply, e) (inl refl)
      go other_action e held h = simp (apply, e) (inl refl)

  pub apply_all-Resolved :
      (board : Board F) (btc : Option RegimeTag) (snapshots : Dict (MarketData F))
      (ds : List (Decision F)) (desk : Desk F)
      → Returns (Each Resolved ds) (apply_all engine board btc snapshots ds desk).0
  unfolding apply_all
  apply_all-Resolved board btc snapshots [] desk = tt
  apply_all-Resolved board btc snapshots (d ∷ ds) desk =
      elim (Option-cases (lookup d.asset snapshots)) [
        | inl missing ↦
            rw (apply_all, missing)
              (before _ (inr (no_snapshot, refl)) (apply_all engine board btc snapshots ds desk)
                (apply_all-Resolved board btc snapshots ds desk))
        | inr (snap, found) ↦
            rw (apply_all, found)
              (go (apply_all-Resolved board btc snapshots ds) (apply engine board btc snap d desk)
                (apply-Resolved board btc snap d desk))
      ]
    where
      before :
          (d' : Decision F)
          → Resolved d d'
          → (r : Result (List (Decision F)) × Desk F) → Returns (Each Resolved ds) r.0
          → Returns (Each Resolved (d ∷ ds)) (preceded d' r).0
      before d' same (ok rest, after) k = (same, k)
      before d' same (err e, after) k = tt

      go :
          ((after : Desk F)
            → Returns (Each Resolved ds) (apply_all engine board btc snapshots ds after).0)
          → (r : Result (Decision F) × Desk F) → Returns (Resolved d) r.0
          → Returns
              (Each Resolved (d ∷ ds))
              (continued (apply_all engine board btc snapshots ds) r).0
      go later (ok d', after) same =
          before d' same (apply_all engine board btc snapshots ds after) (later after)
      go later (err e, after) same = tt
