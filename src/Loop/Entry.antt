-- ===== src/Loop/Entry.antt =====
-- What an entry that is not vetoed went through.
use agora_perp_agent.Prelude.{◌≡◌, ◌<◌, false, Option, none, arith, inl, inr, length, ap, ◌∙◌, sym}
use agora_perp_agent.Prelude.Errors.{Result, ok, err}
use agora_perp_agent.Float.Ops.{Float, ◌+◌, zero, ◌≼◌}
use agora_perp_agent.Float.Laws.{IsLawful}
use agora_perp_agent.Contracts.{
  MarketData, SizedCandidate, PortfolioState, Fill, RegimeTag, Decision, exposure_usd,
}
use agora_perp_agent.Risk.Admission.{evaluate-FirstFailure}
use agora_perp_agent.Allocate.{Board}
use agora_perp_agent.Executor.{open_sized}
use agora_perp_agent.Loop.Decisions.{Engine, Desk, candidate_at, place, placed, enter_sized, vetoed}
use agora_perp_agent.Loop.Admitted.{Entered, enter_sized-Entered}

module _ {F : Type 0} ⦃f : Float F⦄ (engine : Engine F) where
  same_decision :
      (d d' : Decision F) (desk desk' : Desk F)
      → ◌≡◌ {A = Result (Decision F) × Desk F} (ok d, desk) (ok d', desk')
      → d ≡ d'
  same_decision d d' desk desk' e = ap (λ r. elim r.0 [ ok x ↦ x | err x ↦ d' ]) e

  -- A placed trade that comes back was opened on the portfolio.
  place_opens :
      (snap : MarketData F) (d : Decision F) (sized : SizedCandidate F) (desk : Desk F)
      (d' : Decision F) (desk' : Desk F)
      → place engine snap d sized desk ≡ (ok d', desk')
      → (fill : Fill F) × (open_sized engine.schedule sized snap desk.portfolio
          ≡ (ok fill, desk'.portfolio))
  unfolding place
  place_opens snap d sized desk d' desk' e =
      go (open_sized engine.schedule sized snap desk.portfolio) e
    where
      go :
          (r : Result (Fill F) × PortfolioState F)
          → placed d sized desk r ≡ (ok d', desk')
          → (fill : Fill F) × (r ≡ (ok fill, desk'.portfolio))
      go (ok fill, p) e = (fill, ap (λ r. (ok fill, r.1.portfolio)) e)
      go (err x, p) e = absurd (ground arith)

  -- A sized trade of a positive quantity was opened, and the gate's limits had room for it.
  abbrev pub OpensWithin : MarketData F → Desk F → Desk F → Type 0
  OpensWithin snap desk desk' =
      (sized : SizedCandidate F) × (fill : Fill F) × (open_sized engine.schedule sized snap
          desk.portfolio
        ≡ (ok fill, desk'.portfolio))
      × (f.le sized.qty zero ≡ false)
      × (length desk.portfolio.positions < engine.gate.max_positions)
      × (sized.notional ≼ engine.gate.max_notional_per_position_usd)
      × (exposure_usd desk.portfolio + sized.notional ≼ engine.gate.max_total_exposure_usd)

  module _ (laws : IsLawful F) where
    -- An entry that returns without a veto has opened a sized trade of a positive quantity that fits
    -- the gate's limits: there was room for one more position, and its notional is within the cap of
    -- a position and, with the exposure before, within the cap of the exposure.
    pub entry_within_limits :
        (board : Board F) (btc : Option RegimeTag) (snap : MarketData F) (d : Decision F)
        (desk : Desk F) (d' : Decision F) (desk' : Desk F)
        → enter_sized engine board btc snap d desk ≡ (ok d', desk')
        → d'.vetoed_reason ≡ none
        → OpensWithin snap desk desk'
    entry_within_limits board btc snap d desk d' desk' e free =
        go (enter_sized-Entered engine board btc snap d desk)
      where
        go :
            Entered engine snap d desk (enter_sized engine board btc snap d desk)
            → OpensWithin snap desk desk'
        go (inl (reason, refusal)) =
            let same = same_decision (vetoed d reason) d' desk desk' (sym refusal ∙ e) in
            absurd (ground arith)
        go (inr (inl (x, raising))) = absurd (ground arith)
        go (inr (inr (sized, places, admitted))) =
            let (asset, side, forecast, cost, positive, _, approved) = admitted in
            let (fill, opens) = place_opens snap d sized desk d' desk' (sym places ∙ e) in
            let limits =
              (evaluate-FirstFailure engine.gate
                  (candidate_at asset side sized.notional forecast cost) desk.portfolio laws).1.0
                approved in
            (sized, fill, opens, positive, limits.2, limits.3, limits.4)
