-- ===== src/Risk/Admission.antt =====
-- What an approval guarantees, what a veto reports, and what an admitted opening leaves.
use agora_perp_agent.Prelude.{◌≡◌, ◌≤◌, ◌<◌, ◌↔◌, true, false, arith, length, subst}
use agora_perp_agent.Prelude.Errors.{ok}
use agora_perp_agent.Prelude.Dict.{length-insert}
use agora_perp_agent.Float.Ops.{Float, ◌+◌, ◌≼◌}
use agora_perp_agent.Float.Laws.{IsLawful}
use agora_perp_agent.Contracts.{
  AllocationCandidate, PortfolioState, RiskConfig, Reason, approval, edge_below, already_open,
  max_open, over_position_cap, over_exposure_cap, has, exposure_usd, FeeSchedule, SizedCandidate,
  MarketData, Fill,
}
use agora_perp_agent.Executor.{open_sized, sized_position}
use agora_perp_agent.Executor.Outcome.{Opened, open_sized_outcome}
use agora_perp_agent.Risk.{evaluate}

module _ {F : Type 0} ⦃f : Float F⦄ (cfg : RiskConfig F) (c : AllocationCandidate F)
    (p : PortfolioState F) where
  -- The five limits.
  abbrev pub EdgeFits : Type 0
  EdgeFits = cfg.min_edge_after_cost_bps ≼ c.cost.edge_after_cost_bps

  abbrev pub HasRoom : Type 0
  HasRoom = length p.positions < cfg.max_positions

  abbrev pub NotionalFits : Type 0
  NotionalFits = c.notional ≼ cfg.max_notional_per_position_usd

  abbrev pub ExposureFits : Type 0
  ExposureFits = exposure_usd p + c.notional ≼ cfg.max_total_exposure_usd

  -- The rule that a reason names fails, and the rules before it hold.
  abbrev pub FirstFailure : Reason F → Type 0
  FirstFailure approval = EdgeFits × (has p c.asset ≡ false) × HasRoom × NotionalFits × ExposureFits
  FirstFailure (edge_below edge least) =
      (edge ≡ c.cost.edge_after_cost_bps) × (least ≡ cfg.min_edge_after_cost_bps) × (¬ EdgeFits)
  FirstFailure (already_open asset) = (asset ≡ c.asset) × EdgeFits × (has p c.asset ≡ true)
  FirstFailure (max_open n) =
      (n ≡ cfg.max_positions) × EdgeFits × (has p c.asset ≡ false) × (¬ HasRoom)
  FirstFailure (over_position_cap notional cap) =
      (notional ≡ c.notional)
      × (cap ≡ cfg.max_notional_per_position_usd)
      × EdgeFits
      × (has p c.asset ≡ false)
      × HasRoom
      × (¬ NotionalFits)
  FirstFailure (over_exposure_cap projected cap) =
      (projected ≡ exposure_usd p + c.notional)
      × (cap ≡ cfg.max_total_exposure_usd)
      × EdgeFits
      × (has p c.asset ≡ false)
      × HasRoom
      × NotionalFits
      × (¬ ExposureFits)

  module _ (laws : IsLawful F) where
    -- The reason of the verdict is the first of the five rules that fails, with its numbers, or the
    -- approval if none does; and the verdict approves exactly when all five rules hold.
    pub evaluate-FirstFailure :
        FirstFailure (evaluate cfg c p).reason
        × (((evaluate cfg c p).approved ≡ true) ↔ FirstFailure approval)
    unfolding evaluate
    evaluate-FirstFailure = (reasons, approvals)
      where
        reasons : FirstFailure (evaluate cfg c p).reason
        reasons = ground (
          arith,
          laws.lt-not-le c.cost.edge_after_cost_bps cfg.min_edge_after_cost_bps,
          laws.lt-not-le cfg.max_notional_per_position_usd c.notional,
          laws.lt-not-le cfg.max_total_exposure_usd (exposure_usd p + c.notional),
        )

        approvals : ((evaluate cfg c p).approved ≡ true) ↔ FirstFailure approval
        approvals = ground (
          arith,
          laws.lt-not-le c.cost.edge_after_cost_bps cfg.min_edge_after_cost_bps,
          laws.lt-not-le cfg.max_notional_per_position_usd c.notional,
          laws.lt-not-le cfg.max_total_exposure_usd (exposure_usd p + c.notional),
        )

  -- After an approval, a sized trade that opens on the same portfolio leaves no more positions than the
  -- limit.
  pub admitted_open_count :
      (s : FeeSchedule F) (sized : SizedCandidate F) (m : MarketData F) (fill : Fill F)
      (p' : PortfolioState F)
      → (evaluate cfg c p).approved ≡ true
      → open_sized s sized m p ≡ (ok fill, p')
      → length p'.positions ≤ cfg.max_positions
  unfolding evaluate
  admitted_open_count s sized m fill p' approved opens =
      let outcome = open_sized_outcome s sized m p in
      let (_, _, _, e) = subst (Opened _ _ p) opens outcome in
      rw e (
        ground (
          arith,
          length-insert sized.candidate.asset (sized_position sized m fill.price) p.positions,
        ))
