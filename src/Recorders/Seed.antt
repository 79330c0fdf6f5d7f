-- ===== src/Recorders/Seed.antt =====
-- The candidate of a trade that the checks of an entry let through is that of the decision, with the
-- forecast and the cost of the board.
use agora_perp_agent.Prelude.{
  String, ◌≡◌, Option, some, ltb, inl, inr, length, Option-cases, Bool-cases,
}
use agora_perp_agent.Prelude.Errors.{Result-cases}
use agora_perp_agent.Prelude.Dict.{lookup}
use agora_perp_agent.Float.Ops.{Float, zero}
use agora_perp_agent.Contracts.{
  MarketData, Forecast, CostAssessment, AllocationCandidate, SizedCandidate, PortfolioState,
  RegimeTag, Decision, Side,
}
use agora_perp_agent.Tiers.{classify_tier}
use agora_perp_agent.Regime.{classify}
use agora_perp_agent.Sizing.{size}
use agora_perp_agent.Sizing.Steps.{size_steps}
use agora_perp_agent.Cost.{assess}
use agora_perp_agent.Risk.{evaluate}
use agora_perp_agent.Allocate.{Board}
use agora_perp_agent.Loop.Bars.{aggregate_to_1h}
use agora_perp_agent.Loop.Decisions.{
  Engine, Screened, refused, raised, passed, candidate_at, gate_sized, size_entry, screen,
  min_1h_bars, regime_of,
}

module _ {F : Type 0} ⦃f : Float F⦄ (engine : Engine F) where
  abbrev PassesOnly : AllocationCandidate F → Screened F → Type 0
  PassesOnly c (refused reason) = Unit
  PassesOnly c (raised e) = Unit
  PassesOnly c (passed sized) = sized.candidate ≡ c

  gate_sized-PassesOnly :
      (snap : MarketData F) (p : PortfolioState F) (asset : String) (side : Side)
      (forecast : Forecast F) (regime : RegimeTag) (sized : SizedCandidate F)
      (c : AllocationCandidate F)
      → sized.candidate ≡ c
      → PassesOnly c (gate_sized engine snap p asset side forecast regime sized)
  unfolding gate_sized
  gate_sized-PassesOnly snap p asset side forecast regime sized c same =
      elim (Bool-cases (f.le sized.qty zero)) [
        | inl nothing ↦ rw nothing tt
        | inr some_qty ↦
            elim (Result-cases (assess engine.cost_model forecast snap sized.notional)) [
              | inr (e, failed) ↦ rw (some_qty, failed) tt
              | inl (cost, costed) ↦
                  elim (Bool-cases
                    (evaluate engine.gate (candidate_at asset side sized.notional forecast cost)
                      p).approved) [
                        | inr vetoes ↦ rw (some_qty, costed, vetoes) tt
                        | inl approves ↦ rw (some_qty, costed, approves) same
                      ]
            ]
      ]

  size_entry-PassesOnly :
      (btc : Option RegimeTag) (snap : MarketData F) (p : PortfolioState F) (asset : String)
      (side : Side) (forecast : Forecast F) (cost : CostAssessment F)
      → PassesOnly
          (candidate_at asset side cost.notional forecast cost)
          (size_entry engine btc snap p asset side (forecast, cost))
  unfolding size_entry
  size_entry-PassesOnly btc snap p asset side forecast cost =
      let bars_1h = aggregate_to_1h snap.bars in
      let tier = classify_tier asset in
      let seed = candidate_at asset side cost.notional forecast cost in
      elim (Bool-cases (ltb (length bars_1h) min_1h_bars)) [
        | inl few ↦ rw few tt
        | inr enough ↦ elim (Result-cases (classify bars_1h snap.funding_rate tier)) [
          | inr (e, failed) ↦ rw (enough, failed) tt
          | inl (local_regime, tagged) ↦
              let regime = regime_of asset btc local_regime in
              elim (Result-cases (size engine.sizer seed snap bars_1h p regime tier)) [
                | inr (e, failed) ↦ rw (enough, tagged, failed) tt
                | inl (sized, built) ↦
                    let (_, _, _, _, _, _, _, _, _, parts) =
                      size_steps engine.sizer seed snap bars_1h p regime tier sized built in
                    rw (enough, tagged, built)
                      (gate_sized-PassesOnly snap p asset side forecast regime sized seed parts.0)
              ]
        ]
      ]

  -- The seed of the decision: its asset and side, with the board's entry.
  abbrev pub IsSeed : Board F → Decision F → AllocationCandidate F → Type 0
  IsSeed board d c =
      (side : Side) × (forecast : Forecast F) × (cost : CostAssessment F) × (d.side ≡ some side)
      × (lookup d.asset board ≡ some (forecast, cost))
      × (c ≡ candidate_at d.asset side cost.notional forecast cost)

  abbrev pub PassesSeed : Board F → Decision F → Screened F → Type 0
  PassesSeed board d (refused reason) = Unit
  PassesSeed board d (raised e) = Unit
  PassesSeed board d (passed sized) = IsSeed board d sized.candidate

  pub screen-PassesSeed :
      (board : Board F) (btc : Option RegimeTag) (snap : MarketData F) (p : PortfolioState F)
      (d : Decision F)
      → PassesSeed board d (screen engine board btc snap p d)
  unfolding screen
  screen-PassesSeed board btc snap p d = elim (Option-cases d.side) [
    | inl none_given ↦ simp (screen, none_given) tt
    | inr (side, given) ↦ elim (Option-cases (lookup d.asset board)) [
      | inl missing ↦ simp (screen, given, missing) tt
      | inr ((forecast, cost), found) ↦
          simp (screen, given, found)
            (seeded side forecast cost given found
              (size_entry engine btc snap p d.asset side (forecast, cost))
              (size_entry-PassesOnly btc snap p d.asset side forecast cost))
    ]
  ]
    where
      seeded :
          (side : Side) (forecast : Forecast F) (cost : CostAssessment F)
          → d.side ≡ some side
          → lookup d.asset board ≡ some (forecast, cost)
          → (s : Screened F) → PassesOnly (candidate_at d.asset side cost.notional forecast cost) s
          → PassesSeed board d s
      seeded side forecast cost given found (refused reason) h = tt
      seeded side forecast cost given found (raised e) h = tt
      seeded side forecast cost given found (passed sized) h =
          (side, forecast, cost, given, found, h)
