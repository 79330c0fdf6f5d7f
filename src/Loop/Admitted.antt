-- ===== src/Loop/Admitted.antt =====
-- What the checks of an entry let through.
use agora_perp_agent.Prelude.{
  String, ◌≡◌, ◌⊎◌, refl, true, false, Option, ltb, inl, inr, length, Option-cases, Bool-cases,
}
use agora_perp_agent.Prelude.Errors.{Error, Result, ok, err, Result-cases}
use agora_perp_agent.Prelude.Dict.{lookup}
use agora_perp_agent.Float.Ops.{Float, zero}
use agora_perp_agent.Contracts.{
  MarketData, Forecast, CostAssessment, SizedCandidate, PortfolioState, RegimeTag, Decision, Veto,
  Side,
}
use agora_perp_agent.Tiers.{classify_tier}
use agora_perp_agent.Regime.{classify}
use agora_perp_agent.Sizing.{size}
use agora_perp_agent.Loop.Bars.{aggregate_to_1h}
use agora_perp_agent.Cost.{assess}
use agora_perp_agent.Risk.{evaluate}
use agora_perp_agent.Allocate.{Board}
use agora_perp_agent.Loop.Decisions.{
  Engine, Desk, Screened, refused, raised, passed, candidate_at, gate_sized, size_entry, screen,
  place, enter_sized, vetoed, min_1h_bars, regime_of,
}

module _ {F : Type 0} ⦃f : Float F⦄ (engine : Engine F) where
  -- A trade that the checks let through: it has a quantity, and the gate approved it at its own
  -- notional and the cost of that.
  abbrev pub Admitted : MarketData F → PortfolioState F → SizedCandidate F → Type 0
  Admitted snap p sized =
      (asset : String) × (side : Side) × (forecast : Forecast F) × (cost : CostAssessment F) × (f.le
          sized.qty zero
        ≡ false)
      × (assess engine.cost_model forecast snap sized.notional ≡ ok cost)
      × ((evaluate engine.gate (candidate_at asset side sized.notional forecast cost) p).approved
          ≡ true)

  abbrev AdmitsOnly : MarketData F → PortfolioState F → Screened F → Type 0
  AdmitsOnly snap p (refused reason) = Unit
  AdmitsOnly snap p (raised e) = Unit
  AdmitsOnly snap p (passed sized) = Admitted snap p sized

  gate_sized-AdmitsOnly :
      (snap : MarketData F) (p : PortfolioState F) (asset : String) (side : Side)
      (forecast : Forecast F) (regime : RegimeTag) (sized : SizedCandidate F)
      → AdmitsOnly snap p (gate_sized engine snap p asset side forecast regime sized)
  unfolding gate_sized
  gate_sized-AdmitsOnly snap p asset side forecast regime sized =
      elim (Bool-cases (f.le sized.qty zero)) [
        | inl nothing ↦ rw nothing tt
        | inr some_qty ↦
            elim (Result-cases (assess engine.cost_model forecast snap sized.notional)) [
              | inr (e, failed) ↦ rw (some_qty, failed) tt
              | inl (cost, costed) ↦
                  elim (Bool-cases
                    (evaluate engine.gate (candidate_at asset side sized.notional forecast cost)
                      p).approved) [
                        | inr vetoes ↦ rw (some_qty, costed, vetoes) tt
                        | inl approves ↦
                            rw (some_qty, costed, approves)
                              (asset, side, forecast, cost, some_qty, costed, approves)
                      ]
            ]
      ]

  size_entry-AdmitsOnly :
      (btc : Option RegimeTag) (snap : MarketData F) (p : PortfolioState F) (asset : String)
      (side : Side) (forecast : Forecast F) (cost : CostAssessment F)
      → AdmitsOnly snap p (size_entry engine btc snap p asset side (forecast, cost))
  unfolding size_entry
  size_entry-AdmitsOnly btc snap p asset side forecast cost =
      let bars_1h = aggregate_to_1h snap.bars in
      let tier = classify_tier asset in
      elim (Bool-cases (ltb (length bars_1h) min_1h_bars)) [
        | inl few ↦ rw few tt
        | inr enough ↦ elim (Result-cases (classify bars_1h snap.funding_rate tier)) [
          | inr (e, failed) ↦ rw (enough, failed) tt
          | inl (local_regime, tagged) ↦
              let regime = regime_of asset btc local_regime in
              elim (Result-cases (
                size engine.sizer (candidate_at asset side cost.notional forecast cost) snap bars_1h
                  p regime tier)) [
                    | inr (e, failed) ↦ rw (enough, tagged, failed) tt
                    | inl (sized, built) ↦
                        rw (enough, tagged, built)
                          (gate_sized-AdmitsOnly snap p asset side forecast regime sized)
                  ]
        ]
      ]

  screen-AdmitsOnly :
      (board : Board F) (btc : Option RegimeTag) (snap : MarketData F) (p : PortfolioState F)
      (decision : Decision F)
      → AdmitsOnly snap p (screen engine board btc snap p decision)
  unfolding screen
  screen-AdmitsOnly board btc snap p decision = elim (Option-cases decision.side) [
    | inl none_given ↦ rw (screen, none_given) tt
    | inr (side, given) ↦ elim (Option-cases (lookup decision.asset board)) [
      | inl missing ↦ rw (screen, given, missing) tt
      | inr ((forecast, cost), found) ↦
          rw (screen, given, found)
            (size_entry-AdmitsOnly btc snap p decision.asset side forecast cost)
    ]
  ]

  -- What entering does: nothing but a veto or an exception, or a call of the executor with a trade
  -- that the checks admitted.
  abbrev pub Entered : MarketData F → Decision F → Desk F → Result (Decision F) × Desk F → Type 0
  Entered snap d desk r =
      ((reason : Veto F) × (r ≡ (ok (vetoed d reason), desk)))
      ⊎ (((e : Error) × (r ≡ (err e, desk)))
          ⊎ ((sized : SizedCandidate F) × (r ≡ place engine snap d sized desk)
              × Admitted snap desk.portfolio sized))

  pub enter_sized-Entered :
      (board : Board F) (btc : Option RegimeTag) (snap : MarketData F) (d : Decision F)
      (desk : Desk F)
      → Entered snap d desk (enter_sized engine board btc snap d desk)
  unfolding enter_sized
  enter_sized-Entered board btc snap d desk =
      go (screen engine board btc snap desk.portfolio d)
        (screen-AdmitsOnly board btc snap desk.portfolio d)
    where
      go :
          (s : Screened F)
          → AdmitsOnly snap desk.portfolio s
          → Entered snap d desk (elim s [
            | refused reason ↦ (ok (vetoed d reason), desk)
            | raised e ↦ (err e, desk)
            | passed sized ↦ place engine snap d sized desk
          ])
      go (refused reason) h = inl (reason, refl)
      go (raised e) h = inr (inl (e, refl))
      go (passed sized) h = inr (inr (sized, refl, h))
