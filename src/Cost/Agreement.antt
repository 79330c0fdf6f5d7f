-- ===== src/Cost/Agreement.antt =====
-- The cost model against the executor and the allocator, which repeat its formulas.
use agora_perp_agent.Prelude.{◌≡◌, refl, true, arith, inl, inr}
use agora_perp_agent.Prelude.Errors.{ok, Result-cases}
use agora_perp_agent.Float.Ops.{Float, lit, ◌+◌, ◌-◌, ◌*◌, zero, ◌≼◌}
use agora_perp_agent.Float.Laws.{IsLawful, sub_nonpos, le_of_not_le, le-add}
use agora_perp_agent.Contracts.{MarketData, Forecast, CostAssessment}
use agora_perp_agent.Cost.{
  CostModel, assess, side_slippage_bps, funding_bps, direction, signed_move_bps, eps,
}
use agora_perp_agent.Executor.{side_slippage}
use agora_perp_agent.Allocate.{side_of}

module _ {F : Type 0} ⦃f : Float F⦄ where
  slippage_agrees :
      (model : CostModel F) (m : MarketData F) (notional : F)
      → side_slippage_bps model notional m ≡ side_slippage model.schedule notional m
  unfolding side_slippage_bps side_slippage
  slippage_agrees model m notional = ground arith

  -- The executor slips by exactly what the model charges: an assessment holds twice the one-side
  -- slippage that an executor with the same schedule fills at for that notional and snapshot.
  pub assess_slippage_agrees :
      (model : CostModel F) (fc : Forecast F) (m : MarketData F) (notional : F)
      (cost : CostAssessment F)
      → assess model fc m notional ≡ ok cost
      → (slippage : F) × (side_slippage model.schedule notional m ≡ ok slippage)
        × (cost.slippage_bps ≡ lit 2 0 * slippage)
  unfolding assess
  assess_slippage_agrees model fc m notional cost e =
      rw (← slippage_agrees model m notional)
        (elim (Result-cases (side_slippage_bps model notional m)) [
          | inl (slippage, quoted) ↦ elim (Result-cases (funding_bps model m (direction fc))) [
            | inl (funding, due) ↦ (slippage, quoted, ground arith)
            | inr (error, raised) ↦ absurd (ground arith)
          ]
          | inr (error, raised) ↦ absurd (ground arith)
        ])

  side_of-direction : (fc : Forecast F) → side_of fc ≡ direction fc
  unfolding side_of direction
  side_of-direction fc = refl

  -- The edge of an assessment, and its flag.
  assess_edge :
      (model : CostModel F) (fc : Forecast F) (m : MarketData F) (notional : F)
      (cost : CostAssessment F)
      → assess model fc m notional ≡ ok cost
      → (cost.edge_after_cost_bps ≡ signed_move_bps fc (direction fc) - cost.breakeven_bps)
        × (cost.is_tradeable ≡ f.lt (zero + eps) cost.edge_after_cost_bps)
  unfolding assess
  assess_edge model fc m notional cost e =
      elim (Result-cases (side_slippage_bps model notional m)) [
        | inl (slippage, quoted) ↦ elim (Result-cases (funding_bps model m (direction fc))) [
          | inl (funding, due) ↦ (ground arith, ground arith)
          | inr (error, raised) ↦ absurd (ground arith)
        ]
        | inr (error, raised) ↦ absurd (ground arith)
      ]

  module _ (laws : IsLawful F) where
    beats : (gross cost : F) → f.lt (zero + eps) (gross - cost) ≡ true → cost ≼ gross
    beats gross cost h =
        let tolerance = laws.lit-le 0 0 1 12 (omega arith) in
        ground (
          arith,
          le_of_not_le laws cost gross,
          sub_nonpos laws gross cost,
          le-add laws zero eps tolerance,
          laws.le_trans (gross - cost) zero (zero + eps),
          laws.lt-not-le (zero + eps) (gross - cost),
        )

    -- An assessment that is tradeable expects a move, in the direction that the allocator trades, of
    -- at least the round trip's cost.
    pub tradeable_beats_cost :
        (model : CostModel F) (fc : Forecast F) (m : MarketData F) (notional : F)
        (cost : CostAssessment F)
        → assess model fc m notional ≡ ok cost
        → cost.is_tradeable ≡ true
        → cost.breakeven_bps ≼ signed_move_bps fc (side_of fc)
    tradeable_beats_cost model fc m notional cost e tradeable =
        let (edge, flag) = assess_edge model fc m notional cost e in
        rw (side_of-direction fc)
          (beats (signed_move_bps fc (direction fc)) cost.breakeven_bps (ground arith))
