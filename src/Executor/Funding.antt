-- ===== src/Executor/Funding.antt =====
-- `_accrue_funding` and `tick`: a period is charged once, in the direction of the rate.
use agora_perp_agent.Prelude.{
  String, ◌≡◌, true, false, none, some, arith, inl, inr, Option-cases, Bool-cases, ◌==◌, ◌⊎◌,
  eq_iff, if◌then◌else◌,
}
use agora_perp_agent.Prelude.Dict.{insert-insert, lookup-insert}
use agora_perp_agent.Float.Ops.{Float, lit, ◌*◌, ◌/◌, zero, one, ◌≼◌}
use agora_perp_agent.Float.Laws.{
  IsLawful, le_of_not_le, mul_nonpos, mul_nonneg, add-le, le-add, neg_nonpos,
}
use agora_perp_agent.Contracts.{is_long, MarketData, FeeSchedule, Position, PortfolioState}
use agora_perp_agent.Cost.{eps}
use agora_perp_agent.Executor.{position_at, accrue_funding, seconds_since, tick, tick_position}

module _ {F : Type 0} ⦃f : Float F⦄ where
  tick_position_twice :
      (s : FeeSchedule F) (m : MarketData F) (pos : Position F)
      → tick_position s m (tick_position s m pos) ≡ tick_position s m pos
  unfolding tick_position accrue_funding
  tick_position_twice s m pos = ground arith

  -- A second tick on the same snapshot changes nothing.
  pub tick-tick :
      (s : FeeSchedule F) (m : MarketData F) (p : PortfolioState F)
      → tick s m (tick s m p) ≡ tick s m p
  unfolding tick
  tick-tick s m p = elim (Option-cases (position_at m.asset p)) [
    | inl missing ↦ ground arith
    | inr (pos, held) ↦ ground (
      arith,
      lookup-insert m.asset m.asset (tick_position s m pos) p.positions,
      eq_iff m.asset m.asset,
      insert-insert m.asset (tick_position s m pos) (tick_position s m pos) p.positions,
      tick_position_twice s m pos,
    )
  ]

  -- A tick changes the position on the snapshot's asset alone, if there is one, as `tick_position`
  -- says, and leaves what is stored for every other asset.
  pub lookup-tick :
      (s : FeeSchedule F) (m : MarketData F) (p : PortfolioState F) (asset : String)
      → position_at asset (tick s m p) ≡ (
          if m.asset == asset
          then elim (position_at asset p) [ none ↦ none | some pos ↦ some (tick_position s m pos) ]
          else position_at asset p)
  unfolding tick
  lookup-tick s m p asset = elim (Option-cases (position_at m.asset p)) [
    | inl missing ↦ ground (arith, eq_iff m.asset asset)
    | inr (pos, held) ↦ ground (
      arith,
      eq_iff m.asset asset,
      lookup-insert m.asset asset (tick_position s m pos) p.positions,
    )
  ]

  module _ (laws : IsLawful F) where
    above_eps : (a : F) → f.le a eps ≡ false → f.le a zero ≡ false
    above_eps a h = ground (arith, laws.le_trans a zero eps, laws.lit-le 0 0 1 12 (omega arith))

    one_nonneg : f.lit 0 0 ≼ f.lit 1 0
    one_nonneg = laws.lit-le 0 0 1 0 (omega arith)

    share_nonneg :
        (elapsed period : F)
        → f.le period eps ≡ false
        → f.le elapsed zero ≡ false
        → zero ≼ f.quotient elapsed period
    share_nonneg elapsed period due time =
        laws.quotient_nonneg elapsed period (le_of_not_le laws _ _ time) (above_eps period due)

    long_pays :
        (s : FeeSchedule F) (m : MarketData F) (pos : Position F)
        → zero ≼ m.funding_rate
        → zero ≼ m.mark_price
        → zero ≼ pos.qty
        → is_long pos.side ≡ true
        → (accrue_funding s m pos).accrued_funding_usd ≼ pos.accrued_funding_usd
    unfolding accrue_funding
    long_pays s m pos rate mark qty is =
        let period = s.funding_period_hours * lit 60 0 in
        let elapsed = seconds_since m.timestamp pos.last_funding_ts / lit 60 0 in
        let same = laws.le_refl pos.accrued_funding_usd in
        elim (Bool-cases (f.le period eps)) [
          | inl none_due ↦ rw none_due same
          | inr due ↦ elim (Bool-cases (f.le elapsed zero)) [
            | inl no_time ↦ rw (due, no_time) same
            | inr time ↦
                rw (due, time, is)
                  (add-le laws _ _ (
                    mul_nonpos laws _ _
                      (mul_nonpos laws _ _
                        (mul_nonpos laws _ _ (neg_nonpos laws one one_nonneg) rate)
                        (mul_nonneg laws pos.qty m.mark_price qty mark))
                      (share_nonneg elapsed period due time)))
          ]
        ]

    short_receives :
        (s : FeeSchedule F) (m : MarketData F) (pos : Position F)
        → zero ≼ m.funding_rate
        → zero ≼ m.mark_price
        → zero ≼ pos.qty
        → is_long pos.side ≡ false
        → pos.accrued_funding_usd ≼ (accrue_funding s m pos).accrued_funding_usd
    unfolding accrue_funding
    short_receives s m pos rate mark qty is =
        let period = s.funding_period_hours * lit 60 0 in
        let elapsed = seconds_since m.timestamp pos.last_funding_ts / lit 60 0 in
        let same = laws.le_refl pos.accrued_funding_usd in
        elim (Bool-cases (f.le period eps)) [
          | inl none_due ↦ rw none_due same
          | inr due ↦ elim (Bool-cases (f.le elapsed zero)) [
            | inl no_time ↦ rw (due, no_time) same
            | inr time ↦
                rw (due, time, is)
                  (le-add laws _ _ (
                    mul_nonneg laws _ _
                      (mul_nonneg laws _ _ (mul_nonneg laws _ _ one_nonneg rate)
                        (mul_nonneg laws pos.qty m.mark_price qty mark))
                      (share_nonneg elapsed period due time)))
          ]
        ]

    -- While the rate is not negative, holding never raises the funding of a long and never lowers
    -- that of any other position, whatever the time and the cadence. The mark and the quantity are
    -- not negative.
    pub accrue_funding_direction :
        (s : FeeSchedule F) (m : MarketData F) (pos : Position F)
        → zero ≼ m.funding_rate
        → zero ≼ m.mark_price
        → zero ≼ pos.qty
        → let pos' = accrue_funding s m pos in
          ((is_long pos.side ≡ true) × (pos'.accrued_funding_usd ≼ pos.accrued_funding_usd))
          ⊎ ((is_long pos.side ≡ false) × (pos.accrued_funding_usd ≼ pos'.accrued_funding_usd))
    accrue_funding_direction s m pos rate mark qty = elim (Bool-cases (is_long pos.side)) [
      | inl is ↦ inl (is, long_pays s m pos rate mark qty is)
      | inr is ↦ inr (is, short_receives s m pos rate mark qty is)
    ]
