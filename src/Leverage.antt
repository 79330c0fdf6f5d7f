-- ===== src/Leverage.antt =====
-- core/leverage.py: the venue table and the choice of the leverage.
pub mod Bounds
pub mod Choice
use agora_perp_agent.Prelude.{
  ℕ, zero, suc, String, ◌&&◌, Option, none, some, [], ◌∷◌, if◌then◌else◌, ltb,
}
use agora_perp_agent.Prelude.Errors.{
  Result, ok, err, ◌>>=◌, bad_notional, bad_stop_distance, bad_hold, out_of_fuel,
}
use agora_perp_agent.Prelude.Dict.{Dict, lookup}
use agora_perp_agent.Float.Ops.{
  Float, lit, ◌+◌, ◌*◌, ◌/◌, zero as nought, one, divide, abs, min, max, ◌<?◌, ◌>?◌, ◌<=?◌,
}
use agora_perp_agent.Contracts.{Tier, t1, t2, t3, t4, LeverageCaps}

-- The fuel of the loop. From a leverage of 5, the largest operational cap, eight rounds reach 1.
abbrev pub rounds : ℕ
rounds = 9

module _ {F : Type 0} ⦃f : Float F⦄ where
  abbrev pub max_leverage_fallback : Dict F
  max_leverage_fallback =
      ("BTC", lit 40 0)
      ∷ ("ETH", lit 25 0)
      ∷ ("SOL", lit 20 0)
      ∷ ("XRP", lit 20 0)
      ∷ ("BNB", lit 20 0)
      ∷ []

  unfoldable pub venue_max_leverage : String → F
  venue_max_leverage asset = elim (lookup asset max_leverage_fallback) [
    | none ↦ lit 10 0
    | some cap ↦ cap
  ]

  -- `_OPERATIONAL_CAP`
  abbrev pub operational_cap_of : Tier → F
  operational_cap_of t1 = lit 5 0
  operational_cap_of t2 = lit 3 0
  operational_cap_of t3 = lit 3 0
  operational_cap_of t4 = lit 15 1

  -- `leverage * |funding| * intervals`
  abbrev pub drag : F → ℕ → F → F
  drag rate intervals chosen = chosen * abs rate * lit intervals 0

  -- The `while` loop of the funding-drag check, on fuel: `none` if the fuel runs out.
  unfoldable pub shrink : ℕ → F → F → ℕ → F → Option F
  shrink zero limit rate intervals chosen = none
  shrink (suc fuel) limit rate intervals chosen =
      let rest = shrink fuel limit rate intervals (chosen * lit 8 1) in
      if (drag rate intervals chosen >? limit) && (chosen >? one) then rest else some chosen

  -- `max(1, math.ceil(hold_hours / 1.0))`
  unfoldable pub interval_count : F → ℕ
  interval_count hold_hours =
      let hours = f.ceil (hold_hours / one) in if ltb 1 hours then hours else 1

  unfoldable pub leverage_caps : String → Tier → F → Result (LeverageCaps F)
  leverage_caps asset tier stop_distance_pct = do
    let venue = venue_max_leverage asset
    mm_rate ← (if venue >? nought then divide one (lit 2 0 * venue) else ok (lit 5 2))
    let denom = lit 4 0 * stop_distance_pct + mm_rate
    liq_safety ← (if denom >? nought then divide one denom else ok venue)
    ok (record {
      venue_cap = venue;
      operational_cap = operational_cap_of tier;
      liq_safety_cap = liq_safety;
    })

  abbrev pub tightest : LeverageCaps F → F
  tightest caps = min (min caps.venue_cap caps.operational_cap) caps.liq_safety_cap

  unfoldable pub choose_leverage : String → F → Tier → F → F → F → F → Result (F × LeverageCaps F)
  choose_leverage asset notional tier stop_distance_pct funding_rate hold_hours limit =
      if notional <=? nought
      then err bad_notional
      else if stop_distance_pct <=? nought
      then err bad_stop_distance
      else if hold_hours <? nought
      then err bad_hold
      else do
        caps ← leverage_caps asset tier stop_distance_pct
        let intervals = interval_count hold_hours
        elim (shrink rounds limit funding_rate intervals (tightest caps)) [
          | none ↦ err out_of_fuel
          | some chosen ↦ ok (max chosen one, caps)
        ]
