-- ===== src/Stops.antt =====
-- core/stops.py: stop and take distances from the ATR, the tier and the regime.
pub mod Bounds
use agora_perp_agent.Prelude.{Bool, true, false, not, if◌then◌else◌}
use agora_perp_agent.Prelude.Errors.{Result, ok, err, bad_side, bad_atr, bad_entry}
use agora_perp_agent.Float.Ops.{Float, lit, ◌*◌, zero, ◌<=?◌}
use agora_perp_agent.Contracts.{
  RegimeTag, Tier, t1, t2, t3, t4, Side, StopTakePlan, Hardening, limit_stop, market_stop,
  soft_stop_scaled, Trend, up, down, range, Vol, compressed, normal, expanded, crisis, Funding,
  extreme_pos, extreme_neg,
}

-- `side in {"long", "short"}`
abbrev pub is_side : Side → Bool
is_side Side.long = true
is_side Side.short = true
is_side Side.other = false

abbrev pub is_trending : Trend → Bool
is_trending up = true
is_trending down = true
is_trending range = false

unfoldable pub choose_hardening : Tier → Vol → Hardening
choose_hardening t1 vol = limit_stop
choose_hardening t2 vol = limit_stop
choose_hardening t3 compressed = market_stop
choose_hardening t3 normal = market_stop
choose_hardening t3 expanded = soft_stop_scaled
choose_hardening t3 crisis = soft_stop_scaled
choose_hardening t4 compressed = market_stop
choose_hardening t4 normal = market_stop
choose_hardening t4 expanded = soft_stop_scaled
choose_hardening t4 crisis = soft_stop_scaled

module _ {F : Type 0} ⦃f : Float F⦄ where
  -- `_ATR_MULTIPLIERS`
  abbrev pub atr_multiplier : Tier → Vol → F
  atr_multiplier t1 compressed = lit 15 1
  atr_multiplier t1 normal = lit 15 1
  atr_multiplier t1 expanded = lit 20 1
  atr_multiplier t1 crisis = lit 20 1
  atr_multiplier t2 compressed = lit 20 1
  atr_multiplier t2 normal = lit 20 1
  atr_multiplier t2 expanded = lit 25 1
  atr_multiplier t2 crisis = lit 25 1
  atr_multiplier t3 compressed = lit 20 1
  atr_multiplier t3 normal = lit 20 1
  atr_multiplier t3 expanded = lit 30 1
  atr_multiplier t3 crisis = lit 30 1
  atr_multiplier t4 compressed = lit 25 1
  atr_multiplier t4 normal = lit 25 1
  atr_multiplier t4 expanded = lit 35 1
  atr_multiplier t4 crisis = lit 35 1

  abbrev pub trend_multiple : Trend → Vol → Funding → F
  trend_multiple up vol extreme_neg = lit 30 1
  trend_multiple up vol _ = lit 25 1
  trend_multiple down vol extreme_pos = lit 30 1
  trend_multiple down vol _ = lit 25 1
  trend_multiple range compressed funding = lit 20 1
  trend_multiple range _ funding = lit 15 1

  unfoldable pub choose_r_multiple : RegimeTag → F
  choose_r_multiple regime = trend_multiple regime.trend regime.vol regime.funding

  -- The plan that `derive_stops_takes` returns after its checks.
  abbrev pub plan_of : F → RegimeTag → Tier → StopTakePlan F
  plan_of atr14_1h regime tier =
      let stop_distance = atr_multiplier tier regime.vol * atr14_1h in
      let r_mult = choose_r_multiple regime in
      record {
        stop_distance = stop_distance;
        take_distance = r_mult * stop_distance;
        r_multiple = r_mult;
        scaled_exit = is_trending regime.trend;
        trail_after_first_take = true;
        stop_hardening = choose_hardening tier regime.vol;
      }

  unfoldable pub derive_stops_takes : F → F → RegimeTag → Tier → Side → Result (StopTakePlan F)
  derive_stops_takes entry atr14_1h regime tier side =
      if not (is_side side)
      then err bad_side
      else if atr14_1h <=? zero
      then err bad_atr
      else if entry <=? zero
      then err bad_entry
      else ok (plan_of atr14_1h regime tier)
