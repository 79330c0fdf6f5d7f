-- ===== src/Loop/Bars.antt =====
-- cli/run.py, `_aggregate_to_1h`: five-minute bars into hourly ones.
use Prim.Native.Nat.{◌-◌, ◌%◌, ◌+◌}
use mathlib.Core.List.{foldl}
use agora_perp_agent.Prelude.{ℕ, List, [], ◌∷◌, ◌++◌, ◌&&◌, if◌then◌else◌, ltb, leb, length, map}
use agora_perp_agent.Prelude.Sort.{sort}
use agora_perp_agent.Float.Ops.{Float, max, min, sum}
use agora_perp_agent.Contracts.{OhlcBar}

-- An hour with its bars in order, of which there is a first.
abbrev pub Bucket : Type 0 → Type 0
Bucket F = ℕ × (OhlcBar F × List (OhlcBar F))

-- `timestamp.replace(minute=0, second=0, microsecond=0)`
abbrev pub hour_of : ℕ → ℕ
hour_of time = time - time % 3_600_000_000

module _ {F : Type 0} where
  -- `buckets.setdefault(hour, []).append(bar)`
  unfoldable pub add_bar : List (Bucket F) → OhlcBar F → List (Bucket F)
  add_bar [] bar = (hour_of bar.timestamp, (bar, [])) ∷ []
  add_bar ((hour, (first, rest)) ∷ buckets) bar =
      if leb hour (hour_of bar.timestamp) && leb (hour_of bar.timestamp) hour
      then (hour, (first, rest ++ bar ∷ [])) ∷ buckets
      else (hour, (first, rest)) ∷ add_bar buckets bar

  abbrev pub last_of : OhlcBar F → List (OhlcBar F) → OhlcBar F
  last_of bar [] = bar
  last_of bar (next ∷ bars) = last_of next bars

module _ {F : Type 0} ⦃f : Float F⦄ where
  unfoldable pub hourly_bar : Bucket F → OhlcBar F
  hourly_bar (hour, (first, rest)) = record {
    timestamp = hour;
    opening = first.opening;
    high = foldl max first.high (map (λ b. b.high) rest);
    low = foldl min first.low (map (λ b. b.low) rest);
    close = (last_of first rest).close;
    volume = sum (first.volume ∷ map (λ b. b.volume) rest);
  }

  -- The loop over the sorted hours, which drops a short last one.
  unfoldable pub roll : List (Bucket F) → List (OhlcBar F)
  unfolding hourly_bar
  roll [] = []
  roll (bucket ∷ []) = if ltb (length bucket.1.1 + 1) 12 then [] else hourly_bar bucket ∷ []
  roll (bucket ∷ next ∷ buckets) = hourly_bar bucket ∷ roll (next ∷ buckets)

  unfoldable pub aggregate_to_1h : List (OhlcBar F) → List (OhlcBar F)
  aggregate_to_1h bars_5m = roll (sort (λ a b. ltb a.0 b.0) (foldl add_bar [] bars_5m))
