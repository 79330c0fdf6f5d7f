-- ===== src/Allocate.antt =====
-- core/allocate.py: the ranked board.
pub mod Ranking
use Prim.Native.Nat.{◌+◌ as ◌+ℕ◌}
use agora_perp_agent.Prelude.{ℕ, String, Bool, List, [], ◌∷◌, if◌then◌else◌, take}
use agora_perp_agent.Prelude.Errors.{Result, ok, err, bad_max_positions}
use agora_perp_agent.Prelude.Dict.{Dict}
use agora_perp_agent.Prelude.Sort.{lex, sort}
use agora_perp_agent.Prelude.Text.{text_lt}
use agora_perp_agent.Float.Ops.{Float, neg}
use agora_perp_agent.Contracts.{Side, long, short, Forecast, CostAssessment, AllocationCandidate}
use agora_perp_agent.Cost.{gt_eps}

-- A Python int, as far as its sign is asked for.
pub data Count : Type 0 where
  nonneg : ℕ → Count
  negative : ℕ → Count

abbrev pub Item : Type 0 → Type 0
Item F = String × (Forecast F × CostAssessment F)

abbrev pub Board : Type 0 → Type 0
Board F = Dict (Forecast F × CostAssessment F)

abbrev pub forecast_of : {F : Type 0} → Item F → Forecast F
forecast_of item = item.1.0

abbrev pub cost_of : {F : Type 0} → Item F → CostAssessment F
cost_of item = item.1.1

-- `[... for ... in items if c.is_tradeable]`
unfoldable pub keep_tradeable : {F : Type 0} → List (Item F) → List (Item F)
keep_tradeable [] = []
keep_tradeable (item ∷ items) =
    if (cost_of item).is_tradeable then item ∷ keep_tradeable items else keep_tradeable items

module _ {F : Type 0} ⦃f : Float F⦄ where
  -- The sort key: edge descending, confidence descending, asset ascending.
  abbrev pub sort_key : Item F → F × (F × String)
  sort_key item =
      (neg (cost_of item).edge_after_cost_bps, (neg (forecast_of item).confidence, item.0))

  abbrev pub key_lt : F × (F × String) → F × (F × String) → Bool
  key_lt = lex f.lt (lex f.lt text_lt)

  abbrev pub ranks_before : Item F → Item F → Bool
  ranks_before a b = key_lt (sort_key a) (sort_key b)

  -- `_side`
  unfoldable pub side_of : Forecast F → Side
  side_of forecast = if gt_eps forecast.p_down forecast.p_up then short else long

  abbrev pub candidate_of : ℕ → Item F → AllocationCandidate F
  candidate_of rank item = record {
    asset = item.0;
    side = side_of (forecast_of item);
    notional = (cost_of item).notional;
    forecast = forecast_of item;
    cost = cost_of item;
    rank = rank;
  }

  -- `enumerate`
  unfoldable pub number_from : ℕ → List (Item F) → List (AllocationCandidate F)
  number_from rank [] = []
  number_from rank (item ∷ items) = candidate_of rank item ∷ number_from (rank +ℕ 1) items

  unfoldable pub ranked : Board F → Bool → List (Item F)
  ranked board require_tradeable =
      sort ranks_before (if require_tradeable then keep_tradeable board else board)

  unfoldable pub allocate : Board F → Count → Bool → Result (List (AllocationCandidate F))
  unfolding ranked
  allocate board (negative n) require_tradeable = err bad_max_positions
  allocate board (nonneg n) require_tradeable =
      ok (number_from 0 (take n (ranked board require_tradeable)))
