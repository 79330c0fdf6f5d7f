-- ===== src/Synthesis/Rule.antt =====
-- `RuleSynthesizer`. Its state is the counter of decisions. Python iterates over a set of assets in an
-- order of its own, which `order` is: a function of the keys.
use Prim.Native.Nat.{◌+◌}
use Prim.Native.String.{◌++◌}
use mathlib.Core.List.{◌++◌ as ◌++ˡ◌}
use agora_perp_agent.Prelude.{
  ℕ, String, Bool, true, false, none, some, List, [], ◌∷◌, map, if◌then◌else◌,
}
use agora_perp_agent.Prelude.Errors.{Result, ok, err, key_error}
use agora_perp_agent.Prelude.Dict.{Dict, lookup, contains}
use agora_perp_agent.Float.Ops.{Float}
use agora_perp_agent.Contracts.{
  AgentState, AllocationCandidate, Position, Decision, Decisions, Intent, enter, hold, Forecast,
  CostAssessment, unrealized_pnl_usd,
}
use agora_perp_agent.Synthesis.Formats.{Formats}

abbrev pub is_enter : Intent → Bool
is_enter enter = true
is_enter _ = false

abbrev pub is_hold : Intent → Bool
is_hold hold = true
is_hold _ = false

module _ {F : Type 0} (fmt : Formats F) where
  -- The text of the n-th identifier.
  abbrev pub id_of : ℕ → String
  id_of n = "d-" ++ fmt.padded4 n

  abbrev pub entry_decision : AllocationCandidate F → ℕ → Decision F
  entry_decision cand n = record {
    asset = cand.asset;
    action = enter;
    side = some cand.side;
    rationale = record {
      decision_id = id_of n;
      indicators = ("p_up", cand.forecast.p_up) ∷ ("confidence", cand.forecast.confidence) ∷ [];
      numbers =
          ("edge_bps", cand.cost.edge_after_cost_bps)
          ∷ ("round_trip_cost_bps", cand.cost.round_trip_bps)
          ∷ ("expected_move_bps", cand.forecast.expected_move_bps)
          ∷ [];
      reasoning =
          "rank "
          ++ fmt.decimal (cand.rank + 1)
          ++ " on edge-after-cost; mechanical rule opens the best ranked candidate.";
      pros =
          ("best edge in ranked set: " ++ fmt.signed2 cand.cost.edge_after_cost_bps ++ " bps") ∷ [];
      cons =
          if cand.cost.is_tradeable
          then []
          else "edge negative — mechanical rule proposed it anyway" ∷ [];
    };
    vetoed_reason = none;
  }

  -- The loop over the candidates, from a counter.
  unfoldable pub entries :
      Dict (Position F) → List (AllocationCandidate F) → ℕ → List (Decision F) × ℕ
  entries held [] n = ([], n)
  entries held (cand ∷ cands) n =
      let skipped = contains cand.asset held in
      let (rest, m) = entries held cands (if skipped then n else n + 1) in
      (if skipped then rest else entry_decision cand (n + 1) ∷ rest, m)

module _ {F : Type 0} ⦃f : Float F⦄ (fmt : Formats F) where
  abbrev pub hold_decision :
      Dict (Forecast F × CostAssessment F) → String → Position F → ℕ → Decision F
  hold_decision board asset pos n =
      let nums =
        ("unrealized_pnl_usd", unrealized_pnl_usd pos)
        ∷ ("accrued_funding_usd", pos.accrued_funding_usd)
        ∷ ("qty", pos.qty)
        ∷ [] in
      record {
        asset = asset;
        action = hold;
        side = none;
        rationale = record {
          decision_id = id_of fmt n;
          indicators = elim (lookup asset board) [
            | none ↦ []
            | some (forecast, cost) ↦ ("p_up", forecast.p_up) ∷ []
          ];
          numbers = elim (lookup asset board) [
            | none ↦ nums
            | some (forecast, cost) ↦ nums ++ˡ ("edge_bps", cost.edge_after_cost_bps) ∷ []
          ];
          reasoning =
              "position open; mechanical rule holds — closing is the agent's job, not a flip-rule.";
          pros = "no churn cost from forecast jitter" ∷ [];
          cons = "no flip-signal reaction; can sit through clear reversals" ∷ [];
        };
        vetoed_reason = none;
      }

  -- The loop over the held assets.
  unfoldable pub holds : AgentState F → List String → ℕ → Result (List (Decision F)) × ℕ
  holds state [] n = (ok [], n)
  holds state (asset ∷ assets) n =
      let (rest, m) = holds state assets (n + 1) in
      elim (lookup asset state.portfolio.positions) [
        | none ↦ (err key_error, n)
        | some pos ↦ elim rest [
          | err e ↦ (err e, m)
          | ok ds ↦ (ok (hold_decision state.board asset pos (n + 1) ∷ ds), m)
        ]
      ]

  -- `sum(1 for d in decisions if d.action == ...)`
  abbrev pub count_actions : (Intent → Bool) → List (Decision F) → ℕ
  count_actions test [] = 0
  count_actions test (d ∷ ds) = (if test d.action then 1 else 0) + count_actions test ds

  abbrev pub rule_summary : List (Decision F) → String
  rule_summary ds =
      "mechanical: "
      ++ fmt.decimal (count_actions is_enter ds)
      ++ " enter, "
      ++ fmt.decimal (count_actions is_hold ds)
      ++ " hold"

  -- The decisions of both loops, if the second ended.
  abbrev pub join : List (Decision F) → Result (List (Decision F)) × ℕ → Result (Decisions F) × ℕ
  join entering (err e, k) = (err e, k)
  join entering (ok ds, k) =
      (ok (record { decisions = entering ++ˡ ds; summary = rule_summary (entering ++ˡ ds) }), k)

  -- `decide`, from the counter and to the counter.
  unfoldable pub rule_decide :
      (List String → List String) → AgentState F → ℕ → Result (Decisions F) × ℕ
  rule_decide order state n =
      let (entering, m) = entries fmt state.portfolio.positions state.candidates n in
      join entering (holds state (order (map (λ e. e.0) state.portfolio.positions)) m)
