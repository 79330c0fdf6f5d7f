-- ===== src/Loop/Scoring.antt =====
-- cli/run.py: `_fetch_and_score`, and the board that `step` builds of it. The forecaster is any
-- implementation of its protocol; the fetched snapshots come from the data source.
use agora_perp_agent.Prelude.{String, Option, none, some, List, [], ◌∷◌}
use agora_perp_agent.Prelude.Errors.{Result, ok, err}
use agora_perp_agent.Prelude.Dict.{Dict, lookup, insert}
use agora_perp_agent.Float.Ops.{Float}
use agora_perp_agent.Contracts.{MarketData, Forecast, CostAssessment}
use agora_perp_agent.Cost.{CostModel, assess}
use agora_perp_agent.Allocate.{Board}

pub record Scored (F : Type 0) : Type 0 where
  pub snapshots : Dict (MarketData F)
  pub forecasts : Dict (Option (Forecast F))
  pub assessments : Dict (Option (CostAssessment F))

abbrev pub optional : {A : Type 0} → Result A → Option A
optional (ok a) = some a
optional (err e) = none

module _ {F : Type 0} where
  -- The loop that builds `board`.
  unfoldable pub add_entries :
      Dict (Option (CostAssessment F)) → Dict (Option (Forecast F)) → Board F → Board F
  add_entries assessments [] board = board
  add_entries assessments ((asset, none) ∷ forecasts) board =
      add_entries assessments forecasts board
  add_entries assessments ((asset, some forecast) ∷ forecasts) board =
      elim (lookup asset assessments) [
        | none ↦ add_entries assessments forecasts board
        | some none ↦ add_entries assessments forecasts board
        | some (some cost) ↦ add_entries assessments forecasts (insert asset (forecast, cost) board)
      ]

  abbrev pub board_of : Scored F → Board F
  board_of scored = add_entries scored.assessments scored.forecasts []

module _ {F : Type 0} ⦃f : Float F⦄ where
  -- The cost of a forecast, where there is one.
  abbrev pub costed :
      CostModel F → MarketData F → F → Result (Forecast F) → Option (CostAssessment F)
  costed model snap notional (err e) = none
  costed model snap notional (ok forecast) = optional (assess model forecast snap notional)

  -- The loop over the snapshots.
  unfoldable pub score :
      (MarketData F → Result (Forecast F))
      → CostModel F
      → F
      → List (String × MarketData F)
      → Scored F
      → Scored F
  score forecaster model notional [] scored = scored
  score forecaster model notional ((coin, snap) ∷ snapshots) scored =
      let outcome = forecaster snap in
      score forecaster model notional snapshots (record scored {
        forecasts = insert coin (optional outcome) scored.forecasts;
        assessments = insert coin (costed model snap notional outcome) scored.assessments;
      })

  unfoldable pub fetch_and_score :
      (MarketData F → Result (Forecast F))
      → CostModel F
      → F
      → Result (Dict (MarketData F))
      → Scored F
  unfolding score
  fetch_and_score forecaster model notional (err e) = record {
    snapshots = [];
    forecasts = [];
    assessments = [];
  }
  fetch_and_score forecaster model notional (ok snapshots) =
      score forecaster model notional snapshots
        (record { snapshots = snapshots; forecasts = []; assessments = [] })
