-- ===== src/AgentTools/Views.antt =====
-- The detail views agree with the overviews.
use agora_perp_agent.Prelude.{
  String, ◌≡◌, ◌⊎◌, inl, inr, none, some, [], ◌∷◌, map, ◌==◌, Bool-cases, Option-cases, refl,
}
use Prim.Native.String.{◌++◌}
use agora_perp_agent.Prelude.Dict.{Dict, lookup}
use agora_perp_agent.Contracts.{AgentState}
use agora_perp_agent.Contracts.Json.{Row, words}
use agora_perp_agent.AgentTools.{board_row, read_board, get_forecast}

lookup-map {ℓ κ} :
    {A : Type ℓ} {B : Type κ} (g : A → B) (k : String) (d : Dict A)
    → lookup k (map (λ e. (e.0, g e.1)) d) ≡ elim (lookup k d) [ none ↦ none | some v ↦ some (g v) ]
lookup-map g k [] = refl
lookup-map g k ((j, v) ∷ d) = elim (Bool-cases (j == k)) [
  | inl same ↦ rw (lookup, same) refl
  | inr other ↦ rw (lookup, other) (lookup-map g k d)
]

module _ {F : Type 0} where
  -- The detail of an asset is an error if the overview of the board lacks the asset; otherwise it
  -- repeats the probability and the expected move of the overview's row.
  pub get_forecast-read_board :
      (state : AgentState F) (asset : String)
      → ((lookup asset (read_board state) ≡ none)
          × (get_forecast state asset ≡ ("error", words ("no board entry for " ++ asset)) ∷ []))
        ⊎ ((row : Row F) × (lookup asset (read_board state) ≡ some row)
            × (lookup "p_up" (get_forecast state asset) ≡ lookup "p_up" row)
            × (lookup "expected_move_bps" (get_forecast state asset)
                ≡ lookup "expected_move_bps" row)
            × (lookup "error" (get_forecast state asset) ≡ none))
  unfolding read_board get_forecast
  get_forecast-read_board state asset = elim (Option-cases (lookup asset state.board)) [
    | inl missing ↦
        inl (
          rw (lookup-map board_row asset state.board, missing) refl,
          rw (get_forecast, missing) refl,
        )
    | inr (entry, found) ↦ inr (
      board_row entry,
      rw (lookup-map board_row asset state.board, found) refl,
      rw (get_forecast, found) refl,
      rw (get_forecast, found) refl,
      rw (get_forecast, found) refl,
    )
  ]
