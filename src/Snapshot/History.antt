-- ===== src/Snapshot/History.antt =====
-- The remembered rows stay within their bounds, and no decision is shown twice.
use agora_perp_agent.Prelude.{
  ℕ, String, ◌≡◌, ◌≤◌, ◌⊎◌, refl, ap, ◌∙◌, Bool, true, false, ◌==◌, Option, List, [], ◌∷◌, map, All,
  All-take, take, length, length-take-le, if◌then◌else◌, Bool-cases, inl, inr, zero, suc,
}
use agora_perp_agent.Prelude.Dict.{lookup, insert, lookup-insert}
use agora_perp_agent.Contracts.Json.{Row, words}
use agora_perp_agent.Snapshot.{
  SnapshotState, audit_id_of, has_audit_id, patched, without, record_decision, optional_words,
}

module _ {F : Type 0} where
  -- Two entries that have no identifier, or not the same one.
  abbrev pub Differ : Row F → Row F → Type 0
  Differ entry other =
      ((audit_id_of entry == "") ≡ true) ⊎ (has_audit_id (audit_id_of entry) other ≡ false)

  abbrev pub IsUnique : List (Row F) → Type 0
  IsUnique [] = Unit
  IsUnique (entry ∷ entries) = All (Differ entry) entries × IsUnique entries

  pub record IsKept (state : SnapshotState F) : Type 0 where
    pub equity_bound : length state.equity_curve ≤ 720
    pub history_bound : length state.trade_history ≤ 50
    pub decisions_bound : length state.recent_decisions ≤ 30
    pub unique : IsUnique state.recent_decisions

  take-IsUnique : (n : ℕ) (entries : List (Row F)) → IsUnique entries → IsUnique (take n entries)
  take-IsUnique zero entries h = tt
  take-IsUnique (suc n) [] h = tt
  take-IsUnique (suc n) (entry ∷ entries) (differ, rest) =
      (All-take (Differ entry) n entries differ, take-IsUnique n entries rest)

  without-All :
      (P : Row F → Type 0) (id : String) (entries : List (Row F))
      → All P entries
      → All P (without id entries)
  without-All P id [] h = tt
  without-All P id (entry ∷ entries) h = elim (Bool-cases (has_audit_id id entry)) [
    | inl same ↦ rw (without, same) (without-All P id entries h.1)
    | inr other ↦ rw (without, other) (h.0, without-All P id entries h.1)
  ]

  without-IsUnique :
      (id : String) (entries : List (Row F)) → IsUnique entries → IsUnique (without id entries)
  without-IsUnique id [] h = tt
  without-IsUnique id (entry ∷ entries) h = elim (Bool-cases (has_audit_id id entry)) [
    | inl same ↦ rw (without, same) (without-IsUnique id entries h.1)
    | inr other ↦
        rw (without, other)
          (without-All (Differ entry) id entries h.0, without-IsUnique id entries h.1)
  ]

  without-Differ :
      (entry : Row F) (entries : List (Row F))
      → All (Differ entry) (without (audit_id_of entry) entries)
  without-Differ entry [] = tt
  without-Differ entry (e ∷ entries) = elim (Bool-cases (has_audit_id (audit_id_of entry) e)) [
    | inl same ↦ rw (without, same) (without-Differ entry entries)
    | inr other ↦ rw (without, other) (inr other, without-Differ entry entries)
  ]

  anonymous-Differ :
      (entry : Row F) (entries : List (Row F))
      → (audit_id_of entry == "") ≡ true
      → All (Differ entry) entries
  anonymous-Differ entry [] h = tt
  anonymous-Differ entry (other ∷ entries) h = (inl h, anonymous-Differ entry entries h)

  pub record_decision-IsKept :
      (entry : Row F) (state : SnapshotState F)
      → IsKept state
      → IsKept (record_decision entry state)
  unfolding record_decision
  record_decision-IsKept entry state h = record {
    equity_bound = h.equity_bound;
    history_bound = h.history_bound;
    decisions_bound = length-take-le 30 (entry ∷ others (audit_id_of entry == ""));
    unique =
        take-IsUnique 30 (entry ∷ others (audit_id_of entry == ""))
          (added (audit_id_of entry == "") refl);
  }
    where
      others : Bool → List (Row F)
      others b =
          if b then state.recent_decisions else without (audit_id_of entry) state.recent_decisions

      added : (b : Bool) → (audit_id_of entry == "") ≡ b → IsUnique (entry ∷ others b)
      added true e = (anonymous-Differ entry state.recent_decisions e, h.unique)
      added false e = (
        without-Differ entry state.recent_decisions,
        without-IsUnique (audit_id_of entry) state.recent_decisions h.unique,
      )

  -- Anchoring writes other keys than the identifier.
  pub lookup-patched :
      (id : String) (hash url : Option String) (anchor_state : String) (entry : Row F)
      → lookup "audit_id" (patched id hash url anchor_state entry) ≡ lookup "audit_id" entry
  lookup-patched id hash url anchor_state entry = elim (Bool-cases (has_audit_id id entry)) [
    | inr other ↦ simp (patched, other)
    | inl same ↦
        let first = insert "arc_tx_hash" (optional_words hash) entry in
        let second = insert "arcscan_url" (optional_words url) first in
        simp (patched, same)
          (lookup-insert "anchor_state" "audit_id" (words anchor_state) second
            ∙ lookup-insert "arcscan_url" "audit_id" (optional_words url) first
            ∙ lookup-insert "arc_tx_hash" "audit_id" (optional_words hash) entry)
  ]

  pub map-IsUnique :
      (g : Row F → Row F)
      → ((entry : Row F) → lookup "audit_id" (g entry) ≡ lookup "audit_id" entry)
      → (entries : List (Row F)) → IsUnique entries
      → IsUnique (map g entries)
  map-IsUnique g same [] h = tt
  map-IsUnique g same (entry ∷ entries) h = (others entries h.0, map-IsUnique g same entries h.1)
    where
      others : (rest : List (Row F)) → All (Differ entry) rest → All (Differ (g entry)) (map g rest)
      others [] k = tt
      others (other ∷ rest) k = (rw (same entry, same other) k.0, others rest k.1)

  pub length-map :
      (g : Row F → Row F) (entries : List (Row F)) → length (map g entries) ≡ length entries
  length-map g [] = refl
  length-map g (entry ∷ entries) = ap suc (length-map g entries)
