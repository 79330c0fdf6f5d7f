-- ===== src/Synthesis/Shape.antt =====
-- What the deterministic synthesizer decides.
use Prim.Native.Nat.{◌+◌}
use mathlib.Core.Logic.Or
use mathlib.Core.List.{Perm, Mem, mem-cons, not-mem-nil, mem-cons_self, mem-cons_of_mem}
use mathlib.Core.List.Perm
use mathlib.Core.Bool.{Bool-set}
use agora_perp_agent.Prelude.{
  ℕ, String, true, ◌≡◌, refl, none, some, List, [], ◌∷◌, ◌++◌, map, All, length, arith,
  if◌then◌else◌, Bool-cases, Option-cases, inl, inr, eq_iff, ap, subst, ◌∙◌, length-append,
}
use agora_perp_agent.Prelude.Errors.{Result, ok}
use agora_perp_agent.Prelude.Dict.{Dict, lookup, contains}
use agora_perp_agent.Float.Ops.{Float}
use agora_perp_agent.Contracts.{
  AgentState, AllocationCandidate, Position, Decision, Decisions, enter, hold,
}
use agora_perp_agent.Synthesis.Formats.{Formats}
use agora_perp_agent.Synthesis.Rule.{
  id_of, entries, hold_decision, holds, rule_decide, rule_summary, join,
}

abbrev pub keys {ℓ} : {V : Type ℓ} → Dict V → List String
keys d = map (λ e. e.0) d

-- A key of a dict has a value.
keyed_held {ℓ} : {V : Type ℓ} (k : String) (d : Dict V) → Mem k (keys d) → contains k d ≡ true
keyed_held k [] m = absurd (not-mem-nil m)
keyed_held k ((j, v) ∷ d) m =
    Or.elim (Bool-set _ _) (mem-cons.0 m) (λ e. ground (arith, eq_iff j k))
      (λ h. ground (arith, keyed_held k d h))

All-Mem {ℓ} : {A : Type ℓ} (P : A → Type 0) (xs : List A) → ((a : A) → Mem a xs → P a) → All P xs
All-Mem P [] h = tt
All-Mem P (x ∷ xs) h = (h x mem-cons_self, All-Mem P xs (λ a m. h a (mem-cons_of_mem x m)))

module _ {F : Type 0} where
  -- The candidates whose asset has no open position.
  abbrev pub not_held :
      Dict (Position F) → List (AllocationCandidate F) → List (AllocationCandidate F)
  not_held held [] = []
  not_held held (c ∷ cs) =
      let rest = not_held held cs in if contains c.asset held then rest else c ∷ rest

  abbrev pub IsEntry : Decision F → AllocationCandidate F → Type 0
  IsEntry d c = (d.asset ≡ c.asset) × (d.action ≡ enter) × (d.side ≡ some c.side)

  abbrev pub Entries : List (Decision F) → List (AllocationCandidate F) → Type 0
  Entries [] [] = Unit
  Entries (d ∷ ds) (c ∷ cs) = IsEntry d c × Entries ds cs
  Entries [] (c ∷ cs) = ⊥
  Entries (d ∷ ds) [] = ⊥

  abbrev pub IsHold : Decision F → Type 0
  IsHold d = (d.action ≡ hold) × (d.side ≡ none)

  -- The identifiers are those of the numbers from n on.
  abbrev pub IsNumbered : Formats F → ℕ → List (Decision F) → Type 0
  IsNumbered fmt n [] = Unit
  IsNumbered fmt n (d ∷ ds) =
      (d.rationale.decision_id ≡ id_of fmt (n + 1)) × IsNumbered fmt (n + 1) ds

  IsNumbered-append :
      (fmt : Formats F) (n : ℕ) (ds es : List (Decision F))
      → IsNumbered fmt n ds
      → IsNumbered fmt (n + length ds) es
      → IsNumbered fmt n (ds ++ es)
  IsNumbered-append fmt n [] es h k = ground arith
  IsNumbered-append fmt n (d ∷ ds) es h k =
      (h.0, IsNumbered-append fmt (n + 1) ds es h.1 (ground arith))

  entries_shape :
      (fmt : Formats F) (held : Dict (Position F)) (cs : List (AllocationCandidate F)) (n : ℕ)
      → let (ds, m) = entries fmt held cs n in
        Entries ds (not_held held cs) × IsNumbered fmt n ds × (m ≡ n + length ds)
  unfolding entries
  entries_shape fmt held [] n = (tt, tt, omega arith)
  entries_shape fmt held (c ∷ cs) n = elim (Bool-cases (contains c.asset held)) [
    | inl skipped ↦ rw (entries, skipped) (entries_shape fmt held cs n)
    | inr free ↦
        let (es, ids, count) = entries_shape fmt held cs (n + 1) in
        rw (entries, free) (((refl, refl, refl), es), (refl, ids), ground arith)
  ]

module _ {F : Type 0} ⦃f : Float F⦄ where
  holds_shape :
      (fmt : Formats F) (state : AgentState F) (assets : List String) (n : ℕ)
      → All (λ k. contains k state.portfolio.positions ≡ true) assets
      → (ds : List (Decision F)) × (holds fmt state assets n ≡ (ok ds, n + length ds))
        × (map (λ d. d.asset) ds ≡ assets)
        × All IsHold ds
        × IsNumbered fmt n ds
  unfolding holds
  holds_shape fmt state [] n h = ([], ground arith, refl, tt, tt)
  holds_shape fmt state (asset ∷ assets) n (here, h) =
      let (ds, found, names, all, ids) = holds_shape fmt state assets (n + 1) h in
      elim (Option-cases (lookup asset state.portfolio.positions)) [
        | inl missing ↦ absurd (ground arith)
        | inr (pos, held) ↦ (
          hold_decision fmt state.board asset pos (n + 1) ∷ ds,
          rw (holds, held, found) (ground arith),
          rw names refl,
          ((refl, refl), all),
          (refl, ids),
        )
      ]

  -- Whatever order the held assets are visited in, deciding raises nothing and returns one entry for
  -- each candidate without a position, in the order of the candidates and on the candidate's side, and
  -- then one hold without a side for each held asset. The identifiers are those of the consecutive
  -- numbers after the counter, which ends at the last of them.
  pub rule_decide_shape :
      (fmt : Formats F) (order : List String → List String) (state : AgentState F) (n : ℕ)
      → ((ks : List String) → Perm (order ks) ks)
      → (entering : List (Decision F)) × (holding : List (Decision F)) × (rule_decide fmt order
            state n
          ≡ (
            ok (record {
              decisions = entering ++ holding;
              summary = rule_summary fmt (entering ++ holding);
            }),
            n + length (entering ++ holding),
          ))
        × Entries entering (not_held state.portfolio.positions state.candidates)
        × All IsHold holding
        × Perm (map (λ d. d.asset) holding) (keys state.portfolio.positions)
        × IsNumbered fmt n (entering ++ holding)
  unfolding rule_decide
  rule_decide_shape fmt order state n visits =
      let held = state.portfolio.positions in
      let assets = order (keys held) in
      let present =
        All-Mem (λ k. contains k held ≡ true) assets
          (λ k m. keyed_held k held ((Perm.mem_iff (visits (keys held))).0 m)) in
      let (es, ids, count) = entries_shape fmt held state.candidates n in
      let entering = (entries fmt held state.candidates n).0 in
      let (ds, found, names, all, later) =
        holds_shape fmt state assets (entries fmt held state.candidates n).1 present in
      (
        entering,
        ds,
        ap (join fmt entering) found
            ∙ counted entering (entries fmt held state.candidates n).1 ds count,
        es,
        all,
        rw names (visits (keys held)),
        IsNumbered-append fmt n entering ds ids (subst (λ j. IsNumbered fmt j ds) count later),
      )
    where
      counted :
          (entering : List (Decision F)) (m : ℕ) (ds : List (Decision F))
          → m ≡ n + length entering
          → ◌≡◌ {A = Result (Decisions F) × ℕ} (join fmt entering (ok ds, m + length ds)) (
            ok (record { decisions = entering ++ ds; summary = rule_summary fmt (entering ++ ds) }),
            n + length (entering ++ ds),
          )
      counted entering m ds count = ground (arith, length-append entering ds)
