-- ===== src/Loop/Carried.antt =====
-- The decisions of a call are carried out one after the other.
use agora_perp_agent.Prelude.{
  ◌≡◌, ◌⊎◌, Option, none, some, List, [], ◌∷◌, inl, inr, refl, Option-cases,
}
use agora_perp_agent.Prelude.Errors.{Result, ok, err}
use agora_perp_agent.Prelude.Dict.{Dict, lookup}
use agora_perp_agent.Float.Ops.{Float}
use agora_perp_agent.Contracts.{MarketData, RegimeTag, Decision, no_snapshot}
use agora_perp_agent.Allocate.{Board}
use agora_perp_agent.Loop.Decisions.{Engine, Desk, apply, vetoed}
use agora_perp_agent.Loop.Step.{preceded, continued, apply_all}

module _ {F : Type 0} ⦃f : Float F⦄ (engine : Engine F) (board : Board F) (btc : Option RegimeTag)
    (snapshots : Dict (MarketData F)) where
  -- A decision takes one desk to the next: it is applied with the snapshot of its asset, or vetoed
  -- where there is none.
  abbrev pub TakesTo : Decision F → Desk F → Decision F → Desk F → Type 0
  TakesTo d desk d' next =
      ((lookup d.asset snapshots ≡ none) × (d' ≡ vetoed d no_snapshot) × (next ≡ desk))
      ⊎ ((snap : MarketData F) × (lookup d.asset snapshots ≡ some snap)
          × (apply engine board btc snap d desk ≡ (ok d', next)))

  -- The decisions, the desk before the first, what became of each, and the desk after the last.
  abbrev pub Carried : List (Decision F) → Desk F → List (Decision F) → Desk F → Type 0
  Carried [] desk [] after = after ≡ desk
  Carried [] desk (d' ∷ ds') after = ⊥
  Carried (d ∷ ds) desk [] after = ⊥
  Carried (d ∷ ds) desk (d' ∷ ds') after =
      (next : Desk F) × TakesTo d desk d' next × Carried ds next ds' after

  abbrev pub CarriedTo : List (Decision F) → Desk F → Result (List (Decision F)) × Desk F → Type 0
  CarriedTo ds desk (ok ds', after) = Carried ds desk ds' after
  CarriedTo ds desk (err e, after) = Unit

  pub apply_all-CarriedTo :
      (ds : List (Decision F)) (desk : Desk F)
      → CarriedTo ds desk (apply_all engine board btc snapshots ds desk)
  unfolding apply_all
  apply_all-CarriedTo [] desk = refl
  apply_all-CarriedTo (d ∷ ds) desk = elim (Option-cases (lookup d.asset snapshots)) [
    | inl missing ↦
        rw (apply_all, missing)
          (first (vetoed d no_snapshot) desk (inl (missing, refl, refl))
            (apply_all engine board btc snapshots ds desk) (apply_all-CarriedTo ds desk))
    | inr (snap, found) ↦
        rw (apply_all, found)
          (go (apply_all-CarriedTo ds) snap found (apply engine board btc snap d desk) refl)
  ]
    where
      first :
          (d' : Decision F) (next : Desk F)
          → TakesTo d desk d' next
          → (r : Result (List (Decision F)) × Desk F) → CarriedTo ds next r
          → CarriedTo (d ∷ ds) desk (preceded d' r)
      first d' next step (ok ds', after) k = (next, step, k)
      first d' next step (err e, after) k = tt

      go :
          ((after : Desk F) → CarriedTo ds after (apply_all engine board btc snapshots ds after))
          → (snap : MarketData F) → lookup d.asset snapshots ≡ some snap
          → (r : Result (Decision F) × Desk F) → apply engine board btc snap d desk ≡ r
          → CarriedTo (d ∷ ds) desk (continued (apply_all engine board btc snapshots ds) r)
      go later snap found (ok d', next) e =
          first d' next (inr (snap, found, e)) (apply_all engine board btc snapshots ds next)
            (later next)
      go later snap found (err x, next) e = tt
