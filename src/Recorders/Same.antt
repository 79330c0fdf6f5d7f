-- ===== src/Recorders/Same.antt =====
-- The recorders only listen: with them, and a store that accepts each row, the loop trades as without
-- them.
use agora_perp_agent.Prelude.{
  ℕ, String, ◌≡◌, refl, true, false, Option, none, some, List, [], ◌∷◌, arith, inl, inr,
  Option-cases,
}
use agora_perp_agent.Prelude.Errors.{Result, ok, err}
use agora_perp_agent.Prelude.Dict.{Dict, lookup}
use agora_perp_agent.Float.Ops.{Float}
use agora_perp_agent.Contracts.{
  FeeSchedule, MarketData, Position, PortfolioState, Fill, RegimeTag, Decision, SizedCandidate, has,
  Intent, enter, cut, flip, hold, skip, other_action,
}
use agora_perp_agent.Allocate.{Board}
use agora_perp_agent.Executor.{open_sized, close, tick, check_stops, position_at}
use agora_perp_agent.Loop.Decisions.{
  Engine, Desk, Screened, refused, raised, passed, screen, place, placed, enter_sized, close_out,
  closed_out, apply, vetoed,
}
use agora_perp_agent.Loop.Watch.{noted, watch_assets}
use agora_perp_agent.Recorders.Books.{Tools, Books}
use agora_perp_agent.Recorders.Entry.{log_open}
use agora_perp_agent.Recorders.Decide.{
  Recorded, placed_and_logged, enter_and_record, closed_and_logged, close_and_record,
  apply_and_record, noted_and_logged, watch_and_record,
}

pub not_held :
    {F : Type 0} (p : PortfolioState F) (asset : String)
    → position_at asset p ≡ none
    → has p asset ≡ false
not_held p asset missing = ground arith

pub is_held :
    {F : Type 0} (p : PortfolioState F) (asset : String) (pos : Position F)
    → position_at asset p ≡ some pos
    → has p asset ≡ true
is_held p asset pos found = ground arith

abbrev pub forget : {F T A : Type 0} → Recorded F T A → Result A × Desk F
forget (r, desk, books) = (r, desk)

module _ {F T : Type 0} ⦃f : Float F⦄ (engine : Engine F) (tools : Tools F T)
    (accepts : (n : ℕ) → tools.refuses n ≡ none) where
  forget-enter_and_record :
      (board : Board F) (btc : Option RegimeTag) (snap : MarketData F) (d : Decision F)
      (desk : Desk F) (books : Books F T)
      → forget (enter_and_record engine tools board btc snap d desk books)
        ≡ enter_sized engine board btc snap d desk
  unfolding enter_and_record enter_sized place log_open
  forget-enter_and_record board btc snap d desk books =
      go (screen engine board btc snap desk.portfolio d)
    where
      go :
          (s : Screened F)
          → forget (elim s [
            | refused reason ↦ (ok (vetoed d reason), desk, books)
            | raised e ↦ (err e, desk, books)
            | passed sized ↦
                placed_and_logged tools snap d sized desk books
                  (open_sized engine.schedule sized snap desk.portfolio)
          ])
            ≡ elim s [
              | refused reason ↦ (ok (vetoed d reason), desk)
              | raised e ↦ (err e, desk)
              | passed sized ↦ place engine snap d sized desk
            ]
      go (refused reason) = refl
      go (raised e) = refl
      go (passed sized) = filled sized (open_sized engine.schedule sized snap desk.portfolio)
        where
          filled :
              (sized : SizedCandidate F) (r : Result (Fill F) × PortfolioState F)
              → forget (placed_and_logged tools snap d sized desk books r) ≡ placed d sized desk r
          filled sized (ok fill, p) = rw (log_open, accepts) refl
          filled sized (err e, p) = refl

  forget-close_and_record :
      (snap : MarketData F) (trigger asset : String) (pos : Position F)
      (rest : Desk F → Books F T → Recorded F T (Decision F))
      (plain : Desk F → Result (Decision F) × Desk F) (desk : Desk F) (books : Books F T)
      → ((after : Desk F) (told : Books F T) → forget (rest after told) ≡ plain after)
      → forget (close_and_record engine tools snap trigger asset pos rest desk books)
        ≡ close_out engine snap asset plain desk
  unfolding close_and_record close_out
  forget-close_and_record snap trigger asset pos rest plain desk books same =
      go (close engine.schedule asset snap desk.portfolio)
    where
      go :
          (r : Result (Fill F) × PortfolioState F)
          → forget (closed_and_logged tools trigger asset pos rest desk books r)
            ≡ closed_out asset plain desk r
      go (ok fill, p) = same _ _
      go (err e, p) = refl

  pub forget-apply_and_record :
      (board : Board F) (btc : Option RegimeTag) (snap : MarketData F) (d : Decision F)
      (desk : Desk F) (books : Books F T)
      → forget (apply_and_record engine tools board btc snap d desk books)
        ≡ apply engine board btc snap d desk
  unfolding apply_and_record apply
  forget-apply_and_record board btc snap d desk books =
      go d.action (position_at d.asset desk.portfolio) refl refl
    where
      entry :
          (after : Desk F) (told : Books F T)
          → forget (enter_and_record engine tools board btc snap d after told)
            ≡ enter_sized engine board btc snap d after
      entry after told = forget-enter_and_record board btc snap d after told

      go :
          (action : Intent) (held : Option (Position F))
          → d.action ≡ action
          → position_at d.asset desk.portfolio ≡ held
          → forget (apply_and_record engine tools board btc snap d desk books)
            ≡ apply engine board btc snap d desk
      go enter none e h =
          simp (apply_and_record, apply, e, not_held desk.portfolio d.asset h) (entry desk books)
      go enter (some pos) e h =
          simp (apply_and_record, apply, e, is_held desk.portfolio d.asset pos h) refl
      go cut none e h = simp (apply_and_record, apply, e, h, not_held desk.portfolio d.asset h) refl
      go cut (some pos) e h =
          simp (apply_and_record, apply, e, h, is_held desk.portfolio d.asset pos h)
            (forget-close_and_record snap "cut" d.asset pos (λ after told. (ok d, after, told))
              (λ after. (ok d, after)) desk books (λ after told. refl))
      go flip none e h =
          simp (apply_and_record, apply, e, h, not_held desk.portfolio d.asset h) (entry desk books)
      go flip (some pos) e h =
          simp (apply_and_record, apply, e, h, is_held desk.portfolio d.asset pos h)
            (forget-close_and_record snap "flip" d.asset pos
              (enter_and_record engine tools board btc snap d) (enter_sized engine board btc snap d)
              desk books entry)
      go hold held e h = simp (apply_and_record, apply, e) refl
      go skip held e h = simp (apply_and_record, apply, e) refl
      go other_action held e h = simp (apply_and_record, apply, e) refl

module _ {F T : Type 0} ⦃f : Float F⦄ (s : FeeSchedule F) (tools : Tools F T) where
  pub forget-watch_and_record :
      (snapshots : Dict (MarketData F)) (assets : List String) (desk : Desk F) (books : Books F T)
      → forget (watch_and_record s tools snapshots assets desk books)
        ≡ watch_assets s snapshots assets desk
  unfolding watch_and_record watch_assets
  forget-watch_and_record snapshots [] desk books = refl
  forget-watch_and_record snapshots (asset ∷ assets) desk books =
      elim (Option-cases (lookup asset snapshots)) [
        | inl missing ↦
            rw (watch_and_record, watch_assets, missing)
              (forget-watch_and_record snapshots assets desk books)
        | inr (snap, found) ↦
            rw (watch_and_record, watch_assets, found)
              (go (forget-watch_and_record snapshots assets)
                (position_at asset (tick s snap desk.portfolio))
                (check_stops s snap (tick s snap desk.portfolio)))
      ]
    where
      go :
          ((after : Desk F) (told : Books F T)
            → forget (watch_and_record s tools snapshots assets after told)
              ≡ watch_assets s snapshots assets after)
          → (pos : Option (Position F)) (r : Result (Option (Fill F)) × PortfolioState F)
          → forget (
              noted_and_logged tools asset pos
                (watch_and_record s tools snapshots assets)
                desk
                books
                r)
            ≡ noted asset (watch_assets s snapshots assets) desk r
      go later pos (err e, p) = refl
      go later pos (ok none, p) = later _ _
      go later pos (ok (some fill), p) = later _ _
