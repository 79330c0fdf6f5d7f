-- ===== src/Executor/Ledger.antt =====
-- Sequences of calls on the executor: the trace of fills accounts for the cash and for which positions
-- are open.
use mathlib.Core.List.{foldl}
use agora_perp_agent.Prelude.{
  String, ◌≡◌, refl, Option, none, some, List, [], ◌∷◌, ◌++◌, if◌then◌else◌, arith, inl, inr,
  Option-cases, ap, sym, ◌∙◌,
}
use agora_perp_agent.Prelude.Errors.{Result, ok, err}
use agora_perp_agent.Prelude.Dict.{keys, keys-insert, keys-erase, without_first}
use agora_perp_agent.Float.Ops.{Float, ◌+◌, ◌-◌}
use agora_perp_agent.Contracts.{
  MarketData, FeeSchedule, AllocationCandidate, SizedCandidate, Position, PortfolioState, Fill,
}
use agora_perp_agent.Executor.{
  position_at, open_position, open_sized, close, tick, check_stops, tick_position,
}
use agora_perp_agent.Executor.Outcome.{
  Opened, Closed, open_sized_outcome, open_position_outcome, close_outcome, close_missing,
  check_stops_cases, fired,
}

-- A call of the executor.
pub data Command (F : Type 0) : Type 0 where
  open_plain : AllocationCandidate F → MarketData F → Command F
  open_plan : SizedCandidate F → MarketData F → Command F
  cut : String → MarketData F → Command F
  mark : MarketData F → Command F
  guard_stops : MarketData F → Command F

abbrev pub fills_of : {F : Type 0} → Result (Fill F) → List (Fill F)
fills_of (ok fill) = fill ∷ []
fills_of (err e) = []

abbrev pub optional_fills : {F : Type 0} → Result (Option (Fill F)) → List (Fill F)
optional_fills (ok none) = []
optional_fills (ok (some fill)) = fill ∷ []
optional_fills (err e) = []

foldl-append {ℓ κ} :
    {A : Type ℓ} {B : Type κ} (step : B → A → B) (b : B) (xs ys : List A)
    → foldl step b (xs ++ ys) ≡ foldl step (foldl step b xs) ys
foldl-append step b [] ys = refl
foldl-append step b (x ∷ xs) ys = foldl-append step (step b x) xs ys

module _ {F : Type 0} ⦃f : Float F⦄ where
  -- The fills that a call returned, and the portfolio that it left; an exception returns no fill.
  unfoldable pub call :
      FeeSchedule F → Command F → PortfolioState F → List (Fill F) × PortfolioState F
  call s (open_plain c m) p = let (r, p') = open_position s c m p in (fills_of r, p')
  call s (open_plan c m) p = let (r, p') = open_sized s c m p in (fills_of r, p')
  call s (cut asset m) p = let (r, p') = close s asset m p in (fills_of r, p')
  call s (mark m) p = ([], tick s m p)
  call s (guard_stops m) p = let (r, p') = check_stops s m p in (optional_fills r, p')

  unfoldable pub call_all :
      FeeSchedule F → List (Command F) → PortfolioState F → List (Fill F) × PortfolioState F
  call_all s [] p = ([], p)
  call_all s (c ∷ cs) p =
      let (fills, p') = call s c p in let (more, p'') = call_all s cs p' in (fills ++ more, p'')

  -- The cash after a fill: the fee is paid at the opening, the realized result at the closing.
  abbrev pub settle : F → Fill F → F
  settle balance fill =
      if fill.is_open then balance - fill.fee_paid_usd else balance + fill.realized_pnl_usd

  -- The assets held after a fill, in the order of their opening.
  abbrev pub follow : List String → Fill F → List String
  follow assets fill =
      if fill.is_open then assets ++ fill.asset ∷ [] else without_first fill.asset assets

  -- What the fills of a call say of the two portfolios around it.
  abbrev Accounts : PortfolioState F → List (Fill F) × PortfolioState F → Type 0
  Accounts p (fills, p') =
      (p'.balance_usd ≡ foldl settle p.balance_usd fills)
      × (p'.starting_balance_usd ≡ p.starting_balance_usd)
      × (keys p'.positions ≡ foldl follow (keys p.positions) fills)

  Opened-Accounts :
      (asset : String) (pos : Fill F → Position F) (p : PortfolioState F) (r : Result (Fill F))
      (p' : PortfolioState F)
      → Opened asset pos p (r, p')
      → Accounts p (fills_of r, p')
  Opened-Accounts asset pos p (ok fill) p' (fresh, opens, of, e) =
      rw e (ground (arith, keys-insert asset (pos fill) p.positions))
  Opened-Accounts asset pos p (err e) p' same = rw same (refl, refl, refl)

  Closed-Accounts :
      (asset : String) (pos : Position F) (p : PortfolioState F) (r : Result (Fill F))
      (p' : PortfolioState F)
      → Closed asset pos p (r, p')
      → Accounts p (fills_of r, p')
  Closed-Accounts asset pos p (ok fill) p' (held, closes, of, e) =
      rw e (ground (arith, keys-erase asset p.positions))
  Closed-Accounts asset pos p (err e) p' (inl same) = rw same (refl, refl, refl)
  Closed-Accounts asset pos p (err e) p' (inr (held, same)) =
      rw same (ground (arith, keys-insert asset pos p.positions))

  close-Accounts :
      (s : FeeSchedule F) (asset : String) (m : MarketData F) (p : PortfolioState F)
      → let (r, p') = close s asset m p in Accounts p (fills_of r, p')
  close-Accounts s asset m p = elim (Option-cases (position_at asset p)) [
    | inl missing ↦ rw (close_missing s asset m p missing) (refl, refl, refl)
    | inr (pos, held) ↦ Closed-Accounts asset _ p _ _ (close_outcome s asset m pos p held)
  ]

  check_stops-Accounts :
      (s : FeeSchedule F) (m : MarketData F) (p : PortfolioState F)
      → let (r, p') = check_stops s m p in Accounts p (optional_fills r, p')
  check_stops-Accounts s m p = elim (check_stops_cases s m p) [
    | inl quiet ↦ rw quiet (refl, refl, refl)
    | inr closes ↦ rw closes (optional (close s m.asset m p) (close-Accounts s m.asset m p))
  ]
    where
      optional :
          (r : Result (Fill F) × PortfolioState F)
          → Accounts p (fills_of r.0, r.1)
          → Accounts p (optional_fills (fired r).0, (fired r).1)
      optional (ok fill, p') h = h
      optional (err e, p') h = h

  tick-Accounts :
      (s : FeeSchedule F) (m : MarketData F) (p : PortfolioState F) → Accounts p ([], tick s m p)
  unfolding tick
  tick-Accounts s m p = elim (Option-cases (position_at m.asset p)) [
    | inl missing ↦ ground arith
    | inr (pos, held) ↦ ground (arith, keys-insert m.asset (tick_position s m pos) p.positions)
  ]

  call-Accounts :
      (s : FeeSchedule F) (c : Command F) (p : PortfolioState F) → Accounts p (call s c p)
  unfolding call
  call-Accounts s (open_plain c m) p =
      Opened-Accounts c.asset _ p _ _ (open_position_outcome s c m p)
  call-Accounts s (open_plan c m) p =
      Opened-Accounts c.candidate.asset _ p _ _ (open_sized_outcome s c m p)
  call-Accounts s (cut asset m) p = close-Accounts s asset m p
  call-Accounts s (mark m) p = tick-Accounts s m p
  call-Accounts s (guard_stops m) p = check_stops-Accounts s m p

  -- After any sequence of calls, raising ones included, the cash is the starting cash with the
  -- returned fills settled in order, the starting balance is unchanged, and the assets with an open
  -- position are, in the order of their opening, those at the start followed through the fills: an
  -- opening fill adds its asset, a closing one removes its asset.
  pub call_all_accounts :
      (s : FeeSchedule F) (cs : List (Command F)) (p : PortfolioState F)
      → let (fills, p') = call_all s cs p in
        (p'.balance_usd ≡ foldl settle p.balance_usd fills)
        × (p'.starting_balance_usd ≡ p.starting_balance_usd)
        × (keys p'.positions ≡ foldl follow (keys p.positions) fills)
  unfolding call_all
  call_all_accounts s [] p = (refl, refl, refl)
  call_all_accounts s (c ∷ cs) p =
      let (fills, p') = call s c p in
      let (cash, start, held) = call-Accounts s c p in
      let (cash', start', held') = call_all_accounts s cs p' in
      let more = (call_all s cs p').0 in
      (
        cash'
            ∙ ap (λ b. foldl settle b more) cash
            ∙ sym (foldl-append settle p.balance_usd fills more),
        start' ∙ start,
        held'
            ∙ ap (λ assets. foldl follow assets more) held
            ∙ sym (foldl-append follow (keys p.positions) fills more),
      )
