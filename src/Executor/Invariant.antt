-- ===== src/Executor/Invariant.antt =====
-- The portfolio's map of positions stays well formed under any sequence of calls.
use agora_perp_agent.Prelude.{String, ◌≡◌, List, [], ◌∷◌, arith, inl, inr, Option-cases, refl, ◌∙◌}
use agora_perp_agent.Prelude.Errors.{Result, ok, err}
use agora_perp_agent.Prelude.Dict.{
  IsKeyed, Entries, insert-IsKeyed, erase-IsKeyed, insert-Entries, erase-Entries, lookup-Entries,
}
use agora_perp_agent.Float.Ops.{Float}
use agora_perp_agent.Contracts.{MarketData, FeeSchedule, Position, PortfolioState, Fill}
use agora_perp_agent.Executor.{
  put, remove, position_at, close, tick, tick_position, check_stops, accrue_funding,
}
use agora_perp_agent.Executor.Outcome.{
  Opened, Closed, open_sized_outcome, open_position_outcome, close_outcome, close_missing,
  check_stops_cases, fired,
}
use agora_perp_agent.Executor.Slippage.{accrue_funding_keeps}
use agora_perp_agent.Executor.Ledger.{
  Command, open_plain, open_plan, cut, mark, guard_stops, call, call_all,
}

-- No asset has two positions, and each position stands under its own asset.
pub record IsConsistent {F : Type 0} (p : PortfolioState F) : Type 0 where
  pub keyed : IsKeyed p.positions
  pub own_asset : Entries (λ k pos. pos.asset ≡ k) p.positions

module _ {F : Type 0} ⦃f : Float F⦄ where
  put-IsConsistent :
      (asset : String) (pos : Position F) (p : PortfolioState F)
      → pos.asset ≡ asset
      → IsConsistent p
      → IsConsistent (put asset pos p)
  put-IsConsistent asset pos p e h = record {
    keyed = insert-IsKeyed asset pos p.positions h.keyed;
    own_asset = insert-Entries (λ k q. q.asset ≡ k) asset pos p.positions e h.own_asset;
  }

  remove-IsConsistent :
      (asset : String) (p : PortfolioState F) → IsConsistent p → IsConsistent (remove asset p)
  remove-IsConsistent asset p h = record {
    keyed = erase-IsKeyed asset p.positions h.keyed;
    own_asset = erase-Entries (λ k q. q.asset ≡ k) asset p.positions h.own_asset;
  }

  Opened-IsConsistent :
      (asset : String) (pos : Fill F → Position F) (p : PortfolioState F) (r : Result (Fill F))
      (p' : PortfolioState F)
      → ((fill : Fill F) → (pos fill).asset ≡ asset)
      → IsConsistent p
      → Opened asset pos p (r, p')
      → IsConsistent p'
  Opened-IsConsistent asset pos p (ok fill) p' own h (_, _, _, e) =
      let after = put-IsConsistent asset (pos fill) p (own fill) h in
      rw e (record { keyed = after.keyed; own_asset = after.own_asset })
  Opened-IsConsistent asset pos p (err e) p' own h same = rw same h

  close-IsConsistent :
      (s : FeeSchedule F) (asset : String) (m : MarketData F) (p : PortfolioState F)
      → IsConsistent p
      → IsConsistent (close s asset m p).1
  close-IsConsistent s asset m p h = elim (Option-cases (position_at asset p)) [
    | inl missing ↦ rw (close_missing s asset m p missing) h
    | inr (pos, held) ↦
        go (accrue_funding s m pos) (close s asset m p)
          ((accrue_funding_keeps s m pos).0
            ∙ lookup-Entries (λ k q. q.asset ≡ k) asset pos p.positions h.own_asset held)
          (close_outcome s asset m pos p held)
  ]
    where
      go :
          (pos : Position F) (r : Result (Fill F) × PortfolioState F)
          → pos.asset ≡ asset
          → Closed asset pos p r
          → IsConsistent r.1
      go pos (ok fill, p') own (_, _, _, e) =
          let after = remove-IsConsistent asset p h in
          rw e (record { keyed = after.keyed; own_asset = after.own_asset })
      go pos (err e, p') own (inl same) = rw same h
      go pos (err e, p') own (inr (_, same)) = rw same (put-IsConsistent asset pos p own h)

  tick-IsConsistent :
      (s : FeeSchedule F) (m : MarketData F) (p : PortfolioState F)
      → IsConsistent p
      → IsConsistent (tick s m p)
  unfolding tick
  tick-IsConsistent s m p h = elim (Option-cases (position_at m.asset p)) [
    | inl missing ↦ rw (tick, missing) h
    | inr (pos, held) ↦
        rw (tick, held)
          (put-IsConsistent m.asset (tick_position s m pos) p
            (own pos ∙ lookup-Entries (λ k q. q.asset ≡ k) m.asset pos p.positions h.own_asset held)
            h)
  ]
    where
      own : (pos : Position F) → (tick_position s m pos).asset ≡ pos.asset
      own pos = unfold tick_position accrue_funding in ground arith

  check_stops-IsConsistent :
      (s : FeeSchedule F) (m : MarketData F) (p : PortfolioState F)
      → IsConsistent p
      → IsConsistent (check_stops s m p).1
  check_stops-IsConsistent s m p h = elim (check_stops_cases s m p) [
    | inl quiet ↦ rw quiet h
    | inr closes ↦ rw closes (go (close s m.asset m p) (close-IsConsistent s m.asset m p h))
  ]
    where
      go : (r : Result (Fill F) × PortfolioState F) → IsConsistent r.1 → IsConsistent (fired r).1
      go (ok fill, p') k = k
      go (err e, p') k = k

  pub call-IsConsistent :
      (s : FeeSchedule F) (c : Command F) (p : PortfolioState F)
      → IsConsistent p
      → IsConsistent (call s c p).1
  unfolding call
  call-IsConsistent s (open_plain c m) p h =
      Opened-IsConsistent c.asset _ p _ _ (λ fill. refl) h (open_position_outcome s c m p)
  call-IsConsistent s (open_plan c m) p h =
      Opened-IsConsistent c.candidate.asset _ p _ _ (λ fill. refl) h (open_sized_outcome s c m p)
  call-IsConsistent s (cut asset m) p h = close-IsConsistent s asset m p h
  call-IsConsistent s (mark m) p h = tick-IsConsistent s m p h
  call-IsConsistent s (guard_stops m) p h = check_stops-IsConsistent s m p h

  -- Whatever sequence of calls is made, raising ones included, no asset gets a second position and
  -- each position stays under its own asset, if that holds at the start.
  pub call_all-IsConsistent :
      (s : FeeSchedule F) (cs : List (Command F)) (p : PortfolioState F)
      → IsConsistent p
      → IsConsistent (call_all s cs p).1
  unfolding call_all
  call_all-IsConsistent s [] p h = h
  call_all-IsConsistent s (c ∷ cs) p h =
      call_all-IsConsistent s cs (call s c p).1 (call-IsConsistent s c p h)
