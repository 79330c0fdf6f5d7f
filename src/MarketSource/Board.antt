-- ===== src/MarketSource/Board.antt =====
-- core/data.py: `fetch_board`.
use agora_perp_agent.Prelude.{
  String, ◌≡◌, ◌⊎◌, refl, Bool, true, false, ◌==◌, eq_iff, Option, none, some, List, [], ◌∷◌,
  if◌then◌else◌, inl, inr, Bool-cases, ◌∙◌, subst,
}
use agora_perp_agent.Prelude.Errors.{Error, Result, ok, err, Result-cases, Returns}
use agora_perp_agent.Prelude.Dict.{Dict, lookup, insert, lookup-insert, Entries, insert-Entries}
use agora_perp_agent.Contracts.{MarketData}

-- `asset in assets`
abbrev pub is_listed : String → List String → Bool
is_listed asset [] = false
is_listed asset (a ∷ assets) = if a == asset then true else is_listed asset assets

module _ {F : Type 0} where
  -- The entries of the results that the pool gives in the order of the assets; a fetch that raised has
  -- none.
  unfoldable pub collect :
      (String → Result (MarketData F)) → List String → Dict (MarketData F) → Dict (MarketData F)
  collect fetch [] out = out
  collect fetch (asset ∷ assets) out = elim (fetch asset) [
    | err e ↦ collect fetch assets out
    | ok md ↦ collect fetch assets (insert asset md out)
  ]

  -- `fetch_board`, with what the source's `fetch` returns or raises for each asset.
  unfoldable pub fetch_board : (String → Result (MarketData F)) → List String → Dict (MarketData F)
  unfolding collect
  fetch_board fetch assets = collect fetch assets []

  abbrev pub answer_of : Result (MarketData F) → Option (MarketData F)
  answer_of (ok md) = some md
  answer_of (err e) = none

  -- The answer for an asset that is in the list, and else what was there.
  abbrev entry_after : Bool → Result (MarketData F) → Option (MarketData F) → Option (MarketData F)
  entry_after true (ok md) before = some md
  entry_after true (err e) before = before
  entry_after false r before = before

  lookup-collect :
      (fetch : String → Result (MarketData F)) (assets : List String) (out : Dict (MarketData F))
      (asset : String)
      → lookup asset (collect fetch assets out)
        ≡ entry_after (is_listed asset assets) (fetch asset) (lookup asset out)
  unfolding collect
  lookup-collect fetch [] out asset = refl
  lookup-collect fetch (a ∷ assets) out asset = elim (Result-cases (fetch a)) [
    | inl (md, fetched) ↦
        rw (collect, fetched)
          (lookup-collect fetch assets (insert a md out) asset
            ∙ replaced (Bool-cases (a == asset)) md fetched)
    | inr (e, failed) ↦
        rw (collect, failed)
          (lookup-collect fetch assets out asset ∙ kept (Bool-cases (a == asset)) e failed)
  ]
    where
      listed : (b : Bool) (md : MarketData F) → entry_after b (ok md) (some md) ≡ some md
      listed true md = refl
      listed false md = refl

      unlisted : (b : Bool) (e : Error) (o : Option (MarketData F)) → entry_after b (err e) o ≡ o
      unlisted true e o = refl
      unlisted false e o = refl

      replaced :
          ((a == asset) ≡ true) ⊎ ((a == asset) ≡ false)
          → (md : MarketData F) → fetch a ≡ ok md
          → entry_after (is_listed asset assets) (fetch asset) (lookup asset (insert a md out))
            ≡ entry_after (is_listed asset (a ∷ assets)) (fetch asset) (lookup asset out)
      replaced (inr other) md fetched = rw (other, lookup-insert a asset md out, other) refl
      replaced (inl same) md fetched =
          let mine : fetch asset ≡ ok md =
            subst (λ x. fetch x ≡ ok md) ((eq_iff a asset).0 same) fetched in
          rw (same, mine, lookup-insert a asset md out, same) (listed (is_listed asset assets) md)

      kept :
          ((a == asset) ≡ true) ⊎ ((a == asset) ≡ false)
          → (e : Error) → fetch a ≡ err e
          → entry_after (is_listed asset assets) (fetch asset) (lookup asset out)
            ≡ entry_after (is_listed asset (a ∷ assets)) (fetch asset) (lookup asset out)
      kept (inr other) e failed = rw other refl
      kept (inl same) e failed =
          let mine : fetch asset ≡ err e =
            subst (λ x. fetch x ≡ err e) ((eq_iff a asset).0 same) failed in
          rw (same, mine) (unlisted (is_listed asset assets) e (lookup asset out))

  -- The board has a snapshot for exactly the requested assets whose fetch returned, and it is the one
  -- that was fetched: a fetch that raises takes no other asset's snapshot away.
  pub fetch_board_isolates :
      (fetch : String → Result (MarketData F)) (assets : List String) (asset : String)
      → lookup asset (fetch_board fetch assets)
        ≡ (if is_listed asset assets then answer_of (fetch asset) else none)
  unfolding fetch_board
  fetch_board_isolates fetch assets asset =
      lookup-collect fetch assets [] asset ∙ go (is_listed asset assets) (fetch asset)
    where
      go :
          (b : Bool) (r : Result (MarketData F))
          → entry_after b r none ≡ (if b then answer_of r else none)
      go true (ok md) = refl
      go true (err e) = refl
      go false r = refl

  collect_titled :
      (fetch : String → Result (MarketData F)) (assets : List String) (out : Dict (MarketData F))
      → ((asset : String) → Returns (λ m. m.asset ≡ asset) (fetch asset))
      → Entries (λ asset m. m.asset ≡ asset) out
      → Entries (λ asset m. m.asset ≡ asset) (collect fetch assets out)
  unfolding collect
  collect_titled fetch [] out own h = h
  collect_titled fetch (asset ∷ assets) out own h = elim (Result-cases (fetch asset)) [
    | inl (md, fetched) ↦
        rw (collect, fetched)
          (collect_titled fetch assets (insert asset md out) own (
            insert-Entries (λ asset m. m.asset ≡ asset) asset md out
              (subst (Returns (λ m. m.asset ≡ asset)) fetched (own asset)) h))
    | inr (e, failed) ↦ rw (collect, failed) (collect_titled fetch assets out own h)
  ]

  -- Where each fetch that returns gives a snapshot of the asked asset, each snapshot of the board is of
  -- the asset that it is filed under.
  pub fetch_board_titled :
      (fetch : String → Result (MarketData F)) (assets : List String)
      → ((asset : String) → Returns (λ m. m.asset ≡ asset) (fetch asset))
      → Entries (λ asset m. m.asset ≡ asset) (fetch_board fetch assets)
  unfolding fetch_board
  fetch_board_titled fetch assets own = collect_titled fetch assets [] own tt
