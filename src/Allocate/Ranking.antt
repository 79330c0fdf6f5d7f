-- ===== src/Allocate/Ranking.antt =====
-- The board that `allocate` returns is the best part of its pool, in order.
use mathlib.Core.List.{Perm, perm_middle, append-nil}
use mathlib.Core.List.Perm
use agora_perp_agent.Prelude.{
  ℕ, zero, suc, ◌≡◌, ◌≤◌, ◌⊎◌, inl, inr, refl, Bool, true, false, not, ◌||◌, List, [], ◌∷◌, ◌++◌,
  arith, length, take, drop, take-drop, subst, sym, All, All-take, length-take-le, if◌then◌else◌,
  ap,
}
use agora_perp_agent.Prelude.Errors.{ok}
use agora_perp_agent.Prelude.Sort.{
  lex, IsWeakOrder, lex-IsWeakOrder, IsSorted, sort, sort-perm, sort-IsSorted, All-sort,
}
use agora_perp_agent.Prelude.Text.{text_lt, text_lt-IsWeakOrder}
use agora_perp_agent.Float.Ops.{Float, ◌≼◌, neg}
use agora_perp_agent.Float.Laws.{IsLawful}
use agora_perp_agent.Allocate.{
  Board, Item, cost_of, forecast_of, nonneg, allocate, keep_tradeable, key_lt, ranks_before,
  number_from, sort_key,
}

take_full {ℓ} : {A : Type ℓ} (n : ℕ) (xs : List A) → (drop n xs ≡ []) ⊎ (length (take n xs) ≡ n)
take_full zero xs = inr refl
take_full (suc n) [] = inl refl
take_full (suc n) (x ∷ xs) = elim (take_full n xs) [ inl e ↦ inl e | inr e ↦ inr (ap suc e) ]

-- What `keep_tradeable` leaves out.
abbrev others : {F : Type 0} → List (Item F) → List (Item F)
others [] = []
others (item ∷ items) = if (cost_of item).is_tradeable then others items else item ∷ others items

module _ {F : Type 0} where
  keep_tradeable-All :
      (items : List (Item F))
      → All (λ item. (cost_of item).is_tradeable ≡ true) (keep_tradeable items)
  unfolding keep_tradeable
  keep_tradeable-All [] = tt
  keep_tradeable-All (item ∷ items) = ground (arith, keep_tradeable-All items)

  others-All :
      (items : List (Item F)) → All (λ item. (cost_of item).is_tradeable ≡ false) (others items)
  others-All [] = tt
  others-All (item ∷ items) = ground (arith, others-All items)

  keep_tradeable-perm : (items : List (Item F)) → Perm (keep_tradeable items ++ others items) items
  unfolding keep_tradeable
  keep_tradeable-perm [] = Perm.refl []
  keep_tradeable-perm (item ∷ items) =
      elim (cost_of item).is_tradeable
        as (λ b.
          Perm
            ((if b then item ∷ keep_tradeable items else keep_tradeable items)
              ++ (if b then others items else item ∷ others items))
            (item ∷ items)) [
              | true ↦ Perm.cons item (keep_tradeable-perm items)
              | false ↦
                  Perm.trans (perm_middle (keep_tradeable items) (others items))
                    (Perm.cons item (keep_tradeable-perm items))
            ]

module _ {F : Type 0} ⦃f : Float F⦄ where
  abbrev edge : Item F → F
  edge item = (cost_of item).edge_after_cost_bps

  abbrev confidence : Item F → F
  confidence item = (forecast_of item).confidence

  -- The first item has the greater edge, with equal edges the greater confidence, and with equal
  -- confidences too its name is not after that of the second.
  abbrev pub IsAbove : Item F → Item F → Type 0
  IsAbove a b =
      (edge b ≼ edge a)
      × (edge a ≼ edge b
          → (confidence b ≼ confidence a) × (confidence a ≼ confidence b → text_lt b.0 a.0 ≡ false))

  abbrev pub IsRanked : List (Item F) → Type 0
  IsRanked [] = Unit
  IsRanked (item ∷ items) = All (IsAbove item) items × IsRanked items

  -- What is left aside before the ranking: nothing, or the items that are not tradeable.
  abbrev pub SetAside : Bool → List (Item F) → Type 0
  SetAside false aside = aside ≡ []
  SetAside true aside = All (λ item. (cost_of item).is_tradeable ≡ false) aside

  abbrev pool : Board F → Bool → List (Item F)
  pool board require_tradeable = if require_tradeable then keep_tradeable board else board

  pool-perm :
      (board : Board F) (require_tradeable : Bool)
      → (aside : List (Item F)) × Perm (pool board require_tradeable ++ aside) board
        × SetAside require_tradeable aside
  pool-perm board true = (others board, keep_tradeable-perm board, others-All board)
  pool-perm board false =
      ([], subst (λ l. Perm l board) (sym (append-nil board)) (Perm.refl board), refl)

  everything : (items : List (Item F)) → All (λ item. true ≡ true) items
  everything [] = tt
  everything (item ∷ items) = (refl, everything items)

  pool-All :
      (board : Board F) (require_tradeable : Bool)
      → All
          (λ item. (not require_tradeable || (cost_of item).is_tradeable) ≡ true)
          (pool board require_tradeable)
  pool-All board true = keep_tradeable-All board
  pool-All board false = everything board

  module _ (laws : IsLawful F) where
    lt-IsWeakOrder : IsWeakOrder f.lt
    lt-IsWeakOrder = record {
      asymm = λ a b. ground (arith, laws.lt-not-le a b, laws.lt-not-le b a, laws.le_total a b);
      cotrans = λ a b c.
          ground (
            arith,
            laws.lt-not-le a b,
            laws.lt-not-le b c,
            laws.lt-not-le a c,
            laws.le_trans c b a,
          );
    }

    key_lt-IsWeakOrder : IsWeakOrder (key_lt {F = F})
    key_lt-IsWeakOrder =
        lex-IsWeakOrder lt-IsWeakOrder (lex-IsWeakOrder lt-IsWeakOrder text_lt-IsWeakOrder)

    ranks_before-IsWeakOrder : IsWeakOrder (ranks_before {F = F})
    ranks_before-IsWeakOrder = record {
      asymm = λ a b. key_lt-IsWeakOrder.asymm (sort_key a) (sort_key b);
      cotrans = λ a b c. key_lt-IsWeakOrder.cotrans (sort_key a) (sort_key b) (sort_key c);
    }

    neg_back : (a b : F) → neg a ≼ neg b → b ≼ a
    neg_back a b h =
        subst (λ t. t ≼ a) (laws.neg_neg b)
          (subst (λ t. neg (neg b) ≼ t) (laws.neg_neg a) (laws.neg_anti (neg a) (neg b) h))

    -- Not before by the negated number: not greater.
    not_below : (a b : F) → f.lt (neg b) (neg a) ≡ false → b ≼ a
    not_below a b h = neg_back a b (ground (arith, laws.lt-not-le (neg b) (neg a)))

    no_tie : (a b : F) → a ≼ b → f.lt (neg a) (neg b) ≡ false
    no_tie a b h = ground (arith, laws.lt-not-le (neg a) (neg b), laws.neg_anti a b h)

    lex_first :
        {B : Type 0} (lt' : B → B → Bool) (a a' : F) (b b' : B)
        → lex f.lt lt' (a, b) (a', b') ≡ false
        → (f.lt a a' ≡ false) × (f.lt a' a ≡ false → lt' b b' ≡ false)
    lex_first lt' a a' b b' h = (ground arith, λ tie. ground arith)

    ranks_before-IsAbove : (a b : Item F) → ranks_before b a ≡ false → IsAbove a b
    ranks_before-IsAbove a b h =
        let (first, second) = lex_first (lex f.lt text_lt) (neg (edge b)) (neg (edge a)) _ _ h in
        (
          not_below (edge a) (edge b) first,
          λ tie.
              let (third, fourth) =
                lex_first text_lt (neg (confidence b)) (neg (confidence a)) b.0 a.0
                  (second (no_tie (edge a) (edge b) tie)) in
              (
                not_below (confidence a) (confidence b) third,
                λ same. fourth (no_tie (confidence a) (confidence b) same),
              ),
        )

    sorted-IsRanked : (items : List (Item F)) → IsSorted ranks_before items → IsRanked items
    sorted-IsRanked [] h = tt
    sorted-IsRanked (item ∷ items) (below, sorted) = (go items below, sorted-IsRanked items sorted)
      where
        go :
            (later : List (Item F))
            → All (λ y. ranks_before y item ≡ false) later
            → All (IsAbove item) later
        go [] h = tt
        go (y ∷ ys) (h, more) = (ranks_before-IsAbove item y h, go ys more)

    -- For a limit that is not negative, the result is a list of chosen items, numbered from 0 in
    -- order. Together with the rest and the items set aside they are the board up to order; set aside
    -- are items that are not tradeable, and only where tradeable ones are asked for, and then every
    -- chosen one is tradeable. The chosen items and then the rest stand by edge after cost, the
    -- greatest first, then by confidence, the greatest first, then by name. At most the limit is
    -- chosen, and exactly that many if there is a rest.
    pub allocate_ranking :
        (board : Board F) (n : ℕ) (require_tradeable : Bool)
        → (chosen rest aside : List (Item F)) × (allocate board (nonneg n) require_tradeable
            ≡ ok (number_from 0 chosen))
          × Perm ((chosen ++ rest) ++ aside) board
          × SetAside require_tradeable aside
          × IsRanked (chosen ++ rest)
          × (length chosen ≤ n)
          × ((rest ≡ []) ⊎ (length chosen ≡ n))
          × All (λ item. (not require_tradeable || (cost_of item).is_tradeable) ≡ true) chosen
    unfolding allocate
    allocate_ranking board n require_tradeable =
        let all = sort ranks_before (pool board require_tradeable) in
        let whole = take-drop n all in
        let (aside, parts, unwanted) = pool-perm board require_tradeable in
        (
          take n all,
          drop n all,
          aside,
          refl,
          rw whole (
              Perm.trans
                (Perm.append_right aside (sort-perm ranks_before (pool board require_tradeable)))
                parts),
          unwanted,
          rw whole (
              sorted-IsRanked all
                (sort-IsSorted ranks_before-IsWeakOrder (pool board require_tradeable))),
          length-take-le n all,
          take_full n all,
          All-take _ n all (
              All-sort ranks_before _ (pool board require_tradeable)
                (pool-All board require_tradeable)),
        )
