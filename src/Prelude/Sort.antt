-- ===== src/Prelude/Sort.antt =====
-- `list.sort` with a key: a stable insertion sort by a Boolean "less than", with the laws of a
-- strict weak order, which pairs compared component by component inherit.
use mathlib.Core.List.{Perm}
use mathlib.Core.List.Perm
use mathlib.Core.Path.{◌≡◌}
use mathlib.Core.Bool.{Bool, true, false}
use mathlib.Core.List.{List, [], ◌∷◌}
use native.Mathlib.Omega.{arith}
use agora_perp_agent.Prelude.Tests.{if◌then◌else◌}
use agora_perp_agent.Prelude.Lists.{All}

pub record IsWeakOrder {ℓ} {A : Type ℓ} (lt : A → A → Bool) : Type ℓ where
  pub asymm : (a b : A) → lt a b ≡ true → lt b a ≡ false
  pub cotrans : (a b c : A) → lt a b ≡ false → lt b c ≡ false → lt a c ≡ false

-- Python compares tuples at the first place where they differ.
abbrev pub lex {ℓ κ} :
    {A : Type ℓ} {B : Type κ} → (A → A → Bool) → (B → B → Bool) → A × B → A × B → Bool
lex lt lt' (a, b) (a', b') = if lt a a' then true else if lt a' a then false else lt' b b'

module _ {ℓ κ} {A : Type ℓ} {B : Type κ} {lt : A → A → Bool} {lt' : B → B → Bool} where
  pub lex-IsWeakOrder : IsWeakOrder lt → IsWeakOrder lt' → IsWeakOrder (lex lt lt')
  lex-IsWeakOrder o o' = record {
    asymm = λ (a, b) (a', b'). ground (arith, o.asymm a a', o.asymm a' a, o'.asymm b b');
    cotrans = λ (a, b) (a', b') (a'', b''). ground (
      arith,
      o.cotrans a a' a'',
      o.cotrans a'' a' a,
      o.cotrans a' a'' a,
      o.cotrans a' a a'',
      o.cotrans a'' a a',
      o.cotrans a a'' a',
      o.asymm a a'',
      o.asymm a' a,
      o.asymm a'' a',
      o'.cotrans b b' b'',
    );
  }

module _ {ℓ} {A : Type ℓ} (lt : A → A → Bool) where
  -- The new element goes before the first that is not less than it.
  unfoldable pub insert_sorted : A → List A → List A
  insert_sorted x [] = x ∷ []
  insert_sorted x (y ∷ ys) = if lt y x then y ∷ insert_sorted x ys else x ∷ y ∷ ys

  unfoldable pub sort : List A → List A
  unfolding insert_sorted
  sort [] = []
  sort (x ∷ xs) = insert_sorted x (sort xs)

  -- No element is less than one that stands before it.
  abbrev pub IsSorted : List A → Type ℓ
  IsSorted [] = Unit
  IsSorted (x ∷ xs) = All (λ y. lt y x ≡ false) xs × IsSorted xs

  pub insert_sorted-perm : (x : A) (ys : List A) → Perm (insert_sorted x ys) (x ∷ ys)
  unfolding insert_sorted
  insert_sorted-perm x [] = Perm.refl (x ∷ [])
  insert_sorted-perm x (y ∷ ys) =
      elim (lt y x) as (λ b. Perm (if b then y ∷ insert_sorted x ys else x ∷ y ∷ ys) (x ∷ y ∷ ys)) [
        | true ↦ Perm.trans (Perm.cons y (insert_sorted-perm x ys)) (Perm.swap x y ys)
        | false ↦ Perm.refl (x ∷ y ∷ ys)
      ]

  pub sort-perm : (xs : List A) → Perm (sort xs) xs
  unfolding sort
  sort-perm [] = Perm.refl []
  sort-perm (x ∷ xs) = Perm.trans (insert_sorted-perm x (sort xs)) (Perm.cons x (sort-perm xs))

  pub All-insert_sorted {κ} :
      (P : A → Type κ) (x : A) (ys : List A) → P x → All P ys → All P (insert_sorted x ys)
  unfolding insert_sorted
  All-insert_sorted P x [] p h = (p, tt)
  All-insert_sorted P x (y ∷ ys) p h = ground (arith, All-insert_sorted P x ys p h.1)

  pub All-sort {κ} : (P : A → Type κ) (xs : List A) → All P xs → All P (sort xs)
  unfolding sort
  All-sort P [] h = tt
  All-sort P (x ∷ xs) h = All-insert_sorted P x (sort xs) h.0 (All-sort P xs h.1)

module _ {ℓ} {A : Type ℓ} {lt : A → A → Bool} (order : IsWeakOrder lt) where
  All-below :
      (x y : A) (ys : List A)
      → lt y x ≡ false
      → All (λ z. lt z y ≡ false) ys
      → All (λ z. lt z x ≡ false) ys
  All-below x y [] h all = tt
  All-below x y (z ∷ zs) h all = (order.cotrans z y x all.0 h, All-below x y zs h all.1)

  insert_sorted-IsSorted :
      (x : A) (ys : List A) → IsSorted lt ys → IsSorted lt (insert_sorted lt x ys)
  unfolding insert_sorted
  insert_sorted-IsSorted x [] h = (tt, tt)
  insert_sorted-IsSorted x (y ∷ ys) h = ground (
    arith,
    order.asymm y x,
    All-below x y ys,
    All-insert_sorted lt (λ z. lt z y ≡ false) x ys,
    insert_sorted-IsSorted x ys h.1,
  )

  pub sort-IsSorted : (xs : List A) → IsSorted lt (sort lt xs)
  unfolding sort
  sort-IsSorted [] = tt
  sort-IsSorted (x ∷ xs) = insert_sorted-IsSorted x (sort lt xs) (sort-IsSorted xs)
