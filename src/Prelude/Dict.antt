-- ===== src/Prelude/Dict.antt =====
-- A Python dict keyed by text, in insertion order: writing a known key keeps its place.
use Prim.Native.Nat.{◌+◌}
use Prim.Native.String.{String}
use mathlib.Core.Path.{◌≡◌, refl, sym, subst}
use mathlib.Core.Logic.{inl, inr}
use mathlib.Core.Bool.{Bool, true, false}
use mathlib.Core.Option.{Option, none, some}
use mathlib.Core.List.{List, [], ◌∷◌, ◌++◌}
use native.Mathlib.Omega.{arith}
use text.Mathlib.Text.{◌==◌}
use text.Mathlib.TextEquality.{eq_iff}
use agora_perp_agent.Prelude.Tests.{if◌then◌else◌, Bool-cases}
use agora_perp_agent.Prelude.Lists.{length}

abbrev pub Dict {ℓ} : Type ℓ → Type ℓ
Dict V = List (String × V)

-- A list less the first place where the text stands.
abbrev pub without_first : String → List String → List String
without_first k [] = []
without_first k (j ∷ js) = if j == k then js else j ∷ without_first k js

module _ {ℓ} {V : Type ℓ} where
  -- `d.get(k)`
  abbrev pub lookup : String → Dict V → Option V
  lookup k [] = none
  lookup k ((j, v) ∷ d) = if j == k then some v else lookup k d

  -- `k in d`
  abbrev pub contains : String → Dict V → Bool
  contains k d = elim (lookup k d) [ none ↦ false | some v ↦ true ]

  -- `d[k] = v`
  abbrev pub insert : String → V → Dict V → Dict V
  insert k v [] = (k, v) ∷ []
  insert k v ((j, w) ∷ d) = if j == k then (j, v) ∷ d else (j, w) ∷ insert k v d

  -- `del d[k]`
  abbrev pub erase : String → Dict V → Dict V
  erase k [] = []
  erase k ((j, w) ∷ d) = if j == k then d else (j, w) ∷ erase k d

  -- No key stands twice.
  abbrev pub IsKeyed : Dict V → Type ℓ
  IsKeyed [] = Unit
  IsKeyed ((k, v) ∷ d) = (lookup k d ≡ none) × IsKeyed d

  pub lookup-insert :
      (k j : String) (v : V) (d : Dict V)
      → lookup j (insert k v d) ≡ (if k == j then some v else lookup j d)
  lookup-insert k j v [] = refl
  lookup-insert k j v ((i, w) ∷ d) =
      ground (arith, eq_iff k j, eq_iff i k, eq_iff i j, lookup-insert k j v d)

  pub lookup-erase_ne :
      (k j : String) (d : Dict V) → (k == j) ≡ false → lookup j (erase k d) ≡ lookup j d
  lookup-erase_ne k j [] h = refl
  lookup-erase_ne k j ((i, w) ∷ d) h =
      ground (arith, eq_iff k j, eq_iff i k, eq_iff i j, lookup-erase_ne k j d h)

  pub lookup-erase_self : (k : String) (d : Dict V) → IsKeyed d → lookup k (erase k d) ≡ none
  lookup-erase_self k [] h = refl
  lookup-erase_self k ((i, w) ∷ d) h = ground (arith, eq_iff i k, lookup-erase_self k d h.1)

  pub insert-IsKeyed : (k : String) (v : V) (d : Dict V) → IsKeyed d → IsKeyed (insert k v d)
  insert-IsKeyed k v [] h = (refl, tt)
  insert-IsKeyed k v ((i, w) ∷ d) h =
      ground (arith, eq_iff i k, eq_iff k i, lookup-insert k i v d, insert-IsKeyed k v d h.1)

  pub erase-IsKeyed : (k : String) (d : Dict V) → IsKeyed d → IsKeyed (erase k d)
  erase-IsKeyed k [] h = tt
  erase-IsKeyed k ((i, w) ∷ d) h =
      ground (arith, eq_iff i k, eq_iff k i, lookup-erase_ne k i d, erase-IsKeyed k d h.1)

  pub length-insert :
      (k : String) (v : V) (d : Dict V)
      → length (insert k v d) ≡ (if contains k d then length d else length d + 1)
  length-insert k v [] = ground arith
  length-insert k v ((i, w) ∷ d) = ground (arith, length-insert k v d)

  -- A second write at a key replaces the first, and a deletion undoes it.
  pub insert-insert : (k : String) (v w : V) (d : Dict V) → insert k w (insert k v d) ≡ insert k w d
  insert-insert k v w [] = ground (arith, eq_iff k k)
  insert-insert k v w ((i, u) ∷ d) = ground (arith, insert-insert k v w d)

  pub erase-insert : (k : String) (v : V) (d : Dict V) → erase k (insert k v d) ≡ erase k d
  erase-insert k v [] = ground (arith, eq_iff k k)
  erase-insert k v ((i, u) ∷ d) = ground (arith, erase-insert k v d)

  pub insert_new :
      (k : String) (v : V) (d : Dict V) → lookup k d ≡ none → length (insert k v d) ≡ length d + 1
  insert_new k v d h = ground (arith, length-insert k v d)

  pub length-erase :
      (k : String) (d : Dict V) → length (erase k d) + (if contains k d then 1 else 0) ≡ length d
  length-erase k [] = ground arith
  length-erase k ((i, u) ∷ d) = ground (arith, length-erase k d)

  -- `list(d)`
  abbrev pub keys : Dict V → List String
  keys [] = []
  keys ((k, v) ∷ d) = k ∷ keys d

  pub keys-insert :
      (k : String) (v : V) (d : Dict V)
      → keys (insert k v d) ≡ (if contains k d then keys d else keys d ++ k ∷ [])
  keys-insert k v [] = refl
  keys-insert k v ((i, u) ∷ d) = ground (arith, keys-insert k v d)

  pub keys-erase : (k : String) (d : Dict V) → keys (erase k d) ≡ without_first k (keys d)
  keys-erase k [] = refl
  keys-erase k ((i, u) ∷ d) = ground (arith, keys-erase k d)

  abbrev pub Entries {κ} : (String → V → Type κ) → Dict V → Type κ
  Entries P [] = Unit
  Entries P ((k, v) ∷ d) = P k v × Entries P d

  pub insert-Entries {κ} :
      (P : String → V → Type κ) (k : String) (v : V) (d : Dict V)
      → P k v
      → Entries P d
      → Entries P (insert k v d)
  insert-Entries P k v [] p h = (p, tt)
  insert-Entries P k v ((i, w) ∷ d) p h = elim (Bool-cases (i == k)) [
    | inl same ↦ rw same (subst (λ j. P j v) (sym ((eq_iff i k).0 same)) p, h.1)
    | inr other ↦ rw other (h.0, insert-Entries P k v d p h.1)
  ]

  pub erase-Entries {κ} :
      (P : String → V → Type κ) (k : String) (d : Dict V) → Entries P d → Entries P (erase k d)
  erase-Entries P k [] h = tt
  erase-Entries P k ((i, w) ∷ d) h = elim (Bool-cases (i == k)) [
    | inl same ↦ rw same h.1
    | inr other ↦ rw other (h.0, erase-Entries P k d h.1)
  ]

  pub lookup-Entries {κ} :
      (P : String → V → Type κ) (k : String) (v : V) (d : Dict V)
      → Entries P d
      → lookup k d ≡ some v
      → P k v
  lookup-Entries P k v [] h e = absurd (ground arith)
  lookup-Entries P k v ((i, w) ∷ d) h e = elim (Bool-cases (i == k)) [
    | inl same ↦ subst (λ j. P j v) ((eq_iff i k).0 same) (subst (P i) (ground arith) h.0)
    | inr other ↦ lookup-Entries P k v d h.1 (ground arith)
  ]
