-- ===== src/Float/Laws.antt =====
-- Laws that IEEE 754 doubles with rounding to nearest have on runs without NaN and overflow.
-- Rounding is monotone, and it is symmetric in the sign; sums and products are commutative; a
-- product and a sum with the neutral number is exact. Nothing says that sums are associative or
-- that products distribute, which rounding breaks. Equations up to the sign of zero are stated by
-- two comparisons.
use Prim.Native.Nat.{◌*◌ as ◌*ℕ◌, ◌+◌ as ◌+ℕ◌, ◌^◌}
use agora_perp_agent.Prelude.{
  ℕ, ◌≤◌, ◌<◌, ◌≡◌, true, false, not, ◌⊎◌, List, All, arith, ap, ◌∙◌, subst,
}
use agora_perp_agent.Float.Ops.{Float, ◌≼◌, ◌+◌, ◌*◌, ◌-◌, neg, zero, one, lit, sum, abs, min, max}

pub record IsLawful (F : Type 0) ⦃f : Float F⦄ : Type 0 where
  pub le_refl : (a : F) → a ≼ a
  pub le_trans : (a b c : F) → a ≼ b → b ≼ c → a ≼ c
  pub le_total : (a b : F) → (a ≼ b) ⊎ (b ≼ a)
  pub lt-not-le : (a b : F) → f.lt a b ≡ not (f.le b a)
  pub lit-le : (m k n j : ℕ) → m *ℕ 10 ^ j ≤ n *ℕ 10 ^ k → f.lit m k ≼ f.lit n j
  pub lit_pos : (m k : ℕ) → 0 < m → k ≤ 12 → f.le (lit m k) zero ≡ false
  -- Three roundings stay within a relative error of 10^-15.
  pub lit-mul-le :
      (m k n j p q : ℕ)
      → m *ℕ n *ℕ 10 ^ q *ℕ (10 ^ 15 +ℕ 1) ≤ p *ℕ 10 ^ k *ℕ 10 ^ j *ℕ 10 ^ 15
      → f.mul (f.lit m k) (f.lit n j) ≼ f.lit p q
  pub add_comm : (a b : F) → a + b ≡ b + a
  pub add_mono : (a b c d : F) → a ≼ b → c ≼ d → a + c ≼ b + d
  pub add_zero : (a : F) → (a + zero ≼ a) × (a ≼ a + zero)
  pub sub_self : (a : F) → (a - a ≼ zero) × (zero ≼ a - a)
  -- Integers up to 2^53 and their differences are exact.
  pub lit-sub-le :
      (m n : ℕ) → m +ℕ n ≤ 2 ^ 53 → f.add (f.lit (m +ℕ n) 0) (f.neg (f.lit n 0)) ≼ f.lit m 0
  pub neg_anti : (a b : F) → a ≼ b → neg b ≼ neg a
  pub neg_neg : (a : F) → neg (neg a) ≡ a
  pub neg_zero : (f.neg zero ≼ zero) × (zero ≼ f.neg zero)
  pub mul_comm : (a b : F) → a * b ≡ b * a
  pub mul_mono : (a b c d : F) → zero ≼ a → zero ≼ c → a ≼ b → c ≼ d → a * c ≼ b * d
  pub mul_one : (a : F) → (a * one ≼ a) × (a ≼ a * one)
  pub mul_zero : (a : F) → (a * zero ≼ zero) × (zero ≼ a * zero)
  pub mul_neg : (a b : F) → a * neg b ≡ neg (a * b)
  pub quotient_mono :
      (a b c d : F)
      → zero ≼ a
      → f.le c zero ≡ false
      → a ≼ b
      → c ≼ d
      → f.quotient a d ≼ f.quotient b c
  pub quotient_one : (a : F) → (f.quotient a one ≼ a) × (a ≼ f.quotient a one)
  pub quotient_nonneg : (a b : F) → zero ≼ a → f.le b zero ≡ false → zero ≼ f.quotient a b
  pub quotient_neg : (a b : F) → f.quotient (neg a) b ≡ neg (f.quotient a b)
  pub sum_nonneg : (l : List F) → All (λ a. zero ≼ a) l → zero ≼ sum l
  pub root_nonneg : (a : F) → zero ≼ a → zero ≼ f.root a

-- What follows of it.
module _ {F : Type 0} ⦃f : Float F⦄ (laws : IsLawful F) where
  open laws use {
    le_refl, le_trans, le_total, lt-not-le, add_mono, add_zero, neg_anti, neg_zero, mul_mono,
    mul_zero, mul_comm, mul_neg, add_comm, sub_self,
  }

  pub le_of_lt : (a b : F) → f.lt a b ≡ true → a ≼ b
  le_of_lt a b h = ground (arith, lt-not-le a b, le_total a b)

  pub le_of_not_lt : (a b : F) → f.lt a b ≡ false → b ≼ a
  le_of_not_lt a b h = ground (arith, lt-not-le a b)

  pub le_of_not_le : (a b : F) → f.le a b ≡ false → b ≼ a
  le_of_not_le a b h = ground (arith, le_total a b)

  pub min-le : (a b : F) → (min a b ≼ a) × (min a b ≼ b)
  min-le a b = ground (arith, lt-not-le b a, le_total a b, le_refl a, le_refl b)

  pub le-max : (a b : F) → (a ≼ max a b) × (b ≼ max a b)
  le-max a b = ground (arith, lt-not-le a b, le_total a b, le_refl a, le_refl b)

  pub max-le : (a b c : F) → a ≼ c → b ≼ c → max a b ≼ c
  max-le a b c p q = ground arith

  pub le-min : (a b c : F) → c ≼ a → c ≼ b → c ≼ min a b
  le-min a b c p q = ground arith

  pub neg_nonpos : (a : F) → zero ≼ a → neg a ≼ zero
  neg_nonpos a h = le_trans _ _ _ (neg_anti _ _ h) neg_zero.0

  pub neg_nonneg : (a : F) → a ≼ zero → zero ≼ neg a
  neg_nonneg a h = le_trans _ _ _ neg_zero.1 (neg_anti _ _ h)

  pub abs_nonneg : (a : F) → zero ≼ abs a
  abs_nonneg a = ground (arith, lt-not-le a zero, le_total a zero, neg_nonneg a)

  pub add_nonneg : (a b : F) → zero ≼ a → zero ≼ b → zero ≼ a + b
  add_nonneg a b p q = le_trans _ _ _ (add_zero zero).1 (add_mono _ _ _ _ p q)

  -- Adding what is not negative does not lower, adding what is not positive does not raise.
  pub le-add : (a b : F) → zero ≼ b → a ≼ a + b
  le-add a b h = le_trans _ _ _ (add_zero a).1 (add_mono _ _ _ _ (le_refl a) h)

  pub add-le : (a b : F) → b ≼ zero → a + b ≼ a
  add-le a b h = le_trans _ _ _ (add_mono _ _ _ _ (le_refl a) h) (add_zero a).0

  pub sub-le : (a b : F) → zero ≼ b → a - b ≼ a
  sub-le a b h = add-le a (neg b) (neg_nonpos b h)

  pub sub_nonpos : (a b : F) → a ≼ b → a - b ≼ zero
  sub_nonpos a b h = le_trans _ _ _ (add_mono _ _ _ _ h (le_refl (neg b))) (sub_self b).0

  pub sub_nonneg : (a b : F) → b ≼ a → zero ≼ a - b
  sub_nonneg a b h = le_trans _ _ _ (sub_self b).1 (add_mono _ _ _ _ h (le_refl (neg b)))

  pub mul_nonneg : (a b : F) → zero ≼ a → zero ≼ b → zero ≼ a * b
  mul_nonneg a b p q =
      le_trans _ _ _ (mul_zero a).1 (mul_mono _ _ _ _ p (le_refl zero) (le_refl a) q)

  pub mul_nonpos : (a b : F) → a ≼ zero → zero ≼ b → a * b ≼ zero
  mul_nonpos a b p q =
      let flipped : zero ≼ neg (a * b) =
        subst (λ t. zero ≼ t) (mul_neg b a ∙ ap neg (mul_comm b a))
          (mul_nonneg b (neg a) q (neg_nonneg a p)) in
      subst (λ t. t ≼ zero) (laws.neg_neg (a * b)) (neg_nonpos _ flipped)

  pub mul_le_self : (a b : F) → zero ≼ a → zero ≼ b → b ≼ one → a * b ≼ a
  mul_le_self a b p q h = le_trans _ _ _ (mul_mono _ _ _ _ p q (le_refl a) h) (laws.mul_one a).0

  pub le_mul_self : (a b : F) → zero ≼ a → one ≼ b → a ≼ a * b
  le_mul_self a b p h =
      le_trans _ _ _ (laws.mul_one a).1
        (mul_mono _ _ _ _ p (laws.lit-le 0 0 1 0 (omega arith)) (le_refl a) h)

  pub quotient_nonpos : (a b : F) → a ≼ zero → f.le b zero ≡ false → f.quotient a b ≼ zero
  quotient_nonpos a b h pos =
      let flipped : zero ≼ neg (f.quotient a b) =
        subst (λ t. zero ≼ t) (laws.quotient_neg a b)
          (laws.quotient_nonneg (neg a) b (neg_nonneg a h) pos) in
      subst (λ t. t ≼ zero) (laws.neg_neg (f.quotient a b)) (neg_nonpos _ flipped)
