-- ===== src/Float/Fixed/Lawful.antt =====
-- The fixed point numbers obey the laws of `IsLawful`.
use Prim.Native.Nat.{◌+◌, ◌*◌, ◌/◌, ◌^◌}
use native.Mathlib.Nat.{
  zero-div, zero-mul, mul_comm, one-le-pow, pow-le-pow_right, le-div_iff_mul-le, mul-le-mul,
  mul-le-mul_right, le_refl,
}
use agora_perp_agent.Prelude.{
  ℕ, zero, suc, ◌≤◌, ◌<◌, ◌≡◌, refl, true, false, not, ◌⊎◌, List, [], ◌∷◌, All, arith, leb→le,
  le→leb,
}
use agora_perp_agent.Float.Laws.{IsLawful}
use agora_perp_agent.Float.Fixed.Scale.{div_mono, div_cross, product_cross}
use agora_perp_agent.Float.Fixed.Number.{
  ℤ, pos, negsuc, pos_part, neg_part, scale, opposite, plus, product, ratio, times, over, le_fixed,
  lt_fixed, decimal, total, root_bits, square_root, fixed,
}

scale_pos : 0 < scale
unfolding scale
scale_pos = omega arith

plus_parts :
    (a b : ℤ)
    → pos_part (plus a b) + neg_part a + neg_part b ≡ neg_part (plus a b) + pos_part a + pos_part b
unfolding plus
plus_parts a b = ground arith

le_of_test : (a b : ℤ) → le_fixed a b ≡ true → pos_part a + neg_part b ≤ pos_part b + neg_part a
le_of_test a b h = leb→le _ _ h

plus_mono :
    (a b c d : ℤ)
    → le_fixed a b ≡ true
    → le_fixed c d ≡ true
    → le_fixed (plus a c) (plus b d) ≡ true
plus_mono a b c d h k =
    le→leb _ _ (omega (arith, plus_parts a c, plus_parts b d, leb→le _ _ h, leb→le _ _ k))

decimal-le : (m k n j : ℕ) → m * 10 ^ j ≤ n * 10 ^ k → le_fixed (decimal m k) (decimal n j) ≡ true
unfolding decimal
decimal-le m k n j h = le→leb _ _ (
    omega (
      arith,
      div_cross m n (10 ^ k) (10 ^ j) scale (one-le-pow k 10 (omega arith))
          (one-le-pow j 10 (omega arith)) h,
    ))

decimal_pos : (m k : ℕ) → 0 < m → k ≤ 12 → le_fixed (decimal m k) (decimal 0 0) ≡ false
unfolding decimal scale
decimal_pos m k h small =
    let wide : 10 ^ k ≤ 10 ^ 12 = pow-le-pow_right (omega arith) small in
    let one_le : 1 ≤ m * 10 ^ 12 / 10 ^ k =
      (le-div_iff_mul-le (one-le-pow k 10 (omega arith))).1 (omega arith) in
    ground arith

ten_pow_pos : (i : ℕ) → 0 < 10 ^ i
ten_pow_pos i = one-le-pow i 10 (omega arith)

decimal-times-le :
    (m k n j p q : ℕ)
    → m * n * 10 ^ q * (10 ^ 15 + 1) ≤ p * 10 ^ k * 10 ^ j * 10 ^ 15
    → le_fixed (times (decimal m k) (decimal n j)) (decimal p q) ≡ true
unfolding decimal times product
decimal-times-le m k n j p q h = le→leb _ _ (
    omega (
      arith,
      product_cross m n p (10 ^ k) (10 ^ j) (10 ^ q) scale (10 ^ 15) (ten_pow_pos k) (ten_pow_pos j)
          (ten_pow_pos q) scale_pos (omega arith) h,
    ))

opposite_parts :
    (a : ℤ) → (pos_part (opposite a) ≡ neg_part a) × (neg_part (opposite a) ≡ pos_part a)
unfolding opposite
opposite_parts (pos zero) = (refl, refl)
opposite_parts (pos (suc n)) = (refl, refl)
opposite_parts (negsuc n) = (refl, refl)

opposite_anti : (a b : ℤ) → le_fixed a b ≡ true → le_fixed (opposite b) (opposite a) ≡ true
opposite_anti a b h = le→leb _ _ (omega (arith, opposite_parts a, opposite_parts b, leb→le _ _ h))

decimal-sub-le :
    (m n : ℕ) → le_fixed (plus (decimal (m + n) 0) (opposite (decimal n 0))) (decimal m 0) ≡ true
unfolding decimal scale
decimal-sub-le m n = le→leb _ _ (
    omega (
      arith,
      opposite_parts (decimal n 0),
      plus_parts (decimal (m + n) 0) (opposite (decimal n 0)),
    ))

opposite-opposite : (a : ℤ) → opposite (opposite a) ≡ a
unfolding opposite
opposite-opposite (pos zero) = refl
opposite-opposite (pos (suc n)) = refl
opposite-opposite (negsuc n) = refl

plus_zero : (a : ℤ) → (plus a (pos 0) ≡ a)
unfolding plus
plus_zero a = ground arith

plus-opposite : (a : ℤ) → plus a (opposite a) ≡ pos 0
unfolding plus opposite
plus-opposite (pos zero) = refl
plus-opposite (pos (suc n)) = ground arith
plus-opposite (negsuc n) = ground arith

plus_comm : (a b : ℤ) → plus a b ≡ plus b a
unfolding plus
plus_comm a b = ground arith

product_comm : (a b : ℕ) → product a b ≡ product b a
unfolding product
product_comm a b = rw (mul_comm a b)

times_comm : (a b : ℤ) → times a b ≡ times b a
unfolding times
times_comm (pos a) (pos b) = rw (product_comm a b)
times_comm (pos a) (negsuc b) = rw (product_comm a (suc b))
times_comm (negsuc a) (pos b) = rw (product_comm (suc a) b)
times_comm (negsuc a) (negsuc b) = rw (product_comm (suc a) (suc b))

times-opposite : (a b : ℤ) → times a (opposite b) ≡ opposite (times a b)
unfolding times opposite product scale
times-opposite (pos a) (pos zero) = ground arith
times-opposite (pos a) (pos (suc b)) = ground arith
times-opposite (pos a) (negsuc b) = ground arith
times-opposite (negsuc a) (pos zero) = ground arith
times-opposite (negsuc a) (pos (suc b)) = ground arith
times-opposite (negsuc a) (negsuc b) = ground arith

times_mono :
    (a b c d : ℤ)
    → le_fixed (pos 0) a ≡ true
    → le_fixed (pos 0) c ≡ true
    → le_fixed a b ≡ true
    → le_fixed c d ≡ true
    → le_fixed (times a c) (times b d) ≡ true
unfolding times product
times_mono (pos a) (pos b) (pos c) (pos d) ha hc hab hcd = le→leb _ _ (
    omega (
      arith,
      div_mono (a * c) (b * d) scale scale
          (mul-le-mul (omega (arith, leb→le _ _ hab)) (omega (arith, leb→le _ _ hcd))) scale_pos
          (le_refl scale),
    ))
times_mono _ _ _ _ ha hc hab hcd = ground arith

over_mono :
    (a b c d : ℤ)
    → le_fixed (pos 0) a ≡ true
    → le_fixed c (pos 0) ≡ false
    → le_fixed a b ≡ true
    → le_fixed c d ≡ true
    → le_fixed (over a d) (over b c) ≡ true
unfolding over ratio
over_mono (pos a) (pos b) (pos c) (pos d) ha hc hab hcd = le→leb _ _ (
    omega (
      arith,
      div_mono (a * scale) (b * scale) c d (mul-le-mul_right scale (omega (arith, leb→le _ _ hab)))
          (ground arith) (omega (arith, leb→le _ _ hcd)),
    ))
over_mono _ _ _ _ ha hc hab hcd = ground arith

over_nonneg :
    (a b : ℤ)
    → le_fixed (pos 0) a ≡ true
    → le_fixed b (pos 0) ≡ false
    → le_fixed (pos 0) (over a b) ≡ true
unfolding over
over_nonneg (pos a) (pos b) h k = ground arith
over_nonneg _ _ h k = ground arith

over-opposite : (a b : ℤ) → over (opposite a) b ≡ opposite (over a b)
unfolding over opposite ratio
over-opposite (pos zero) (pos b) = ground (arith, zero-div b, zero-mul scale)
over-opposite (pos zero) (negsuc b) = ground (arith, zero-div (suc b), zero-mul scale)
over-opposite (pos (suc a)) (pos b) = refl
over-opposite (pos (suc a)) (negsuc b) = ground arith
over-opposite (negsuc a) (pos b) = ground arith
over-opposite (negsuc a) (negsuc b) = ground arith

times_one : (a : ℤ) → times a (decimal 1 0) ≡ a
unfolding times product decimal scale opposite
times_one (pos a) = ground arith
times_one (negsuc a) = ground arith

times_zero : (a : ℤ) → times a (pos 0) ≡ pos 0
unfolding times product scale opposite
times_zero (pos a) = ground arith
times_zero (negsuc a) = ground arith

over_one : (a : ℤ) → over a (decimal 1 0) ≡ a
unfolding over ratio decimal scale opposite
over_one (pos a) = ground arith
over_one (negsuc a) = ground arith

total_nonneg :
    (l : List ℤ) → All (λ a. le_fixed (pos 0) a ≡ true) l → le_fixed (pos 0) (total l) ≡ true
unfolding total
total_nonneg [] h = refl
total_nonneg (x ∷ xs) h =
    le→leb _ _
      (omega (arith, plus_parts x (total xs), leb→le _ _ h.0, leb→le _ _ (total_nonneg xs h.1)))

le_fixed_refl : (a : ℤ) → le_fixed a a ≡ true
le_fixed_refl a = le→leb _ _ (omega arith)

nonneg : (n : ℕ) → le_fixed (pos 0) (pos n) ≡ true
nonneg n = le→leb _ _ (omega arith)

root_pos : (a : ℤ) → le_fixed (pos 0) a ≡ true → le_fixed (pos 0) (square_root a) ≡ true
unfolding square_root
root_pos (pos n) h = nonneg (root_bits 64 0 (n * scale))
root_pos (negsuc n) h = refl

opposite_zero : opposite (pos 0) ≡ pos 0
unfolding opposite
opposite_zero = refl

both_ways : {a b : ℤ} → a ≡ b → (le_fixed a b ≡ true) × (le_fixed b a ≡ true)
both_ways {a} {b} e = rw e (le_fixed_refl b, le_fixed_refl b)

le_fixed_trans : (a b c : ℤ) → le_fixed a b ≡ true → le_fixed b c ≡ true → le_fixed a c ≡ true
le_fixed_trans a b c h k = le→leb _ _ (omega (arith, leb→le _ _ h, leb→le _ _ k))

le_fixed_total : (a b : ℤ) → (le_fixed a b ≡ true) ⊎ (le_fixed b a ≡ true)
le_fixed_total a b = grind arith

lt_fixed-not-le : (a b : ℤ) → lt_fixed a b ≡ not (le_fixed b a)
lt_fixed-not-le a b = ground arith

pub fixed-IsLawful : IsLawful ℤ
unfolding decimal scale
fixed-IsLawful = record {
  le_refl = le_fixed_refl;
  le_trans = le_fixed_trans;
  le_total = le_fixed_total;
  lt-not-le = lt_fixed-not-le;
  lit-le = decimal-le;
  lit_pos = decimal_pos;
  lit-mul-le = decimal-times-le;
  add_comm = plus_comm;
  add_mono = λ a b c d h k. plus_mono a b c d h k;
  add_zero = λ a. both_ways (plus_zero a);
  sub_self = λ a. both_ways (plus-opposite a);
  lit-sub-le = λ m n small. decimal-sub-le m n;
  neg_anti = opposite_anti;
  neg_neg = opposite-opposite;
  neg_zero = both_ways opposite_zero;
  mul_comm = times_comm;
  mul_mono = λ a b c d ha hc h k. times_mono a b c d ha hc h k;
  mul_one = λ a. both_ways (times_one a);
  mul_zero = λ a. both_ways (times_zero a);
  mul_neg = times-opposite;
  quotient_mono = λ a b c d ha hc h k. over_mono a b c d ha hc h k;
  quotient_one = λ a. both_ways (over_one a);
  quotient_nonneg = over_nonneg;
  quotient_neg = over-opposite;
  sum_nonneg = total_nonneg;
  root_nonneg = root_pos;
}
