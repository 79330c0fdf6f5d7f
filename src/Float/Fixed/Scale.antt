-- ===== src/Float/Fixed/Scale.antt =====
-- Quotients of naturals rounded down, as far as the fixed point numbers need them.
use Prim.Native.Nat.{◌*◌, ◌/◌, ◌+◌}
use native.Mathlib.Nat.{
  le-div_iff_mul-le, le_of_mul-le-mul_right, div-mul-le_self, mul-le-mul_right, mul-le-mul, mul-pos,
  le_trans,
}
use agora_perp_agent.Prelude.{ℕ, ◌≤◌, ◌<◌, arith}

pub div_mono : (a b c d : ℕ) → a ≤ b → 0 < c → c ≤ d → a / d ≤ b / c
div_mono a b c d h pos k =
    (le-div_iff_mul-le pos).1
      (le_trans (mul-le-mul (omega arith) k) (le_trans (div-mul-le_self a d) h))

pub div_cross : (m n p q s : ℕ) → 0 < p → 0 < q → m * q ≤ n * p → m * s / p ≤ n * s / q
div_cross m n p q s p_pos q_pos h =
    let f = m * s / p in
    let low : f * p * q ≤ m * s * q = mul-le-mul_right q (div-mul-le_self (m * s) p) in
    let cross : m * q * s ≤ n * p * s = mul-le-mul_right s h in
    (le-div_iff_mul-le q_pos).1
      (le_of_mul-le-mul_right {m = f * q} {n = n * s} {k = p} (omega arith) p_pos)

pub product_cross :
    (m n p k j r s e : ℕ)
    → 0 < k
    → 0 < j
    → 0 < r
    → 0 < s
    → 0 < e
    → m * n * r * (e + 1) ≤ p * k * j * e
    → m * s / k * (n * s / j) / s ≤ p * s / r
product_cross m n p k j r s e k_pos j_pos r_pos s_pos e_pos h =
    let x = m * s / k in
    let y = n * s / j in
    let g = x * y / s in
    let exact : m * n * r ≤ p * k * j =
      le_of_mul-le-mul_right {m = m * n * r} {n = p * k * j} {k = e} (omega arith) e_pos in
    let top : g * s * (r * k * j) ≤ x * y * (r * k * j) =
      mul-le-mul_right (r * k * j) (div-mul-le_self (x * y) s) in
    let factors : x * k * (y * j) ≤ m * s * (n * s) =
      mul-le-mul (div-mul-le_self (m * s) k) (div-mul-le_self (n * s) j) in
    let widened : x * k * (y * j) * r ≤ m * s * (n * s) * r = mul-le-mul_right r factors in
    let bound : m * n * r * (s * s) ≤ p * k * j * (s * s) = mul-le-mul_right (s * s) exact in
    (le-div_iff_mul-le r_pos).1 (
      le_of_mul-le-mul_right {m = g * r} {n = p * s} {k = s * k * j} (omega arith)
        (mul-pos (mul-pos s_pos k_pos) j_pos))
