-- ===== src/Float/Fixed/Number.antt =====
-- The numbers: an integer n stands for n / 10^12.
use Prim.Native.Nat.{◌+◌, ◌-◌, ◌*◌, ◌/◌, ◌^◌}
use agora_perp_agent.Prelude.{ℕ, zero, suc, ◌≡◌, refl, Bool, List, [], ◌∷◌, if◌then◌else◌, ltb, leb}
use agora_perp_agent.Float.Ops.{Float}

-- `negsuc n` is -(n + 1).
pub data ℤ : Type 0 where
  pos : ℕ → ℤ
  negsuc : ℕ → ℤ

abbrev pub pos_part : ℤ → ℕ
pos_part (pos n) = n
pos_part (negsuc n) = 0

abbrev pub neg_part : ℤ → ℕ
neg_part (pos n) = 0
neg_part (negsuc n) = suc n

abbrev pub sub_ℕ : ℕ → ℕ → ℤ
sub_ℕ a b = if leb b a then pos (a - b) else negsuc (b - a - 1)

unfoldable pub scale : ℕ
scale = 10 ^ 12

unfoldable pub opposite : ℤ → ℤ
opposite (pos zero) = pos zero
opposite (pos (suc n)) = negsuc n
opposite (negsuc n) = pos (suc n)

unfoldable pub plus : ℤ → ℤ → ℤ
plus a b = sub_ℕ (pos_part a + pos_part b) (neg_part a + neg_part b)

-- A function of the magnitudes that gives the magnitude of the result, with the signs multiplied.
abbrev pub by_magnitude : (ℕ → ℕ → ℕ) → ℤ → ℤ → ℤ
by_magnitude g (pos a) (pos b) = pos (g a b)
by_magnitude g (pos a) (negsuc b) = opposite (pos (g a (suc b)))
by_magnitude g (negsuc a) (pos b) = opposite (pos (g (suc a) b))
by_magnitude g (negsuc a) (negsuc b) = pos (g (suc a) (suc b))

unfoldable pub product : ℕ → ℕ → ℕ
unfolding scale
product a b = a * b / scale

unfoldable pub ratio : ℕ → ℕ → ℕ
unfolding scale
ratio a b = a * scale / b

unfoldable pub times : ℤ → ℤ → ℤ
unfolding product opposite
times = by_magnitude product

unfoldable pub over : ℤ → ℤ → ℤ
unfolding ratio opposite
over = by_magnitude ratio

abbrev pub le_fixed : ℤ → ℤ → Bool
le_fixed a b = leb (pos_part a + neg_part b) (pos_part b + neg_part a)

abbrev pub lt_fixed : ℤ → ℤ → Bool
lt_fixed a b = ltb (pos_part a + neg_part b) (pos_part b + neg_part a)

unfoldable pub decimal : ℕ → ℕ → ℤ
unfolding scale
decimal m k = pos (m * scale / 10 ^ k)

unfoldable pub total : List ℤ → ℤ
unfolding plus
total [] = pos 0
total (x ∷ xs) = plus x (total xs)

-- The largest r + d with d < 2^k whose square is at most n, one bit at a time.
unfoldable pub root_bits : ℕ → ℕ → ℕ → ℕ
root_bits zero r n = r
root_bits (suc k) r n = root_bits k (if leb ((r + 2 ^ k) * (r + 2 ^ k)) n then r + 2 ^ k else r) n

unfoldable pub square_root : ℤ → ℤ
unfolding scale
square_root (pos n) = pos (root_bits 64 0 (n * scale))
square_root (negsuc n) = pos 0

-- The first term of the series 2 * artanh((x - 1) / (x + 1)).
unfoldable pub logarithm : ℤ → ℤ
unfolding plus over opposite decimal
logarithm x = let d = over (plus x (opposite (decimal 1 0))) (plus x (decimal 1 0)) in plus d d

unfoldable pub ceiling : ℤ → ℕ
unfolding scale
ceiling x = (pos_part x + (scale - 1)) / scale

instance abbrev pub fixed : Float ℤ
fixed = record {
  lit = decimal;
  add = plus;
  neg = opposite;
  mul = times;
  quotient = over;
  lt = lt_fixed;
  le = le_fixed;
  sum = total;
  root = square_root;
  ln = logarithm;
  ceil = ceiling;
}

third_of_two : over (decimal 2 0) (decimal 3 0) ≡ pos 666_666_666_666
unfolding over decimal
third_of_two = refl

root_of_two : square_root (decimal 2 0) ≡ pos 1_414_213_562_373
unfolding square_root root_bits decimal
root_of_two = refl
