-- ===== src/Float/Ops.antt =====
-- The float operations of the program. `F` is the type of doubles; `add`, `neg`, `mul`, `quotient`
-- and the comparisons are the hardware's; `lit m k` is the double nearest to m / 10^k, which is
-- what Python reads a literal as (0.005 is `lit 5 3`) and what `float(n)` and the division of two
-- integers by a power of ten give; `sum` is the built-in over a list of floats (compensated since
-- Python 3.12, so not a plain fold); `sqrt` and `log` are those of `math` where these do not raise,
-- and `ceil` is `math.ceil` of a number that is not negative.
use agora_perp_agent.Prelude.{ℕ, ◌≡◌, Bool, true, ◌&&◌, List, if◌then◌else◌}
use agora_perp_agent.Prelude.Errors.{Result, ok, err, zero_division, math_domain}

pub record Float (F : Type 0) : Type 0 where
  pub lit : ℕ → ℕ → F
  pub add : F → F → F
  pub neg : F → F
  pub mul : F → F → F
  pub quotient : F → F → F
  pub lt : F → F → Bool
  pub le : F → F → Bool
  pub sum : List F → F
  pub root : F → F
  pub ln : F → F
  pub ceil : F → ℕ

module _ {F : Type 0} ⦃f : Float F⦄ where
  infixl 65 ◌+◌ ◌-◌
  infixl 70 ◌*◌ ◌/◌
  infix 50 ◌<?◌ ◌<=?◌ ◌>?◌ ◌>=?◌
  abbrev pub lit : ℕ → ℕ → F
  lit = f.lit

  abbrev pub ◌+◌ : F → F → F
  ◌+◌ = f.add

  abbrev pub ◌*◌ : F → F → F
  ◌*◌ = f.mul

  -- Division by a literal other than zero, which does not raise.
  abbrev pub ◌/◌ : F → F → F
  ◌/◌ = f.quotient

  abbrev pub neg : F → F
  neg = f.neg

  -- IEEE subtraction is the addition of the opposite, bit for bit.
  abbrev pub ◌-◌ : F → F → F
  a - b = f.add a (f.neg b)

  abbrev pub ◌<?◌ : F → F → Bool
  ◌<?◌ = f.lt

  abbrev pub ◌<=?◌ : F → F → Bool
  ◌<=?◌ = f.le

  abbrev pub ◌>?◌ : F → F → Bool
  a >? b = f.lt b a

  abbrev pub ◌>=?◌ : F → F → Bool
  a >=? b = f.le b a

  abbrev pub zero : F
  zero = f.lit 0 0

  abbrev pub one : F
  one = f.lit 1 0

  abbrev pub sum : List F → F
  sum = f.sum

  -- `a == 0.0`, which also holds of -0.0
  abbrev pub is_zero : F → Bool
  is_zero a = f.le a zero && f.le zero a

  -- `a / b`, which raises `ZeroDivisionError`
  abbrev pub divide : F → F → Result F
  divide a b = if is_zero b then err zero_division else ok (f.quotient a b)

  -- `math.sqrt`, which raises `ValueError` below zero
  abbrev pub sqrt : F → Result F
  sqrt a = if f.lt a zero then err math_domain else ok (f.root a)

  -- `math.log`, which raises `ValueError` at zero and below
  abbrev pub log : F → Result F
  log a = if f.le a zero then err math_domain else ok (f.ln a)

  -- `abs`, `min` and `max`: the first of two equal arguments is returned
  abbrev pub abs : F → F
  abs a = if f.lt a zero then f.neg a else a

  abbrev pub min : F → F → F
  min a b = if f.lt b a then b else a

  abbrev pub max : F → F → F
  max a b = if f.lt a b then b else a

  infix 4 ◌≼◌
  abbrev pub ◌≼◌ : F → F → Type 0
  a ≼ b = f.le a b ≡ true
