-- ===== src/Indicators/Defs.antt =====
-- The indicator functions.
use Prim.Native.Nat.{◌-◌ as ◌-ℕ◌, ◌+◌ as ◌+ℕ◌, ◌*◌ as ◌*ℕ◌}
use agora_perp_agent.Prelude.{
  ℕ, suc, ◌&&◌, List, [], ◌∷◌, map, if◌then◌else◌, ltb, length, take, drop, take_last,
}
use agora_perp_agent.Prelude.Errors.{Result, ok, err, ◌>>=◌, too_few_bars}
use agora_perp_agent.Float.Ops.{
  Float, lit, ◌+◌, ◌-◌, ◌*◌, neg, zero, one, sum, divide, sqrt, log, abs, max, ◌<?◌, ◌>?◌,
}
use agora_perp_agent.Contracts.{OhlcBar}

-- `raise ValueError` unless at least `need` bars are there
abbrev pub check_bars : {A : Type 0} → ℕ → ℕ → Result A → Result A
check_bars need count body = if ltb count need then err too_few_bars else body

module _ {F : Type 0} ⦃f : Float F⦄ where
  -- 1e-12
  abbrev pub eps : F
  eps = lit 1 12

  abbrev pub closes : List (OhlcBar F) → List F
  closes = map (λ b. b.close)

  unfoldable pub sma : List (OhlcBar F) → ℕ → Result F
  sma bars n =
      check_bars n (length (closes bars)) (divide (sum (take_last n (closes bars))) (lit n 0))

  -- The loop of `ema` over the closes that are left.
  unfoldable pub ema_from : F → F → List F → F
  ema_from alpha value [] = value
  ema_from alpha value (close ∷ rest) = ema_from alpha (alpha * close + (one - alpha) * value) rest

  unfoldable pub ema : List (OhlcBar F) → ℕ → Result F
  unfolding ema_from
  ema bars n = check_bars n (length (closes bars)) do
    alpha ← divide (lit 2 0) (lit n 0 + one)
    value ← divide (sum (take n (closes bars))) (lit n 0)
    ok (ema_from alpha value (drop n (closes bars)))

  -- The last element, and the one `n` places before it.
  abbrev pub last_or_zero : List F → F
  last_or_zero [] = zero
  last_or_zero (x ∷ []) = x
  last_or_zero (x ∷ y ∷ rest) = last_or_zero (y ∷ rest)

  abbrev pub head_or_zero : List F → F
  head_or_zero [] = zero
  head_or_zero (x ∷ rest) = x

  unfoldable pub roc : List (OhlcBar F) → ℕ → Result F
  roc bars n =
      let cs = closes bars in
      check_bars (suc n) (length cs) (
        let prev = head_or_zero (take_last (suc n) cs) in
        if abs prev <? eps then ok zero else divide (lit 100 0 * (last_or_zero cs - prev)) prev)

  -- `math.log(closes[i] / closes[i - 1])` along neighbouring closes
  unfoldable pub log_returns : List F → Result (List F)
  log_returns [] = ok []
  log_returns (x ∷ []) = ok []
  log_returns (x ∷ y ∷ rest) = do
    q ← divide y x
    r ← log q
    rs ← log_returns (y ∷ rest)
    ok (r ∷ rs)

  -- `(r - mean) ** 2` is a product: squaring a double is one rounding either way.
  unfoldable pub realized_vol : List (OhlcBar F) → ℕ → Result F
  unfolding log_returns
  realized_vol bars n = check_bars (suc n) (length (closes bars)) do
    rets ← log_returns (take_last (suc n) (closes bars))
    mean ← divide (sum rets) (lit (length rets) 0)
    var ← divide (sum (map (λ r. (r - mean) * (r - mean)) rets)) (lit (length rets -ℕ 1) 0)
    sqrt var

  -- The true range of a bar after the one before it.
  unfoldable pub true_range : OhlcBar F → OhlcBar F → F
  true_range before bar =
      max (max (bar.high - bar.low) (abs (bar.high - before.close))) (abs (bar.low - before.close))

  -- One value for each pair of neighbouring bars.
  unfoldable pub along : (OhlcBar F → OhlcBar F → F) → List (OhlcBar F) → List F
  along g [] = []
  along g (x ∷ []) = []
  along g (x ∷ y ∷ rest) = g x y ∷ along g (y ∷ rest)

  -- Wilder's average: `value = (value * (n - 1) + x) / n` over the list.
  unfoldable pub wilder_from : ℕ → F → List F → Result F
  wilder_from n value [] = ok value
  wilder_from n value (x ∷ rest) = do
    next ← divide (value * lit (n -ℕ 1) 0 + x) (lit n 0)
    wilder_from n next rest

  unfoldable pub wilder_average : ℕ → List F → Result F
  unfolding wilder_from
  wilder_average n xs = do
    start ← divide (sum (take n xs)) (lit n 0)
    wilder_from n start (drop n xs)

  unfoldable pub atr : List (OhlcBar F) → ℕ → Result F
  unfolding wilder_average along true_range
  atr bars n = check_bars (suc n) (length bars) (wilder_average n (along true_range bars))

  abbrev pub gain : OhlcBar F → OhlcBar F → F
  gain before bar = max (bar.close - before.close) zero

  abbrev pub loss : OhlcBar F → OhlcBar F → F
  loss before bar = max (neg (bar.close - before.close)) zero

  unfoldable pub rsi : List (OhlcBar F) → ℕ → Result F
  unfolding wilder_average along
  rsi bars n = check_bars (suc n) (length (closes bars)) do
    avg_gain ← wilder_average n (along gain bars)
    avg_loss ← wilder_average n (along loss bars)
    if avg_loss <? eps then ok (lit 100 0) else (do
      rs ← divide avg_gain avg_loss
      part ← divide (lit 100 0) (one + rs)
      ok (lit 100 0 - part))

  abbrev pub plus_move : OhlcBar F → OhlcBar F → F
  plus_move before bar =
      let up = bar.high - before.high in
      let down = before.low - bar.low in if (up >? down) && (up >? zero) then up else zero

  abbrev pub minus_move : OhlcBar F → OhlcBar F → F
  minus_move before bar =
      let up = bar.high - before.high in
      let down = before.low - bar.low in if (down >? up) && (down >? zero) then down else zero

  -- `_wilder` of `adx`: the running sums after the first one.
  unfoldable pub running : ℕ → F → List F → Result (List F)
  running n last [] = ok []
  running n last (x ∷ rest) = do
    part ← divide last (lit n 0)
    let next = last - part + x
    later ← running n next rest
    ok (next ∷ later)

  unfoldable pub smoothed : ℕ → List F → Result (List F)
  unfolding running
  smoothed n series = do
    let start = sum (take n series)
    later ← running n start (drop n series)
    ok (start ∷ later)

  -- The DX values, with the last +DI and -DI.
  unfoldable pub dx_values : List (F × F × F) → F → F → Result (List F × F × F)
  dx_values [] plus_di minus_di = ok ([], plus_di, minus_di)
  dx_values ((tr_v, p_v, m_v) ∷ rest) plus_di minus_di =
      if tr_v <? eps then dx_values rest plus_di minus_di else do
        plus ← divide (lit 100 0 * p_v) tr_v
        minus ← divide (lit 100 0 * m_v) tr_v
        let denom = plus + minus
        dx ← (if denom >? eps then divide (lit 100 0 * abs (plus - minus)) denom else ok zero)
        (dxs, p, m) ← dx_values rest plus minus
        ok (dx ∷ dxs, p, m)

  -- `zip` of three lists
  abbrev pub zip3 : List F → List F → List F → List (F × F × F)
  zip3 [] ys zs = []
  zip3 (x ∷ xs) [] zs = []
  zip3 (x ∷ xs) (y ∷ ys) [] = []
  zip3 (x ∷ xs) (y ∷ ys) (z ∷ zs) = (x, y, z) ∷ zip3 xs ys zs

  unfoldable pub adx : List (OhlcBar F) → ℕ → Result (F × F × F)
  unfolding smoothed dx_values wilder_average along true_range
  adx bars n = check_bars (2 *ℕ n +ℕ 1) (length bars) do
    tr_s ← smoothed n (along true_range bars)
    plus_s ← smoothed n (along plus_move bars)
    minus_s ← smoothed n (along minus_move bars)
    (dx_vals, plus_di, minus_di) ← dx_values (zip3 tr_s plus_s minus_s) zero zero
    value ← wilder_average n dx_vals
    ok (value, plus_di, minus_di)
