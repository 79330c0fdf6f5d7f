-- ===== src/Prelude/Errors.antt =====
-- What a Python call of the program may end in: a value, or one of the exceptions that it raises.
-- A constructor for each `raise` statement, with the message left out; `zero_division` and
-- `math_domain` are raised by `/` and by the functions of `math`.

use mathlib.Core.Path.{◌≡◌, refl}
use mathlib.Core.Logic.{◌⊎◌, inl, inr}

pub data Error : Type 0 where
  position_open asset_mismatch bad_qty no_position : Error
  bad_notional bad_stop_distance bad_hold bad_side bad_atr bad_entry bad_mark : Error
  too_few_bars bad_max_positions : Error
  zero_division math_domain overflow : Error
  -- raised by the language: a missing key, a missing attribute, a value of the wrong type or shape
  key_error attribute_error type_error value_error index_error : Error
  -- an answer of the language model that is empty or not of the expected shape
  empty_answer bad_json missing_decisions : Error
  -- market data that is missing or not of the expected shape
  bad_payload unknown_asset no_candles http_error unreachable : Error
  -- the web socket feed and the files of candles
  not_subscribed no_bars_yet no_book_yet no_symbol no_csv_path csv_missing csv_empty : Error
  -- the wallet service
  no_credentials terminal_state request_refused : Error
  -- a command that ended with another code than 0, or that could not be run
  called_process os_failure : Error
  -- not an exception: a loop of the model ran out of its fuel
  out_of_fuel : Error

pub data Result {ℓ} (A : Type ℓ) : Type ℓ where
  ok : A → Result A
  err : Error → Result A

infixl 5 ◌>>=◌
abbrev pub ◌>>=◌ {ℓ κ} : {A : Type ℓ} {B : Type κ} → Result A → (A → Result B) → Result B
ok a >>= f = f a
err e >>= f = err e

pub Result-cases {ℓ} :
    {A : Type ℓ} (r : Result A) → ((a : A) × (r ≡ ok a)) ⊎ ((e : Error) × (r ≡ err e))
Result-cases (ok a) = inl (a, refl)
Result-cases (err e) = inr (e, refl)

-- What holds of the value of a call that returned one.
abbrev pub Returns {ℓ κ} : {A : Type ℓ} → (A → Type κ) → Result A → Type κ
Returns P (ok a) = P a
Returns P (err e) = Unit

pub bind-Returns {ℓ κ ι} :
    {A : Type ℓ} {B : Type κ} (P : B → Type ι) (r : Result A) (g : A → Result B)
    → ((a : A) → r ≡ ok a → Returns P (g a))
    → Returns P (r >>= g)
bind-Returns P (ok a) g h = h a refl
bind-Returns P (err e) g h = tt
