-- ===== src/Prelude/Text.antt =====
-- `<` on Python texts: by code points, a proper prefix first.
use Prim.Native.Char.{code}
use Prim.Native.String.{String}
use mathlib.Core.Path.{◌≡◌, refl}
use mathlib.Core.Bool.{Bool, true, false, ◌&&◌}
use native.Mathlib.Omega.{arith}
use agora_perp_agent.Prelude.Tests.{ltb, leb, if◌then◌else◌}
use agora_perp_agent.Prelude.Sort.{IsWeakOrder}

unfoldable pub text_lt : String → String → Bool
text_lt String.[] String.[] = false
text_lt String.[] (String.◌∷◌ d t) = true
text_lt (String.◌∷◌ c s) String.[] = false
text_lt (String.◌∷◌ c s) (String.◌∷◌ d t) =
    if ltb (code c) (code d) then true else if ltb (code d) (code c) then false else text_lt s t

-- `s.startswith(start)`
unfoldable pub starts_with : String → String → Bool
starts_with s String.[] = true
starts_with String.[] (String.◌∷◌ d t) = false
starts_with (String.◌∷◌ c s) (String.◌∷◌ d t) =
    if leb (code c) (code d) && leb (code d) (code c) then starts_with s t else false

text_lt-asymm : (s t : String) → text_lt s t ≡ true → text_lt t s ≡ false
unfolding text_lt
text_lt-asymm String.[] String.[] h = refl
text_lt-asymm String.[] (String.◌∷◌ d t) h = refl
text_lt-asymm (String.◌∷◌ c s) String.[] h = ground arith
text_lt-asymm (String.◌∷◌ c s) (String.◌∷◌ d t) h = ground (arith, text_lt-asymm s t)

text_lt-cotrans : (s t u : String) → text_lt s t ≡ false → text_lt t u ≡ false → text_lt s u ≡ false
unfolding text_lt
text_lt-cotrans String.[] String.[] u h k = k
text_lt-cotrans String.[] (String.◌∷◌ d t) u h k = ground arith
text_lt-cotrans (String.◌∷◌ c s) String.[] String.[] h k = refl
text_lt-cotrans (String.◌∷◌ c s) String.[] (String.◌∷◌ e u) h k = ground arith
text_lt-cotrans (String.◌∷◌ c s) (String.◌∷◌ d t) String.[] h k = refl
text_lt-cotrans (String.◌∷◌ c s) (String.◌∷◌ d t) (String.◌∷◌ e u) h k =
    ground (arith, text_lt-cotrans s t u)

pub text_lt-IsWeakOrder : IsWeakOrder text_lt
text_lt-IsWeakOrder = record { asymm = text_lt-asymm; cotrans = text_lt-cotrans }

symbols_in_order : text_lt "BNB" "BTC" ≡ true
unfolding text_lt
symbols_in_order = refl
