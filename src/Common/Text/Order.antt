-- ===== src/Common/Text/Order.antt =====
-- Go's order of strings: byte by byte in UTF-8, which is the order of the code points.
use Prim.Native.Char.{code}
use Prim.Native.String.{String}
use mathlib.Core.Path.{◌≡◌, refl}
use mathlib.Core.Bool.{Bool, true, false, ◌&&◌, ◌||◌}
use native.Mathlib.Omega.{arith}
use text.Mathlib.TextEquality.{codes_equal}
use inwheel_api.Common.Tests.{ltb, eqb}

-- s < t
unfoldable pub str_lt : String → String → Bool
str_lt String.[] String.[] = false
str_lt String.[] (String.◌∷◌ d t) = true
str_lt (String.◌∷◌ c s) String.[] = false
str_lt (String.◌∷◌ c s) (String.◌∷◌ d t) =
    ltb (code c) (code d) || (eqb (code c) (code d) && str_lt s t)

pub str_lt_irrefl : (s : String) → str_lt s s ≡ false
unfolding str_lt
str_lt_irrefl String.[] = refl
str_lt_irrefl (String.◌∷◌ c s) = ground (arith, str_lt_irrefl s)

pub str_lt_trans : (s t u : String) → str_lt s t ≡ true → str_lt t u ≡ true → str_lt s u ≡ true
unfolding str_lt
str_lt_trans String.[] String.[] u h k = cc
str_lt_trans String.[] (String.◌∷◌ d t) String.[] h k = cc
str_lt_trans String.[] (String.◌∷◌ d t) (String.◌∷◌ e u) h k = refl
str_lt_trans (String.◌∷◌ c s) String.[] u h k = cc
str_lt_trans (String.◌∷◌ c s) (String.◌∷◌ d t) String.[] h k = cc
str_lt_trans (String.◌∷◌ c s) (String.◌∷◌ d t) (String.◌∷◌ e u) h k =
    ground (arith, str_lt_trans s t u)

pub str_lt_total : (s t : String) → str_lt s t ≡ false → str_lt t s ≡ false → s ≡ t
unfolding str_lt
str_lt_total String.[] String.[] h k = refl
str_lt_total String.[] (String.◌∷◌ d t) h k = cc
str_lt_total (String.◌∷◌ c s) String.[] h k = cc
str_lt_total (String.◌∷◌ c s) (String.◌∷◌ d t) h k =
    ground (arith, str_lt_total s t, codes_equal c d)
