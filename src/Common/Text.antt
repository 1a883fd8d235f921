-- ===== src/Common/Text.antt =====
-- The parts of Go's `strings` and `strconv` that the program calls.
pub mod Decimal
pub mod Order
use Prim.Native.Char.{Char, code}
use Prim.Native.Nat.{ℕ, zero, suc, ◌+◌, ◌-◌, ◌*◌, ◌/◌, ◌%◌, ◌^◌}
use Prim.Native.String.{String}
use mathlib.Core.Bool.{Bool, ◌&&◌, ◌||◌}
use mathlib.Core.Option.{Option, none, some}
use text.Mathlib.Text.{◌==◌}
use inwheel_api.Common.Tests.{leb, ltb, eqb, if◌then◌else◌}
use inwheel_api.Common.Int.{ℤ, pos, negsuc}

-- unicode.IsSpace
unfoldable pub is_space : ℕ → Bool
is_space c =
    (leb 9 c && leb c 13)
    || (eqb c 32
        || (eqb c 0x85
            || (eqb c 0xA0
                || (eqb c 0x1680
                    || ((leb 0x2000 c && leb c 0x200A)
                        || (eqb c 0x2028
                            || (eqb c 0x2029
                                || (eqb c 0x202F || (eqb c 0x205F || eqb c 0x3000)))))))))

unfoldable pub trim_left : String → String
unfolding is_space
trim_left String.[] = String.[]
trim_left (String.◌∷◌ c s) =
    let rest = trim_left s in if is_space (code c) then rest else String.◌∷◌ c s

unfoldable pub trim_right : String → String
unfolding is_space
trim_right String.[] = String.[]
trim_right (String.◌∷◌ c s) =
    let rest = trim_right s in
    if is_space (code c) && (rest == "") then String.[] else String.◌∷◌ c rest

-- strings.TrimSpace
unfoldable pub trim_space : String → String
unfolding trim_left trim_right
trim_space s = trim_left (trim_right s)

-- strings.HasSuffix(s, "%") and strings.TrimSuffix(s, "%") in one: the text before a final `c`.
unfoldable pub strip_last : ℕ → String → Option String
strip_last d String.[] = none
strip_last d (String.◌∷◌ c s) =
    let rest = strip_last d s in
    if (s == "")
    then (if eqb (code c) d then some String.[] else none)
    else elim rest [ none ↦ none | some t ↦ some (String.◌∷◌ c t) ]

digits_value : ℕ → String → Option ℕ
digits_value acc String.[] = some acc
digits_value acc (String.◌∷◌ c s) =
    let rest = digits_value (acc * 10 + (code c - b'0')) s in
    if leb b'0' (code c) && leb (code c) b'9' then rest else none

unsigned_value : String → Option ℕ
unfolding digits_value
unsigned_value String.[] = none
unsigned_value (String.◌∷◌ c s) = digits_value 0 (String.◌∷◌ c s)

-- the range of int64
positive_int : Option ℕ → Option ℤ
positive_int none = none
positive_int (some n) = if ltb n (2 ^ 63) then some (pos n) else none

negative_int : Option ℕ → Option ℤ
negative_int none = none
negative_int (some zero) = some (pos 0)
negative_int (some (suc n)) = if ltb n (2 ^ 63) then some (negsuc n) else none

-- strconv.Atoi; `none` is its error
unfoldable pub atoi : String → Option ℤ
unfolding unsigned_value positive_int negative_int
atoi String.[] = none
atoi (String.◌∷◌ c s) =
    if eqb (code c) b'-'
    then negative_int (unsigned_value s)
    else if eqb (code c) b'+'
    then positive_int (unsigned_value s)
    else positive_int (unsigned_value (String.◌∷◌ c s))

digit_char : ℕ → Char
digit_char zero = "0"
digit_char (suc zero) = "1"
digit_char (suc (suc zero)) = "2"
digit_char (suc (suc (suc zero))) = "3"
digit_char (suc (suc (suc (suc zero)))) = "4"
digit_char (suc (suc (suc (suc (suc zero))))) = "5"
digit_char (suc (suc (suc (suc (suc (suc zero)))))) = "6"
digit_char (suc (suc (suc (suc (suc (suc (suc zero))))))) = "7"
digit_char (suc (suc (suc (suc (suc (suc (suc (suc zero)))))))) = "8"
digit_char _ = "9"

-- The decimal digits of n in front of `rest`; the fuel bounds their number.
unfoldable pub decimal : ℕ → ℕ → String → String
unfolding digit_char
decimal zero n rest = rest
decimal (suc fuel) n rest =
    let more = decimal fuel (n / 10) (String.◌∷◌ (digit_char (n % 10)) rest) in
    if ltb n 10 then String.◌∷◌ (digit_char n) rest else more

-- %d of an int64, which has at most 19 digits
unfoldable pub itoa : ℤ → String
itoa (pos n) = decimal 20 n ""
itoa (negsuc n) = String.◌∷◌ "-" (decimal 20 (suc n) "")
