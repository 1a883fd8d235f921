-- ===== src/Float64.antt =====
-- Go's float64 as its IEEE 754 bit pattern, a number below 2 ^ 64. The comparisons, the sign change
-- and the constants of the program are computed on the pattern. What a processor rounds (the sums,
-- products and quotients), the functions of the package math and strconv.ParseFloat are not source
-- code: they are the fields of `Arithmetic`, which the definitions that compute with floats take.
pub mod Order
use inwheel_api.Common.{
  ℕ, ◌+◌, ◌-◌, ◌%◌, ◌^◌, String, Bool, true, not, ◌&&◌, ◌||◌, Option, ltb, leb, if◌then◌else◌,
}

abbrev pub Float64 : Type 0
Float64 = ℕ

-- the pattern without its sign bit
abbrev pub magnitude : Float64 → ℕ
magnitude x = x % 2 ^ 63

abbrev pub is_negative : Float64 → Bool
is_negative x = leb (2 ^ 63) x

unfoldable pub is_nan : Float64 → Bool
is_nan x = ltb 0x7FF0000000000000 (magnitude x)

-- A number that orders the patterns which are not NaN; both zeros stand at 2 ^ 63.
unfoldable pub rank : Float64 → ℕ
rank x = if is_negative x then 2 ^ 63 - magnitude x else 2 ^ 63 + magnitude x

-- x < y: false where either is NaN
unfoldable pub lt : Float64 → Float64 → Bool
lt x y = not (is_nan x) && (not (is_nan y) && ltb (rank x) (rank y))

-- x <= y
unfoldable pub le : Float64 → Float64 → Bool
le x y = not (is_nan x) && (not (is_nan y) && leb (rank x) (rank y))

-- -x
unfoldable pub neg : Float64 → Float64
neg x = if is_negative x then magnitude x else magnitude x + 2 ^ 63

pub record Arithmetic : Type 0 where
  pub add : Float64 → Float64 → Float64
  pub sub : Float64 → Float64 → Float64
  pub mul : Float64 → Float64 → Float64
  pub div : Float64 → Float64 → Float64
  pub sin : Float64 → Float64
  pub cos : Float64 → Float64
  pub atan2 : Float64 → Float64 → Float64
  pub sqrt : Float64 → Float64
  -- the conversion float64(n) of a count
  pub of_count : ℕ → Float64
  -- strconv.ParseFloat(s, 64); `none` is its error
  pub parse_float : String → Option Float64

abbrev pub one : Float64
one = 0x3FF0000000000000

abbrev pub two : Float64
two = 0x4000000000000000

-- -1.0
abbrev pub minus_one : Float64
minus_one = 0xBFF0000000000000
