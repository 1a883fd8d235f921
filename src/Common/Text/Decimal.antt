-- ===== src/Common/Text/Decimal.antt =====
-- Printing an int64 in decimal and reading it back.
use Prim.Native.Char.{code}
use Prim.Native.Nat.{ℕ, zero, suc, ◌+◌, ◌*◌, ◌/◌, ◌%◌, ◌^◌, ◌<◌}
use Prim.Native.String.{String}
use mathlib.Core.Path.{◌≡◌, refl, sym, ◌∙◌, ap}
use mathlib.Core.Option.{some}
use mathlib.Core.Logic.{inl, inr}
use native.Mathlib.Omega.{arith}
use native.Mathlib.Nat.{pow-suc}
use inwheel_api.Common.Tests.{ltb, le→leb, lt→ltb, eqb_ne, Bool-cases, ltb→lt}
use inwheel_api.Common.Int.{ℤ, pos, negsuc}
use inwheel_api.Common.Text.{
  digit_char, decimal, digits_value, unsigned_value, positive_int, negative_int, atoi, itoa,
}

code-digit_char : (d : ℕ) → d < 10 → code (digit_char d) ≡ 48 + d
unfolding digit_char
code-digit_char zero h = refl
code-digit_char (suc zero) h = refl
code-digit_char (suc (suc zero)) h = refl
code-digit_char (suc (suc (suc zero))) h = refl
code-digit_char (suc (suc (suc (suc zero)))) h = refl
code-digit_char (suc (suc (suc (suc (suc zero))))) h = refl
code-digit_char (suc (suc (suc (suc (suc (suc zero)))))) h = refl
code-digit_char (suc (suc (suc (suc (suc (suc (suc zero))))))) h = refl
code-digit_char (suc (suc (suc (suc (suc (suc (suc (suc zero)))))))) h = refl
code-digit_char (suc (suc (suc (suc (suc (suc (suc (suc (suc d))))))))) h = omega arith

digits_value-digit :
    (d acc : ℕ) (rest : String)
    → d < 10
    → digits_value acc (String.◌∷◌ (digit_char d) rest) ≡ digits_value (acc * 10 + d) rest
unfolding digits_value
digits_value-digit d acc rest h =
    rw (code-digit_char d h, le→leb 48 (48 + d) (omega arith), le→leb (48 + d) 57 (omega arith))
      (ap (λ x. digits_value x rest) (omega arith))

-- `fuel` digits are enough for a number below 10 ^ fuel.
digits_value-decimal :
    (fuel n : ℕ) (rest : String)
    → n < 10 ^ suc fuel
    → digits_value 0 (decimal (suc fuel) n rest) ≡ digits_value n rest
unfolding decimal
digits_value-decimal zero n rest h =
    rw (lt→ltb n 10 (omega arith))
      (digits_value-digit n 0 rest (omega arith) ∙ ap (λ x. digits_value x rest) (omega arith))
digits_value-decimal (suc fuel) n rest h = elim (Bool-cases (ltb n 10)) [
  | inl small ↦ rw small (
      digits_value-digit n 0 rest (ltb→lt n 10 small) ∙ ap (λ x. digits_value x rest) (omega arith))
  | inr large ↦ rw large (
      digits_value-decimal fuel (n / 10) (String.◌∷◌ (digit_char (n % 10)) rest)
        (omega (arith, pow-suc 10 (suc fuel)))
      ∙ digits_value-digit (n % 10) (n / 10) rest (omega arith)
      ∙ ap (λ x. digits_value x rest) (omega arith))
]

-- A printed number begins with a digit.
head-decimal :
    (fuel n : ℕ) (rest : String)
    → n < 10 ^ suc fuel
    → (d : ℕ) × (s : String) × (d < 10) × (decimal (suc fuel) n rest ≡ String.◌∷◌ (digit_char d) s)
unfolding decimal
head-decimal zero n rest h = (n, rest, omega arith, rw (lt→ltb n 10 (omega arith)))
head-decimal (suc fuel) n rest h = elim (Bool-cases (ltb n 10)) [
  | inl small ↦ (n, rest, ltb→lt n 10 small, rw small)
  | inr large ↦
      let (d, s, lt, e) =
        head-decimal fuel (n / 10) (String.◌∷◌ (digit_char (n % 10)) rest)
          (omega (arith, pow-suc 10 (suc fuel))) in
      (d, s, lt, rw large e)
]

atoi-digit :
    (d : ℕ) (s : String)
    → d < 10
    → atoi (String.◌∷◌ (digit_char d) s)
      ≡ positive_int (digits_value 0 (String.◌∷◌ (digit_char d) s))
unfolding atoi
atoi-digit d s h =
    rw
      (
        code-digit_char d h,
        eqb_ne (48 + d) b'-' (λ e. omega arith),
        eqb_ne (48 + d) b'+' (λ e. omega arith),
      )
      refl

atoi-decimal : (n : ℕ) → n < 10 ^ 20 → atoi (decimal 20 n "") ≡ positive_int (some n)
unfolding digits_value
atoi-decimal n h =
    let (d, s, lt, e) = head-decimal 19 n "" h in
    rw e (
      atoi-digit d s lt
      ∙ ap positive_int (ap (digits_value 0) (sym e) ∙ digits_value-decimal 19 n "" h))

unsigned_value-decimal : (n : ℕ) → n < 10 ^ 20 → unsigned_value (decimal 20 n "") ≡ some n
unfolding unsigned_value digits_value
unsigned_value-decimal n h =
    let (d, s, lt, e) = head-decimal 19 n "" h in
    rw e (ap (digits_value 0) (sym e) ∙ digits_value-decimal 19 n "" h)

-- The value is an int64.
abbrev pub IsInt64 : ℤ → Type 0
IsInt64 (pos n) = n < 2 ^ 63
IsInt64 (negsuc n) = n < 2 ^ 63

positive_int_lem : (n : ℕ) → n < 2 ^ 63 → positive_int (some n) ≡ some (pos n)
unfolding positive_int
positive_int_lem n h = rw (lt→ltb n (2 ^ 63) h)

negative_int_lem : (n : ℕ) → n < 2 ^ 63 → negative_int (some (suc n)) ≡ some (negsuc n)
unfolding negative_int
negative_int_lem n h = rw (lt→ltb n (2 ^ 63) h)

atoi-minus : (s : String) → atoi (String.◌∷◌ "-" s) ≡ negative_int (unsigned_value s)
unfolding atoi
atoi-minus s = refl

-- Reading the decimal text of an int64 gives that number back.
pub atoi-itoa : (n : ℤ) → IsInt64 n → atoi (itoa n) ≡ some n
unfolding itoa
atoi-itoa (pos n) h = atoi-decimal n (omega arith) ∙ positive_int_lem n h
atoi-itoa (negsuc n) h =
    atoi-minus (decimal 20 (suc n) "")
    ∙ ap negative_int (unsigned_value-decimal (suc n) (omega arith))
    ∙ negative_int_lem n h
