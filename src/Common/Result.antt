-- ===== src/Common/Result.antt =====
-- Go's (value, error) results, and methods of objects with state.
use Prim.Native.String.{String}
use mathlib.Core.Path.{◌≡◌, refl}
use mathlib.Core.Logic.{◌⊎◌, inl, inr}
use mathlib.Core.Bool.{Bool, true, false}

-- Errors as the program makes and inspects them: a text, the sentinels that callers test by
-- errors.Is, the unique violation of the database, and fmt.Errorf("...: %w", err).
pub data Error : Type 0 where
  message : String → Error
  place_not_found : Error
  invalid_patch : Error
  unique_violation : Error
  wrap : String → Error → Error

pub data Result {ℓ} (A : Type ℓ) : Type ℓ where
  ok : A → Result A
  err : Error → Result A

-- A method returns its result and the state that it leaves, also beside an error.
abbrev pub Exec {ℓ} : Type ℓ → Type ℓ → Type ℓ
Exec S A = S → Result A × S

-- errors.Is and errors.As look through the chain of wrapped errors.
unfoldable pub is_unique_violation : Error → Bool
is_unique_violation (message s) = false
is_unique_violation place_not_found = false
is_unique_violation invalid_patch = false
is_unique_violation unique_violation = true
is_unique_violation (wrap s e) = is_unique_violation e

pub ok_inj {ℓ} : {A : Type ℓ} (a b : A) → ok a ≡ ok b → a ≡ b
ok_inj a b h = cc

pub Result-cases {ℓ} :
    {A : Type ℓ} (r : Result A) → ((a : A) × (r ≡ ok a)) ⊎ ((e : Error) × (r ≡ err e))
Result-cases (ok a) = inl (a, refl)
Result-cases (err e) = inr (e, refl)
