-- ===== src/Common/Dict.antt =====
-- Go's map[string]V as an association list. The order of the list is one of the orders in which Go
-- may range over the map, so a theorem about every list is a theorem about every such order.
use Prim.Native.String.{String}
use mathlib.Core.Path.{◌≡◌}
use mathlib.Core.Option.{Option, none, some}
use mathlib.Core.List.{List, [], ◌∷◌}
use native.Mathlib.Omega.{arith}
use text.Mathlib.Text.{◌==◌}
use text.Mathlib.TextEquality.{eq_iff}
use inwheel_api.Common.Tests.{if◌then◌else◌, or_empty}

abbrev pub Dict {ℓ} : Type ℓ → Type ℓ
Dict V = List (String × V)

module _ {ℓ} {V : Type ℓ} where
  -- m[key] = value
  unfoldable pub insert : String → V → Dict V → Dict V
  insert key value [] = (key, value) ∷ []
  insert key value (entry ∷ rest) =
      let inserted = insert key value rest in
      if entry.0 == key then (key, value) ∷ rest else entry ∷ inserted

  -- value, ok := m[key]
  unfoldable pub lookup : String → Dict V → Option V
  lookup key [] = none
  lookup key (entry ∷ rest) =
      let below = lookup key rest in if entry.0 == key then some entry.1 else below

-- m[key] on a map of texts: the zero value where the key is missing
unfoldable pub get : Dict String → String → String
unfolding lookup
get m key = or_empty (lookup key m)

-- A write to a map is seen at its own key alone.
pub lookup-insert {ℓ} :
    {V : Type ℓ} (written read : String) (value : V) (m : Dict V)
    → lookup read (insert written value m) ≡ (if written == read then some value else lookup read m)
unfolding lookup insert
lookup-insert written read value [] = ground arith
lookup-insert written read value (entry ∷ rest) = ground (
  arith,
  lookup-insert written read value rest,
  eq_iff entry.0 written,
  eq_iff entry.0 read,
  eq_iff written read,
)
