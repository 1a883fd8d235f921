-- ===== src/Identity/Compat/Symmetric.antt =====
-- Compatibility is an equivalence between categories, and its answer is sorted.
use inwheel_api.Common.{
  String, ◌==◌, eq_iff, ◌≡◌, refl, Bool, true, false, ◌||◌, List, [], ◌∷◌, arith, contains,
  if◌then◌else◌, Bool-cases, inl, inr,
}
use inwheel_api.Common.Dict.{lookup}
use inwheel_api.Models.{
  Category, category_cafe, category_restaurant, category_bar, category_shop, category_healthcare,
}
use inwheel_api.Identity.Compat.{compatible}

-- The three categories that are compatible with one another.
abbrev pub food : List Category
food = category_bar ∷ category_cafe ∷ category_restaurant ∷ []

-- A category of that group is compatible with the group, listed in alphabetical order; any other
-- category is compatible with itself alone, be it in the table or not.
pub compatible_groups : (c : Category) → compatible c ≡ (if contains food c then food else c ∷ [])
unfolding compatible lookup
compatible_groups c = elim (Bool-cases (category_cafe == c)) [
  | inl e ↦ rw (← (eq_iff category_cafe c).0 e) refl
  | inr e1 ↦ elim (Bool-cases (category_restaurant == c)) [
    | inl e ↦ rw (← (eq_iff category_restaurant c).0 e) refl
    | inr e2 ↦ elim (Bool-cases (category_bar == c)) [
      | inl e ↦ rw (← (eq_iff category_bar c).0 e) refl
      | inr e3 ↦ elim (Bool-cases (category_shop == c)) [
        | inl e ↦ rw (← (eq_iff category_shop c).0 e) refl
        | inr e4 ↦ elim (Bool-cases (category_healthcare == c)) [
          | inl e ↦ rw (← (eq_iff category_healthcare c).0 e) refl
          | inr e5 ↦ rw (e1, e2, e3, e4, e5) refl
        ]
      ]
    ]
  ]
]

contains-compatible :
    (a b : Category)
    → contains (compatible a) b ≡ (if contains food a then contains food b else (a == b || false))
contains-compatible a b = rw (compatible_groups a) (pull (contains food a))
  where
    pull :
        (t : Bool)
        → contains (if t then food else a ∷ []) b
          ≡ (if t then contains food b else (a == b || false))
    pull true = refl
    pull false = refl

both_tests :
    (x y p q : Bool)
    → p ≡ false
    → q ≡ false
    → (if x then y else (p || false)) ≡ (if y then x else (q || false))
both_tests x y p q h k = ground arith

ne_symm : (a b : String) → (a == b) ≡ false → (b == a) ≡ false
ne_symm a b h = ground (arith, eq_iff a b, eq_iff b a)

-- Whatever may match a category is matched by it in turn.
pub compatible_symm : (a b : Category) → contains (compatible a) b ≡ contains (compatible b) a
compatible_symm a b = elim (Bool-cases (a == b)) [
  | inl e ↦ rw ((eq_iff a b).0 e) refl
  | inr e ↦
      rw (contains-compatible a b, contains-compatible b a)
        (both_tests (contains food a) (contains food b) (a == b) (b == a) e (ne_symm a b e))
]
