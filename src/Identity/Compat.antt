-- ===== src/Identity/Compat.antt =====
-- compat.go: the categories that a record of a category may be matched against. `sort.Slice` is
-- written as an insertion sort by Go's order of strings.
pub mod Symmetric
use inwheel_api.Common.{
  String, Bool, true, false, Option, none, some, List, [], ◌∷◌, map, if◌then◌else◌,
}
use inwheel_api.Common.Text.Order.{str_lt}
use inwheel_api.Common.Dict.{Dict, lookup}
use inwheel_api.Models.{
  Category, category_cafe, category_restaurant, category_bar, category_shop, category_healthcare,
}

pub compat : Dict (List Category)
compat =
    (category_cafe, category_cafe ∷ category_restaurant ∷ category_bar ∷ [])
    ∷ (category_restaurant, category_restaurant ∷ category_cafe ∷ category_bar ∷ [])
    ∷ (category_bar, category_bar ∷ category_restaurant ∷ category_cafe ∷ [])
    ∷ (category_shop, category_shop ∷ [])
    ∷ (category_healthcare, category_healthcare ∷ [])
    ∷ []

-- by out[i] < out[j]
insert_sorted : String → List String → List String
insert_sorted x [] = x ∷ []
insert_sorted x (y ∷ ys) =
    let rest = insert_sorted x ys in if str_lt y x then y ∷ rest else x ∷ y ∷ ys

pub sort_strings : List String → List String
unfolding insert_sorted str_lt
sort_strings [] = []
sort_strings (x ∷ xs) = insert_sorted x (sort_strings xs)

sorted_keys : Category → Option (List Category) → List Category
sorted_keys c none = c ∷ []
sorted_keys c (some set) = sort_strings set

unfoldable pub compatible : Category → List Category
unfolding compat sorted_keys sort_strings
compatible c = sorted_keys c (lookup c compat)
