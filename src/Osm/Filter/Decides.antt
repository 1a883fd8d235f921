-- ===== src/Osm/Filter/Decides.antt =====
-- The filter decides an allowlist with priorities, stated without the order of the code's tests.
use inwheel_api.Common.{
  String, ◌==◌, eq_iff, ◌≡◌, ◌≢◌, refl, ◌⊎◌, inl, inr, Bool, true, false, not, ◌&&◌, Option, none,
  some, List, [], ◌∷◌, arith, contains, any, Bool-cases,
}
use inwheel_api.Common.Dict.{Dict, lookup, get}
use inwheel_api.Models.{Category, category_transport, category_shop, category_other}
use inwheel_api.Osm.Filter.{
  amenity_to_category, building_qualifying_keys, is_allowed_transport, has_qualifying_key,
  evaluate_rest, evaluate, or_else,
}

abbrev amenity_of : Dict String → Option Category
amenity_of tags = lookup (get tags "amenity") amenity_to_category

-- Why an element is a place of a category. The reasons exclude one another.
pub data Qualifies (tags : Dict String) (c : Category) : Type 0 where
  by_amenity : amenity_of tags ≡ some c → Qualifies tags c
  by_transport :
      (pt : String)
      → amenity_of tags ≡ none
      → lookup "public_transport" tags ≡ some pt
      → (pt ≡ "station") ⊎ (pt ≡ "stop_area")
      → c ≡ category_transport
      → Qualifies tags c
  by_shop :
      amenity_of tags ≡ none
      → is_allowed_transport (lookup "public_transport" tags) ≡ false
      → get tags "shop" ≢ ""
      → c ≡ category_shop
      → Qualifies tags c
  by_building :
      (key : String)
      → amenity_of tags ≡ none
      → is_allowed_transport (lookup "public_transport" tags) ≡ false
      → get tags "shop" ≡ ""
      → get tags "building" ≢ ""
      → contains building_qualifying_keys key ≡ true
      → get tags key ≢ ""
      → c ≡ category_other
      → Qualifies tags c

any_witness :
    (p : String → Bool) (xs : List String)
    → any p xs ≡ true
    → (x : String) × (contains xs x ≡ true) × (p x ≡ true)
any_witness p [] h = cc
any_witness p (x ∷ xs) h = elim (Bool-cases (p x)) [
  | inl e ↦ (x, ground (arith, eq_iff x x), e)
  | inr e ↦ let (y, m, q) = any_witness p xs (ground arith) in (y, ground arith, q)
]

any_of :
    (p : String → Bool) (xs : List String) (x : String)
    → contains xs x ≡ true
    → p x ≡ true
    → any p xs ≡ true
any_of p [] x m h = cc
any_of p (y ∷ xs) x m h = ground (arith, eq_iff y x, any_of p xs x)

allowed_iff :
    (o : Option String)
    → is_allowed_transport o ≡ true
    → (pt : String) × (o ≡ some pt) × ((pt ≡ "station") ⊎ (pt ≡ "stop_area"))
unfolding is_allowed_transport
allowed_iff none h = cc
allowed_iff (some pt) h = (pt, refl, ground (arith, eq_iff "station" pt, eq_iff "stop_area" pt))

allowed_of :
    (o : Option String) (pt : String)
    → o ≡ some pt
    → (pt ≡ "station") ⊎ (pt ≡ "stop_area")
    → is_allowed_transport o ≡ true
unfolding is_allowed_transport
allowed_of o pt e h =
    rw (e, is_allowed_transport) (elim h [ inl p ↦ rw p refl | inr p ↦ rw p refl ])

or_else_cases :
    (o r : Option Category) (c : Category)
    → or_else o r ≡ some c
    → (o ≡ some c) ⊎ ((o ≡ none) × (r ≡ some c))
or_else_cases none r c h = inr (refl, h)
or_else_cases (some a) r c h = inl h

ne_of_test : (s t : String) → not (s == t) ≡ true → s ≢ t
ne_of_test s t h e = ground (arith, eq_iff s t)

test_of_ne : (s t : String) → s ≢ t → not (s == t) ≡ true
test_of_ne s t h = ground (arith, eq_iff s t)

rest-Qualifies :
    (tags : Dict String) (c : Category)
    → amenity_of tags ≡ none
    → evaluate_rest tags ≡ some c
    → Qualifies tags c
unfolding evaluate_rest has_qualifying_key
rest-Qualifies tags c none_of h =
    elim (Bool-cases (is_allowed_transport (lookup "public_transport" tags))) [
      | inl yes_ ↦
          let (pt, e, k) = allowed_iff (lookup "public_transport" tags) yes_ in
          by_transport pt none_of e k (ground arith)
      | inr no_ ↦ elim (Bool-cases (not (get tags "shop" == ""))) [
        | inl s ↦ by_shop none_of no_ (ne_of_test _ _ s) (ground arith)
        | inr s ↦
            elim (Bool-cases (
              not (get tags "building" == "")
              && any (λ key. not (get tags key == "")) building_qualifying_keys)) [
                | inl b ↦
                    let (key, m, q) =
                      any_witness (λ key. not (get tags key == "")) building_qualifying_keys
                        (ground arith) in
                    by_building key none_of no_ (ground (arith, eq_iff (get tags "shop") ""))
                      (ne_of_test _ _ (ground arith)) m (ne_of_test _ _ q) (ground arith)
                | inr b ↦ absurd (ground arith)
              ]
      ]
    ]

-- An element that the filter takes with a category has a reason to be a place of that category: its
-- amenity is in the table; or, failing that, its public transport is allowed; or, failing both, it
-- is a shop; or, failing all, it is a building with a qualifying tag.
pub evaluate-Qualifies :
    (tags : Dict String) (c : Category) → evaluate tags ≡ some c → Qualifies tags c
unfolding evaluate
evaluate-Qualifies tags c h = elim (or_else_cases (amenity_of tags) (evaluate_rest tags) c h) [
  | inl e ↦ by_amenity e
  | inr (e, k) ↦ rest-Qualifies tags c e k
]

evaluate_of_rest :
    (tags : Dict String) (c : Category)
    → amenity_of tags ≡ none
    → evaluate_rest tags ≡ some c
    → evaluate tags ≡ some c
unfolding evaluate
evaluate_of_rest tags c e h = rw e h

-- An element with one of the reasons to be a place of a category is taken by the filter with that
-- category.
pub evaluate_complete :
    (tags : Dict String) (c : Category) → Qualifies tags c → evaluate tags ≡ some c
unfolding evaluate evaluate_rest has_qualifying_key
evaluate_complete tags c (by_amenity e) = rw e
evaluate_complete tags c (by_transport pt e l k w) =
    evaluate_of_rest tags c e (rw (allowed_of _ pt l k, w))
evaluate_complete tags c (by_shop e f s w) = evaluate_of_rest tags c e (rw (f, test_of_ne _ _ s, w))
evaluate_complete tags c (by_building key e f s b m k w) = evaluate_of_rest tags c e (
    rw (
      f,
      s,
      test_of_ne _ _ b,
      any_of (λ k'. not (get tags k' == "")) building_qualifying_keys key m (test_of_ne _ _ k),
      w,
    ))
