-- ===== src/Osm/Filter.antt =====
-- filter.go: the tags that make an element a place.
pub mod Decides
use inwheel_api.Common.{
  String, ◌==◌, Bool, true, false, not, ◌&&◌, Option, none, some, List, [], ◌∷◌, contains, any,
  if◌then◌else◌,
}
use inwheel_api.Common.Dict.{Dict, lookup, get}
use inwheel_api.Models.{
  Category, category_bar, category_cafe, category_education, category_entertainment,
  category_finance, category_government, category_healthcare, category_other, category_restaurant,
  category_shop, category_social, category_toilet, category_transport, category_worship,
}

unfoldable pub amenity_to_category : Dict Category
amenity_to_category =
    ("restaurant", category_restaurant)
    ∷ ("fast_food", category_restaurant)
    ∷ ("food_court", category_restaurant)
    ∷ ("cafe", category_cafe)
    ∷ ("ice_cream", category_cafe)
    ∷ ("biergarten", category_cafe)
    ∷ ("bar", category_bar)
    ∷ ("pub", category_bar)
    ∷ ("nightclub", category_bar)
    ∷ ("hospital", category_healthcare)
    ∷ ("clinic", category_healthcare)
    ∷ ("doctors", category_healthcare)
    ∷ ("dentist", category_healthcare)
    ∷ ("pharmacy", category_healthcare)
    ∷ ("veterinary", category_healthcare)
    ∷ ("nursing_home", category_healthcare)
    ∷ ("school", category_education)
    ∷ ("university", category_education)
    ∷ ("college", category_education)
    ∷ ("kindergarten", category_education)
    ∷ ("childcare", category_education)
    ∷ ("library", category_education)
    ∷ ("language_school", category_education)
    ∷ ("music_school", category_education)
    ∷ ("driving_school", category_education)
    ∷ ("research_institute", category_education)
    ∷ ("bank", category_finance)
    ∷ ("atm", category_finance)
    ∷ ("bureau_de_change", category_finance)
    ∷ ("money_transfer", category_finance)
    ∷ ("cinema", category_entertainment)
    ∷ ("theatre", category_entertainment)
    ∷ ("arts_centre", category_entertainment)
    ∷ ("casino", category_entertainment)
    ∷ ("community_centre", category_entertainment)
    ∷ ("events_venue", category_entertainment)
    ∷ ("social_centre", category_entertainment)
    ∷ ("townhall", category_government)
    ∷ ("courthouse", category_government)
    ∷ ("embassy", category_government)
    ∷ ("police", category_government)
    ∷ ("fire_station", category_government)
    ∷ ("post_office", category_government)
    ∷ ("bus_station", category_transport)
    ∷ ("ferry_terminal", category_transport)
    ∷ ("taxi", category_transport)
    ∷ ("car_rental", category_transport)
    ∷ ("bicycle_rental", category_transport)
    ∷ ("car_sharing", category_transport)
    ∷ ("social_facility", category_social)
    ∷ ("shelter", category_social)
    ∷ ("place_of_worship", category_worship)
    ∷ ("toilets", category_toilet)
    ∷ ("marketplace", category_other)
    ∷ ("internet_cafe", category_other)
    ∷ []

unfoldable pub public_transport_allowlist : List String
public_transport_allowlist = "station" ∷ "stop_area" ∷ []

unfoldable pub building_qualifying_keys : List String
building_qualifying_keys =
    "amenity" ∷ "shop" ∷ "tourism" ∷ "leisure" ∷ "office" ∷ "healthcare" ∷ "public_transport" ∷ []

-- if pt, ok := tags["public_transport"]; ok && allowed
unfoldable pub is_allowed_transport : Option String → Bool
unfolding public_transport_allowlist
is_allowed_transport none = false
is_allowed_transport (some pt) = contains public_transport_allowlist pt

-- The loop over the qualifying keys of a building: whether one of them has a value.
unfoldable pub has_qualifying_key : Dict String → Bool
has_qualifying_key tags = any (λ key. not (get tags key == "")) building_qualifying_keys

-- the tests below the amenity test
unfoldable pub evaluate_rest : Dict String → Option Category
evaluate_rest tags =
    if is_allowed_transport (lookup "public_transport" tags)
    then some category_transport
    else if not (get tags "shop" == "")
    then some category_shop
    else if not (get tags "building" == "") && has_qualifying_key tags
    then some category_other
    else none

abbrev or_else : Option Category → Option Category → Option Category
or_else none o = o
or_else (some c) o = some c

-- (category, true) is `some`, ("", false) is `none`
unfoldable pub evaluate : Dict String → Option Category
evaluate tags = or_else (lookup (get tags "amenity") amenity_to_category) (evaluate_rest tags)
