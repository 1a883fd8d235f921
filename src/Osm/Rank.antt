-- ===== src/Osm/Rank.antt =====
-- rank.go: the zoom-level priority of a place.
pub mod Bounds
use inwheel_api.Common.{String, ◌==◌, Bool, ◌||◌, List, [], ◌∷◌, contains, if◌then◌else◌}
use inwheel_api.Common.Dict.{Dict, get}
use inwheel_api.Models.{
  Category, Rank, rank_landmark, rank_establishment, rank_feature, category_healthcare,
  category_education, category_transport, category_toilet, category_finance, category_social,
}

abbrev pub landmark_transport_amenity : List String
landmark_transport_amenity = "bus_station" ∷ "ferry_terminal" ∷ []

abbrev pub landmark_transport_public : List String
landmark_transport_public = "station" ∷ []

abbrev pub feature_amenity : List String
feature_amenity = "toilets" ∷ "atm" ∷ "shelter" ∷ []

unfoldable pub derive_rank : Category → Dict String → Rank
derive_rank category tags =
    let amenity = get tags "amenity" in
    let public_transport = get tags "public_transport" in
    if category == category_healthcare
    then (if amenity == "hospital" then rank_landmark else rank_establishment)
    else if category == category_education
    then (if amenity == "university" then rank_landmark else rank_establishment)
    else if category == category_transport
    then (if contains landmark_transport_amenity amenity
        then rank_landmark
        else if contains landmark_transport_public public_transport
        then rank_landmark
        else rank_establishment)
    else if category == category_toilet
    then rank_feature
    else if category == category_finance || category == category_social
    then (if contains feature_amenity amenity then rank_feature else rank_establishment)
    else rank_establishment
