-- ===== src/Osm/Rank/Bounds.antt =====
-- The rank is one that the places table admits, and which places are landmarks.
use inwheel_api.Common.{◌≤◌, String, ◌==◌, eq_iff, ◌≡◌, ◌↔◌, Bool, true, arith, ◌||◌, ◌&&◌}
use inwheel_api.Common.Dict.{Dict, get}
use inwheel_api.Models.{
  Category, rank_landmark, category_healthcare, category_education, category_transport,
}
use inwheel_api.Osm.Rank.{derive_rank}

-- The rank is between 1 and 3, as the CHECK of the column `rank` wants, for every category and all
-- tags.
pub derive_rank_bounds :
    (c : Category) (tags : Dict String) → (1 ≤ derive_rank c tags) × (derive_rank c tags ≤ 3)
unfolding derive_rank
derive_rank_bounds c tags = ground arith

-- hospitals, universities and major stations
abbrev pub is_landmark : Category → Dict String → Bool
is_landmark c tags =
    (c == category_healthcare && (get tags "amenity" == "hospital"))
    || ((c == category_education && (get tags "amenity" == "university"))
        || (c == category_transport
            && ((get tags "amenity" == "bus_station")
                || ((get tags "amenity" == "ferry_terminal")
                    || (get tags "public_transport" == "station")))))

-- A place has the rank of a landmark exactly when it is a hospital, a university, or a bus station,
-- ferry terminal or station of the category transport.
pub derive_rank_landmark :
    (c : Category) (tags : Dict String)
    → (derive_rank c tags ≡ rank_landmark) ↔ (is_landmark c tags ≡ true)
unfolding derive_rank
derive_rank_landmark c tags =
    let amenity = get tags "amenity" in
    let public_transport = get tags "public_transport" in
    ground (
      arith,
      eq_iff c category_healthcare,
      eq_iff c category_education,
      eq_iff c category_transport,
      eq_iff "bus_station" amenity,
      eq_iff "ferry_terminal" amenity,
      eq_iff amenity "bus_station",
      eq_iff amenity "ferry_terminal",
      eq_iff "station" public_transport,
      eq_iff public_transport "station",
      eq_iff category_healthcare category_education,
      eq_iff category_healthcare category_transport,
      eq_iff category_education category_transport,
    )
