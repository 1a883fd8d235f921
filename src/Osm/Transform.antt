-- ===== src/Osm/Transform.antt =====
-- transformer.go: an element that the filter took becomes a place and an optional profile.
pub mod Accepts
use Prim.Native.String
use inwheel_api.Common.{String, ◌==◌, Option, none, List, [], ◌∷◌, if◌then◌else◌}
use inwheel_api.Common.Int.{ℤ}
use inwheel_api.Common.Dict.{Dict, get}
use inwheel_api.Common.Text.{itoa}
use inwheel_api.Common.Result.{Error, message, Result, ok, err}
use inwheel_api.Float64.{Float64, Arithmetic, one}
use inwheel_api.Models.{
  Time, Category, Place, AccessibilityProfile, osm_node, osm_way, place_status_active,
}
use inwheel_api.Osm.Rank.{derive_rank}
use inwheel_api.Osm.Tags.{map_tags_to_profile}

-- pbf.go: Node and Way have the same fields
pub record Element : Type 0 where
  pub id : ℤ
  pub lat : Float64
  pub lng : Float64
  pub tags : Dict String

-- fmt.Sprintf("%s/%d", osmType, osmID)
unfoldable pub external_id : String → ℤ → String
external_id osm_type osm_id = String.◌++◌ osm_type (String.◌∷◌ "/" (itoa osm_id))

unfoldable pub place_of : Element → Category → String → Place
place_of e category osm_type = record {
  id = "";
  osm_id = e.id;
  osm_type = osm_type;
  name = get e.tags "name";
  lng = e.lng;
  lat = e.lat;
  geometry = none;
  category = category;
  rank = derive_rank category e.tags;
  parent_id = none;
  accessibility = none;
  tags = e.tags;
  external_ids =
      ("osm", record { id = external_id osm_type e.id; confidence = one; matched_at = 0 }) ∷ [];
  status = place_status_active;
  source = "osm";
  submitted_by = none;
  submitted_at = none;
  created_at = 0;
  updated_at = 0;
}

unfoldable pub transform :
    Arithmetic → Time → Element → Category → String → Result (Place × Option AccessibilityProfile)
transform arithmetic now e category osm_type =
    if category == ""
    then err (message "transform: category is empty")
    else ok (place_of e category osm_type, map_tags_to_profile arithmetic now e.tags)

abbrev pub transform_osm_node :
    Arithmetic → Time → Element → Category → Result (Place × Option AccessibilityProfile)
transform_osm_node arithmetic now node category = transform arithmetic now node category osm_node

abbrev pub transform_osm_way :
    Arithmetic → Time → Element → Category → Result (Place × Option AccessibilityProfile)
transform_osm_way arithmetic now way category = transform arithmetic now way category osm_way
