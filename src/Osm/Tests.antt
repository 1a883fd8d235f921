-- ===== src/Osm/Tests.antt =====
-- The import on a file of one node, one relation and one way.
use inwheel_api.Common.{
  arith, ℕ, zero, suc, ◌≡◌, refl, true, ◌||◌, Option, none, some, [], ◌∷◌, is_some,
}
use inwheel_api.Common.Dict.{lookup, get}
use inwheel_api.Common.Result.{ok, Error, message}
use inwheel_api.Common.Int.{pos, negsuc}
use inwheel_api.Common.Text.{atoi, itoa, trim_space, strip_last}
use inwheel_api.Common.Text.Decimal.{atoi-itoa}
use inwheel_api.Float64.{lt, is_nan, rank}
use inwheel_api.Models.{Place, AccessibilityProfile, category_cafe}
use inwheel_api.A11y.{empty_profile}
use inwheel_api.Osm.Filter.{evaluate, amenity_to_category}
use inwheel_api.Osm.Filter.Decides.{Qualifies, by_amenity, evaluate-Qualifies, evaluate_complete}
use inwheel_api.Osm.Tags.{
  map_tags_to_profile, map_entrance, map_restroom, map_parking, map_elevator, parse_percent,
  empty_parking, parse_metres, step_count_positive,
}
use inwheel_api.Osm.Tags.Signals.{IsImported, map_tags_to_profile-IsImported}
use inwheel_api.Osm.Transform.{transform}
use inwheel_api.Osm.Transform.Accepts.{IsPlaceOf, transform-evaluate}
use inwheel_api.Osm.Import.{Sink, full_import}
use inwheel_api.Osm.Import.Delivers.{pois, deliver, full_import-deliver}
use inwheel_api.Samples.{arithmetic, cafe_tags, node_sample, objects}

cafe_amenity : lookup (get cafe_tags "amenity") amenity_to_category ≡ some category_cafe
unfolding amenity_to_category lookup get
cafe_amenity = refl

cafe_Qualifies : Qualifies cafe_tags category_cafe
cafe_Qualifies = by_amenity cafe_amenity

evaluate_complete_example : evaluate cafe_tags ≡ some category_cafe
evaluate_complete_example = evaluate_complete cafe_tags category_cafe cafe_Qualifies

evaluate-cafe : evaluate cafe_tags ≡ some category_cafe
evaluate-cafe = evaluate_complete cafe_tags category_cafe cafe_Qualifies

evaluate-Qualifies_example : Qualifies cafe_tags category_cafe
evaluate-Qualifies_example = evaluate-Qualifies cafe_tags category_cafe evaluate-cafe

parse_percent-sample : parse_percent arithmetic "6%" ≡ some 0x4018000000000000
unfolding parse_percent trim_space strip_last lt is_nan rank
parse_percent-sample = refl

transform-evaluate_example :
    (p : Place) × (transform arithmetic 3 node_sample category_cafe "node"
      ≡ ok (p, map_tags_to_profile arithmetic 3 cafe_tags))
    × IsPlaceOf node_sample category_cafe "node" p
transform-evaluate_example =
    transform-evaluate arithmetic 3 node_sample category_cafe "node" evaluate-cafe

-- a sink that counts its places and refuses the second
abbrev refuse : ℕ → Option Error × ℕ
refuse zero = (none, 1)
refuse (suc m) = (some (message "full"), suc m)

abbrev counting : Sink ℕ
counting p profile n = refuse n

full_import-deliver_example :
    ((full_import arithmetic none objects none counting 0).1.0
      ≡ (deliver counting (pois arithmetic objects) 0).1)
    × (is_some (full_import arithmetic none objects none counting 0).0
        ≡ (is_some (deliver counting (pois arithmetic objects) 0).0 || is_some {A = Error} none))
    × ((full_import arithmetic none objects none counting 0).1.1.skipped ≡ 0)
full_import-deliver_example = full_import-deliver arithmetic counting objects none 0

abbrev imported_profile : AccessibilityProfile
imported_profile = record empty_profile {
  source_reports = record { source = "osm"; value = "yes"; recorded_at = 3 } ∷ [];
  parking = some (record empty_parking { has_disabled_spaces = some true; count = some (pos 2) });
}

map_tags_to_profile-sample : map_tags_to_profile arithmetic 3 cafe_tags ≡ some imported_profile
unfolding map_tags_to_profile map_entrance map_restroom map_parking map_elevator lookup get
    parse_percent atoi strip_last trim_space parse_metres step_count_positive
map_tags_to_profile-sample = refl

map_tags_to_profile-IsImported_example : IsImported 3 cafe_tags imported_profile
map_tags_to_profile-IsImported_example =
    map_tags_to_profile-IsImported arithmetic 3 cafe_tags imported_profile
      map_tags_to_profile-sample

-- the id -1205
atoi-itoa_sample : atoi (itoa (negsuc 1204)) ≡ some (negsuc 1204)
atoi-itoa_sample = atoi-itoa (negsuc 1204) (omega arith)
