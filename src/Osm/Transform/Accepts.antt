-- ===== src/Osm/Transform/Accepts.antt =====
-- The filter and the transformer fit together.
use inwheel_api.Common.{
  ◌≤◌, String, ◌==◌, eq_iff, ◌≡◌, ◌≢◌, refl, Bool, true, false, not, ◌&&◌, some, [], ◌∷◌, arith,
}
use inwheel_api.Common.Dict.{Dict, lookup}
use inwheel_api.Common.Result.{ok}
use inwheel_api.Float64.{Arithmetic}
use inwheel_api.Models.{Time, Category, Place}
use inwheel_api.Osm.Filter.{amenity_to_category, evaluate}
use inwheel_api.Osm.Filter.Decides.{
  Qualifies, by_amenity, by_transport, by_shop, by_building, evaluate-Qualifies,
}
use inwheel_api.Osm.Rank.Bounds.{derive_rank_bounds}
use inwheel_api.Osm.Tags.{map_tags_to_profile}
use inwheel_api.Osm.Transform.{Element, transform, place_of}

-- No category of the table is the empty text.
abbrev none_empty : Dict Category → Bool
none_empty [] = true
none_empty ((j, c) ∷ m) = not (c == "") && none_empty m

lookup-none_empty :
    (k : String) (m : Dict Category) (c : Category)
    → none_empty m ≡ true
    → lookup k m ≡ some c
    → (c == "") ≡ false
unfolding lookup
lookup-none_empty k [] c h e = cc
lookup-none_empty k ((j, w) ∷ m) c h e = ground (arith, lookup-none_empty k m c)

table_none_empty : none_empty amenity_to_category ≡ true
unfolding amenity_to_category
table_none_empty = refl

-- The filter never takes an element with the empty category.
pub evaluate_nonempty :
    (tags : Dict String) (c : Category) → evaluate tags ≡ some c → (c == "") ≡ false
evaluate_nonempty tags c h = reason (evaluate-Qualifies tags c h)
  where
    reason : Qualifies tags c → (c == "") ≡ false
    reason (by_amenity e) = lookup-none_empty _ amenity_to_category c table_none_empty e
    reason (by_transport pt _ _ _ w) = rw w
    reason (by_shop _ _ _ w) = rw w
    reason (by_building key _ _ _ _ _ _ w) = rw w

-- The places table admits the place, and it says what the element says.
pub record IsPlaceOf (e : Element) (c : Category) (osm_type : String) (p : Place) : Type 0 where
  pub key : (p.osm_id ≡ e.id) × (p.osm_type ≡ osm_type)
  pub location : (p.lat ≡ e.lat) × (p.lng ≡ e.lng)
  pub category : (p.category ≡ c) × (p.category ≢ "")
  pub rank : (1 ≤ p.rank) × (p.rank ≤ 3)
  pub status : p.status ≡ "active"
  pub tags : (k : String) → lookup k p.tags ≡ lookup k e.tags

-- Whatever the filter takes, the transformer accepts: the branch of the import that skips an
-- element is never taken. The place has the key, the location, the category and the tags of the
-- element, a rank that the table admits, and it is active.
pub transform-evaluate :
    (arithmetic : Arithmetic) (now : Time) (e : Element) (c : Category) (osm_type : String)
    → evaluate e.tags ≡ some c
    → (p : Place) × (transform arithmetic now e c osm_type
        ≡ ok (p, map_tags_to_profile arithmetic now e.tags))
      × IsPlaceOf e c osm_type p
unfolding transform place_of
transform-evaluate arithmetic now e c osm_type h =
    let n = evaluate_nonempty e.tags c h in
    (
      place_of e c osm_type,
      rw n,
      record {
        key = (refl, refl);
        location = (refl, refl);
        category = (refl, λ q. ground (arith, n, eq_iff c ""));
        rank = derive_rank_bounds c e.tags;
        status = refl;
        tags = λ k. refl;
      },
    )
