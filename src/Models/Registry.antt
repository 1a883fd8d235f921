-- ===== src/Models/Registry.antt =====
-- pkg/models/place.go. Category, OSMType and PlaceStatus are texts, as their Go types are; the raw
-- JSON of a geometry or of an upstream payload is a text.
use inwheel_api.Common.{ℕ, String, Option}
use inwheel_api.Common.Int.{ℤ}
use inwheel_api.Common.Dict.{Dict}
use inwheel_api.Float64.{Float64}
use inwheel_api.Models.Profile.{AccessibilityProfile, Time}

abbrev pub Rank : Type 0
Rank = ℕ

abbrev pub rank_landmark : Rank
rank_landmark = 1

abbrev pub rank_establishment : Rank
rank_establishment = 2

abbrev pub rank_feature : Rank
rank_feature = 3

abbrev pub Category : Type 0
Category = String

abbrev pub category_mall : Category
category_mall = "mall"

abbrev pub category_airport : Category
category_airport = "airport"

abbrev pub category_train_station : Category
category_train_station = "train_station"

abbrev pub category_restaurant : Category
category_restaurant = "restaurant"

abbrev pub category_cafe : Category
category_cafe = "cafe"

abbrev pub category_bar : Category
category_bar = "bar"

abbrev pub category_shop : Category
category_shop = "shop"

abbrev pub category_healthcare : Category
category_healthcare = "healthcare"

abbrev pub category_education : Category
category_education = "education"

abbrev pub category_finance : Category
category_finance = "finance"

abbrev pub category_entertainment : Category
category_entertainment = "entertainment"

abbrev pub category_government : Category
category_government = "government"

abbrev pub category_transport : Category
category_transport = "transport"

abbrev pub category_social : Category
category_social = "social"

abbrev pub category_worship : Category
category_worship = "worship"

abbrev pub category_toilet : Category
category_toilet = "toilet"

abbrev pub category_parking : Category
category_parking = "parking"

abbrev pub category_entrance : Category
category_entrance = "entrance"

abbrev pub category_other : Category
category_other = "other"

abbrev pub place_status_active : String
place_status_active = "active"

abbrev pub osm_node : String
osm_node = "node"

abbrev pub osm_way : String
osm_way = "way"

pub record ExternalRef : Type 0 where
  pub id : String
  pub confidence : Float64
  pub matched_at : Time

pub record Place : Type 0 where
  pub id : String
  pub osm_id : ℤ
  pub osm_type : String
  pub name : String
  pub lng : Float64
  pub lat : Float64
  pub geometry : Option String
  pub category : Category
  pub rank : Rank
  pub parent_id : Option String
  pub accessibility : Option AccessibilityProfile
  pub tags : Dict String
  pub external_ids : Dict ExternalRef
  pub status : String
  pub source : String
  pub submitted_by : Option String
  pub submitted_at : Option Time
  pub created_at : Time
  pub updated_at : Time

-- One row of the queue of records that wait for a match; `id` is 0 until the row is inserted.
pub record UnmatchedExternal : Type 0 where
  pub id : ℕ
  pub source : String
  pub source_id : String
  pub name : String
  pub category : String
  pub street : String
  pub house_number : String
  pub lat : Float64
  pub lng : Float64
  pub payload : String
  pub last_attempted : Time
  pub attempts : ℕ
