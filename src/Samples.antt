-- ===== src/Samples.antt =====
-- The values that the tests run the definitions on: a registry with one cafe and one queued record,
-- a small map file, and concrete libraries (an arithmetic that keeps the second operand, a Unicode
-- table for lower-case words, and a database that never fails).
pub mod Libraries
use Prim.Native.Char.{code}
use inwheel_api.Common.{
  ℕ, zero, suc, String, ◌==◌, true, false, not, Option, none, some, List, [], ◌∷◌,
}
use inwheel_api.Common.Int.{pos}
use inwheel_api.Common.Dict.{Dict}
use inwheel_api.Common.Text.{is_space}
use inwheel_api.Common.Result.{ok}
use inwheel_api.Float64.{Float64, Arithmetic, one}
use inwheel_api.Models.{
  Place, ExternalRef, UnmatchedExternal, AccessibilityProfile, EntranceProps, ElevatorProps,
  RestroomProps, category_cafe, place_status_active,
}
use inwheel_api.A11y.{empty_profile}
use inwheel_api.Osm.Tags.{empty_entrance, empty_restroom, empty_elevator}
use inwheel_api.Osm.Transform.{Element}
use inwheel_api.Osm.Import.{Object, node, way, relation}
use inwheel_api.Identity.Normalize.{Unicode}
use inwheel_api.Identity.Match.{Record, CandidateRepo}
use inwheel_api.Identity.Sweep.{Sweeper}
use inwheel_api.Database.{Database, Postgres}

abbrev pub count_float : ℕ → Float64
count_float zero = 0
count_float (suc n) = one

abbrev pub parse_sample : String → Option Float64
parse_sample s = elim (s == "6") [ true ↦ some 0x4018000000000000 | false ↦ none ]

abbrev pub arithmetic : Arithmetic
arithmetic = record {
  add = λ x y. y;
  sub = λ x y. x;
  mul = λ x y. y;
  div = λ x y. x;
  sin = λ x. x;
  cos = λ x. x;
  atan2 = λ x y. 0;
  sqrt = λ x. x;
  of_count = count_float;
  parse_float = parse_sample;
}

abbrev pub unicode : Unicode
unicode = record {
  fold = λ s. some s;
  to_lower = λ s. s;
  is_letter = λ c. not (is_space (code c));
  is_digit = λ c. false;
  equal_fold = λ s t. s == t;
}

abbrev pub postgres : Postgres
postgres = record {
  fails = λ n. false;
  now = λ n. n;
  within = λ lng lat lng' lat' radius_m. true;
  order_by_distance = λ lat lng ps. ps;
}

abbrev pub cafe_tags : Dict String
cafe_tags =
    ("amenity", "cafe") ∷ ("name", "blue") ∷ ("wheelchair", "yes") ∷ ("capacity:disabled", "2") ∷ []

abbrev pub osm_ref : ExternalRef
osm_ref = record { id = "node/1"; confidence = one; matched_at = 0 }

abbrev pub cafe : Place
cafe = record {
  id = "p1";
  osm_id = pos 1;
  osm_type = "node";
  name = "blue";
  lng = 0;
  lat = 0;
  geometry = none;
  category = category_cafe;
  rank = 2;
  parent_id = none;
  accessibility = none;
  tags = cafe_tags;
  external_ids = ("osm", osm_ref) ∷ [];
  status = place_status_active;
  source = "osm";
  submitted_by = none;
  submitted_at = none;
  created_at = 0;
  updated_at = 0;
}

abbrev pub bakery_row : UnmatchedExternal
bakery_row = record {
  id = 4;
  source = "food";
  source_id = "f-9";
  name = "blue";
  category = category_cafe;
  street = "";
  house_number = "";
  lat = 0;
  lng = 0;
  payload = "{}";
  last_attempted = 1;
  attempts = 1;
}

abbrev pub database : Database
database = record { places = cafe ∷ []; queue = bakery_row ∷ []; next_queue_id = 5; statements = 0 }

abbrev pub record_sample : Record
record_sample = record {
  source = "food";
  source_id = "f-9";
  name = "blue";
  lat = 0;
  lng = 0;
  category = category_cafe;
  street = "";
  house_number = "";
  payload = none;
}

-- a repository that answers with the cafe and counts its queries
abbrev pub cafe_repo : CandidateRepo ℕ
cafe_repo = record { find_candidates = λ lat lng radius_m cs n. (ok (cafe ∷ []), suc n) }

abbrev pub cafe_sweeper : Sweeper ℕ
cafe_sweeper = record {
  candidates = cafe_repo;
  places = record { attach_external_ref = λ id source ref n. (ok tt, suc n) };
  queue = record {
    find_candidates_near_touched = λ ids radius_m n. (ok (bakery_row ∷ bakery_row ∷ []), suc n);
    bump_attempts = λ id t n. (ok tt, suc n);
    delete = λ id n. (ok tt, suc n);
  };
}

abbrev pub node_sample : Element
node_sample = record { id = pos 1; lat = 0; lng = 0; tags = cafe_tags }

abbrev pub objects : List (ℕ × Object)
objects =
    (3, node node_sample)
    ∷ (4, relation)
    ∷ (5, way (record { id = pos 2; line_string = (one, one) ∷ []; tags = cafe_tags }))
    ∷ []

abbrev pub flat_entrance : EntranceProps
flat_entrance = record empty_entrance { is_level = some false; width = some "no" }

abbrev pub plain_restroom : RestroomProps
plain_restroom = record empty_restroom { has_grab_rails = some false }

abbrev pub plain_elevator : ElevatorProps
plain_elevator = record empty_elevator { has_audio = some false }

abbrev pub verified_profile : AccessibilityProfile
verified_profile = record empty_profile { user_verified = true }

abbrev pub mall : Place
mall = record cafe {
  id = "p0";
  category = "mall";
  accessibility = some (record empty_profile { elevator = some plain_elevator });
}
