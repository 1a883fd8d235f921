-- ===== src/Osm/Tags.antt =====
-- a11y.go: the accessibility profile that the tags of an element state.
pub mod Signals
use inwheel_api.Common.{
  ℕ, String, ◌==◌, Bool, true, false, not, ◌&&◌, ◌||◌, Option, none, some, List, [], ◌∷◌, is_some,
  if◌then◌else◌,
}
use inwheel_api.Common.Int.{ℤ, is_positive}
use inwheel_api.Common.Dict.{Dict, lookup, get}
use inwheel_api.Common.Text.{atoi, trim_space, strip_last}
use inwheel_api.Float64.{Float64, Arithmetic, lt, neg}
use inwheel_api.Models.{
  Time, SourceReport, DoorProps, EntranceProps, RestroomProps, ParkingProps, ElevatorProps,
  AccessibilityProfile, door_automatic,
}
use inwheel_api.A11y.{level_for_door_width, level_for_slope_percent, empty_profile}

-- &models.EntranceProps{}, and so for the other components
abbrev pub empty_entrance : EntranceProps
empty_entrance = record {
  is_level = none;
  has_fixed_ramp = none;
  has_removable_ramp = none;
  slope_percent = none;
  width = none;
  door = none;
  has_intercom = none;
  audit_flags = [];
  is_inherited = false;
  source_id = "";
}

abbrev pub empty_restroom : RestroomProps
empty_restroom = record {
  is_accessible = none;
  door_width = none;
  turning_radius = none;
  has_grab_rails = none;
  has_roll_in_shower = none;
  toilet_seat_height = none;
  has_emergency_pull = none;
  has_changing_table = none;
  audit_flags = [];
  is_inherited = false;
  source_id = "";
}

abbrev pub empty_parking : ParkingProps
empty_parking = record {
  has_disabled_spaces = none;
  count = none;
  distance_to_entrance = none;
  width = none;
  has_dedicated_signage = none;
  audit_flags = [];
  is_inherited = false;
  source_id = "";
}

abbrev pub empty_elevator : ElevatorProps
empty_elevator = record {
  width = none;
  depth = none;
  door_width = none;
  has_braille = none;
  has_audio = none;
  audit_flags = [];
  is_inherited = false;
  source_id = "";
}

-- case "yes", "designated", "limited", "no"
abbrev pub is_wheelchair_value : String → Bool
is_wheelchair_value v = v == "yes" || (v == "designated" || (v == "limited" || v == "no"))

wheelchair_reports : Time → Option String → List SourceReport
wheelchair_reports now none = []
wheelchair_reports now (some v) =
    if is_wheelchair_value v
    then record { source = "osm"; value = v; recorded_at = now } ∷ []
    else []

map_restroom_value : Option String → Option RestroomProps
map_restroom_value none = none
map_restroom_value (some v) =
    if v == "yes"
    then some (record empty_restroom { is_accessible = some true })
    else if v == "no"
    then some (record empty_restroom { is_accessible = some false })
    else none

unfoldable pub map_restroom : Dict String → Option RestroomProps
unfolding map_restroom_value
map_restroom tags = map_restroom_value (lookup "toilets:wheelchair" tags)

parking_of_count : Option ℤ → Option ParkingProps
parking_of_count none = none
parking_of_count (some n) =
    some (record empty_parking { has_disabled_spaces = some (is_positive n); count = some n })

map_parking_value : Option String → String → Option ParkingProps
unfolding parking_of_count
map_parking_value (some v) disabled = parking_of_count (atoi v)
map_parking_value none disabled =
    if disabled == "no"
    then some (record empty_parking { has_disabled_spaces = some false })
    else none

unfoldable pub map_parking : Dict String → Option ParkingProps
unfolding map_parking_value
map_parking tags = map_parking_value (lookup "capacity:disabled" tags) (get tags "parking:disabled")

unfoldable pub map_elevator : Dict String → Option ElevatorProps
map_elevator tags = if get tags "elevator" == "yes" then some empty_elevator else none

positive_count : Option ℤ → Bool
positive_count none = false
positive_count (some n) = is_positive n

unfoldable pub step_count_positive : String → Bool
unfolding positive_count
step_count_positive v = if v == "" then false else positive_count (atoi v)

module _ (arithmetic : Arithmetic) where
  open arithmetic use {parse_float}

  -- The first of the texts that is a number.
  unfoldable pub parse_metres : List String → Option Float64
  parse_metres [] = none
  parse_metres (v ∷ vs) =
      let rest = parse_metres vs in
      if v == "" then rest else elim (parse_float v) [ none ↦ rest | some f ↦ some f ]

  absolute_value : Option Float64 → Option Float64
  absolute_value none = none
  absolute_value (some f) = some (if lt f 0 then neg f else f)

  percent_number : Option String → Option Float64
  unfolding absolute_value
  percent_number none = none
  percent_number (some number) = absolute_value (parse_float number)

  unfoldable pub parse_percent : String → Option Float64
  unfolding percent_number
  parse_percent v = percent_number (strip_last b'%' (trim_space v))

-- A step of mapEntrance: the properties so far, and whether a signal was found.
abbrev Found : Type 0
Found = EntranceProps × Bool

door_step : String → Found → Found
door_step v (props, found) =
    if not (v == "") && not (v == "no")
    then (record props { door = some (record { door_type = door_automatic; width = none }) }, true)
    else (props, found)

steps_step : Bool → Found → Found
steps_step has_steps (props, found) =
    if has_steps then (record props { is_level = some false }, true) else (props, found)

ramp_step : Option String → String → Found → Found
ramp_step (some v) ramp (props, found) =
    if v == "yes"
    then (record props { has_fixed_ramp = some true }, true)
    else if v == "no"
    then (record props { has_fixed_ramp = some false }, true)
    else (props, found)
ramp_step none ramp (props, found) =
    if ramp == "no" then (record props { has_fixed_ramp = some false }, true) else (props, found)

width_step : Option Float64 → Found → Found
width_step none s = s
width_step (some v) (props, found) = (record props { width = some (level_for_door_width v) }, true)

incline_step : Option Float64 → Found → Found
incline_step none s = s
incline_step (some v) (props, found) =
    (record props { slope_percent = some (level_for_slope_percent v) }, true)

entrance_found : Found → Option EntranceProps
entrance_found (props, found) = if found then some props else none

unfoldable pub map_entrance : Arithmetic → Dict String → Option EntranceProps
unfolding door_step steps_step ramp_step width_step incline_step entrance_found
map_entrance arithmetic tags =
    let s1 = door_step (get tags "automatic_door") (empty_entrance, false) in
    let s2 =
      steps_step
        (step_count_positive (get tags "step_count")
          || step_count_positive (get tags "entrance:step_count"))
        s1 in
    let s3 = ramp_step (lookup "ramp:wheelchair" tags) (get tags "ramp") s2 in
    let s4 =
      width_step (parse_metres arithmetic (get tags "width" ∷ get tags "door:width" ∷ [])) s3 in
    entrance_found (incline_step (parse_percent arithmetic (get tags "incline")) s4)

-- the tests below the four maps: nil where there is no signal
profile_of_signals :
    List SourceReport
    → Option EntranceProps
    → Option RestroomProps
    → Option ParkingProps
    → Option ElevatorProps
    → Option AccessibilityProfile
profile_of_signals [] none none none none = none
profile_of_signals reports entrance restroom parking elevator = some (record empty_profile {
  source_reports = reports;
  entrance = entrance;
  restroom = restroom;
  parking = parking;
  elevator = elevator;
})

unfoldable pub map_tags_to_profile : Arithmetic → Time → Dict String → Option AccessibilityProfile
unfolding wheelchair_reports profile_of_signals
map_tags_to_profile arithmetic now tags =
    profile_of_signals (wheelchair_reports now (lookup "wheelchair" tags))
      (map_entrance arithmetic tags) (map_restroom tags) (map_parking tags) (map_elevator tags)
