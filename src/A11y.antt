-- ===== src/A11y.antt =====
-- internal/a11y/engine.go: the audit flags that are computed on every profile write, and the
-- profile that a place shows when its parent's components are merged in. The engine has no state.
-- A Go slice that is nil and one that is empty are the same list.
pub mod Levels
pub mod Flags
pub mod Effective
mod Tests
use inwheel_api.Common.{
  String, ◌==◌, Bool, true, false, not, ◌&&◌, ◌||◌, Option, none, some, List, [], ◌∷◌, ◌++◌,
  is_some, if◌then◌else◌,
}
use inwheel_api.Float64.{Float64, le}
use inwheel_api.Models.{
  AccessibilityLevel, level_good, level_limited, level_no, EntranceProps, PathwayProps,
  RestroomProps, ParkingProps, ElevatorProps, AccessibilityProfile, Place,
}

abbrev pub flag_entrance_narrow_width : String
flag_entrance_narrow_width = "narrow width"

abbrev pub flag_entrance_no_level_route : String
flag_entrance_no_level_route = "no level route (no ramp and not level)"

abbrev pub flag_restroom_narrow_door : String
flag_restroom_narrow_door = "narrow door"

abbrev pub flag_restroom_small_turning : String
flag_restroom_small_turning = "small turning radius"

abbrev pub flag_restroom_no_grab_rails : String
flag_restroom_no_grab_rails = "missing grab rails"

abbrev pub flag_elevator_narrow_width : String
flag_elevator_narrow_width = "small cabin width"

abbrev pub flag_elevator_shallow_depth : String
flag_elevator_shallow_depth = "small cabin depth"

abbrev pub flag_elevator_narrow_door : String
flag_elevator_narrow_door = "narrow door"

abbrev pub flag_elevator_no_braille : String
flag_elevator_no_braille = "missing braille"

abbrev pub flag_elevator_no_audio : String
flag_elevator_no_audio = "missing audio"

abbrev pub flag_parking_no_disabled_spaces : String
flag_parking_no_disabled_spaces = "no disabled spaces"

abbrev pub flag_pathway_narrow_width : String
flag_pathway_narrow_width = "narrow pathway"

-- 0.80, 0.70 and 8.33, 6
unfoldable pub level_for_door_width : Float64 → AccessibilityLevel
level_for_door_width metres =
    if le 0x3FE999999999999A metres
    then level_good
    else if le 0x3FE6666666666666 metres
    then level_limited
    else level_no

unfoldable pub level_for_slope_percent : Float64 → AccessibilityLevel
level_for_slope_percent percent =
    if le percent 0x4018000000000000
    then level_good
    else if le percent 0x4020A8F5C28F5C29
    then level_limited
    else level_no

-- p != nil && *p == models.LevelNo
abbrev pub level_is_no : Option AccessibilityLevel → Bool
level_is_no none = false
level_is_no (some l) = l == level_no

-- p != nil && !*p
abbrev pub is_known_false : Option Bool → Bool
is_known_false none = false
is_known_false (some b) = not b

-- p != nil && *p
abbrev pub is_known_true : Option Bool → Bool
is_known_true none = false
is_known_true (some b) = b

-- if c { flags = append(flags, flag) }
abbrev append_if : Bool → String → List String → List String
append_if c flag flags = if c then flags ++ flag ∷ [] else flags

pub entrance_flags : EntranceProps → List String
entrance_flags p =
    let flags = append_if (level_is_no p.width) flag_entrance_narrow_width [] in
    if is_known_false p.is_level
    then (let has_ramp = is_known_true p.has_fixed_ramp || is_known_true p.has_removable_ramp in
        append_if (not has_ramp) flag_entrance_no_level_route flags)
    else flags

pub pathway_flags : PathwayProps → List String
pathway_flags p = append_if (level_is_no p.width) flag_pathway_narrow_width []

pub restroom_flags : RestroomProps → List String
restroom_flags p =
    let flags = append_if (level_is_no p.door_width) flag_restroom_narrow_door [] in
    let flags' = append_if (level_is_no p.turning_radius) flag_restroom_small_turning flags in
    append_if (is_known_false p.has_grab_rails) flag_restroom_no_grab_rails flags'

pub parking_flags : ParkingProps → List String
parking_flags p =
    append_if (is_known_false p.has_disabled_spaces) flag_parking_no_disabled_spaces []

pub elevator_flags : ElevatorProps → List String
elevator_flags p =
    let f1 = append_if (level_is_no p.width) flag_elevator_narrow_width [] in
    let f2 = append_if (level_is_no p.depth) flag_elevator_shallow_depth f1 in
    let f3 = append_if (level_is_no p.door_width) flag_elevator_narrow_door f2 in
    let f4 = append_if (is_known_false p.has_braille) flag_elevator_no_braille f3 in
    append_if (is_known_false p.has_audio) flag_elevator_no_audio f4

-- The write to a component behind a pointer that is not nil.
abbrev update_some {ℓ} : {A : Type ℓ} → (A → A) → Option A → Option A
update_some f none = none
update_some f (some a) = some (f a)

-- The profile behind the pointer after the call.
unfoldable pub with_audit_flags : AccessibilityProfile → AccessibilityProfile
with_audit_flags profile = record profile {
  entrance = update_some (λ p. record p { audit_flags = entrance_flags p }) profile.entrance;
  pathways = update_some (λ p. record p { audit_flags = pathway_flags p }) profile.pathways;
  restroom = update_some (λ p. record p { audit_flags = restroom_flags p }) profile.restroom;
  parking = update_some (λ p. record p { audit_flags = parking_flags p }) profile.parking;
  elevator = update_some (λ p. record p { audit_flags = elevator_flags p }) profile.elevator;
}

-- &models.AccessibilityProfile{}
abbrev pub empty_profile : AccessibilityProfile
empty_profile = record {
  id = "";
  place_id = "";
  source_reports = [];
  entrance = none;
  pathways = none;
  restroom = none;
  parking = none;
  elevator = none;
  user_verified = false;
  submitted_by = none;
  submitted_at = none;
  updated_at = 0;
}

-- The copy of a parent's component: `mark` sets IsInherited and SourceID on it.
-- A value is copied by the model itself, so copyEntrance and its like leave no trace.
abbrev inherit {ℓ} : {A : Type ℓ} → (A → A) → Option A → Option A → Option A
inherit mark (some own) parent = some own
inherit mark none none = none
inherit mark none (some p) = some (mark p)

-- the block under `if child.Accessibility != nil`
own_profile : Option AccessibilityProfile → AccessibilityProfile
own_profile none = empty_profile
own_profile (some ca) = record empty_profile {
  id = ca.id;
  place_id = ca.place_id;
  source_reports = ca.source_reports;
  user_verified = ca.user_verified;
  submitted_at = ca.submitted_at;
  updated_at = ca.updated_at;
  entrance = ca.entrance;
  pathways = ca.pathways;
  restroom = ca.restroom;
  parking = ca.parking;
  elevator = ca.elevator;
}

-- the part below `pa := parent.Accessibility`
inherit_from : String → AccessibilityProfile → AccessibilityProfile → AccessibilityProfile
inherit_from parent_id pa effective = record effective {
  entrance =
      inherit (λ c. record c { is_inherited = true; source_id = parent_id }) effective.entrance
        pa.entrance;
  pathways =
      inherit (λ c. record c { is_inherited = true; source_id = parent_id }) effective.pathways
        pa.pathways;
  restroom =
      inherit (λ c. record c { is_inherited = true; source_id = parent_id }) effective.restroom
        pa.restroom;
  parking =
      inherit (λ c. record c { is_inherited = true; source_id = parent_id }) effective.parking
        pa.parking;
  elevator =
      inherit (λ c. record c { is_inherited = true; source_id = parent_id }) effective.elevator
        pa.elevator;
}

merge_parent :
    Option (String × Option AccessibilityProfile) → AccessibilityProfile → AccessibilityProfile
unfolding inherit_from
merge_parent none effective = effective
merge_parent (some (parent_id, none)) effective = effective
merge_parent (some (parent_id, some pa)) effective = inherit_from parent_id pa effective

-- A nil child gives nil; a nil parent gives the child's own components.
unfoldable pub compute_effective_profile : Option Place → Option Place → Option AccessibilityProfile
unfolding own_profile merge_parent
compute_effective_profile none parent = none
compute_effective_profile (some child) none = some (own_profile child.accessibility)
compute_effective_profile (some child) (some parent) =
    some (merge_parent (some (parent.id, parent.accessibility)) (own_profile child.accessibility))
