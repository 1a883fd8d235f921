-- ===== src/Models/Profile.antt =====
-- pkg/models/accessibility.go. A Go type whose underlying type is string (AccessibilityLevel,
-- DoorType, SurfaceType) is a text; a pointer is an `Option`. A time is a number of nanoseconds.
use inwheel_api.Common.{ℕ, String, Bool, Option, List}
use inwheel_api.Common.Int.{ℤ}

abbrev pub Time : Type 0
Time = ℕ

abbrev pub AccessibilityLevel : Type 0
AccessibilityLevel = String

abbrev pub level_good : AccessibilityLevel
level_good = "good"

abbrev pub level_limited : AccessibilityLevel
level_limited = "limited"

abbrev pub level_no : AccessibilityLevel
level_no = "no"

abbrev pub door_automatic : String
door_automatic = "automatic"

pub record SourceReport : Type 0 where
  pub source : String
  pub value : String
  pub recorded_at : Time

pub record DoorProps : Type 0 where
  pub door_type : String
  pub width : Option AccessibilityLevel

pub record EntranceProps : Type 0 where
  pub is_level : Option Bool
  pub has_fixed_ramp : Option Bool
  pub has_removable_ramp : Option Bool
  pub slope_percent : Option AccessibilityLevel
  pub width : Option AccessibilityLevel
  pub door : Option DoorProps
  pub has_intercom : Option Bool
  pub audit_flags : List String
  pub is_inherited : Bool
  pub source_id : String

pub record PathwayProps : Type 0 where
  pub width : Option AccessibilityLevel
  pub surface : String
  pub is_kerbstone_free : Option Bool
  pub has_steps : Option Bool
  pub audit_flags : List String
  pub is_inherited : Bool
  pub source_id : String

pub record RestroomProps : Type 0 where
  pub is_accessible : Option Bool
  pub door_width : Option AccessibilityLevel
  pub turning_radius : Option AccessibilityLevel
  pub has_grab_rails : Option Bool
  pub has_roll_in_shower : Option Bool
  pub toilet_seat_height : Option AccessibilityLevel
  pub has_emergency_pull : Option Bool
  pub has_changing_table : Option Bool
  pub audit_flags : List String
  pub is_inherited : Bool
  pub source_id : String

pub record ParkingProps : Type 0 where
  pub has_disabled_spaces : Option Bool
  pub count : Option ℤ
  pub distance_to_entrance : Option AccessibilityLevel
  pub width : Option AccessibilityLevel
  pub has_dedicated_signage : Option Bool
  pub audit_flags : List String
  pub is_inherited : Bool
  pub source_id : String

pub record ElevatorProps : Type 0 where
  pub width : Option AccessibilityLevel
  pub depth : Option AccessibilityLevel
  pub door_width : Option AccessibilityLevel
  pub has_braille : Option Bool
  pub has_audio : Option Bool
  pub audit_flags : List String
  pub is_inherited : Bool
  pub source_id : String

pub record AccessibilityProfile : Type 0 where
  pub id : String
  pub place_id : String
  pub source_reports : List SourceReport
  pub entrance : Option EntranceProps
  pub pathways : Option PathwayProps
  pub restroom : Option RestroomProps
  pub parking : Option ParkingProps
  pub elevator : Option ElevatorProps
  pub user_verified : Bool
  pub submitted_by : Option String
  pub submitted_at : Option Time
  pub updated_at : Time
