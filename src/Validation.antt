-- ===== src/Validation.antt =====
-- internal/validation/validation.go: the checks of request bodies and parameters that the OpenAPI
-- specification cannot express. `quote` is the verb %q of fmt; the cursor's libraries are `codec`.
pub mod Email
pub mod Accepts
mod Tests
use Prim.Native.Char.{Char, code}
use Prim.Native.String
use inwheel_api.Common.{
  ℕ, suc, ◌+◌, String, ◌==◌, Bool, true, false, not, ◌&&◌, ◌||◌, Option, none, some, List, [], ◌∷◌,
  ◌++◌, length, leb, ltb, eqb, is_some, if◌then◌else◌,
}
use inwheel_api.Common.Int.{pos}
use inwheel_api.Common.Dict.{Dict}
use inwheel_api.Common.Text.{trim_space, itoa}
use inwheel_api.Common.Result.{Result, ok, err}
use inwheel_api.Float64.{Float64, le}
use inwheel_api.Models.{Place, SourceReport, AccessibilityProfile, Time}
use inwheel_api.Pagination.{Codec, decode}
use inwheel_api.Validation.Email.{email_regex}

pub record FieldError : Type 0 where
  pub field : String
  pub reason : String

abbrev max_source_length : ℕ
max_source_length = 64

abbrev max_tag_entries : ℕ
max_tag_entries = 50

abbrev max_tag_key_length : ℕ
max_tag_key_length = 64

abbrev max_tag_value_length : ℕ
max_tag_value_length = 256

abbrev max_source_report_entries : ℕ
max_source_report_entries = 50

unfoldable pub is_blank : String → Bool
is_blank s = trim_space s == ""

abbrev one_error : String → String → List FieldError
one_error f r = record { field = f; reason = r } ∷ []

-- if c { errs = append(errs, FieldError{...}) }
abbrev error_if : Bool → String → String → List FieldError
error_if c f r = if c then one_error f r else []

-- fmt.Sprintf("<before>%d<after>", n)
abbrev with_number : String → ℕ → String → String
with_number before n after = String.◌++◌ before (String.◌++◌ (itoa (pos n)) after)

unfoldable pub email : String → List FieldError
email s = error_if (not (email_regex s)) "email" "must be a valid email address"

-- The errors of one entry of the tags.
tag_errors : (String → String) → String × String → List FieldError
tag_errors quote (k, v) =
    error_if (ltb max_tag_key_length (String.len k)) "tags" (
      String.◌++◌ "key "
        (String.◌++◌ (quote k) (with_number " exceeds " max_tag_key_length " characters")))
    ++ error_if (ltb max_tag_value_length (String.len v)) "tags" (
        String.◌++◌ "value for key "
          (String.◌++◌ (quote k) (with_number " exceeds " max_tag_value_length " characters")))

all_tag_errors : (String → String) → Dict String → List FieldError
unfolding tag_errors
all_tag_errors quote [] = []
all_tag_errors quote (entry ∷ rest) = tag_errors quote entry ++ all_tag_errors quote rest

unfoldable pub validate_tags : (String → String) → Dict String → List FieldError
unfolding all_tag_errors
validate_tags quote tags =
    if ltb max_tag_entries (length tags)
    then one_error "tags" (with_number "must contain ≤ " max_tag_entries " entries")
    else all_tag_errors quote tags

unfoldable pub place : (String → String) → Option Place → List FieldError
place quote none = one_error "body" "place is required"
place quote (some p) =
    error_if (is_blank p.name) "name" "must not be blank" ++ validate_tags quote p.tags

report_errors : ℕ → SourceReport → List FieldError
report_errors i sr =
    error_if (ltb max_source_length (String.len sr.source)) "source_reports"
      (with_number "entry " i (with_number ": source exceeds " max_source_length " characters"))
    ++ error_if (ltb max_source_length (String.len sr.value)) "source_reports"
        (with_number "entry " i (with_number ": value exceeds " max_source_length " characters"))

reports_errors : ℕ → List SourceReport → List FieldError
unfolding report_errors
reports_errors i [] = []
reports_errors i (sr ∷ rest) = report_errors i sr ++ reports_errors (suc i) rest

unfoldable pub accessibility_profile : Option AccessibilityProfile → List FieldError
unfolding reports_errors
accessibility_profile none = []
accessibility_profile (some p) =
    if ltb max_source_report_entries (length p.source_reports)
    then one_error "source_reports"
        (with_number "must contain ≤ " max_source_report_entries " entries")
    else reports_errors 0 p.source_reports

pub record PlacesQueryParams : Type 0 where
  pub lng : Option Float64
  pub lat : Option Float64
  pub radius : Option Float64
  pub min_lng : Option Float64
  pub min_lat : Option Float64
  pub max_lng : Option Float64
  pub max_lat : Option Float64
  pub cursor : Option String
  pub q : Option String

unfoldable pub count_non_nil_floats : List (Option Float64) → ℕ
count_non_nil_floats [] = 0
count_non_nil_floats (none ∷ ptrs) = count_non_nil_floats ptrs
count_non_nil_floats (some x ∷ ptrs) = suc (count_non_nil_floats ptrs)

-- *lo >= *hi, where both are given
not_below : Option Float64 → Option Float64 → Bool
not_below none hi = false
not_below (some lo) none = false
not_below (some lo) (some hi) = le hi lo

is_invalid : Result (Time × String) → Bool
is_invalid (ok r) = false
is_invalid (err e) = true

cursor_errors : Codec → Option String → List FieldError
unfolding is_invalid
cursor_errors codec none = []
cursor_errors codec (some c) = error_if (is_invalid (decode codec c)) "cursor" "invalid cursor"

q_errors : Option String → List FieldError
q_errors none = []
q_errors (some q) = error_if (is_blank q) "q" "must not be blank"

-- the errors below the three early returns
detail_errors : Codec → ℕ → PlacesQueryParams → List FieldError
unfolding not_below cursor_errors q_errors
detail_errors codec bbox_present p =
    (if eqb bbox_present 4
      then error_if (not_below p.min_lng p.max_lng) "min_lng" "must be less than max_lng"
        ++ error_if (not_below p.min_lat p.max_lat) "min_lat" "must be less than max_lat"
      else [])
    ++ (cursor_errors codec p.cursor ++ q_errors p.q)

unfoldable pub places_query : Codec → PlacesQueryParams → List FieldError
unfolding detail_errors
places_query codec p =
    let circular_present = count_non_nil_floats (p.lng ∷ p.lat ∷ p.radius ∷ []) in
    let bbox_present = count_non_nil_floats (p.min_lng ∷ p.min_lat ∷ p.max_lng ∷ p.max_lat ∷ []) in
    if not (eqb circular_present 0) && not (eqb circular_present 3)
    then one_error "query" "lng, lat, and radius must all be provided together"
    else if not (eqb bbox_present 0) && not (eqb bbox_present 4)
    then one_error "query" "min_lng, min_lat, max_lng, and max_lat must all be provided together"
    else if ltb 0 circular_present && ltb 0 bbox_present
    then one_error "query" "proximity and bounding-box parameters are mutually exclusive"
    else detail_errors codec bbox_present p
