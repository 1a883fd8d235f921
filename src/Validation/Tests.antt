-- ===== src/Validation/Tests.antt =====
-- What the validators say of a few inputs.
use inwheel_api.Common.{◌≤◌, ◌≡◌, ◌↔◌, false, none, some, [], length, All}
use inwheel_api.A11y.{empty_profile}
use inwheel_api.Validation.{
  is_blank, email, place, accessibility_profile, PlacesQueryParams, places_query,
}
use inwheel_api.Validation.Email.{IsEmail}
use inwheel_api.Validation.Accepts.{
  IsTag, IsReport, IsListable, email_accepts, body_accepts, places_query_accepts,
}
use inwheel_api.Samples.{cafe}
use inwheel_api.Samples.Libraries.{codec}

email_accepts_example :
    (email "a@b.org" ≡ [] → IsEmail "a@b.org") × (IsEmail "a@b.org" → email "a@b.org" ≡ [])
email_accepts_example = email_accepts "a@b.org"

body_accepts_example :
    ((place (λ s. s) (some cafe) ≡ [])
      ↔ ((is_blank "blue" ≡ false) × (length cafe.tags ≤ 50) × All IsTag cafe.tags))
    × ((accessibility_profile (some empty_profile) ≡ []) ↔ ((0 ≤ 50) × All IsReport []))
body_accepts_example = body_accepts (λ s. s) cafe empty_profile

-- a point without its radius
abbrev half : PlacesQueryParams
half = record {
  lng = some 0;
  lat = some 0;
  radius = none;
  min_lng = none;
  min_lat = none;
  max_lng = none;
  max_lat = none;
  cursor = none;
  q = some "cafe";
}

places_query_accepts_example :
    (places_query codec half ≡ [] → IsListable codec half)
    × (IsListable codec half → places_query codec half ≡ [])
places_query_accepts_example = places_query_accepts codec half
