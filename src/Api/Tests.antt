-- ===== src/Api/Tests.antt =====
-- The theorems of the API at concrete requests.
use Prim.Native.String
use inwheel_api.Common.{
  ℕ, ◌≤◌, String, eq_iff, ◌≡◌, ◌≢◌, refl, inl, Bool, true, false, none, some, List, [], ◌∷◌, All,
  keep, length, arith,
}
use inwheel_api.Common.Result.{ok}
use inwheel_api.Models.{Place}
use inwheel_api.Pagination.{encode, decode}
use inwheel_api.Validation.{email, places_query, count_non_nil_floats}
use inwheel_api.Common.Text.Order.{str_lt}
use inwheel_api.Validation.Email.{email_regex}
use inwheel_api.Validation.Accepts.{IsListable}
use inwheel_api.Api.Listing.{
  ListParams, list_places, cut, insert_row, area_test, order_rows, selected, trimmed,
  escape_like_pattern,
}
use inwheel_api.Api.Listing.Order.{IsDistinct}
use inwheel_api.Api.Listing.Pages.{IsRow, collect, list_places-collect}
use inwheel_api.Api.Listing.Escape.{
  literal, any_many, read_pattern, escape_like_pattern-read_pattern,
}
use inwheel_api.Profiles.{row}
use inwheel_api.Middleware.RateLimiter.{allow}
use inwheel_api.Api.Keys.{
  ApiKey, KeyState, created, revoked, authenticated, is_active, first_key, has_hash, has_email,
  register, revoke_key, authenticate,
}
use inwheel_api.Api.Keys.Table.{IsKeyTable, register-Steps, handlers-IsKeyTable}
use inwheel_api.Api.Keys.Lifecycle.{register-authenticate, revoke_key-authenticate}
use inwheel_api.Samples.{cafe}
use inwheel_api.Samples.Libraries.{codec, codec-IsLawful, predicates, rate, outside, key_state}

-- all places, one at a time
abbrev params : ListParams
params = record {
  query = record {
    lng = none;
    lat = none;
    radius = none;
    min_lng = none;
    min_lat = none;
    max_lng = none;
    max_lat = none;
    cursor = none;
    q = none;
  };
  limit = some 1;
}

abbrev rows : List Place
rows =
    record cafe { id = "b"; updated_at = 1000 } ∷ record cafe { id = "a"; updated_at = 1000 } ∷ []

query_IsListable : IsListable codec (trimmed codec predicates params.query)
query_IsListable = record {
  circle = inl (refl, refl, refl);
  box = inl (refl, refl, refl, refl);
  one_area = inl refl;
  ordered_lng = λ a b e k. cc;
  ordered_lat = λ a b e k. cc;
  cursor = λ c e. absurd cc;
  q = λ s e. cc;
}

rows-IsRow : All (IsRow codec) rows
rows-IsRow = ((omega arith, omega arith, refl), ((omega arith, omega arith, refl), tt))

rows-IsDistinct : IsDistinct rows
rows-IsDistinct = ((not_same, tt), (tt, tt))
  where
    names : String × String
    names = ("b", "a")

    not_same : names.0 ≢ names.1
    not_same e = let x : false ≡ true = (eq_iff names.0 names.1).1 e in absurd cc

list_places-collect_example :
    (area : Place → Bool) × (area_test codec predicates (trimmed codec predicates params.query)
      ≡ some area)
    × (collect codec predicates 3 rows params
        ≡ some (
            order_rows
              (keep (selected codec predicates (trimmed codec predicates params.query) area) rows)))
list_places-collect_example =
    list_places-collect codec predicates codec-IsLawful params rows 0 query_IsListable refl refl
      rows-IsDistinct rows-IsRow

-- the two pages, in the order of the ids
two_pages :
    collect codec predicates 3 rows params
    ≡ some (
        record cafe { id = "a"; updated_at = 1000 }
        ∷ record cafe { id = "b"; updated_at = 1000 }
        ∷ [])
unfolding collect list_places places_query count_non_nil_floats area_test cut order_rows selected
    insert_row str_lt decode encode
two_pages = refl

escape_like_pattern-read_pattern_example :
    read_pattern false (String.◌++◌ "%" (String.◌++◌ (escape_like_pattern "5%") "%"))
    ≡ some (any_many ∷ literal "5" ∷ literal "%" ∷ any_many ∷ [])
escape_like_pattern-read_pattern_example = escape_like_pattern-read_pattern "5%"

-- the key is revoked, and then a key is registered
abbrev revoked_state : KeyState ℕ
revoked_state = (revoke_key rate outside 5 (some "iwk_ff") key_state).1

was_revoked : (revoke_key rate outside 5 (some "iwk_ff") key_state).0 ≡ ok revoked
unfolding revoke_key has_hash is_active
was_revoked = refl

was_allowed :
    (allow rate 7 "iwk_00"
      (register rate outside 6 (some "10.0.0.1") "c@d.org" key_state).1.key_limiter).0
    ≡ true
unfolding register allow email email_regex
was_allowed = refl

revoke_key-authenticate_example :
    (authenticate rate outside 9 "ApiKeyAuth" "iwk_ff"
      (register rate outside 6 none "c@d.org" revoked_state).1).0
    ≢ authenticated "k1"
revoke_key-authenticate_example =
    revoke_key-authenticate rate outside 5 9 "ApiKeyAuth" "iwk_ff" key_state
      (register rate outside 6 none "c@d.org" revoked_state).1 was_revoked
      (register-Steps rate outside 6 none "c@d.org" revoked_state) "k1"

was_registered :
    (register rate outside 6 (some "10.0.0.1") "c@d.org" key_state).0
    ≡ ok (created "iwk_00" 6 "c@d.org")
unfolding register allow email email_regex
was_registered = refl

register-authenticate_example :
    (◌≡◌ {A = String} "c@d.org" "c@d.org")
    × (◌≡◌ {A = ℕ} 6 6)
    × (k : ApiKey) × (first_key
          (has_hash "iwk_00")
          (register rate outside 6 (some "10.0.0.1") "c@d.org" key_state).1.api_keys
        ≡ row k)
    × (k.email ≡ "c@d.org")
    × (k.created_at ≡ 6)
    × ((authenticate rate outside 7 "ApiKeyAuth" "iwk_00"
          (register rate outside 6 (some "10.0.0.1") "c@d.org" key_state).1).0
        ≡ authenticated k.id)
register-authenticate_example =
    register-authenticate rate outside 6 7 (some "10.0.0.1") "c@d.org" "iwk_00" 6 "c@d.org"
      key_state was_registered was_allowed refl

handlers-IsKeyTable_example :
    IsKeyTable (register rate outside 6 none "a@b.org" key_state).1.api_keys
    × IsKeyTable (revoke_key rate outside 6 (some "iwk_ff") key_state).1.api_keys
    × IsKeyTable (authenticate rate outside 6 "ApiKeyAuth" "iwk_ff" key_state).1.api_keys
    × ((x : String)
        → (length (keep (has_email x) key_state.api_keys) ≤ 1)
          × (length (keep (has_hash x) key_state.api_keys) ≤ 1))
handlers-IsKeyTable_example =
    handlers-IsKeyTable rate outside 6 none "a@b.org" "ApiKeyAuth" "iwk_ff" key_state (refl, tt)
