-- ===== src/Api/Listing.antt =====
-- ListPlaces of cmd/api/main.go, with internal/geo/queries.go. The query is read as SQL reads it: the
-- rows of the places, each with its profile, are filtered, ordered by updated_at DESC, id ASC, and
-- cut. The predicates of PostGIS and ILIKE are the parameter `Predicates`. The ids are UUIDs in
-- their one lower-case spelling, whose order is that of the texts. The specification admits a limit
-- of 1 to 100.
pub mod Order
pub mod Pages
pub mod Escape
use Prim.Native.Char.{code}
use Prim.Native.String
use inwheel_api.Common.{
  ℕ, suc, ◌+◌, String, Bool, true, false, ◌&&◌, ◌||◌, Option, none, some, List, [], ◌∷◌, keep, take,
  length, ltb, eqb, if◌then◌else◌,
}
use inwheel_api.Common.Text.{trim_space}
use inwheel_api.Common.Text.Order.{str_lt}
use inwheel_api.Common.Result.{Error, message, Result, ok, err}
use inwheel_api.Float64.{Float64}
use inwheel_api.Models.{Time, Place}
use inwheel_api.Pagination.{Codec, encode, decode}
use inwheel_api.Validation.{FieldError, PlacesQueryParams, places_query}

pub record Predicates : Type 0 where
  -- ST_DWithin(geography(ST_Point(lng, lat)), geography(ST_Point(lng', lat')), radius)
  pub within : Float64 → Float64 → Float64 → Float64 → Float64 → Bool
  -- geography(ST_Point(lng, lat)) && ST_MakeEnvelope(...)::geography
  pub in_envelope : Float64 → Float64 → Float64 → Float64 → Float64 → Float64 → Bool
  -- name ILIKE pattern ESCAPE '\'
  pub ilike : String → String → Bool

-- strings.NewReplacer(`\`, `\\`, `%`, `\%`, `_`, `\_`)
unfoldable pub escape_like_pattern : String → String
escape_like_pattern String.[] = ""
escape_like_pattern (String.◌∷◌ c s) =
    let rest = String.◌∷◌ c (escape_like_pattern s) in
    if eqb (code c) b'\\' || (eqb (code c) b'%' || eqb (code c) b'_')
    then String.◌∷◌ "\\" rest
    else rest

pub record ListParams : Type 0 where
  pub query : PlacesQueryParams
  pub limit : Option ℕ

pub data ListResponse : Type 0 where
  -- 200, with the cursor of the next page
  page : List Place → Option String → ListResponse
  -- 400
  invalid : List FieldError → ListResponse

-- ORDER BY updated_at DESC, id ASC
abbrev pub comes_before : Place → Place → Bool
comes_before p q =
    ltb q.updated_at p.updated_at || (eqb p.updated_at q.updated_at && str_lt p.id q.id)

unfoldable pub insert_row : Place → List Place → List Place
insert_row p [] = p ∷ []
insert_row p (q ∷ qs) =
    let rest = insert_row p qs in if comes_before q p then q ∷ rest else p ∷ q ∷ qs

unfoldable pub order_rows : List Place → List Place
order_rows [] = []
order_rows (p ∷ ps) = insert_row p (order_rows ps)

-- places.updated_at < ? OR (places.updated_at = ? AND places.id > ?)
abbrev pub after_cursor : Time × String → Place → Bool
after_cursor (ts, id) p = ltb p.updated_at ts || (eqb p.updated_at ts && str_lt id p.id)

module _ (codec : Codec) (predicates : Predicates) where
  open predicates use {within, in_envelope, ilike}

  after : Result (Time × String) → Place → Bool
  after (ok c) p = after_cursor c p
  after (err e) p = true

  cursor_test : Option String → Place → Bool
  unfolding after
  cursor_test none p = true
  cursor_test (some c) p = after (decode codec c) p

  text_test : Option String → Place → Bool
  text_test none p = true
  text_test (some q) p = ilike p.name (String.◌++◌ "%" (String.◌++◌ (escape_like_pattern q) "%"))

  -- *q.Lat, *q.Radius and so on: `none` is the panic of a nil pointer
  around : Float64 → Option Float64 → Option Float64 → Option (Place → Bool)
  around lng (some lat) (some radius) = some (λ p. within p.lng p.lat lng lat radius)
  around lng (some lat) none = none
  around lng none radius = none

  boxed : Float64 → Option Float64 → Option Float64 → Option Float64 → Option (Place → Bool)
  boxed min_lng (some min_lat) (some max_lng) (some max_lat) =
      some (λ p. in_envelope p.lng p.lat min_lng min_lat max_lng max_lat)
  boxed min_lng (some min_lat) (some max_lng) none = none
  boxed min_lng (some min_lat) none max_lat = none
  boxed min_lng none max_lng max_lat = none

  -- the switch over the area
  unfoldable pub area_test : PlacesQueryParams → Option (Place → Bool)
  unfolding around boxed
  area_test q = elim q.lng [
    | some lng ↦ around lng q.lat q.radius
    | none ↦ elim q.min_lng [
      | some min_lng ↦ boxed min_lng q.min_lat q.max_lng q.max_lat
      | none ↦ some (λ p. true)
    ]
  ]

  cursor_of : List Place → Result (Option String)
  cursor_of [] = err (message "index out of range")
  cursor_of (p ∷ []) = ok (some (encode codec p.updated_at p.id))
  cursor_of (p ∷ q ∷ ps) = cursor_of (q ∷ ps)

  paged : List Place → Result (Option String) → Result ListResponse
  paged ps (err e) = err e
  paged ps (ok c) = ok (page ps c)

  -- the part below the query
  unfoldable pub cut : ℕ → List Place → Result ListResponse
  unfolding cursor_of paged
  cut limit places =
      if ltb limit (length places)
      then paged (take limit places) (cursor_of (take limit places))
      else ok (page places none)

  abbrev pub limit_of : Option ℕ → ℕ
  limit_of none = 20
  limit_of (some n) = n

  -- the rows that the conditions on the text and the area select
  unfoldable pub selected : PlacesQueryParams → (Place → Bool) → Place → Bool
  unfolding text_test
  selected q area p = text_test q.q p && area p

  listed : PlacesQueryParams → ℕ → List Place → Option (Place → Bool) → Result ListResponse
  unfolding cursor_test
  listed q limit rows none = err (message "nil pointer")
  listed q limit rows (some area) =
      cut limit (
        take (limit + 1)
          (order_rows (keep (λ p. cursor_test q.cursor p && selected q area p) rows)))

  answered : PlacesQueryParams → ℕ → Result (List Place) → List FieldError → Result ListResponse
  unfolding listed
  answered q limit rows (e ∷ errs) = ok (invalid (e ∷ errs))
  answered q limit (err x) [] = err x
  answered q limit (ok rows) [] = listed q limit rows (area_test q)

  abbrev pub trimmed : PlacesQueryParams → PlacesQueryParams
  trimmed q = record q { q = elim q.q [ none ↦ none | some t ↦ some (trim_space t) ] }

  -- ListPlaces; `rows` are the places of the table, or the error of the query.
  unfoldable pub list_places : ListParams → Result (List Place) → Result ListResponse
  unfolding answered
  list_places params rows =
      answered (trimmed params.query) (limit_of params.limit) rows
        (places_query codec (trimmed params.query))
