-- ===== src/Validation/Accepts.antt =====
-- What the validators let through.
use Prim.Native.String
use inwheel_api.Common.{
  ℕ, suc, ◌≤◌, String, ◌≡◌, ◌↔◌, refl, ◌⊎◌, true, false, Option, none, some, List, [], ◌∷◌, ◌++◌,
  length, All, is_some, arith,
}
use inwheel_api.Common.Dict.{Dict}
use inwheel_api.Common.Result.{Result, ok, err}
use inwheel_api.Float64.{Float64, le}
use inwheel_api.Models.{Place, SourceReport, AccessibilityProfile, Time}
use inwheel_api.Pagination.{Codec, decode}
use inwheel_api.Validation.Email.{IsEmail, email_regex-IsEmail}
use inwheel_api.Validation.{
  is_blank, email, tag_errors, all_tag_errors, validate_tags, place, report_errors, reports_errors,
  accessibility_profile, PlacesQueryParams, count_non_nil_floats, not_below, is_invalid,
  cursor_errors, q_errors, detail_errors, places_query,
}

some_inj {ℓ} : {A : Type ℓ} (a b : A) → some a ≡ some b → a ≡ b
some_inj a b h = cc

append_nil_iff {ℓ} : {A : Type ℓ} (xs ys : List A) → (xs ++ ys ≡ []) ↔ ((xs ≡ []) × (ys ≡ []))
append_nil_iff [] ys = (λ h. (refl, h), λ h. h.1)
append_nil_iff (x ∷ xs) ys = (λ h. cc, λ h. cc)

-- Email accepts an address exactly when it is of the form local@domain.tld, with non-empty parts of
-- the pattern's classes and a last part of two letters or more.
pub email_accepts : (s : String) → (email s ≡ [] → IsEmail s) × (IsEmail s → email s ≡ [])
unfolding email
email_accepts s =
    (λ h. (email_regex-IsEmail s).0 (ground arith), λ e. rw ((email_regex-IsEmail s).1 e))

-- the bounds of one entry of the tags
abbrev pub IsTag : String × String → Type 0
IsTag (k, v) = (String.len k ≤ 64) × (String.len v ≤ 256)

tag_errors_iff :
    (quote : String → String) (e : String × String) → (tag_errors quote e ≡ []) ↔ IsTag e
unfolding tag_errors
tag_errors_iff quote (k, v) = ground arith

all_tag_errors_iff :
    (quote : String → String) (tags : Dict String)
    → (all_tag_errors quote tags ≡ []) ↔ All IsTag tags
unfolding all_tag_errors
all_tag_errors_iff quote [] = (λ h. tt, λ h. refl)
all_tag_errors_iff quote (e ∷ tags) = (
  λ h.
      let (a, b) = (append_nil_iff (tag_errors quote e) (all_tag_errors quote tags)).0 h in
      ((tag_errors_iff quote e).0 a, (all_tag_errors_iff quote tags).0 b),
  λ h.
      (append_nil_iff (tag_errors quote e) (all_tag_errors quote tags)).1
        ((tag_errors_iff quote e).1 h.0, (all_tag_errors_iff quote tags).1 h.1),
)

abbrev pub IsReport : SourceReport → Type 0
IsReport sr = (String.len sr.source ≤ 64) × (String.len sr.value ≤ 64)

report_errors_iff : (i : ℕ) (sr : SourceReport) → (report_errors i sr ≡ []) ↔ IsReport sr
unfolding report_errors
report_errors_iff i sr = ground arith

reports_errors_iff :
    (i : ℕ) (srs : List SourceReport) → (reports_errors i srs ≡ []) ↔ All IsReport srs
unfolding reports_errors
reports_errors_iff i [] = (λ h. tt, λ h. refl)
reports_errors_iff i (sr ∷ srs) = (
  λ h.
      let (a, b) = (append_nil_iff (report_errors i sr) (reports_errors (suc i) srs)).0 h in
      ((report_errors_iff i sr).0 a, (reports_errors_iff (suc i) srs).0 b),
  λ h.
      (append_nil_iff (report_errors i sr) (reports_errors (suc i) srs)).1
        ((report_errors_iff i sr).1 h.0, (reports_errors_iff (suc i) srs).1 h.1),
)

-- A place is accepted exactly when its name is not blank and it has 50 tags at most, with keys of 64
-- bytes and values of 256 at most; a profile exactly when it has 50 reports at most, whose sources
-- and values have 64 bytes at most.
pub body_accepts :
    (quote : String → String) (p : Place) (profile : AccessibilityProfile)
    → ((place quote (some p) ≡ [])
        ↔ ((is_blank p.name ≡ false) × (length p.tags ≤ 50) × All IsTag p.tags))
      × ((accessibility_profile (some profile) ≡ [])
          ↔ ((length profile.source_reports ≤ 50) × All IsReport profile.source_reports))
unfolding place validate_tags accessibility_profile
body_accepts quote p profile = (
  (
    λ h. ground (arith, (all_tag_errors_iff quote p.tags).0),
    λ h. ground (arith, (all_tag_errors_iff quote p.tags).1 h.2),
  ),
  (
    λ h. ground (arith, (reports_errors_iff 0 profile.source_reports).0),
    λ h. ground (arith, (reports_errors_iff 0 profile.source_reports).1 h.1),
  ),
)

-- What a query of places may ask for: a point with a radius, whole or not at all; a box, whole or
-- not at all, and with its corners in order; not both; a cursor that decodes; a text that is not
-- blank.
pub record IsListable (codec : Codec) (p : PlacesQueryParams) : Type 0 where
  pub circle :
      ((p.lng ≡ none) × (p.lat ≡ none) × (p.radius ≡ none))
      ⊎ ((is_some p.lng ≡ true) × (is_some p.lat ≡ true) × (is_some p.radius ≡ true))
  pub box :
      ((p.min_lng ≡ none) × (p.min_lat ≡ none) × (p.max_lng ≡ none) × (p.max_lat ≡ none))
      ⊎ ((is_some p.min_lng ≡ true)
          × (is_some p.min_lat ≡ true)
          × (is_some p.max_lng ≡ true)
          × (is_some p.max_lat ≡ true))
  pub one_area : (p.lng ≡ none) ⊎ (p.min_lng ≡ none)
  pub ordered_lng : (a b : Float64) → p.min_lng ≡ some a → p.max_lng ≡ some b → le b a ≡ false
  pub ordered_lat : (a b : Float64) → p.min_lat ≡ some a → p.max_lat ≡ some b → le b a ≡ false
  pub cursor :
      (c : String) → p.cursor ≡ some c → (t : Time) × (id : String) × (decode codec c ≡ ok (t, id))
  pub q : (s : String) → p.q ≡ some s → is_blank s ≡ false

count_three :
    (a b c : Option Float64)
    → ((count_non_nil_floats (a ∷ b ∷ c ∷ []) ≡ 0) ↔ ((a ≡ none) × (b ≡ none) × (c ≡ none)))
      × ((count_non_nil_floats (a ∷ b ∷ c ∷ []) ≡ 3)
          ↔ ((is_some a ≡ true) × (is_some b ≡ true) × (is_some c ≡ true)))
unfolding count_non_nil_floats
count_three a b c = ground arith

count_four :
    (a b c d : Option Float64)
    → ((count_non_nil_floats (a ∷ b ∷ c ∷ d ∷ []) ≡ 0)
        ↔ ((a ≡ none) × (b ≡ none) × (c ≡ none) × (d ≡ none)))
      × ((count_non_nil_floats (a ∷ b ∷ c ∷ d ∷ []) ≡ 4)
          ↔ ((is_some a ≡ true) × (is_some b ≡ true) × (is_some c ≡ true) × (is_some d ≡ true)))
unfolding count_non_nil_floats
count_four a b c d = ground arith

not_below_iff :
    (lo hi : Option Float64)
    → (not_below lo hi ≡ false) ↔ ((a b : Float64) → lo ≡ some a → hi ≡ some b → le b a ≡ false)
unfolding not_below
not_below_iff none hi = (λ h a b e k. cc, λ h. refl)
not_below_iff (some lo) none = (λ h a b e k. cc, λ h. refl)
not_below_iff (some lo) (some hi) = (λ h a b e k. ground arith, λ h. h lo hi refl refl)

is_invalid_iff :
    (r : Result (Time × String))
    → (is_invalid r ≡ false) ↔ ((t : Time) × (id : String) × (r ≡ ok (t, id)))
unfolding is_invalid
is_invalid_iff (ok (t, id)) = (λ h. (t, id, refl), λ h. refl)
is_invalid_iff (err e) = (λ h. cc, λ (t, id, h). cc)

cursor_errors_iff :
    (codec : Codec) (o : Option String)
    → (cursor_errors codec o ≡ [])
      ↔ ((c : String) → o ≡ some c → (t : Time) × (id : String) × (decode codec c ≡ ok (t, id)))
unfolding cursor_errors
cursor_errors_iff codec none = (λ h c e. cc, λ h. refl)
cursor_errors_iff codec (some c) = (
  λ h d e.
      let r = (is_invalid_iff (decode codec c)).0 (ground arith) in
      (r.0, r.1, rw (← some_inj c d e) r.2),
  λ h. rw ((is_invalid_iff (decode codec c)).1 (h c refl)),
)

q_errors_iff :
    (o : Option String) → (q_errors o ≡ []) ↔ ((s : String) → o ≡ some s → is_blank s ≡ false)
unfolding q_errors
q_errors_iff none = (λ h c e. cc, λ h. refl)
q_errors_iff (some q) = (λ h s e. rw (← some_inj q s e) (ground arith), λ h. rw (h q refl))

-- The errors below the early returns, for a box that is whole or missing.
detail_errors_iff :
    (codec : Codec) (n : ℕ) (p : PlacesQueryParams)
    → (detail_errors codec n p ≡ []) ↔ (
        (n ≡ 4 → (not_below p.min_lng p.max_lng ≡ false) × (not_below p.min_lat p.max_lat ≡ false))
        × (cursor_errors codec p.cursor ≡ [])
        × (q_errors p.q ≡ []))
unfolding detail_errors
detail_errors_iff codec n p = ground arith

module _ (codec : Codec) (p : PlacesQueryParams) where
  IsListable-of_counts :
      (cp bp : ℕ)
      → cp ≡ count_non_nil_floats (p.lng ∷ p.lat ∷ p.radius ∷ [])
      → bp ≡ count_non_nil_floats (p.min_lng ∷ p.min_lat ∷ p.max_lng ∷ p.max_lat ∷ [])
      → (cp ≡ 0) ⊎ (cp ≡ 3)
      → (bp ≡ 0) ⊎ (bp ≡ 4)
      → (cp ≡ 0) ⊎ (bp ≡ 0)
      → detail_errors codec bp p ≡ []
      → IsListable codec p
  IsListable-of_counts cp bp ec eb hc hb hx hd =
      let three = count_three p.lng p.lat p.radius in
      let four = count_four p.min_lng p.min_lat p.max_lng p.max_lat in
      let (ordered, cursor, q) = (detail_errors_iff codec bp p).0 hd in
      record {
        circle = ground (arith, three);
        box = ground (arith, four);
        one_area = ground (arith, three.0, four.0);
        ordered_lng = λ a b e k.
            (not_below_iff p.min_lng p.max_lng).0 (ordered (ground (arith, four.0))).0 a b e k;
        ordered_lat = λ a b e k.
            (not_below_iff p.min_lat p.max_lat).0 (ordered (ground (arith, four.0))).1 a b e k;
        cursor = (cursor_errors_iff codec p.cursor).0 cursor;
        q = (q_errors_iff p.q).0 q;
      }

  counts_of-IsListable :
      IsListable codec p
      → ((count_non_nil_floats (p.lng ∷ p.lat ∷ p.radius ∷ []) ≡ 0)
          ⊎ (count_non_nil_floats (p.lng ∷ p.lat ∷ p.radius ∷ []) ≡ 3))
        × ((count_non_nil_floats (p.min_lng ∷ p.min_lat ∷ p.max_lng ∷ p.max_lat ∷ []) ≡ 0)
            ⊎ (count_non_nil_floats (p.min_lng ∷ p.min_lat ∷ p.max_lng ∷ p.max_lat ∷ []) ≡ 4))
        × ((count_non_nil_floats (p.lng ∷ p.lat ∷ p.radius ∷ []) ≡ 0)
            ⊎ (count_non_nil_floats (p.min_lng ∷ p.min_lat ∷ p.max_lng ∷ p.max_lat ∷ []) ≡ 0))
  counts_of-IsListable h =
      let three = count_three p.lng p.lat p.radius in
      let four = count_four p.min_lng p.min_lat p.max_lng p.max_lat in
      (
        ground (arith, h.circle, three),
        ground (arith, h.box, four),
        ground (arith, h.circle, h.box, h.one_area, three.0, four.0),
      )

  detail_of-IsListable : (n : ℕ) → IsListable codec p → detail_errors codec n p ≡ []
  detail_of-IsListable n h = (detail_errors_iff codec n p).1 (
    (λ e. (
      (not_below_iff p.min_lng p.max_lng).1 h.ordered_lng,
      (not_below_iff p.min_lat p.max_lat).1 h.ordered_lat,
    )),
    (cursor_errors_iff codec p.cursor).1 h.cursor,
    (q_errors_iff p.q).1 h.q,
  )

  -- The parameters of a query are accepted exactly when a point comes with its radius, a box comes
  -- whole and with its corners in order, there are not both, a cursor decodes, and a text is not
  -- blank.
  pub places_query_accepts :
      (places_query codec p ≡ [] → IsListable codec p)
      × (IsListable codec p → places_query codec p ≡ [])
  unfolding places_query
  places_query_accepts =
      let cp = count_non_nil_floats (p.lng ∷ p.lat ∷ p.radius ∷ []) in
      let bp = count_non_nil_floats (p.min_lng ∷ p.min_lat ∷ p.max_lng ∷ p.max_lat ∷ []) in
      (
        λ h.
            IsListable-of_counts cp bp refl refl (ground arith) (ground arith) (ground arith)
              (ground arith),
        λ h.
            let c = counts_of-IsListable h in
            let d = detail_of-IsListable bp h in ground (arith, c, d),
      )
