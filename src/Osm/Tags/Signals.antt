-- ===== src/Osm/Tags/Signals.antt =====
-- What a profile that is read from tags contains.
use inwheel_api.Common.{
  String, ◌≡◌, refl, ◌⊎◌, inl, inr, ◌↔◌, true, false, Option, none, some, List, [], ◌∷◌, arith,
  Bool-cases,
}
use inwheel_api.Common.Int.{ℤ, is_positive}
use inwheel_api.Common.Dict.{Dict, lookup, get}
use inwheel_api.Common.Text.{trim_space, strip_last}
use inwheel_api.Float64.{Float64, Arithmetic, lt}
use inwheel_api.Float64.Order.{not_lt_zero-neg}
use inwheel_api.Models.{
  Time, SourceReport, ParkingProps, EntranceProps, RestroomProps, ElevatorProps,
  AccessibilityProfile,
}
use inwheel_api.A11y.{empty_profile}
use inwheel_api.Osm.Tags.{
  wheelchair_reports, is_wheelchair_value, map_entrance, map_restroom, map_parking, map_elevator,
  profile_of_signals, map_tags_to_profile, absolute_value, percent_number, parse_percent,
  map_parking_value,
}

absolute_value_nonneg :
    (arithmetic : Arithmetic) (o : Option Float64) (f : Float64)
    → absolute_value arithmetic o ≡ some f
    → lt f 0 ≡ false
unfolding absolute_value
absolute_value_nonneg arithmetic none f h = cc
absolute_value_nonneg arithmetic (some x) f h = ground (arith, not_lt_zero-neg x)

percent_number_nonneg :
    (arithmetic : Arithmetic) (o : Option String) (f : Float64)
    → percent_number arithmetic o ≡ some f
    → lt f 0 ≡ false
unfolding percent_number
percent_number_nonneg arithmetic none f h = cc
percent_number_nonneg arithmetic (some s) f h =
    absolute_value_nonneg arithmetic (arithmetic.parse_float s) f h

-- A slope that is read is never below zero, whatever the sign in the tag.
pub parse_percent_nonneg :
    (arithmetic : Arithmetic) (v : String) (f : Float64)
    → parse_percent arithmetic v ≡ some f
    → lt f 0 ≡ false
unfolding parse_percent
parse_percent_nonneg arithmetic v f h =
    percent_number_nonneg arithmetic (strip_last b'%' (trim_space v)) f h

profile_of_signals-none :
    (reports : List SourceReport) (e : Option EntranceProps) (r : Option RestroomProps)
    (p : Option ParkingProps) (l : Option ElevatorProps)
    → profile_of_signals reports e r p l ≡ none
    → (reports ≡ []) × (e ≡ none) × (r ≡ none) × (p ≡ none) × (l ≡ none)
unfolding profile_of_signals
profile_of_signals-none reports e r p l h = ground arith

profile_of_signals_of_none :
    (reports : List SourceReport) (e : Option EntranceProps) (r : Option RestroomProps)
    (p : Option ParkingProps) (l : Option ElevatorProps)
    → reports ≡ []
    → e ≡ none
    → r ≡ none
    → p ≡ none
    → l ≡ none
    → profile_of_signals reports e r p l ≡ none
unfolding profile_of_signals
profile_of_signals_of_none reports e r p l h1 h2 h3 h4 h5 = rw (h1, h2, h3, h4, h5)

reports_nil :
    (now : Time) (o : Option String)
    → (wheelchair_reports now o ≡ []) ↔ ((v : String) → o ≡ some v → is_wheelchair_value v ≡ false)
unfolding wheelchair_reports
reports_nil now none = (λ h v e. cc, λ h. refl)
reports_nil now (some v) = (λ h w e. ground arith, λ h. rw (h v refl))

-- The tags give no profile exactly when the wheelchair tag is missing or has another value than
-- the four known ones, and no component is read from the tags either.
pub map_tags_to_profile-none :
    (arithmetic : Arithmetic) (now : Time) (tags : Dict String)
    → (map_tags_to_profile arithmetic now tags ≡ none) ↔ (
        ((v : String) → lookup "wheelchair" tags ≡ some v → is_wheelchair_value v ≡ false)
        × (map_entrance arithmetic tags ≡ none)
        × (map_restroom tags ≡ none)
        × (map_parking tags ≡ none)
        × (map_elevator tags ≡ none))
unfolding map_tags_to_profile
map_tags_to_profile-none arithmetic now tags =
    let reports = wheelchair_reports now (lookup "wheelchair" tags) in
    (
      λ h.
          let (a, b, c, d, e) =
            profile_of_signals-none reports (map_entrance arithmetic tags) (map_restroom tags)
              (map_parking tags) (map_elevator tags) h in
          ((reports_nil now (lookup "wheelchair" tags)).0 a, b, c, d, e),
      λ k.
          profile_of_signals_of_none reports (map_entrance arithmetic tags) (map_restroom tags)
            (map_parking tags) (map_elevator tags)
            ((reports_nil now (lookup "wheelchair" tags)).1 k.0) k.1 k.2 k.3 k.4,
    )

-- What an import may say of a place: it claims no verification by a user, no submitter and no
-- pathways; it cites the source "osm" alone, once at most, with the text of the wheelchair tag; and
-- a number of disabled spaces goes with whether there are any.
pub record IsImported (now : Time) (tags : Dict String) (p : AccessibilityProfile) : Type 0 where
  pub user_verified : p.user_verified ≡ false
  pub submitted_by : p.submitted_by ≡ none
  pub pathways : p.pathways ≡ none
  pub source_reports :
      (p.source_reports ≡ [])
      ⊎ ((v : String) × (lookup "wheelchair" tags ≡ some v)
          × (is_wheelchair_value v ≡ true)
          × (p.source_reports ≡ record { source = "osm"; value = v; recorded_at = now } ∷ []))
  pub spaces :
      (k : ParkingProps) (n : ℤ)
      → p.parking ≡ some k
      → k.count ≡ some n
      → k.has_disabled_spaces ≡ some (is_positive n)

profile_of_signals-some :
    (reports : List SourceReport) (e : Option EntranceProps) (r : Option RestroomProps)
    (p : Option ParkingProps) (l : Option ElevatorProps) (q : AccessibilityProfile)
    → profile_of_signals reports e r p l ≡ some q
    → q ≡ record empty_profile {
      source_reports = reports;
      entrance = e;
      restroom = r;
      parking = p;
      elevator = l;
    }
unfolding profile_of_signals
profile_of_signals-some reports e r p l q h = ground arith

wheelchair_reports-cases :
    (now : Time) (o : Option String)
    → (wheelchair_reports now o ≡ [])
      ⊎ ((v : String) × (o ≡ some v)
          × (is_wheelchair_value v ≡ true)
          × (wheelchair_reports now o
              ≡ record { source = "osm"; value = v; recorded_at = now } ∷ []))
unfolding wheelchair_reports
wheelchair_reports-cases now none = inl refl
wheelchair_reports-cases now (some v) = elim (Bool-cases (is_wheelchair_value v)) [
  | inl e ↦ inr (v, refl, e, rw e)
  | inr e ↦ inl (rw e)
]

map_parking_value_spaces :
    (o : Option String) (d : String) (k : ParkingProps) (n : ℤ)
    → map_parking_value o d ≡ some k
    → k.count ≡ some n
    → k.has_disabled_spaces ≡ some (is_positive n)
unfolding map_parking_value
map_parking_value_spaces none d k n h e = ground arith
map_parking_value_spaces (some v) d k n h e = ground arith

map_parking_spaces :
    (tags : Dict String) (k : ParkingProps) (n : ℤ)
    → map_parking tags ≡ some k
    → k.count ≡ some n
    → k.has_disabled_spaces ≡ some (is_positive n)
unfolding map_parking
map_parking_spaces tags k n h e =
    map_parking_value_spaces (lookup "capacity:disabled" tags) (get tags "parking:disabled") k n h e

-- A profile that is read from tags claims no verification by a user, no submitter and no pathways;
-- it cites the source "osm" alone, once at most, with the text of a known wheelchair tag; and a number
-- of disabled spaces that it states goes with whether that number is positive.
pub map_tags_to_profile-IsImported :
    (arithmetic : Arithmetic) (now : Time) (tags : Dict String) (p : AccessibilityProfile)
    → map_tags_to_profile arithmetic now tags ≡ some p
    → IsImported now tags p
unfolding map_tags_to_profile
map_tags_to_profile-IsImported arithmetic now tags p h =
    let e =
      profile_of_signals-some (wheelchair_reports now (lookup "wheelchair" tags))
        (map_entrance arithmetic tags) (map_restroom tags) (map_parking tags) (map_elevator tags) p
        h in
    rw e (record {
      user_verified = refl;
      submitted_by = refl;
      pathways = refl;
      source_reports = wheelchair_reports-cases now (lookup "wheelchair" tags);
      spaces = map_parking_spaces tags;
    })
