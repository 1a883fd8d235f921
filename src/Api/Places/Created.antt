-- ===== src/Api/Places/Created.antt =====
-- What a key leaves on a place that it creates, and on its profile.
use inwheel_api.Common.{String, ◌==◌, ◌≡◌, refl, ◌∙◌, false, Option, none, some, List, [], ◌∷◌}
use inwheel_api.Common.Result.{Result, ok, err}
use inwheel_api.Models.{Time, Place, AccessibilityProfile}
use inwheel_api.A11y.{with_audit_flags}
use inwheel_api.A11y.Flags.{OnSome, with_audit_flags-IsAudited}
use inwheel_api.Profiles.Prepared.{OnOk}
use inwheel_api.Validation.{place, FieldError}
use inwheel_api.Api.Places.{
  Store, PlaceResponse, shown, invalid, not_found, submitted, submitted_profile, created_place,
  checked_place, create_place,
}
use inwheel_api.Api.Places.Verified.{IsSubmitted}

-- What a response shows of a place.
abbrev pub OnShown : (Place → Type 0) → PlaceResponse → Type 0
OnShown P (shown p) = P p
OnShown P (invalid errors) = Unit
OnShown P not_found = Unit

-- A profile with the ids that the database generated.
abbrev pub with_ids : String → String → Option AccessibilityProfile → Option AccessibilityProfile
with_ids id place_id none = none
with_ids id place_id (some p) = some (record p { id = id; place_id = place_id })

-- Create gives back who submitted a place, and its profile but for the generated ids.
abbrev pub KeepsPlace : {S : Type 0} → Store S → Type 0
KeepsPlace store =
    (p : Place) (s : _)
    → OnOk
        (λ p'.
          (p'.submitted_by ≡ p.submitted_by)
          × (p'.submitted_at ≡ p.submitted_at)
          × ((id place_id : String) × (p'.accessibility ≡ with_ids id place_id p.accessibility)))
        (store.create_row p s).0

-- A place that a key submitted at a time, and its profile.
pub record IsSubmittedPlace (key_id : String) (now : Time) (p : Place) : Type 0 where
  pub submitted_by : p.submitted_by ≡ some key_id
  pub submitted_at : p.submitted_at ≡ some now
  pub profile : OnSome (IsSubmitted key_id now) p.accessibility

submitted_profile-IsSubmitted :
    (key_id : String) (now : Time) (p : AccessibilityProfile) (id place_id : String)
    → (key_id == "") ≡ false
    → IsSubmitted key_id now
        (record (submitted_profile now key_id p) { id = id; place_id = place_id })
unfolding with_audit_flags
submitted_profile-IsSubmitted key_id now p id place_id h =
    let a = with_audit_flags-IsAudited p in
    record {
      user_verified = rw h refl;
      submitted_by = rw h refl;
      submitted_at = refl;
      audited = record {
        entrance = a.entrance;
        pathways = a.pathways;
        restroom = a.restroom;
        parking = a.parking;
        elevator = a.elevator;
      };
    }

OnSome-IsSubmittedPlace :
    (key_id : String) (now : Time) (o : Option AccessibilityProfile) (id place_id : String)
    → (key_id == "") ≡ false
    → OnSome (IsSubmitted key_id now) (
        with_ids id place_id
          (elim o [ none ↦ none | some p ↦ some (submitted_profile now key_id p) ]))
OnSome-IsSubmittedPlace key_id now none id place_id h = tt
OnSome-IsSubmittedPlace key_id now (some p) id place_id h =
    submitted_profile-IsSubmitted key_id now p id place_id h

module _ {S : Type 0} (store : Store S) (key_id : String) (now : Time) where
  created_place-IsSubmittedPlace :
      (body : Place) (r : Result Place) (s : S)
      → (key_id == "") ≡ false
      → OnOk
          (λ p'.
            (p'.submitted_by ≡ (submitted now key_id body).submitted_by)
            × (p'.submitted_at ≡ (submitted now key_id body).submitted_at)
            × ((id place_id : String) × (p'.accessibility
                  ≡ with_ids id place_id (submitted now key_id body).accessibility)))
          r
      → OnOk (OnShown (IsSubmittedPlace key_id now)) (created_place store key_id (r, s)).0
  unfolding created_place submitted
  created_place-IsSubmittedPlace body (err e) s h k = tt
  created_place-IsSubmittedPlace body (ok p) s h (by, at_time, (id, place_id, same)) = record {
    submitted_by = by ∙ rw h refl;
    submitted_at = at_time;
    profile = rw same (OnSome-IsSubmittedPlace key_id now body.accessibility id place_id h);
  }

  checked_place-IsSubmittedPlace :
      KeepsPlace store
      → (key_id == "") ≡ false
      → (body : Place) (errors : List FieldError) (s : S)
      → OnOk
          (OnShown (IsSubmittedPlace key_id now))
          (checked_place store now key_id body errors s).0
  unfolding checked_place
  checked_place-IsSubmittedPlace keeps h body (e ∷ es) s = tt
  checked_place-IsSubmittedPlace keeps h body [] s =
      let r = store.create_row (submitted now key_id body) s in
      created_place-IsSubmittedPlace body r.0 r.1 h (keeps (submitted now key_id body) s)

  -- Whatever the body and the failures: the place that a POST with a key answers with is submitted by
  -- that key at the time of the request, and its profile, if it has one, is marked as verified by that
  -- key and has the audit flags of its own values.
  pub create_place-IsSubmittedPlace :
      KeepsPlace store
      → (key_id == "") ≡ false
      → (quote : String → String) (body : Place) (s : S)
      → OnOk (OnShown (IsSubmittedPlace key_id now)) (create_place store quote now key_id body s).0
  unfolding create_place
  create_place-IsSubmittedPlace keeps h quote body s =
      checked_place-IsSubmittedPlace keeps h body (place quote (some body)) s
