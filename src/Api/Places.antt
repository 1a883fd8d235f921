-- ===== src/Api/Places.antt =====
-- GetPlace, CreatePlace and PatchPlaceAccessibility of cmd/api/main.go, with internal/audit/audit.go.
-- The calls of gorm are the parameter `Store`; the writes of a profile are those of
-- internal/place/repository.go, over `Tx` and `Json`.
pub mod Shown
pub mod Verified
pub mod Created
mod Tests
use Prim.Native.String
use inwheel_api.Common.{
  ℕ, String, ◌==◌, Bool, true, false, Option, none, some, List, [], ◌∷◌, if◌then◌else◌,
}
use inwheel_api.Common.Result.{
  Error, message, place_not_found, invalid_patch, unique_violation, wrap, Result, ok, err, Exec,
}
use inwheel_api.Models.{Time, Place, AccessibilityProfile}
use inwheel_api.A11y.{with_audit_flags, compute_effective_profile}
use inwheel_api.Profiles.{Lookup, row, missing, failed, Tx, Json, Upserted, upsert_profile}
use inwheel_api.Validation.{FieldError, place, accessibility_profile}

-- A row of write_logs; the id and the time are filled in by the database.
pub record WriteLog : Type 0 where
  pub target_table : String
  pub record_id : String
  pub api_key_id : Option String
  pub action : String

pub record Store (S : Type 0) : Type 0 where
  -- Preload("Accessibility").First(&place, "id = ?", id)
  pub first_place : String → S → Lookup Place × S
  -- Create(&place), with its profile; the generated columns are filled in
  pub create_row : Place → Exec S Place
  -- Create(&entry)
  pub create_log : WriteLog → S → Result (Unit {0}) × S

pub data PlaceResponse : Type 0 where
  -- 200 and 201
  shown : Place → PlaceResponse
  -- 400
  invalid : List FieldError → PlaceResponse
  -- 404
  not_found : PlaceResponse

pub data ProfileResponse : Type 0 where
  -- 200
  patched : AccessibilityProfile → ProfileResponse
  -- 400
  invalid_profile : List FieldError → ProfileResponse
  -- 404
  no_place : ProfileResponse

-- the pointer to a key's id, which the empty text does not have
abbrev key_of : String → Option String
key_of key_id = if key_id == "" then none else some key_id

-- errors.Is(err, ErrPlaceNotFound) and errors.Is(err, ErrInvalidPatch)
is_place_not_found : Error → Bool
is_place_not_found (message s) = false
is_place_not_found place_not_found = true
is_place_not_found invalid_patch = false
is_place_not_found unique_violation = false
is_place_not_found (wrap s e) = is_place_not_found e

is_invalid_patch : Error → Bool
is_invalid_patch (message s) = false
is_invalid_patch place_not_found = false
is_invalid_patch invalid_patch = true
is_invalid_patch unique_violation = false
is_invalid_patch (wrap s e) = is_invalid_patch e

-- what CreatePlace sets on the body
abbrev submitted_profile : Time → String → AccessibilityProfile → AccessibilityProfile
submitted_profile now key_id p = with_audit_flags (record p {
  updated_at = now;
  submitted_by = if key_id == "" then p.submitted_by else some key_id;
  user_verified = if key_id == "" then p.user_verified else true;
  submitted_at = some now;
})

unfoldable pub submitted : Time → String → Place → Place
submitted now key_id p = record p {
  submitted_by = if key_id == "" then p.submitted_by else some key_id;
  submitted_at = some now;
  accessibility = elim p.accessibility [
    | none ↦ none
    | some profile ↦ some (submitted_profile now key_id profile)
  ];
}

-- the function that PatchPlaceAccessibility gives to UpsertProfile
unfoldable pub prepare_patch : Time → String → AccessibilityProfile → AccessibilityProfile
prepare_patch now key_id p =
    let flagged = with_audit_flags p in
    record flagged {
      submitted_by = if key_id == "" then flagged.submitted_by else some key_id;
      user_verified = if key_id == "" then flagged.user_verified else true;
      submitted_at = some now;
    }

module _ {S : Type 0} (store : Store S) where
  open store use {first_place, create_row, create_log}

  -- audit.Log: an error is logged and dropped
  unfoldable pub log : String → String → String → String → S → S
  log target_table record_id api_key_id action s =
      (create_log
        record {
          target_table = target_table;
          record_id = record_id;
          api_key_id = key_of api_key_id;
          action = action;
        }
        s).1

  -- effective.PlaceID = place.ID
  with_place_id : Place → Option AccessibilityProfile → Place
  with_place_id p none = record p { accessibility = none }
  with_place_id p (some effective) = record p {
    accessibility = some (record effective { place_id = p.id });
  }

  with_parent : Place → Lookup Place × S → Result PlaceResponse × S
  unfolding with_place_id
  with_parent p (row parent, s) =
      (ok (shown (with_place_id p (compute_effective_profile (some p) (some parent)))), s)
  with_parent p (missing, s) = (ok (shown p), s)
  with_parent p (failed e, s) = (ok (shown p), s)

  parent_of : Place → Option String → S → Result PlaceResponse × S
  unfolding with_parent
  parent_of p none s = (ok (shown p), s)
  parent_of p (some parent_id) s = with_parent p (first_place parent_id s)

  found_place : Lookup Place × S → Result PlaceResponse × S
  unfolding parent_of
  found_place (missing, s) = (ok not_found, s)
  found_place (failed e, s) = (err e, s)
  found_place (row p, s) = parent_of p p.parent_id s

  unfoldable pub get_place : String → S → Result PlaceResponse × S
  unfolding found_place
  get_place id s = found_place (first_place id s)

  log_profile : String → Option AccessibilityProfile → S → S
  unfolding log
  log_profile key_id none s = s
  log_profile key_id (some profile) s = log "accessibility_profiles" profile.id key_id "create" s

  created_place : String → Result Place × S → Result PlaceResponse × S
  unfolding log_profile log
  created_place key_id (err e, s) = (err e, s)
  created_place key_id (ok p, s) =
      (ok (shown p), log_profile key_id p.accessibility (log "places" p.id key_id "create" s))

  checked_place : Time → String → Place → List FieldError → S → Result PlaceResponse × S
  unfolding created_place submitted
  checked_place now key_id p (e ∷ es) s = (ok (invalid (e ∷ es)), s)
  checked_place now key_id p [] s = created_place key_id (create_row (submitted now key_id p) s)

  -- CreatePlace; `key_id` is that of the context
  unfoldable pub create_place :
      (String → String) → Time → String → Place → S → Result PlaceResponse × S
  unfolding checked_place
  create_place quote now key_id body s = checked_place now key_id body (place quote (some body)) s

  module _ (error_text : Error → String) where
    upserted : String → Result Upserted × S → Result ProfileResponse × S
    unfolding log is_place_not_found is_invalid_patch
    upserted key_id (err e, s) =
        if is_place_not_found e
        then (ok no_place, s)
        else if is_invalid_patch e
        then (ok (invalid_profile (record { field = "body"; reason = error_text e } ∷ [])), s)
        else (err e, s)
    upserted key_id (ok (profile, created), s) = (
      ok (patched profile),
      log "accessibility_profiles" profile.id key_id (if created then "create" else "update") s,
    )

    patched_profile :
        Tx S
        → Json
        → Time
        → (ℕ → Time)
        → String
        → String
        → String
        → List FieldError
        → S
        → Result ProfileResponse × S
    unfolding upserted
    patched_profile tx json now attempts id key_id raw_patch (e ∷ es) s =
        (ok (invalid_profile (e ∷ es)), s)
    patched_profile tx json now attempts id key_id raw_patch [] s =
        upserted key_id
          (upsert_profile tx json (some (prepare_patch now key_id)) attempts id raw_patch s)

    -- PatchPlaceAccessibility: the body is decoded, and also kept as it came. `attempts` are the times
    -- that UpsertProfile reads.
    unfoldable pub patch_place_accessibility :
        Tx S
        → Json
        → Time
        → (ℕ → Time)
        → String
        → String
        → String
        → Option AccessibilityProfile
        → S
        → Result ProfileResponse × S
    unfolding patched_profile
    patch_place_accessibility tx json now attempts id key_id raw_patch body s =
        patched_profile tx json now attempts id key_id raw_patch (accessibility_profile body) s
