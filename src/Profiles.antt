-- ===== src/Profiles.antt =====
-- internal/place/repository.go: the writes of accessibility profiles, UpsertProfile for users and
-- UpsertProfileIngestion for imports. The calls of gorm inside a transaction and the JSON libraries
-- are the parameters `Tx` and `Json`.
pub mod Verified
pub mod Retry
pub mod Prepared
mod Tests
use inwheel_api.Common.{
  ℕ, zero, suc, String, Bool, true, false, not, Option, none, some, ltb, if◌then◌else◌,
}
use inwheel_api.Common.Result.{
  Error, message, wrap, place_not_found, invalid_patch, is_unique_violation, Result, ok, err, Exec,
}
use inwheel_api.Models.{Time, AccessibilityProfile}

-- tx.First: the row, gorm.ErrRecordNotFound, or another error
pub data Lookup (A : Type 0) : Type 0 where
  row : A → Lookup A
  missing : Lookup A
  failed : Error → Lookup A

pub record Tx (S : Type 0) : Type 0 where
  -- First(&models.Place{}, "id = ?", id)
  pub first_place : String → S → Lookup (Unit {0}) × S
  -- Where("place_id = ?", id).First(&existing), with and without the lock FOR UPDATE
  pub lock_profile : String → S → Lookup AccessibilityProfile × S
  pub load_profile : String → S → Lookup AccessibilityProfile × S
  -- Create(&profile), which fills in the columns that the database generates
  pub create_profile : AccessibilityProfile → Exec S AccessibilityProfile
  -- Model(&existing).Updates(...) with the columns of the second profile, and the rows affected
  pub update_profile : AccessibilityProfile → AccessibilityProfile → Exec S ℕ
  -- COMMIT, which may fail
  pub commit : S → Option Error × S
  -- ROLLBACK, for the state in which the transaction began and the one in which it ends
  pub rollback : S → S → S

pub record Json : Type 0 where
  pub marshal : AccessibilityProfile → Result String
  pub merge_patch : String → String → Result String
  pub unmarshal : String → Result AccessibilityProfile

-- A COMMIT that fails is followed by a ROLLBACK, too.
committed : {S A : Type 0} → Tx S → S → A → Option Error × S → Result A × S
committed tx s a (none, s') = (ok a, s')
committed tx s a (some e, s') = (err e, tx.rollback s s')

closed : {S A : Type 0} → Tx S → S → Result A × S → Result A × S
unfolding committed
closed tx s (ok a, s') = committed tx s a (tx.commit s')
closed tx s (err e, s') = (err e, tx.rollback s s')

-- db.Transaction
unfoldable pub transaction : {S A : Type 0} → Tx S → Exec S A → Exec S A
unfolding closed
transaction tx body s = closed tx s (body s)

-- What an attempt returns: the profile, and whether it was created.
abbrev pub Upserted : Type 0
Upserted = AccessibilityProfile × Bool

module _ {S : Type 0} (tx : Tx S) (json : Json)
    (prepare : Option (AccessibilityProfile → AccessibilityProfile)) (now : Time) where
  open tx use {first_place, lock_profile, create_profile, update_profile}

  -- `existing` as JSON
  existing_json : Option AccessibilityProfile → Result String
  existing_json none = ok "{}"
  existing_json (some existing) = elim (json.marshal existing) [
    | ok b ↦ ok b
    | err e ↦ err (wrap "upsert profile: marshal existing" e)
  ]

  merged_of : String → String → Result AccessibilityProfile
  merged_of raw_patch existing = elim (json.merge_patch existing raw_patch) [
    | err e ↦ err (wrap "invalid merge patch" invalid_patch)
    | ok merged ↦ elim (json.unmarshal merged) [
      | err e ↦ err (wrap "upsert profile: unmarshal merged" e)
      | ok p ↦ ok p
    ]
  ]

  prepared : AccessibilityProfile → AccessibilityProfile
  prepared p = elim prepare [
    | none ↦ record p { updated_at = now }
    | some f ↦ record (f p) { updated_at = now }
  ]

  created_result : Result AccessibilityProfile × S → Result Upserted × S
  created_result (ok p, s) = (ok (p, true), s)
  created_result (err e, s) = (err e, s)

  updated_result : AccessibilityProfile → Result ℕ × S → Result Upserted × S
  updated_result merged (ok n, s) = (ok (merged, false), s)
  updated_result merged (err e, s) = (err e, s)

  write : String → Option AccessibilityProfile → AccessibilityProfile → Exec S Upserted
  unfolding created_result updated_result
  write place_id none merged s =
      created_result (create_profile (record merged { place_id = place_id }) s)
  write place_id (some existing) merged s = updated_result merged (update_profile existing merged s)

  merge_and_write : String → String → Option AccessibilityProfile → Result String → Exec S Upserted
  unfolding merged_of write prepared
  merge_and_write place_id raw_patch existing (err e) s = (err e, s)
  merge_and_write place_id raw_patch existing (ok b) s = elim (merged_of raw_patch b) [
    | err e ↦ (err e, s)
    | ok merged ↦ write place_id existing (prepared merged) s
  ]

  after_load : String → String → Lookup AccessibilityProfile × S → Result Upserted × S
  unfolding existing_json merge_and_write
  after_load place_id raw_patch (failed e, s) = (err (wrap "upsert profile: load existing" e), s)
  after_load place_id raw_patch (missing, s) =
      merge_and_write place_id raw_patch none (existing_json none) s
  after_load place_id raw_patch (row existing, s) =
      merge_and_write place_id raw_patch (some existing) (existing_json (some existing)) s

  after_place : String → String → Lookup (Unit {0}) × S → Result Upserted × S
  unfolding after_load
  after_place place_id raw_patch (failed e, s) = (err (wrap "upsert profile: check place" e), s)
  after_place place_id raw_patch (missing, s) = (err place_not_found, s)
  after_place place_id raw_patch (row u, s) =
      after_load place_id raw_patch (lock_profile place_id s)

  unfoldable pub upsert_profile_attempt : String → String → Exec S Upserted
  unfolding after_place
  upsert_profile_attempt place_id raw_patch =
      transaction tx (λ s. after_place place_id raw_patch (first_place place_id s))

-- The loop of UpsertProfile over the attempts that are left: err == nil || !isUniqueViolation(err)
-- ends it, and so does the last attempt.
retried : {S : Type 0} → Exec S Upserted → Result Upserted × S → Result Upserted × S
retried again (ok r, s) = (ok r, s)
retried again (err e, s) = if is_unique_violation e then again s else (err e, s)

unfoldable pub upsert_profile :
    {S : Type 0}
    → Tx S
    → Json
    → Option (AccessibilityProfile → AccessibilityProfile)
    → (ℕ → Time)
    → String
    → String
    → Exec S Upserted
unfolding retried
upsert_profile tx json prepare now place_id raw_patch s =
    retried (upsert_profile_attempt tx json prepare (now 1) place_id raw_patch)
      (upsert_profile_attempt tx json prepare (now 0) place_id raw_patch s)

module _ {S : Type 0} (tx : Tx S) (now : Time) where
  open tx use {load_profile, create_profile, update_profile}

  ingestion_created : Result AccessibilityProfile × S → Result Bool × S
  ingestion_created (ok p, s) = (ok true, s)
  ingestion_created (err e, s) = (err e, s)

  ingestion_updated : Result ℕ × S → Result Bool × S
  ingestion_updated (ok n, s) = (ok (ltb 0 n), s)
  ingestion_updated (err e, s) = (err e, s)

  -- The update writes these columns; submitted_by and submitted_at become NULL, and user_verified is
  -- not written.
  ingestion_columns : AccessibilityProfile → AccessibilityProfile → AccessibilityProfile
  ingestion_columns existing profile = record existing {
    source_reports = profile.source_reports;
    entrance = profile.entrance;
    pathways = profile.pathways;
    restroom = profile.restroom;
    parking = profile.parking;
    elevator = profile.elevator;
    updated_at = now;
    submitted_by = none;
    submitted_at = none;
  }

  ingestion_write :
      String → AccessibilityProfile → Lookup AccessibilityProfile × S → Result Bool × S
  unfolding ingestion_created ingestion_updated ingestion_columns
  ingestion_write place_id profile (failed e, s) =
      (err (wrap "upsert profile ingestion: load existing" e), s)
  ingestion_write place_id profile (missing, s) = ingestion_created (
      create_profile
        (record profile { place_id = place_id; updated_at = now; user_verified = false }) s)
  ingestion_write place_id profile (row existing, s) =
      if existing.user_verified
      then (ok false, s)
      else ingestion_updated (update_profile existing (ingestion_columns existing profile) s)

  unfoldable pub upsert_profile_ingestion : String → Option AccessibilityProfile → Exec S Bool
  unfolding ingestion_write
  upsert_profile_ingestion place_id none s =
      (err (message "upsert profile ingestion: nil profile"), s)
  upsert_profile_ingestion place_id (some profile) s =
      transaction tx (λ s'. ingestion_write place_id profile (load_profile place_id s')) s
