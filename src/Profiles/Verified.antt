-- ===== src/Profiles/Verified.antt =====
-- What an import of profiles may write.
use inwheel_api.Common.{
  ℕ, String, ◌≡◌, refl, sym, Bool-cases, inl, inr, Bool, false, Option, none, some, List, [], ◌∷◌,
  if◌then◌else◌,
}
use mathlib.Core.Path.{subst}
use inwheel_api.Common.Result.{Error, Result, ok, err}
use inwheel_api.Models.{Time, AccessibilityProfile}
use inwheel_api.Profiles.{
  Lookup, row, missing, failed, Tx, committed, closed, transaction, ingestion_created,
  ingestion_updated, ingestion_columns, ingestion_write, upsert_profile_ingestion,
}

-- A property of the state that an insert of a profile keeps where the profile is not marked as
-- verified, and an update where neither the row that was loaded is nor the row that it becomes.
pub record SparesVerified {S : Type 0} (tx : Tx S) (P : S → Type 0) : Type 0 where
  pub loads : (place_id : String) (s : S) → P s → P (tx.load_profile place_id s).1
  pub creates :
      (p : AccessibilityProfile) (s : S)
      → p.user_verified ≡ false
      → P s
      → P (tx.create_profile p s).1
  pub updates :
      (existing columns : AccessibilityProfile) (s : S)
      → existing.user_verified ≡ false
      → columns.user_verified ≡ false
      → P s
      → P (tx.update_profile existing columns s).1
  pub commits : (s : S) → P s → P (tx.commit s).1
  pub rolls_back : (s s' : S) → P s → P s' → P (tx.rollback s s')

-- The imports of several profiles, one after the other, whatever they return.
unfoldable pub import_profiles :
    {S : Type 0} → Tx S → List (Time × (String × Option AccessibilityProfile)) → S → S
import_profiles tx [] s = s
import_profiles tx ((now, (place_id, profile)) ∷ rest) s =
    import_profiles tx rest (upsert_profile_ingestion tx now place_id profile s).1

module _ {S : Type 0} (tx : Tx S) (P : S → Type 0) (spares : SparesVerified tx P) where
  committed-Keeps :
      {A : Type 0} (s : S) (a : A) (r : Option Error × S) → P s → P r.1 → P (committed tx s a r).1
  unfolding committed
  committed-Keeps s a (none, s') h k = k
  committed-Keeps s a (some e, s') h k = spares.rolls_back s s' h k

  closed-Keeps : {A : Type 0} (s : S) (r : Result A × S) → P s → P r.1 → P (closed tx s r).1
  unfolding closed
  closed-Keeps s (ok a, s') h k = committed-Keeps s a (tx.commit s') h (spares.commits s' k)
  closed-Keeps s (err e, s') h k = spares.rolls_back s s' h k

  created-Keeps :
      (now : Time) (r : Result AccessibilityProfile × S) → P r.1 → P (ingestion_created tx now r).1
  unfolding ingestion_created
  created-Keeps now (ok p, s) h = h
  created-Keeps now (err e, s) h = h

  updated-Keeps : (now : Time) (r : Result ℕ × S) → P r.1 → P (ingestion_updated tx now r).1
  unfolding ingestion_updated
  updated-Keeps now (ok n, s) h = h
  updated-Keeps now (err e, s) h = h

  write-Keeps :
      (now : Time) (place_id : String) (profile : AccessibilityProfile)
      (l : Lookup AccessibilityProfile × S)
      → P l.1
      → P (ingestion_write tx now place_id profile l).1
  unfolding ingestion_write ingestion_columns
  write-Keeps now place_id profile (failed e, s) h = h
  write-Keeps now place_id profile (missing, s) h = created-Keeps now _ (spares.creates _ s refl h)
  write-Keeps now place_id profile (row existing, s) h = elim (Bool-cases existing.user_verified) [
    | inl e ↦ rw e h
    | inr e ↦
        let columns = ingestion_columns tx now existing profile in
        let written = ingestion_updated tx now (tx.update_profile existing columns s) in
        subst (λ t. P (if◌then◌else◌ {A = Result Bool × S} t (ok false, s) written).1) (sym e)
          (updated-Keeps now (tx.update_profile existing columns s)
            (spares.updates existing columns s e e h))
  ]

  pub upsert-Keeps :
      (now : Time) (place_id : String) (profile : Option AccessibilityProfile) (s : S)
      → P s
      → P (upsert_profile_ingestion tx now place_id profile s).1
  unfolding upsert_profile_ingestion transaction
  upsert-Keeps now place_id none s h = h
  upsert-Keeps now place_id (some profile) s h =
      closed-Keeps s _ h (write-Keeps now place_id profile _ (spares.loads place_id s h))

  -- What holds of the state before imports of any profiles holds after them, if it is kept by the
  -- inserts of profiles that are not marked as verified, and by the updates of rows that were loaded
  -- as not verified which leave them so. So an import inserts no verified profile, updates no row that
  -- it loaded as verified, and verifies none, whichever statements fail and whatever the libraries do.
  pub import_profiles_spare_verified :
      (imports : List (Time × (String × Option AccessibilityProfile))) (s : S)
      → P s
      → P (import_profiles tx imports s)
  unfolding import_profiles
  import_profiles_spare_verified [] s h = h
  import_profiles_spare_verified ((now, (place_id, profile)) ∷ rest) s h =
      import_profiles_spare_verified rest (upsert_profile_ingestion tx now place_id profile s).1
        (upsert-Keeps now place_id profile s h)
