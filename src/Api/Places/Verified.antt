-- ===== src/Api/Places/Verified.antt =====
-- What a key leaves on a profile.
use inwheel_api.Common.{
  ℕ, String, ◌==◌, ◌≡◌, refl, inl, inr, true, false, Option, some, List, [], ◌∷◌, Bool-cases,
}
use inwheel_api.Common.Result.{Error, Result, ok, err}
use inwheel_api.Models.{Time, AccessibilityProfile}
use inwheel_api.A11y.Flags.{IsAudited, with_audit_flags-IsAudited}
use inwheel_api.Profiles.{Tx, Json, Upserted, upsert_profile}
use inwheel_api.Profiles.Prepared.{OnOk, KeepsColumns, upsert_profile-prepared}
use inwheel_api.Validation.{FieldError, accessibility_profile}
use inwheel_api.Api.Places.{
  Store, ProfileResponse, patched, invalid_profile, no_place, is_place_not_found, is_invalid_patch,
  prepare_patch, upserted, patched_profile, patch_place_accessibility,
}

-- A profile that a key submitted at a time, with the flags of its own values.
pub record IsSubmitted (key_id : String) (now : Time) (p : AccessibilityProfile) : Type 0 where
  pub user_verified : p.user_verified ≡ true
  pub submitted_by : p.submitted_by ≡ some key_id
  pub submitted_at : p.submitted_at ≡ some now
  pub audited : IsAudited p

-- What a response shows of a profile.
abbrev pub OnPatched : (AccessibilityProfile → Type 0) → ProfileResponse → Type 0
OnPatched P (patched p) = P p
OnPatched P (invalid_profile errors) = Unit
OnPatched P no_place = Unit

prepare_patch-IsSubmitted :
    (key_id : String) (now : Time) (p : AccessibilityProfile) (t : Time)
    → (key_id == "") ≡ false
    → IsSubmitted key_id now (record (prepare_patch now key_id p) { updated_at = t })
unfolding prepare_patch
prepare_patch-IsSubmitted key_id now p t h =
    let a = with_audit_flags-IsAudited p in
    record {
      user_verified = rw h refl;
      submitted_by = rw h refl;
      submitted_at = refl;
      audited = record {
        entrance = a.entrance;
        pathways = a.pathways;
        restroom = a.restroom;
        parking = a.parking;
        elevator = a.elevator;
      };
    }

module _ {S : Type 0} (store : Store S) (error_text : Error → String) (key_id : String)
    (now : Time) where
  upserted-IsSubmitted :
      (r : Result Upserted) (s : S)
      → OnOk (λ u. IsSubmitted key_id now u.0) r
      → OnOk (OnPatched (IsSubmitted key_id now)) (upserted store error_text key_id (r, s)).0
  unfolding upserted
  upserted-IsSubmitted (ok u) s h = h
  upserted-IsSubmitted (err e) s h = elim (Bool-cases (is_place_not_found e)) [
    | inl p ↦ rw p tt
    | inr p ↦ elim (Bool-cases (is_invalid_patch e)) [ inl i ↦ rw (p, i) tt | inr i ↦ rw (p, i) tt ]
  ]

  checked-IsSubmitted :
      (tx : Tx S) (json : Json)
      → KeepsColumns tx
      → (key_id == "") ≡ false
      → (attempts : ℕ → Time) (id raw_patch : String) (errors : List FieldError) (s : S)
      → OnOk
          (OnPatched (IsSubmitted key_id now))
          (patched_profile store error_text tx json now attempts id key_id raw_patch errors s).0
  unfolding patched_profile
  checked-IsSubmitted tx json keeps h attempts id raw_patch (e ∷ es) s = tt
  checked-IsSubmitted tx json keeps h attempts id raw_patch [] s =
      let free : (p : AccessibilityProfile) (x : String)
          → IsSubmitted key_id now p
          → IsSubmitted key_id now (record p { place_id = x }) =
        λ p x i. record {
          user_verified = i.user_verified;
          submitted_by = i.submitted_by;
          submitted_at = i.submitted_at;
          audited = record {
            entrance = i.audited.entrance;
            pathways = i.audited.pathways;
            restroom = i.audited.restroom;
            parking = i.audited.parking;
            elevator = i.audited.elevator;
          };
        } in
      let free_id : (p : AccessibilityProfile) (x : String)
          → IsSubmitted key_id now p
          → IsSubmitted key_id now (record p { id = x }) =
        λ p x i. record {
          user_verified = i.user_verified;
          submitted_by = i.submitted_by;
          submitted_at = i.submitted_at;
          audited = record {
            entrance = i.audited.entrance;
            pathways = i.audited.pathways;
            restroom = i.audited.restroom;
            parking = i.audited.parking;
            elevator = i.audited.elevator;
          };
        } in
      let r = upsert_profile tx json (some (prepare_patch now key_id)) attempts id raw_patch s in
      upserted-IsSubmitted r.0 r.1 (
        upsert_profile-prepared tx json (prepare_patch now key_id) (IsSubmitted key_id now) keeps
          (λ p t. prepare_patch-IsSubmitted key_id now p t h) free free_id attempts id raw_patch s)

  -- Whatever the patch, the libraries and the failures: the profile that a PATCH with a key answers
  -- with is marked as verified, by that key and at the time of the request, and has the audit flags
  -- of its own values.
  pub patch_place_accessibility-IsSubmitted :
      (tx : Tx S) (json : Json)
      → KeepsColumns tx
      → (key_id == "") ≡ false
      → (attempts : ℕ → Time) (id raw_patch : String) (body : Option AccessibilityProfile) (s : S)
      → OnOk
          (OnPatched (IsSubmitted key_id now))
          (patch_place_accessibility store error_text tx json now attempts id key_id raw_patch body
            s).0
  unfolding patch_place_accessibility
  patch_place_accessibility-IsSubmitted tx json keeps h attempts id raw_patch body s =
      checked-IsSubmitted tx json keeps h attempts id raw_patch (accessibility_profile body) s
