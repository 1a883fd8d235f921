-- ===== src/Profiles/Tests.antt =====
-- The profile writes on a table of one row that counts its writes.
use inwheel_api.Common.{ℕ, suc, ◌≡◌, refl, true, none, some, [], ◌∷◌}
use inwheel_api.Common.Result.{unique_violation, is_unique_violation, ok, err}
use inwheel_api.Models.{AccessibilityProfile}
use inwheel_api.A11y.{empty_profile}
use inwheel_api.Profiles.{
  row, missing, Tx, Json, transaction, upsert_profile_attempt, upsert_profile,
}
use inwheel_api.Profiles.Verified.{SparesVerified, import_profiles, import_profiles_spare_verified}
use inwheel_api.Profiles.Retry.{RollsBack, IsAttempts, upsert_profile-IsAttempts}
use inwheel_api.Samples.{verified_profile}

-- The place "p1" has no profile yet, and each insert loses a race.
abbrev racing : Tx ℕ
racing = record {
  first_place = λ id n. (row tt, n);
  lock_profile = λ id n. (missing, n);
  load_profile = λ id n. (row verified_profile, n);
  create_profile = λ p n. (err unique_violation, suc n);
  update_profile = λ p q n. (ok 1, suc n);
  commit = λ n. (none, n);
  rollback = λ n n'. n;
}

abbrev json : Json
json = record {
  marshal = λ p. ok "{}";
  merge_patch = λ existing patch. ok "{}";
  unmarshal = λ s. ok empty_profile;
}

racing-RollsBack : RollsBack racing
racing-RollsBack s s' = refl

upsert_profile-IsAttempts_example :
    IsAttempts
      (upsert_profile_attempt racing json none 0 "p1" "{}")
      (upsert_profile_attempt racing json none 1 "p1" "{}")
      0
      (upsert_profile racing json none (λ n. n) "p1" "{}" 0)
upsert_profile-IsAttempts_example =
    upsert_profile-IsAttempts racing racing-RollsBack json none "p1" "{}" (λ n. n) 0

race-sample : (upsert_profile racing json none (λ n. n) "p1" "{}" 0).0 ≡ err unique_violation
unfolding upsert_profile upsert_profile_attempt transaction is_unique_violation
race-sample = refl

-- A table of one row.
abbrev single : Tx AccessibilityProfile
single = record {
  first_place = λ id s. (row tt, s);
  lock_profile = λ id s. (row s, s);
  load_profile = λ id s. (row s, s);
  create_profile = λ p s. (err unique_violation, s);
  update_profile = λ p q s. (ok 1, q);
  commit = λ s. (none, s);
  rollback = λ s s'. s;
}

-- If the row is verified, it is what the user sent.
abbrev AsVerified : AccessibilityProfile → Type 0
AsVerified s = s.user_verified ≡ true → s ≡ verified_profile

single-SparesVerified : SparesVerified single AsVerified
single-SparesVerified = record {
  loads = λ id s h. h;
  creates = λ p s e h. h;
  updates = λ p q s e f h k. absurd cc;
  commits = λ s h. h;
  rolls_back = λ s s' h k. h;
}

import_profiles_spare_verified_example : AsVerified (
    import_profiles single
      ((9, ("p1", some empty_profile)) ∷ (10, ("p1", none)) ∷ [])
      verified_profile)
import_profiles_spare_verified_example =
    import_profiles_spare_verified single AsVerified single-SparesVerified
      ((9, ("p1", some empty_profile)) ∷ (10, ("p1", none)) ∷ []) verified_profile (λ e. refl)
