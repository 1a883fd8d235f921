-- ===== src/Profiles/Prepared.antt =====
-- What the function `prepare` of UpsertProfile sees to holds of the profile that is returned.
use inwheel_api.Common.{ℕ, String, ◌≡◌, Option, none, some, Bool-cases, inl, inr}
use inwheel_api.Common.Result.{Error, Result, ok, err, Result-cases, Exec, is_unique_violation}
use inwheel_api.Models.{Time, AccessibilityProfile}
use inwheel_api.Profiles.{
  Lookup, row, missing, failed, Tx, Json, Upserted, committed, closed, transaction, existing_json,
  merged_of, prepared, created_result, updated_result, write, merge_and_write, after_load,
  after_place, upsert_profile_attempt, retried, upsert_profile,
}

-- P of what a call returns, where it returns no error.
abbrev pub OnOk : {A : Type 0} → (A → Type 0) → Result A → Type 0
OnOk P (ok a) = P a
OnOk P (err e) = Unit

-- Create fills in the id and nothing else.
abbrev pub KeepsColumns : {S : Type 0} → Tx S → Type 0
KeepsColumns tx =
    (p : AccessibilityProfile) (s : _)
    → OnOk (λ p'. p' ≡ record p { id = p'.id }) (tx.create_profile p s).0

module _ {S : Type 0} (tx : Tx S) (json : Json)
    (prepare : AccessibilityProfile → AccessibilityProfile) (P : AccessibilityProfile → Type 0)
    (keeps : KeepsColumns tx)
    (holds : (p : AccessibilityProfile) (now : Time) → P (record (prepare p) { updated_at = now }))
    (place_id_free : (p : AccessibilityProfile) (place_id : String)
      → P p
      → P (record p { place_id = place_id }))
    (id_free : (p : AccessibilityProfile) (id : String) → P p → P (record p { id = id })) where
  Prepared : Result Upserted → Type 0
  Prepared r = OnOk (λ u. P u.0) r

  module _ (now : Time) where
    created_result-Prepared :
        (p : AccessibilityProfile) (r : Result AccessibilityProfile) (s : S)
        → P p
        → OnOk (λ p'. p' ≡ record p { id = p'.id }) r
        → Prepared (created_result tx json (some prepare) now (r, s)).0
    unfolding created_result Prepared
    created_result-Prepared p (ok p') s h k = rw k (id_free p p'.id h)
    created_result-Prepared p (err e) s h k = tt

    updated_result-Prepared :
        (p : AccessibilityProfile) (r : Result ℕ) (s : S)
        → P p
        → Prepared (updated_result tx json (some prepare) now p (r, s)).0
    unfolding updated_result Prepared
    updated_result-Prepared p (ok n) s h = h
    updated_result-Prepared p (err e) s h = tt

    write-Prepared :
        (place_id : String) (o : Option AccessibilityProfile) (p : AccessibilityProfile) (s : S)
        → P p
        → Prepared (write tx json (some prepare) now place_id o p s).0
    unfolding write
    write-Prepared place_id none p s h =
        let q : AccessibilityProfile = record p { place_id = place_id } in
        created_result-Prepared q (tx.create_profile q s).0 (tx.create_profile q s).1
          (place_id_free p place_id h) (keeps q s)
    write-Prepared place_id (some existing) p s h =
        updated_result-Prepared p (tx.update_profile existing p s).0
          (tx.update_profile existing p s).1 h

    merge_and_write-Prepared :
        (place_id raw_patch : String) (o : Option AccessibilityProfile) (r : Result String) (s : S)
        → Prepared (merge_and_write tx json (some prepare) now place_id raw_patch o r s).0
    unfolding merge_and_write prepared Prepared
    merge_and_write-Prepared place_id raw_patch o (err e) s = tt
    merge_and_write-Prepared place_id raw_patch o (ok b) s =
        elim (Result-cases (merged_of tx json (some prepare) now raw_patch b)) [
          | inr (e, x) ↦ rw (merge_and_write, x) tt
          | inl (p, x) ↦
              rw (merge_and_write, x)
                (write-Prepared place_id o (record (prepare p) { updated_at = now }) s
                  (holds p now))
        ]

    after_load-Prepared :
        (place_id raw_patch : String) (l : Lookup AccessibilityProfile) (s : S)
        → Prepared (after_load tx json (some prepare) now place_id raw_patch (l, s)).0
    unfolding after_load Prepared
    after_load-Prepared place_id raw_patch (failed e) s = tt
    after_load-Prepared place_id raw_patch missing s =
        merge_and_write-Prepared place_id raw_patch none
          (existing_json tx json (some prepare) now none) s
    after_load-Prepared place_id raw_patch (row existing) s =
        merge_and_write-Prepared place_id raw_patch (some existing)
          (existing_json tx json (some prepare) now (some existing)) s

    after_place-Prepared :
        (place_id raw_patch : String) (l : Lookup (Unit {0})) (s : S)
        → Prepared (after_place tx json (some prepare) now place_id raw_patch (l, s)).0
    unfolding after_place Prepared
    after_place-Prepared place_id raw_patch (failed e) s = tt
    after_place-Prepared place_id raw_patch missing s = tt
    after_place-Prepared place_id raw_patch (row u) s =
        after_load-Prepared place_id raw_patch (tx.lock_profile place_id s).0
          (tx.lock_profile place_id s).1

    committed-Prepared :
        (s : S) (u : Upserted) (r : Option Error × S) → P u.0 → Prepared (committed tx s u r).0
    unfolding committed Prepared
    committed-Prepared s u (none, s') h = h
    committed-Prepared s u (some e, s') h = tt

    closed-Prepared :
        (s : S) (r : Result Upserted) (s' : S) → Prepared r → Prepared (closed tx s (r, s')).0
    unfolding closed Prepared
    closed-Prepared s (ok u) s' h = committed-Prepared s u (tx.commit s') h
    closed-Prepared s (err e) s' h = tt

    upsert_profile_attempt-Prepared :
        (place_id raw_patch : String) (s : S)
        → Prepared (upsert_profile_attempt tx json (some prepare) now place_id raw_patch s).0
    unfolding upsert_profile_attempt transaction
    upsert_profile_attempt-Prepared place_id raw_patch s =
        let (l, s') = tx.first_place place_id s in
        let r = after_place tx json (some prepare) now place_id raw_patch (l, s') in
        closed-Prepared s r.0 r.1 (after_place-Prepared place_id raw_patch l s')

  retried-Prepared :
      (next : Exec S Upserted) (r : Result Upserted) (s : S)
      → ((s' : S) → Prepared (next s').0)
      → Prepared r
      → Prepared (retried next (r, s)).0
  unfolding retried Prepared
  retried-Prepared next (ok u) s f h = h
  retried-Prepared next (err e) s f h = elim (Bool-cases (is_unique_violation e)) [
    | inl x ↦ rw x (f s)
    | inr x ↦ rw x tt
  ]

  -- What holds of every prepared profile, whatever its times and ids, holds of the profile that
  -- UpsertProfile returns.
  pub upsert_profile-prepared :
      (now : ℕ → Time) (place_id raw_patch : String) (s : S)
      → OnOk (λ u. P u.0) (upsert_profile tx json (some prepare) now place_id raw_patch s).0
  unfolding upsert_profile Prepared
  upsert_profile-prepared now place_id raw_patch s =
      let first = upsert_profile_attempt tx json (some prepare) (now 0) place_id raw_patch s in
      retried-Prepared (upsert_profile_attempt tx json (some prepare) (now 1) place_id raw_patch)
        first.0 first.1 (upsert_profile_attempt-Prepared (now 1) place_id raw_patch)
        (upsert_profile_attempt-Prepared (now 0) place_id raw_patch s)
