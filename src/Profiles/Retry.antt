-- ===== src/Profiles/Retry.antt =====
-- The second attempt of UpsertProfile.
use inwheel_api.Common.{
  ℕ, sym, String, ◌≡◌, refl, inl, inr, Bool, true, false, Option, none, some, Bool-cases,
}
use inwheel_api.Common.Result.{Error, is_unique_violation, Result, ok, err, Exec}
use inwheel_api.Models.{Time, AccessibilityProfile}
use inwheel_api.Profiles.{
  Tx, Json, Upserted, committed, closed, transaction, upsert_profile_attempt, retried,
  upsert_profile,
}

-- ROLLBACK leaves the state in which the transaction began.
abbrev pub RollsBack : {S : Type 0} → Tx S → Type 0
RollsBack tx = (s s' : _) → tx.rollback s s' ≡ s

-- The error of a call is that of a unique index.
abbrev pub lost_race : {A : Type 0} → Result A → Bool
lost_race (ok a) = false
lost_race (err e) = is_unique_violation e

-- The first attempt lost no race for a unique index, and its result stands; or it lost one, and the
-- result is the second's, from the state in which the first began.
pub data IsAttempts {S : Type 0} (first second : Exec S Upserted) (s : S) (r : Result Upserted × S)
    : Type 0 where
  once : lost_race (first s).0 ≡ false → r ≡ first s → IsAttempts first second s r
  twice : lost_race (first s).0 ≡ true → r ≡ second s → IsAttempts first second s r

retried-IsAttempts :
    {S : Type 0} (first second : Exec S Upserted) (s : S) (r : Result Upserted × S)
    → r ≡ first s
    → ((e : Error) → r.0 ≡ err e → r.1 ≡ s)
    → IsAttempts first second s (retried second r)
unfolding retried
retried-IsAttempts first second s (ok a, s') h k = once (rw (sym h) refl) h
retried-IsAttempts first second s (err e, s') h k = elim (Bool-cases (is_unique_violation e)) [
  | inl t ↦ rw (t, k e refl) (twice (rw (sym h) t) refl)
  | inr t ↦ rw t (once (rw (sym h) t) h)
]

module _ {S : Type 0} (tx : Tx S) (rolls_back : RollsBack tx) where
  committed_atomic :
      {A : Type 0} (s : S) (a : A) (r : Option Error × S) (e : Error)
      → (committed tx s a r).0 ≡ err e
      → (committed tx s a r).1 ≡ s
  unfolding committed
  committed_atomic s a (none, s') e h = cc
  committed_atomic s a (some x, s') e h = rolls_back s s'

  closed_atomic :
      {A : Type 0} (s : S) (r : Result A × S) (e : Error)
      → (closed tx s r).0 ≡ err e
      → (closed tx s r).1 ≡ s
  unfolding closed
  closed_atomic s (ok a, s') e h = committed_atomic s a (tx.commit s') e h
  closed_atomic s (err x, s') e h = rolls_back s s'

  -- Where ROLLBACK leaves the state in which the transaction began, also after a COMMIT that failed:
  -- UpsertProfile makes one attempt, whose result stands, unless it ended in a unique violation; then
  -- it makes a second one, with a time of its own, from the state in which the call began, and the
  -- result of that one stands, whatever it is.
  pub upsert_profile-IsAttempts :
      (json : Json) (prepare : Option (AccessibilityProfile → AccessibilityProfile))
      (place_id raw_patch : String) (now : ℕ → Time) (s : S)
      → IsAttempts
          (upsert_profile_attempt tx json prepare (now 0) place_id raw_patch)
          (upsert_profile_attempt tx json prepare (now 1) place_id raw_patch)
          s
          (upsert_profile tx json prepare now place_id raw_patch s)
  unfolding upsert_profile upsert_profile_attempt transaction
  upsert_profile-IsAttempts json prepare place_id raw_patch now s =
      retried-IsAttempts _ _ s _ refl (λ e h. closed_atomic s _ e h)
