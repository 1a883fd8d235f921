-- ===== src/Ingestion/Batcher.antt =====
-- cmd/ingestion/batcher.go: pairs of a place and a profile are buffered; a full buffer is written by
-- one call of `flush`, which fills in the ids of the places in place, and then the profiles are
-- written under those ids. A slice that is passed by value keeps its length, so `flush` gives back
-- the elements alone.
pub mod Written
use inwheel_api.Common.{
  ℕ, ◌+◌, String, ◌==◌, Bool, true, false, Option, none, some, List, [], ◌∷◌, ◌++◌, leb, length,
  if◌then◌else◌,
}
use inwheel_api.Common.Result.{Error, message, Result, ok, err, Exec}
use inwheel_api.Models.{Place, AccessibilityProfile}

abbrev pub ProfileWriter : Type 0 → Type 0
ProfileWriter S = String → AccessibilityProfile → Exec S Bool

-- the fields of batcher that never change
pub record Writers (S : Type 0) : Type 0 where
  pub size : ℕ
  pub flush : List Place → S → (Option Error × List Place) × S
  pub write_profile : Option (ProfileWriter S)

pub record Batcher : Type 0 where
  pub buffer : List Place
  pub pending_profiles : List (Option AccessibilityProfile)
  pub written : ℕ
  pub touched_ids : List String
  pub profiles_written : ℕ

abbrev pub empty_batcher : Batcher
empty_batcher = record {
  buffer = [];
  pending_profiles = [];
  written = 0;
  touched_ids = [];
  profiles_written = 0;
}

-- b.pendingProfiles[i:], and its first element, if the index is in range
abbrev rest_of : List (Option AccessibilityProfile) → List (Option AccessibilityProfile)
rest_of [] = []
rest_of (o ∷ os) = os

abbrev first_of : List (Option AccessibilityProfile) → Option (Option AccessibilityProfile)
first_of [] = none
first_of (o ∷ os) = some o

abbrev pub Step : Type 0 → Type 0
Step S = Option Error × (Batcher × S)

unfoldable pub profile_written : {S : Type 0} → Batcher → Result Bool × S → Step S
profile_written b (ok true, s) = (none, (record b { profiles_written = b.profiles_written + 1 }, s))
profile_written b (ok false, s) = (none, (b, s))
profile_written b (err e, s) = (some e, (b, s))

unfoldable pub write_pending :
    {S : Type 0}
    → Option (ProfileWriter S)
    → String
    → Option (Option AccessibilityProfile)
    → Batcher
    → S
    → Step S
unfolding profile_written
write_pending writer id none b s = (some (message "index out of range"), (b, s))
write_pending writer id (some none) b s = (none, (b, s))
write_pending none id (some (some profile)) b s = (none, (b, s))
write_pending (some writer) id (some (some profile)) b s = profile_written b (writer id profile s)

abbrev touched : Batcher → String → Batcher
touched b id = record b { touched_ids = b.touched_ids ++ id ∷ [] }

-- The loop over the buffer.
unfoldable pub write_profiles :
    {S : Type 0}
    → Option (ProfileWriter S)
    → List Place
    → List (Option AccessibilityProfile)
    → Batcher
    → S
    → Step S
unfolding write_pending
write_profiles writer [] pending b s = (none, (b, s))
write_profiles writer (p ∷ ps) pending b s = elim (p.id == "") [
  | true ↦ write_profiles writer ps (rest_of pending) b s
  | false ↦
      let (failed, (b', s')) = write_pending writer p.id (first_of pending) (touched b p.id) s in
      elim failed [
        | none ↦ write_profiles writer ps (rest_of pending) b' s'
        | some x ↦ (some x, (b', s'))
      ]
]

unfoldable pub cleared : {S : Type 0} → Step S → Step S
cleared (some x, r) = (some x, r)
cleared (none, (b, s)) = (none, (record b { buffer = []; pending_profiles = [] }, s))

-- the part of flushNow below the call of flush
unfoldable pub flushed :
    {S : Type 0} → Option (ProfileWriter S) → Batcher → (Option Error × List Place) × S → Step S
unfolding write_profiles cleared
flushed writer b ((some x, places), s) = (some x, (record b { buffer = places }, s))
flushed writer b ((none, places), s) = cleared (
    write_profiles writer places b.pending_profiles
      (record b { buffer = places; written = b.written + length b.buffer }) s)

abbrev pushed : Batcher → Place → Option AccessibilityProfile → Batcher
pushed b p profile = record b {
  buffer = b.buffer ++ p ∷ [];
  pending_profiles = b.pending_profiles ++ profile ∷ [];
}

module _ {S : Type 0} (writers : Writers S) where
  unfoldable pub flush_now : Batcher × S → Step S
  unfolding flushed
  flush_now (b, s) = elim b.buffer [
    | [] ↦ (none, (b, s))
    | p ∷ ps ↦ flushed writers.write_profile b (writers.flush (p ∷ ps) s)
  ]

  unfoldable pub sink : Place → Option AccessibilityProfile → Batcher × S → Step S
  unfolding flush_now
  sink p profile (b, s) =
      if leb writers.size (length (b.buffer ++ p ∷ []))
      then flush_now (pushed b p profile, s)
      else (none, (pushed b p profile, s))
