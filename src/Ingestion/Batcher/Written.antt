-- ===== src/Ingestion/Batcher/Written.antt =====
-- What the batcher writes, for stores in which a later write may change an earlier one.
use inwheel_api.Common.{
  map, String, ◌==◌, ◌≡◌, refl, ◌∙◌, sym, Bool, true, false, Option, none, some, List, [], ◌∷◌,
  ◌++◌, arith, leb, length, if◌then◌else◌, Bool-cases, Option-cases, inl, inr,
}
use mathlib.Core.Path.{subst}
use mathlib.Core.List.{append_assoc, append-nil}
use inwheel_api.Common.Result.{Error, Result, ok, err}
use inwheel_api.Models.{Place, AccessibilityProfile}
use inwheel_api.Osm.Import.Delivers.{Poi, deliver}
use inwheel_api.Ingestion.Batcher.{
  ProfileWriter, Writers, Batcher, Step, profile_written, write_pending, write_profiles, cleared,
  flushed, flush_now, sink, pushed, touched, first_of, rest_of,
}

abbrev pub places_of : List Poi → List Place
places_of ps = map (λ poi. poi.0) ps

-- `Has all s`: these places were written into the store. A flush that succeeds writes its places, and
-- neither it nor the writing of a profile loses one.
pub record Writes {S : Type 0} (writers : Writers S) (Has : List Place → S → Type 0) : Type 0 where
  pub flushes :
      (all ps : List Place) (s : S)
      → (writers.flush ps s).0.0 ≡ none
      → Has all s
      → Has (all ++ ps) (writers.flush ps s).1
  pub profiles :
      (all : List Place) (f : ProfileWriter S) (id : String) (p : AccessibilityProfile) (s : S)
      → writers.write_profile ≡ some f
      → Has all s
      → Has all (f id p s).1

module _ {S : Type 0} (Has : List Place → S → Type 0) (all : List Place) where
  abbrev Keeps : Option (ProfileWriter S) → Type 0
  Keeps writer =
      (f : ProfileWriter S) (id : String) (p : AccessibilityProfile) (s : S)
      → writer ≡ some f
      → Has all s
      → Has all (f id p s).1

  profile_written-Has :
      (b : Batcher) (r : Result Bool × S) → Has all r.1 → Has all (profile_written b r).1.1
  unfolding profile_written
  profile_written-Has b (ok true, s) h = h
  profile_written-Has b (ok false, s) h = h
  profile_written-Has b (err e, s) h = h

  write_pending-Has :
      (writer : Option (ProfileWriter S)) (id : String) (o : Option (Option AccessibilityProfile))
      (b : Batcher) (s : S)
      → Keeps writer
      → Has all s
      → Has all (write_pending writer id o b s).1.1
  unfolding write_pending
  write_pending-Has writer id none b s k h = h
  write_pending-Has writer id (some none) b s k h = h
  write_pending-Has none id (some (some p)) b s k h = h
  write_pending-Has (some f) id (some (some p)) b s k h =
      profile_written-Has b (f id p s) (k f id p s refl h)

  continue-Has :
      (r : Step S) (next : Batcher → S → Step S)
      → Has all r.1.1
      → ((b' : Batcher) (s' : S) → Has all s' → Has all (next b' s').1.1)
      → Has all (elim r.0 as (λ x. Step S) [ none ↦ next r.1.0 r.1.1 | some x ↦ (some x, r.1) ]).1.1
  continue-Has (none, (b, s)) next h k = k b s h
  continue-Has (some x, (b, s)) next h k = h

  write_profiles-Has :
      (writer : Option (ProfileWriter S)) (ps : List Place)
      (os : List (Option AccessibilityProfile)) (b : Batcher) (s : S)
      → Keeps writer
      → Has all s
      → Has all (write_profiles writer ps os b s).1.1
  unfolding write_profiles
  write_profiles-Has writer [] os b s k h = h
  write_profiles-Has writer (p ∷ ps) os b s k h = elim (Bool-cases (p.id == "")) [
    | inl e ↦ rw (e, write_profiles) (write_profiles-Has writer ps (rest_of os) b s k h)
    | inr e ↦
        rw (e, write_profiles)
          (continue-Has (write_pending writer p.id (first_of os) (touched b p.id) s)
            (write_profiles writer ps (rest_of os))
            (write_pending-Has writer p.id (first_of os) (touched b p.id) s k h)
            (λ b' s' h'. write_profiles-Has writer ps (rest_of os) b' s' k h'))
  ]

  -- the places are written, and the buffer is empty
  abbrev pub Flushed : Step S → Type 0
  Flushed r = Has all r.1.1 × (r.1.0.buffer ≡ [])

  cleared-Flushed : (r : Step S) → Has all r.1.1 → (cleared r).0 ≡ none → Flushed (cleared r)
  unfolding cleared
  cleared-Flushed (some x, r) h k = cc
  cleared-Flushed (none, (b, s)) h k = (h, refl)

module _ {S : Type 0} (writers : Writers S) (Has : List Place → S → Type 0)
    (writes : Writes writers Has) where
  flushed-Flushed :
      (all : List Place) (b : Batcher) (r : (Option Error × List Place) × S)
      → (r.0.0 ≡ none → Has all r.1)
      → (flushed writers.write_profile b r).0 ≡ none
      → Flushed Has all (flushed writers.write_profile b r)
  unfolding flushed
  flushed-Flushed all b ((some x, places), s) h k = cc
  flushed-Flushed all b ((none, places), s) h k =
      cleared-Flushed Has all _
        (write_profiles-Has Has all writers.write_profile places b.pending_profiles _ s
          (λ f id p s'. writes.profiles all f id p s') (h refl))
        k

  flush_of :
      (all buffer : List Place) (b : Batcher) (s : S)
      → b.buffer ≡ buffer
      → Has all s
      → (elim buffer as (λ x. Step S) [
        | [] ↦ (none, (b, s))
        | p ∷ ps ↦ flushed writers.write_profile b (writers.flush (p ∷ ps) s)
      ]).0
        ≡ none
      → Flushed Has (all ++ buffer) (elim buffer as (λ x. Step S) [
        | [] ↦ (none, (b, s))
        | p ∷ ps ↦ flushed writers.write_profile b (writers.flush (p ∷ ps) s)
      ])
  flush_of all [] b s e h k = (rw append-nil h, e)
  flush_of all (p ∷ ps) b s e h k =
      flushed-Flushed (all ++ (p ∷ ps)) b (writers.flush (p ∷ ps) s)
        (λ n. writes.flushes all (p ∷ ps) s n h) k

  pub flush_now-Flushed :
      (all : List Place) (b : Batcher) (s : S)
      → Has all s
      → (flush_now writers (b, s)).0 ≡ none
      → Flushed Has (all ++ b.buffer) (flush_now writers (b, s))
  unfolding flush_now
  flush_now-Flushed all b s h k = flush_of all b.buffer b s refl h k

  -- What is written, and then what is in the buffer.
  abbrev pub Holds : List Place → Batcher × S → Type 0
  Holds all (b, s) = (written : List Place) × Has written s × (written ++ b.buffer ≡ all)

  sink-Holds :
      (all : List Place) (p : Place) (profile : Option AccessibilityProfile) (b : Batcher) (s : S)
      → Holds all (b, s)
      → (sink writers p profile (b, s)).0 ≡ none
      → Holds (all ++ p ∷ []) (sink writers p profile (b, s)).1
  unfolding sink
  sink-Holds all p profile b s (written, h, e) k =
      let longer : written ++ (b.buffer ++ p ∷ []) ≡ all ++ p ∷ [] =
        sym (append_assoc written b.buffer (p ∷ [])) ∙ rw e refl in
      elim (Bool-cases (leb writers.size (length (b.buffer ++ p ∷ [])))) [
        | inl t ↦
            let done : (flush_now writers (pushed b p profile, s)).0 ≡ none =
              subst
                (λ t'.
                  (if◌then◌else◌ {A = Step S} t' (flush_now writers (pushed b p profile, s))
                    (none, (pushed b p profile, s))).0
                  ≡ none)
                t k in
            let (a, c) = flush_now-Flushed written (pushed b p profile) s h done in
            rw t (written ++ (b.buffer ++ p ∷ []), a, rw c (append-nil _ ∙ longer))
        | inr t ↦ rw t (written, h, longer)
      ]

  pub deliver-Holds :
      (all : List Place) (ps : List Poi) (r : Batcher × S)
      → Holds all r
      → (deliver (sink writers) ps r).0 ≡ none
      → Holds (all ++ places_of ps) (deliver (sink writers) ps r).1
  unfolding deliver
  deliver-Holds all [] r h k = rw append-nil h
  deliver-Holds all ((p, profile) ∷ ps) (b, s) h k =
      elim (Option-cases (sink writers p profile (b, s)).0) [
        | inl e ↦
            let rest : (deliver (sink writers) ps (sink writers p profile (b, s)).1).0 ≡ none =
              subst
                (λ t.
                  (elim t as (λ x. Step S) [
                    | none ↦ deliver (sink writers) ps (sink writers p profile (b, s)).1
                    | some x ↦ (some x, (sink writers p profile (b, s)).1)
                  ]).0
                  ≡ none)
                e k in
            rw (e, deliver, ← append_assoc all (p ∷ []) (places_of ps))
              (deliver-Holds (all ++ p ∷ []) ps (sink writers p profile (b, s)).1
                (sink-Holds all p profile b s h e) rest)
        | inr (x, e) ↦ absurd (ground arith)
      ]
