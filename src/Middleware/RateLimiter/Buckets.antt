-- ===== src/Middleware/RateLimiter/Buckets.antt =====
-- Every key has a token bucket of its own, and the eviction of idle ones is not seen.
use inwheel_api.Common.{
  ℕ, ◌≤◌, String, ◌==◌, eq_iff, ◌≡◌, refl, sym, ap, ◌∙◌, inl, inr, Bool, true, false, Option, none,
  some, List, [], ◌∷◌, arith, if◌then◌else◌, Bool-cases,
}
use inwheel_api.Float64.{Float64}
use inwheel_api.Models.{Time}
use inwheel_api.Middleware.RateLimiter.{
  Rate, RateLimiter, new_rate_limiter, has_tokens, sweep, swept_entry, loaded, allow,
}

-- Times that do not go back, from a time on.
abbrev pub IsSchedule : Time → List Time → Type 0
IsSchedule t [] = Unit
IsSchedule t (t' ∷ ts) = (t ≤ t') × IsSchedule t' ts

-- What happens to a limiter: a call of Allow for a key, and a run of sweep, by what its clock shows
-- for each key and when it ends.
pub data Event : Type 0 where
  request : Time → String → Event
  swept_at : (String → Time) → Time → Event

abbrev pub IsTimeline : Time → List Event → Type 0
IsTimeline t [] = Unit
IsTimeline t (request now key ∷ es) = (t ≤ now) × IsTimeline now es
IsTimeline t (swept_at clock end ∷ es) =
    ((k : String) → (t ≤ clock k) × (clock k ≤ end)) × IsTimeline end es

-- The times of the requests of one key.
abbrev pub times : String → List Event → List Time
times key [] = []
times key (request now k ∷ es) = if k == key then now ∷ times key es else times key es
times key (swept_at clock end ∷ es) = times key es

-- The answers that one key got.
abbrev pub answers_of : String → List (String × Bool) → List Bool
answers_of key [] = []
answers_of key ((k, a) ∷ rest) = if k == key then a ∷ answers_of key rest else answers_of key rest

module _ {Limiter : Type 0} (rate : Rate Limiter) where
  open rate use {new_limiter, take_token}

  -- The answers of one bucket that is asked at these times.
  abbrev pub answers : List Time → Limiter → List Bool
  answers [] v = []
  answers (t ∷ ts) v = (take_token t v).0 ∷ answers ts (take_token t v).1

  -- The buckets that calls of Allow make of a new one.
  pub data IsUsed (r : Float64) (b : ℕ) : Limiter → Type 0 where
    new : IsUsed r b (new_limiter r b)
    taken : (t : Time) (v : Limiter) → IsUsed r b v → IsUsed r b (take_token t v).1

  -- What the library documents of a token bucket of size b: once it is full again, it answers as a
  -- new one, which starts full.
  abbrev pub IsTokenBucket : Float64 → ℕ → Type 0
  IsTokenBucket r b =
      (t : Time) (v : Limiter)
      → IsUsed r b v
      → has_tokens rate t b v ≡ true
      → (ts : List Time) → IsSchedule t ts
      → answers ts v ≡ answers ts (new_limiter r b)

  unfoldable pub run : List Event → RateLimiter Limiter → List (String × Bool)
  run [] l = []
  run (request now key ∷ es) l = let (a, l') = allow rate now key l in (key, a) ∷ run es l'
  run (swept_at clock end ∷ es) l = run es (sweep rate clock l)

  -- Two buckets that answer alike from a time on.
  Alike : Time → Limiter → Limiter → Type 0
  Alike t v w = (ts : List Time) → IsSchedule t ts → answers ts v ≡ answers ts w

  later : (t t' : Time) (ts : List Time) → t ≤ t' → IsSchedule t' ts → IsSchedule t ts
  later t t' [] h s = tt
  later t t' (u ∷ ts) h s = (omega arith, s.1)

  tail_eq : (a b : Bool) (xs ys : List Bool) → a ∷ xs ≡ b ∷ ys → (a ≡ b) × (xs ≡ ys)
  tail_eq a b xs ys h = (cc, cc)

  -- The bucket in the map, if there is one, is one in use.
  IsInUse : RateLimiter Limiter → Option Limiter → Type 0
  IsInUse l none = Unit
  IsInUse l (some v) = IsUsed l.r l.b v

  loaded-IsUsed :
      (l : RateLimiter Limiter) (o : Option Limiter)
      → IsInUse l o
      → IsUsed l.r l.b (loaded rate l o)
  unfolding IsInUse
  loaded-IsUsed l none u = new
  loaded-IsUsed l (some v) u = u

  IsInUse-swept :
      (l : RateLimiter Limiter) (now : Time) (o : Option Limiter)
      → IsInUse l o
      → IsInUse l (swept_entry rate now l.b o)
  unfolding IsInUse swept_entry
  IsInUse-swept l now none u = tt
  IsInUse-swept l now (some v) u = elim (Bool-cases (has_tokens rate now l.b v)) [
    | inl e ↦ rw e tt
    | inr e ↦ rw e u
  ]

  Alike-swept :
      (t end : Time) (clock : Time) (b : ℕ) (l : RateLimiter Limiter) (o : Option Limiter)
      (v : Limiter)
      → IsTokenBucket l.r l.b
      → t ≤ clock
      → clock ≤ end
      → IsInUse l o
      → Alike t (loaded rate l o) v
      → Alike end (loaded rate l (swept_entry rate clock l.b o)) v
  unfolding Alike swept_entry IsInUse
  Alike-swept t end clock b l none v law h k u a ts s = a ts (later t end ts (omega arith) s)
  Alike-swept t end clock b l (some w) v law h k u a ts s =
      elim (Bool-cases (has_tokens rate clock l.b w)) [
        | inl e ↦ rw e (
            sym (law clock w u e ts (later clock end ts k s))
            ∙ a ts (later t end ts (omega arith) s))
        | inr e ↦ rw e (a ts (later t end ts (omega arith) s))
      ]

  limiters-allow_same :
      (now : Time) (k key : String) (l : RateLimiter Limiter)
      → (k == key) ≡ true
      → (allow rate now k l).1.limiters key ≡ some (take_token now (loaded rate l (l.limiters k))).1
  unfolding allow
  limiters-allow_same now k key l e = rw e refl

  limiters-allow_other :
      (now : Time) (k key : String) (l : RateLimiter Limiter)
      → (k == key) ≡ false
      → (allow rate now k l).1.limiters key ≡ l.limiters key
  unfolding allow
  limiters-allow_other now k key l e = rw e refl

  run_from :
      (key : String) (es : List Event) (t : Time) (l : RateLimiter Limiter) (v : Limiter)
      → IsTokenBucket l.r l.b
      → IsTimeline t es
      → IsInUse l (l.limiters key)
      → Alike t (loaded rate l (l.limiters key)) v
      → answers_of key (run es l) ≡ answers (times key es) v
  unfolding run allow sweep Alike IsInUse
  run_from key [] t l v law h u a = refl
  run_from key (swept_at clock end ∷ es) t l v law h u a =
      run_from key es end (sweep rate clock l) v law h.1
        (IsInUse-swept l (clock key) (l.limiters key) u)
        (Alike-swept t end (clock key) l.b l (l.limiters key) v law (h.0 key).0 (h.0 key).1 u a)
  run_from key (request now k ∷ es) t l v law h u a = elim (Bool-cases (k == key)) [
    | inl e ↦
        let same : k ≡ key = (eq_iff k key).0 e in
        let a' : Alike t (loaded rate l (l.limiters k)) v = rw same a in
        let w = loaded rate l (l.limiters k) in
        let used : IsInUse l (l.limiters k) = rw same u in
        let u' : IsInUse l ((allow rate now k l).1.limiters key) =
          rw (limiters-allow_same now k key l e)
            (taken now w (loaded-IsUsed l (l.limiters k) used)) in
        let first = tail_eq _ _ _ _ (a' (now ∷ []) (h.0, tt)) in
        let next = (allow rate now k l).1 in
        rw (answers_of, times, e, first.0)
          (ap (λ xs. (take_token now v).0 ∷ xs)
            (run_from key es now next (take_token now v).1 law h.1 u' (λ ts s.
              rw (limiters-allow_same now k key l e) (tail_eq _ _ _ _ (a' (now ∷ ts) (h.0, s))).1)))
    | inr e ↦
        rw (answers_of, times, e)
          (run_from key es now (allow rate now k l).1 v law h.1
            (rw (limiters-allow_other now k key l e) u)
            (λ ts s. rw (limiters-allow_other now k key l e) (a ts (later t now ts h.0 s))))
  ]

  -- For a token bucket, over any requests and any runs of sweep among them, in the order of their
  -- times: the answers that a key gets from Allow are those of one bucket of its own, asked at the
  -- times of its requests, from a new one on.
  pub allow-answers :
      (r : Float64) (b : ℕ)
      → IsTokenBucket r b
      → (t : Time) (es : List Event) → IsTimeline t es
      → (key : String)
      → answers_of key (run es (new_rate_limiter r b)) ≡ answers (times key es) (new_limiter r b)
  unfolding new_rate_limiter Alike IsInUse
  allow-answers r b law t es h key =
      run_from key es t (new_rate_limiter r b) (new_limiter r b) law h tt (λ ts s. refl)
