-- ===== src/Middleware/RateLimiter.antt =====
-- internal/middleware/middleware.go: the rate limiter, a token bucket per key. The bucket itself is
-- that of golang.org/x/time/rate, the parameter `Rate`. The map of buckets is a function of the key;
-- a method is a step of the limiter, at the time that the clock shows.
pub mod Buckets
use Prim.Native.String
use inwheel_api.Common.{ℕ, String, ◌==◌, Bool, true, false, Option, none, some, if◌then◌else◌}
use inwheel_api.Float64.{Float64, Arithmetic, one, le}
use inwheel_api.Models.{Time}

pub record Rate (Limiter : Type 0) : Type 0 where
  -- rate.NewLimiter(r, b)
  pub new_limiter : Float64 → ℕ → Limiter
  -- v.Allow(), at a time
  pub take_token : Time → Limiter → Bool × Limiter
  -- v.Tokens(), at a time
  pub tokens : Time → Limiter → Float64
  -- float64(b)
  pub of_burst : ℕ → Float64

pub record RateLimiter (Limiter : Type 0) : Type 0 where
  pub limiters : String → Option Limiter
  pub r : Float64
  pub b : ℕ

unfoldable pub new_rate_limiter : {Limiter : Type 0} → Float64 → ℕ → RateLimiter Limiter
new_rate_limiter r b = record { limiters = λ k. none; r = r; b = b }

-- int(math.Ceil(1 / float64(l.r))); `ceil` is math.Ceil and the conversion
unfoldable pub retry_after_seconds :
    {Limiter : Type 0} → Arithmetic → (Float64 → ℕ) → RateLimiter Limiter → ℕ
retry_after_seconds arithmetic ceil l = if le l.r 0 then 0 else ceil (arithmetic.div one l.r)

module _ {Limiter : Type 0} (rate : Rate Limiter) where
  open rate use {new_limiter, take_token, tokens, of_burst}

  -- v.Tokens() >= float64(l.b)
  abbrev pub has_tokens : Time → ℕ → Limiter → Bool
  has_tokens now b v = le (of_burst b) (tokens now v)

  swept_entry : Time → ℕ → Option Limiter → Option Limiter
  swept_entry now b none = none
  swept_entry now b (some v) = if has_tokens now b v then none else some v

  -- sweep; Tokens reads the clock for each key
  unfoldable pub sweep : (String → Time) → RateLimiter Limiter → RateLimiter Limiter
  unfolding swept_entry
  sweep clock l = record l { limiters = λ k. swept_entry (clock k) l.b (l.limiters k) }

  -- the bucket that Load finds, or the one that LoadOrStore puts in
  abbrev pub loaded : RateLimiter Limiter → Option Limiter → Limiter
  loaded l none = new_limiter l.r l.b
  loaded l (some v) = v

  abbrev stored : String → Limiter → RateLimiter Limiter → RateLimiter Limiter
  stored key v l = record l { limiters = λ k. if key == k then some v else l.limiters k }

  -- Allow
  unfoldable pub allow : Time → String → RateLimiter Limiter → Bool × RateLimiter Limiter
  allow now key l =
      let (allowed, v) = take_token now (loaded l (l.limiters key)) in (allowed, stored key v l)
