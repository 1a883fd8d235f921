-- ===== src/Samples/Libraries.antt =====
-- Concrete libraries for the tests of the API: a cursor codec that counts in strokes, a bucket that
-- never refills, predicates that hold, and a source of keys.
use inwheel_api.Common.{
  ℕ, zero, suc, ◌-◌, ◌≤◌, arith, String, ◌==◌, ◌≡◌, refl, ap, true, false, not, none, some, [], ◌∷◌,
  ltb,
}
use inwheel_api.Common.Result.{ok}
use inwheel_api.Float64.{Float64, le, is_nan, rank}
use inwheel_api.Pagination.{Codec, split_bar}
use inwheel_api.Pagination.Cursor.{IsLawful}
use inwheel_api.Middleware.RateLimiter.{Rate, RateLimiter}
use inwheel_api.Middleware.RateLimiter.Buckets.{IsUsed, new, taken, IsTokenBucket, answers}
use inwheel_api.Api.Listing.{Predicates}
use inwheel_api.Api.Keys.{ApiKey, KeyState, Outside}

abbrev pub strokes : ℕ → String
strokes zero = ""
strokes (suc n) = String.◌∷◌ "i" (strokes n)

abbrev pub count_strokes : String → ℕ
count_strokes String.[] = 0
count_strokes (String.◌∷◌ c s) = suc (count_strokes s)

abbrev pub codec : Codec
codec = record {
  encode_base64 = λ s. s;
  decode_base64 = λ s. some s;
  format_time = strokes;
  parse_time = λ s. some (count_strokes s);
  is_uuid = λ s. not (s == "");
}

count_strokes-strokes : (n : ℕ) → count_strokes (strokes n) ≡ n
count_strokes-strokes zero = refl
count_strokes-strokes (suc n) = ap suc (count_strokes-strokes n)

split_bar-strokes : (n : ℕ) → split_bar (strokes n) ≡ none
unfolding split_bar
split_bar-strokes zero = refl
split_bar-strokes (suc n) = rw (split_bar-strokes n) refl

pub codec-IsLawful : IsLawful codec
codec-IsLawful = record {
  decode_base64-encode_base64 = λ s. refl;
  parse_time-format_time = λ t h. ap some (count_strokes-strokes t);
  no_bar = split_bar-strokes;
}

abbrev pub predicates : Predicates
predicates = record {
  within = λ a b c d e. true;
  in_envelope = λ a b c d e f. true;
  ilike = λ name pattern. true;
}

-- The bucket is the number of tokens that are left.
abbrev pub rate : Rate ℕ
rate = record {
  new_limiter = λ r b. b;
  take_token = λ t v. (ltb 0 v, v - 1);
  tokens = λ t v. v;
  of_burst = λ b. b;
}

-- There are never more tokens than at the start.
IsUsed-le : (r : Float64) (v : ℕ) → IsUsed rate r 2 v → v ≤ 2
IsUsed-le r v new = omega arith
IsUsed-le r v (taken t w u) = omega (arith, IsUsed-le r w u)

full : (v : ℕ) → v ≤ 2 → le 2 v ≡ true → v ≡ 2
unfolding le is_nan rank
full zero h e = cc
full (suc zero) h e = cc
full (suc (suc v)) h e = omega (arith, h)

pub rate-IsTokenBucket : (r : Float64) → IsTokenBucket rate r 2
rate-IsTokenBucket r t v u h ts s = ap (answers rate ts) (full v (IsUsed-le r v u) h)

abbrev pub limiter : RateLimiter ℕ
limiter = record { limiters = λ k. none; r = 0; b = 2 }

abbrev pub outside : Outside
outside = record {
  sha256_hex = λ s. s;
  random_hex = λ n. ok "00";
  fails = λ n. false;
  gen_random_uuid = λ n. "k2";
  quote = λ s. s;
}

abbrev pub key_row : ApiKey
key_row = record {
  id = "k1";
  email = "a@b.org";
  key_hash = "iwk_ff";
  created_at = 1;
  revoked_at = none;
}

abbrev pub key_state : KeyState ℕ
key_state = record {
  api_keys = key_row ∷ [];
  statements = 0;
  generated = 0;
  reg_limiter = limiter;
  key_limiter = limiter;
}
