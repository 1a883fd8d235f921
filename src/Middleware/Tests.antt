-- ===== src/Middleware/Tests.antt =====
-- The theorems of the middleware at concrete requests.
use inwheel_api.Common.{ℕ, suc, String, ◌≡◌, refl, true, false, none, some, List, [], ◌∷◌, arith}
use inwheel_api.Common.Dict.{Dict, lookup}
use inwheel_api.Middleware.RateLimiter.{RateLimiter, new_rate_limiter}
use inwheel_api.Middleware.RateLimiter.Buckets.{
  Event, request, swept_at, answers_of, run, allow-answers,
}
use inwheel_api.Middleware.Http.{Request, Handler, cors}
use inwheel_api.Middleware.Http.Origins.{allow_origin, cors-allow_origin}
use inwheel_api.Models.{Time}
use inwheel_api.Middleware.Http.{api_key_id_from_ctx, client_ip, public_rate_limit}
use inwheel_api.Middleware.Http.Clients.{
  anonymous, marked, served, IsAnswered, public_rate_limit-answers,
}
use inwheel_api.Samples.{arithmetic}
use inwheel_api.Samples.Libraries.{rate, rate-IsTokenBucket}

-- Two keys, and a sweep after the first request of each.
abbrev events : List Event
events = request 1 "a" ∷ request 2 "b" ∷ swept_at (λ k. 3) 4 ∷ request 5 "a" ∷ request 6 "a" ∷ []

allow-answers_example :
    answers_of "a" (run rate events (new_rate_limiter 0 2)) ≡ true ∷ true ∷ false ∷ []
allow-answers_example =
    allow-answers rate 0 2 (rate-IsTokenBucket 0) 0 events
      (
        omega arith,
        (omega arith, ((λ k. (omega arith, omega arith)), (omega arith, (omega arith, tt)))),
      )
      "a"

abbrev site : String
site = "https://map.example"

abbrev preflight : Request
preflight = record {
  method = "OPTIONS";
  path = "/v1/places";
  remote_addr = "10.0.0.1:5000";
  origin = site;
  api_key = "";
  api_key_id = none;
}

-- a handler that counts
abbrev counted : Handler ℕ
counted r headers n = (record { status = 200; headers = headers; body = "" }, suc n)

cors-allow_origin_example :
    lookup allow_origin (cors site counted preflight [] 0).0.headers ≡ some site
unfolding lookup
cors-allow_origin_example = cors-allow_origin counted (λ r headers s. refl) site preflight [] 0 refl

-- a client without a key, four times, once with a key in between
abbrev anonymous_request : Request
anonymous_request = record preflight { method = "GET" }

abbrev key_request : Request
key_request = record anonymous_request { api_key_id = some "k1" }

abbrev requests : List (Time × Request)
requests =
    (1, anonymous_request) ∷ (2, key_request) ∷ (3, anonymous_request) ∷ (4, anonymous_request) ∷ []

public_rate_limit-answers_example :
    (answers_of "10.0.0.1" (
        served rate arithmetic
          (λ x. 1)
          (λ s. some "10.0.0.1")
          counted
          requests
          (new_rate_limiter 0 2, 0))
      ≡ true ∷ true ∷ false ∷ [])
    × ((now : Time) (r : Request) (headers : Dict String) (l : RateLimiter ℕ) (n : ℕ)
        → IsAnswered rate arithmetic
            (λ x. 1)
            (λ s. some "10.0.0.1")
            counted
            r
            headers
            n
            (public_rate_limit rate arithmetic
              (λ x. 1)
              (λ s. some "10.0.0.1")
              now
              (marked rate arithmetic (λ x. 1) (λ s. some "10.0.0.1") counted)
              r
              headers
              (l, (false, n))))
unfolding anonymous api_key_id_from_ctx client_ip
public_rate_limit-answers_example =
    public_rate_limit-answers rate arithmetic (λ x. 1) (λ s. some "10.0.0.1") counted 0 2
      (rate-IsTokenBucket 0) 0 requests (omega arith, (omega arith, (omega arith, tt))) "10.0.0.1" 0
