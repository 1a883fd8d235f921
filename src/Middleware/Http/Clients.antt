-- ===== src/Middleware/Http/Clients.antt =====
-- The public rate limit over the requests of several clients.
use inwheel_api.Common.{
  ℕ, String, ◌==◌, ◌≡◌, refl, ap, inl, inr, Bool, true, false, Option, List, [], ◌∷◌, if◌then◌else◌,
  Bool-cases,
}
use inwheel_api.Common.Dict.{Dict}
use inwheel_api.Float64.{Float64, Arithmetic}
use inwheel_api.Models.{Time}
use inwheel_api.Middleware.RateLimiter.{Rate, RateLimiter, allow, new_rate_limiter}
use inwheel_api.Middleware.RateLimiter.Buckets.{
  Event, request, IsTimeline, IsTokenBucket, times, answers_of, answers, run, allow-answers,
}
use inwheel_api.Middleware.Http.{
  Request, Response, Handler, api_key_id_from_ctx, client_ip, too_many_requests, public_rate_limit,
}

module _ {Limiter : Type 0} (rate : Rate Limiter) (arithmetic : Arithmetic) (ceil : Float64 → ℕ)
    (split_host : String → Option String) {S : Type 0} (next : Handler S) where
  -- The requests without a key, as calls of Allow.
  unfoldable pub anonymous : List (Time × Request) → List Event
  anonymous [] = []
  anonymous ((now, r) ∷ rs) =
      let rest = anonymous rs in
      if api_key_id_from_ctx r == "" then request now (client_ip split_host r) ∷ rest else rest

  -- The handlers, which note beside their state that they ran.
  abbrev pub marked : Handler (Bool × S)
  marked r headers (ran, s) = let (response, s') = next r headers s in (response, (true, s'))

  -- Which of them reached the handlers, by client.
  unfoldable pub served : List (Time × Request) → RateLimiter Limiter × S → List (String × Bool)
  served [] state = []
  served ((now, r) ∷ rs) (l, s) =
      let (response, (l', (ran, s'))) =
        public_rate_limit rate arithmetic ceil split_host now marked r [] (l, (false, s)) in
      let rest = served rs (l', s') in
      if api_key_id_from_ctx r == "" then (client_ip split_host r, ran) ∷ rest else rest

  -- A request reached the handlers, and has their response and leaves their state; or it did not, is
  -- answered with 429, and the handlers' state is as it was.
  pub data IsAnswered (r : Request) (headers : Dict String) (s : S)
      : Response × (RateLimiter Limiter × (Bool × S)) → Type 0 where
    reached :
        (l : RateLimiter Limiter)
        → IsAnswered r headers s ((next r headers s).0, (l, (true, (next r headers s).1)))
    refused :
        (response : Response) (l : RateLimiter Limiter)
        → response.status ≡ 429
        → IsAnswered r headers s (response, (l, (false, s)))

  passes :
      (now : Time) (r : Request) (headers : Dict String) (l : RateLimiter Limiter) (s : S)
      → (api_key_id_from_ctx r == "") ≡ true
      → (allow rate now (client_ip split_host r) l).0 ≡ true
      → public_rate_limit rate arithmetic ceil split_host now marked r headers (l, (false, s)) ≡ (
        (next r headers s).0,
        ((allow rate now (client_ip split_host r) l).1, (true, (next r headers s).1)),
      )
  unfolding public_rate_limit
  passes now r headers l s e a = rw (e, a) refl

  refuses :
      (now : Time) (r : Request) (headers : Dict String) (l : RateLimiter Limiter) (s : S)
      → (api_key_id_from_ctx r == "") ≡ true
      → (allow rate now (client_ip split_host r) l).0 ≡ false
      → public_rate_limit rate arithmetic ceil split_host now marked r headers (l, (false, s)) ≡ (
        too_many_requests rate arithmetic ceil split_host
            (allow rate now (client_ip split_host r) l).1
            headers,
        ((allow rate now (client_ip split_host r) l).1, (false, s)),
      )
  unfolding public_rate_limit
  refuses now r headers l s e a = rw (e, a) refl

  lets_keys_through :
      (now : Time) (r : Request) (headers : Dict String) (l : RateLimiter Limiter) (s : S)
      → (api_key_id_from_ctx r == "") ≡ false
      → public_rate_limit rate arithmetic ceil split_host now marked r headers (l, (false, s))
        ≡ ((next r headers s).0, (l, (true, (next r headers s).1)))
  unfolding public_rate_limit
  lets_keys_through now r headers l s e = rw e refl

  served-run :
      (rs : List (Time × Request)) (l : RateLimiter Limiter) (s : S)
      → served rs (l, s) ≡ run rate (anonymous rs) l
  unfolding served anonymous run
  served-run [] l s = refl
  served-run ((now, r) ∷ rs) l s =
      let ip = client_ip split_host r in
      elim (Bool-cases (api_key_id_from_ctx r == "")) [
        | inr e ↦ rw (e, lets_keys_through now r [] l s e) (served-run rs l (next r [] s).1)
        | inl e ↦ elim (Bool-cases (allow rate now ip l).0) [
          | inl a ↦
              rw (e, passes now r [] l s e a, a)
                (ap (λ xs. (ip, true) ∷ xs) (served-run rs (allow rate now ip l).1 (next r [] s).1))
          | inr a ↦
              rw (e, refuses now r [] l s e a, a)
                (ap (λ xs. (ip, false) ∷ xs) (served-run rs (allow rate now ip l).1 s))
        ]
      ]

  answered :
      (now : Time) (r : Request) (headers : Dict String) (l : RateLimiter Limiter) (s : S)
      → IsAnswered r headers s
          (public_rate_limit rate arithmetic ceil split_host now marked r headers (l, (false, s)))
  unfolding too_many_requests
  answered now r headers l s = elim (Bool-cases (api_key_id_from_ctx r == "")) [
    | inr e ↦ rw (lets_keys_through now r headers l s e) (reached l)
    | inl e ↦ elim (Bool-cases (allow rate now (client_ip split_host r) l).0) [
      | inl a ↦ rw (passes now r headers l s e a) (reached _)
      | inr a ↦ rw (refuses now r headers l s e a) (refused _ _ refl)
    ]
  ]

  -- For a token bucket, over requests in the order of their times: the requests of a client without a
  -- key reach the handlers or not as one bucket of the client's own says, from a new one on; requests
  -- with a key take nothing from it. A request that reaches the handlers has their response and leaves
  -- their state; one that does not is answered with 429 and leaves their state as it was.
  pub public_rate_limit-answers :
      (r : Float64) (b : ℕ)
      → IsTokenBucket rate r b
      → (t : Time) (rs : List (Time × Request)) → IsTimeline t (anonymous rs)
      → (ip : String) (s : S)
      → (answers_of ip (served rs (new_rate_limiter r b, s))
          ≡ answers rate (times ip (anonymous rs)) (rate.new_limiter r b))
        × ((now : Time) (request' : Request) (headers : Dict String) (l : RateLimiter Limiter)
              (s' : S)
            → IsAnswered request' headers s' (
                public_rate_limit rate arithmetic ceil split_host now marked request' headers
                  (l, (false, s'))))
  public_rate_limit-answers r b law t rs h ip s = (
    rw (served-run rs (new_rate_limiter r b) s) (allow-answers rate r b law t (anonymous rs) h ip),
    answered,
  )
