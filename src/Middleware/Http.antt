-- ===== src/Middleware/Http.antt =====
-- internal/middleware: PublicRateLimit (public_rate_limit.go), CORS (cors.go), RequestLogger
-- (logging.go) and the id of the key in the context (apikey_context.go). A handler gets the request
-- and the headers that are set so far, and leaves a response and a state. What a response's body
-- says is its text.
pub mod Origins
pub mod Clients
use inwheel_api.Common.{
  ℕ, String, ◌==◌, Bool, true, false, ◌&&◌, not, Option, none, some, List, ◌∷◌, leb, if◌then◌else◌,
  or_empty,
}
use inwheel_api.Common.Int.{pos}
use inwheel_api.Common.Dict.{Dict, insert}
use inwheel_api.Common.Text.{itoa}
use inwheel_api.Float64.{Float64, Arithmetic}
use inwheel_api.Models.{Time}
use inwheel_api.Middleware.RateLimiter.{Rate, RateLimiter, allow, retry_after_seconds}

pub record Request : Type 0 where
  pub method : String
  pub path : String
  pub remote_addr : String
  -- the headers Origin and X-API-Key, or the empty text
  pub origin : String
  pub api_key : String
  -- the value of the context that WithAPIKeyID sets
  pub api_key_id : Option String

pub record Response : Type 0 where
  pub status : ℕ
  pub headers : Dict String
  pub body : String

abbrev pub Handler : Type 0 → Type 0
Handler S = Request → Dict String → S → Response × S

-- WithAPIKeyID and APIKeyIDFromCtx
unfoldable pub with_api_key_id : String → Request → Request
with_api_key_id id r = record r { api_key_id = some id }

unfoldable pub api_key_id_from_ctx : Request → String
api_key_id_from_ctx r = or_empty r.api_key_id

-- ClientIP; `split_host` is net.SplitHostPort, its host or an error
unfoldable pub client_ip : (String → Option String) → Request → String
client_ip split_host r = elim (split_host r.remote_addr) [ some ip ↦ ip | none ↦ r.remote_addr ]

-- CORS
unfoldable pub cors : {S : Type 0} → String → Handler S → Handler S
cors allowed_origin next r headers s =
    let vary = insert "Vary" "Origin" headers in
    let named = insert "Access-Control-Allow-Origin" r.origin vary in
    if allowed_origin == ""
    then next r headers s
    else if r.origin == allowed_origin
    then (if r.method == "OPTIONS"
        then (
          record {
            status = 204;
            headers =
                insert "Access-Control-Allow-Headers" "X-API-Key, Content-Type"
                  (insert "Access-Control-Allow-Methods" "GET, POST, PATCH, DELETE" named);
            body = "";
          },
          s,
        )
        else next r named s)
    else next r vary s

module _ {Limiter : Type 0} (rate : Rate Limiter) (arithmetic : Arithmetic) (ceil : Float64 → ℕ)
    (split_host : String → Option String) where
  unfoldable too_many_requests : RateLimiter Limiter → Dict String → Response
  too_many_requests l headers = record {
    status = 429;
    headers =
        insert "Retry-After" (itoa (pos (retry_after_seconds arithmetic ceil l)))
          (insert "Content-Type" "application/json" headers);
    body = "{\"error\":\"rate limit exceeded\"}\n";
  }

  -- PublicRateLimit, at a time; the state has the limiter beside that of the handlers
  unfoldable pub public_rate_limit :
      {S : Type 0} → Time → Handler S → Handler (RateLimiter Limiter × S)
  unfolding api_key_id_from_ctx client_ip too_many_requests
  public_rate_limit now next r headers (l, s) =
      let (allowed, l') = allow rate now (client_ip split_host r) l in
      let (passed, s') = next r headers s in
      if api_key_id_from_ctx r == ""
      then (if allowed then (passed, (l', s')) else (too_many_requests l' headers, (l', s)))
      else (passed, (l, s'))

pub data Level : Type 0 where
  info : Level
  warn : Level
  error : Level

pub record LogLine : Type 0 where
  pub level : Level
  pub method : String
  pub path : String
  pub status : ℕ
  pub ip : String
  pub request_id : String
  pub api_key_id : String

unfoldable pub level_of : ℕ → Level
level_of status = if leb 500 status then error else if leb 400 status then warn else info

-- SetLogAPIKeyID, for the carrier of the context, where there is one
unfoldable pub set_log_api_key_id : String → Option String → Option String
set_log_api_key_id id none = none
set_log_api_key_id id (some carried) = some id

-- RequestLogger; the handlers' state has the carrier's apiKeyID beside their own
unfoldable pub request_logger :
    {S : Type 0}
    → (String → Option String)
    → String
    → Handler (Option String × S)
    → Request
    → Dict String
    → S
    → (Response × LogLine) × S
unfolding client_ip level_of
request_logger split_host request_id next r headers s =
    let (response, (carried, s')) =
      next r (insert "X-Request-ID" request_id headers) (some "", s) in
    (
      (
        response,
        record {
          level = level_of response.status;
          method = r.method;
          path = r.path;
          status = response.status;
          ip = client_ip split_host r;
          request_id = request_id;
          api_key_id = or_empty carried;
        },
      ),
      s',
    )
