-- ===== src/Api/Errors.antt =====
-- cmd/api/errors.go: what the server answers when a request does not pass the specification or the
-- authentication. `SpecError` and `Malformed` are what errors.As finds in an error of kin-openapi
-- or of the generated server.
pub mod Fields
use Prim.Native.Char.{code}
use Prim.Native.String
use inwheel_api.Common.{
  ℕ, String, ◌==◌, Bool, true, false, ◌&&◌, Option, none, some, List, [], ◌∷◌, any, eqb,
  if◌then◌else◌,
}
use inwheel_api.Validation.{FieldError}
use inwheel_api.Api.Keys.{Auth, authenticated, unauthorized, rate_limited, auth_failed}

pub data Malformed : Type 0 where
  -- *openapi3filter.RequestError: the parameter's name, whether there is a body, and the reason
  request_error : Option String → Bool → String → Malformed
  -- the errors of the generated wrapper, with the parameter's name
  invalid_param_format : String → String → Malformed
  required_param : String → Malformed
  unmarshaling_param : String → Malformed
  too_many_values : String → Malformed
  -- an error that wraps another, by the text of the other
  wrapping : String → Malformed
  other : String → Malformed

pub data SpecError : Type 0 where
  -- *openapi3filter.SecurityRequirementsError, with the results of AuthenticationFunc
  security_requirements : List Auth → SpecError
  -- any other error
  malformed : Malformed → SpecError

pub data ErrorResponse : Type 0 where
  -- 429, with Retry-After
  rate_limit_exceeded : ℕ → ErrorResponse
  -- 401
  unauthorized_request : ErrorResponse
  -- 400
  validation_failed : List FieldError → ErrorResponse

-- errors.Is(inner, errRateLimited)
abbrev pub is_rate_limited : Auth → Bool
is_rate_limited (authenticated id) = false
is_rate_limited unauthorized = false
is_rate_limited rate_limited = true
is_rate_limited (auth_failed e) = false

-- s begins with a space
abbrev pub after_space : String → Option String
after_space String.[] = none
after_space (String.◌∷◌ c s) = if eqb (code c) b' ' then some s else none

-- msg[:idx] and msg[idx+2:] for idx = strings.Index(msg, ": ")
unfoldable pub split_colon : String → Option (String × String)
split_colon String.[] = none
split_colon (String.◌∷◌ c s) =
    let rest = split_colon s in
    let later : Option (String × String) = elim rest [
      | none ↦ none
      | some fr ↦ some (String.◌∷◌ c fr.0, fr.1)
    ] in
    if eqb (code c) b':'
    then elim (after_space s) [ none ↦ later | some r ↦ some ("", r) ]
    else later

-- the branch for an error that wraps another; an index of 0 is not one of a field
decoded_field : String → Option (String × String) → String × String
decoded_field msg none = ("body", msg)
decoded_field msg (some (f, r)) = if f == "" then ("body", msg) else (f, r)

unfoldable pub extract_field_error : Malformed → String × String
unfolding decoded_field
extract_field_error (request_error (some name) body reason) = (name, reason)
extract_field_error (request_error none true reason) = ("body", reason)
extract_field_error (request_error none false reason) = ("request", reason)
extract_field_error (invalid_param_format name text) = (name, text)
extract_field_error (required_param name) = (name, "is required")
extract_field_error (unmarshaling_param name) = (name, "invalid format")
extract_field_error (too_many_values name) = (name, "must have a single value")
extract_field_error (wrapping msg) = decoded_field msg (split_colon msg)
extract_field_error (other text) = ("request", text)

-- `retry_after` is that of the server's keyLimiter
unfoldable pub validation_error_handler : ℕ → SpecError → ErrorResponse
validation_error_handler retry_after (security_requirements errs) =
    if any is_rate_limited errs then rate_limit_exceeded retry_after else unauthorized_request
validation_error_handler retry_after (malformed e) =
    let (f, r) = extract_field_error e in validation_failed (record { field = f; reason = r } ∷ [])
