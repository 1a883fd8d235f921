-- ===== src/Pagination.antt =====
-- internal/pagination/pagination.go: the cursor of a list. What encoding/base64, the layouts of the
-- package time and github.com/google/uuid compute is the parameter `Codec`. A time counts the
-- nanoseconds since Go's zero time.
pub mod Cursor
mod Tests
use Prim.Native.Char.{code}
use Prim.Native.String
use inwheel_api.Common.{ℕ, ◌-◌, ◌%◌, String, Bool, Option, none, some, eqb, if◌then◌else◌}
use inwheel_api.Common.Result.{Error, message, Result, ok, err}
use inwheel_api.Models.{Time}

pub record Codec : Type 0 where
  -- base64.RawURLEncoding; `none` is an error
  pub encode_base64 : String → String
  pub decode_base64 : String → Option String
  -- Format and Parse with time.RFC3339Nano in UTC
  pub format_time : Time → String
  pub parse_time : String → Option Time
  -- uuid.Parse(s) has no error
  pub is_uuid : String → Bool

-- t.Truncate(time.Microsecond)
abbrev pub truncate : Time → Time
truncate t = t - t % 1000

abbrev with_first : String → Option (String × String) → Option (String × String)
with_first c none = none
with_first c (some (a, b)) = some (String.◌++◌ c a, b)

-- strings.SplitN(s, "|", 2), where it has two parts
unfoldable pub split_bar : String → Option (String × String)
split_bar String.[] = none
split_bar (String.◌∷◌ c s) =
    let rest = split_bar s in
    if eqb (code c) b'|' then some ("", s) else with_first (String.◌∷◌ c "") rest

module _ (codec : Codec) where
  open codec use {encode_base64, decode_base64, format_time, parse_time, is_uuid}

  unfoldable pub encode : Time → String → String
  encode t id = encode_base64 (String.◌++◌ (format_time (truncate t)) (String.◌++◌ "|" id))

  checked : Option Time → String → Result (Time × String)
  checked none id = err (message "invalid cursor timestamp")
  checked (some t) id = if is_uuid id then ok (t, id) else err (message "invalid cursor id")

  parsed : Option (String × String) → Result (Time × String)
  unfolding checked
  parsed none = err (message "invalid cursor format")
  parsed (some (a, b)) = checked (parse_time a) b

  decoded : Option String → Result (Time × String)
  unfolding parsed split_bar
  decoded none = err (message "invalid cursor encoding")
  decoded (some s) = parsed (split_bar s)

  unfoldable pub decode : String → Result (Time × String)
  unfolding decoded
  decode cursor = decoded (decode_base64 cursor)
