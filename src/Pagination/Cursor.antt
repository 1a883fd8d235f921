-- ===== src/Pagination/Cursor.antt =====
-- A cursor that was encoded decodes to what it stands for.
use Prim.Native.Char.{code}
use Prim.Native.String
use Prim.Native.String.append
use inwheel_api.Common.{
  ◌*◌, ◌^◌, ◌<◌, String, ◌≡◌, refl, true, Option, none, some, arith, eqb, Bool-cases, inl, inr,
}
use inwheel_api.Common.Result.{ok}
use inwheel_api.Models.{Time}
use inwheel_api.Pagination.{
  Codec, truncate, split_bar, with_first, encode, decode, decoded, parsed, checked,
}

-- The years 1 to 9999, in days of 24 hours.
abbrev pub year_10000 : Time
year_10000 = 3652059 * (86400 * 10 ^ 9)

-- What the libraries document: base64 decodes what it encoded; a time of at most four digits of a
-- year parses back from its text; and that text has no bar.
pub record IsLawful (codec : Codec) : Type 0 where
  pub decode_base64-encode_base64 :
      (s : String) → codec.decode_base64 (codec.encode_base64 s) ≡ some s
  pub parse_time-format_time :
      (t : Time) → t < year_10000 → codec.parse_time (codec.format_time t) ≡ some t
  pub no_bar : (t : Time) → split_bar (codec.format_time t) ≡ none

with_first_cases : (c : String) (o : Option (String × String)) → with_first c o ≡ none → o ≡ none
with_first_cases c none h = refl
with_first_cases c (some p) h = cc

split_bar-append :
    (a b : String)
    → split_bar a ≡ none
    → split_bar (String.◌++◌ a (String.◌++◌ "|" b)) ≡ some (a, b)
unfolding split_bar
split_bar-append String.[] b h = rw (append.nil, append.cons, append.nil) refl
split_bar-append (String.◌∷◌ c a) b h = elim (Bool-cases (eqb (code c) b'|')) [
  | inl e ↦ absurd (ground arith)
  | inr e ↦
      let ih = split_bar-append a b (with_first_cases _ _ (rw e at h)) in
      rw (append.cons, e, ih, append.cons, append.nil) refl
]

-- Decoding gives back the id and the time, cut to a microsecond, of the cursor that was encoded, for
-- a time up to the year 9999 and an id that is a UUID.
pub decode-encode :
    (codec : Codec)
    → IsLawful codec
    → (t : Time) (id : String) → t < year_10000
    → codec.is_uuid id ≡ true
    → decode codec (encode codec t id) ≡ ok (truncate t, id)
unfolding decode encode decoded parsed checked
decode-encode codec lawful t id h u =
    rw
      (
        lawful.decode_base64-encode_base64,
        split_bar-append (codec.format_time (truncate t)) id (lawful.no_bar (truncate t)),
        lawful.parse_time-format_time (truncate t) (omega arith),
        u,
      )
      refl
