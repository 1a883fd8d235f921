-- ===== src/Api/Listing/Escape.antt =====
-- A text that was escaped stands for itself in a pattern of LIKE with ESCAPE '\'.
use Prim.Native.Char.{Char, code}
use Prim.Native.String
use Prim.Native.String.append
use inwheel_api.Common.{
  String, ◌≡◌, refl, Bool, true, false, ◌||◌, Option, none, some, List, [], ◌∷◌, ◌++◌, arith, eqb,
  if◌then◌else◌, Bool-cases, inl, inr,
}
use inwheel_api.Api.Listing.{escape_like_pattern}

-- The parts of a pattern: a character, `_` and `%`.
pub data Piece : Type 0 where
  literal : Char → Piece
  any_one : Piece
  any_many : Piece

abbrev piece : Char → Piece
piece c = if eqb (code c) b'%' then any_many else (if eqb (code c) b'_' then any_one else literal c)

abbrev with_piece : Piece → Option (List Piece) → Option (List Piece)
with_piece p none = none
with_piece p (some ps) = some (p ∷ ps)

-- What PostgreSQL's manual says of a pattern: `\` makes the next character a literal, and may not be
-- the last one. The test tells whether a `\` stands before the text.
unfoldable pub read_pattern : Bool → String → Option (List Piece)
read_pattern false String.[] = some []
read_pattern true String.[] = none
read_pattern true (String.◌∷◌ c s) = with_piece (literal c) (read_pattern false s)
read_pattern false (String.◌∷◌ c s) =
    let escaped = read_pattern true s in
    let plain = read_pattern false s in
    if eqb (code c) b'\\' then escaped else with_piece (piece c) plain

abbrev pub literals : String → List Piece
literals String.[] = []
literals (String.◌∷◌ c s) = literal c ∷ literals s

escape_reads :
    (s rest : String) (ps : List Piece)
    → read_pattern false rest ≡ some ps
    → read_pattern false (String.◌++◌ (escape_like_pattern s) rest) ≡ some (literals s ++ ps)
unfolding escape_like_pattern read_pattern
escape_reads String.[] rest ps h = rw append.nil h
escape_reads (String.◌∷◌ c s) rest ps h =
    let ih = escape_reads s rest ps h in
    elim (Bool-cases (eqb (code c) b'\\' || (eqb (code c) b'%' || eqb (code c) b'_'))) [
      | inl e ↦ rw (e, append.cons, append.cons, ih) refl
      | inr e ↦
          let plain : eqb (code c) b'\\' ≡ false = ground arith in
          let same : piece c ≡ literal c = ground arith in rw (e, append.cons, plain, same, ih) refl
    ]

-- The pattern of a text asks for that text, literally, anywhere in a name.
pub escape_like_pattern-read_pattern :
    (q : String)
    → read_pattern false (String.◌++◌ "%" (String.◌++◌ (escape_like_pattern q) "%"))
      ≡ some (any_many ∷ literals q ++ any_many ∷ [])
unfolding read_pattern
escape_like_pattern-read_pattern q =
    let ih = escape_reads q "%" (any_many ∷ []) refl in rw (append.cons, append.nil, ih) refl
