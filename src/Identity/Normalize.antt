-- ===== src/Identity/Normalize.antt =====
-- normalize.go: the tokens of a name or of a street. What golang.org/x/text and the tables of the
-- package unicode compute is the parameter `Unicode`.
use Prim.Native.Char.{Char, code}
use Prim.Native.String
use inwheel_api.Common.{
  String, ◌==◌, Bool, not, ◌||◌, Option, none, some, List, [], ◌∷◌, contains, keep, if◌then◌else◌,
}
use inwheel_api.Common.Text.{is_space}

pub record Unicode : Type 0 where
  -- transform.String(NFKD, without Mn, NFC); `none` is its error
  pub fold : String → Option String
  -- strings.ToLower
  pub to_lower : String → String
  pub is_letter : Char → Bool
  pub is_digit : Char → Bool
  -- strings.EqualFold
  pub equal_fold : String → String → Bool

abbrev pub business_suffixes : List String
business_suffixes = "inc" ∷ "ltd" ∷ "llc" ∷ "co" ∷ "corp" ∷ "gmbh" ∷ "oy" ∷ "ab" ∷ []

emit_field : String → List String → List String
emit_field cur rest = if cur == "" then rest else cur ∷ rest

-- strings.Fields, with the field that is being read
fields_from : String → String → List String
unfolding emit_field is_space
fields_from cur String.[] = emit_field cur []
fields_from cur (String.◌∷◌ c s) =
    let closed = fields_from "" s in
    let longer = fields_from (String.◌++◌ cur (String.◌∷◌ c String.[])) s in
    if is_space (code c) then emit_field cur closed else longer

unfoldable pub fields : String → List String
unfolding fields_from
fields s = fields_from "" s

module _ (unicode : Unicode) where
  open unicode use {fold, to_lower, is_letter, is_digit}

  -- The loop that writes a space for each rune that is neither a letter nor a digit.
  blank_out : String → String
  blank_out String.[] = String.[]
  blank_out (String.◌∷◌ c s) =
      String.◌∷◌ (if is_letter c || is_digit c then c else " ") (blank_out s)

  folded : String → Option String → String
  folded s none = s
  folded s (some t) = t

  unfoldable pub normalize : String → List String
  unfolding blank_out fields folded
  normalize s =
      keep (λ tok. not (contains business_suffixes tok))
        (fields (blank_out (to_lower (folded s (fold s)))))
