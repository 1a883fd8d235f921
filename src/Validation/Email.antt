-- ===== src/Validation/Email.antt =====
-- emailRegex of internal/validation/validation.go,
-- ^[a-zA-Z0-9._%+\-]+@[a-zA-Z0-9.\-]+\.[a-zA-Z]{2}$, as a matcher that tries every end of a repeated
-- class, and the shape of the texts that it takes.
use Prim.Native.Char.{Char, code}
use Prim.Native.Nat.{Ordering, compare as compare_ℕ}
use Prim.Native.String
use Prim.Native.String.append
use text.Mathlib.TextEquality.{codes_equal}
use inwheel_api.Common.{
  ℕ, suc, ◌≤◌, String, ◌≡◌, ◌≢◌, refl, ap, ◌∙◌, Bool, true, false, ◌&&◌, ◌||◌, leb, eqb, eqb_iff,
  arith, Bool-cases, inl, inr,
}

abbrev is_letter : Char → Bool
is_letter c = (leb b'a' (code c) && leb (code c) b'z') || (leb b'A' (code c) && leb (code c) b'Z')

abbrev is_digit : Char → Bool
is_digit c = leb b'0' (code c) && leb (code c) b'9'

-- [a-zA-Z0-9.\-]
abbrev pub is_domain : Char → Bool
is_domain c = is_letter c || (is_digit c || (eqb (code c) b'.' || eqb (code c) b'-'))

-- [a-zA-Z0-9._%+\-]
abbrev pub is_local : Char → Bool
is_local c = is_domain c || (eqb (code c) b'_' || (eqb (code c) b'%' || eqb (code c) b'+'))

abbrev pub all_chars : (Char → Bool) → String → Bool
all_chars p String.[] = true
all_chars p (String.◌∷◌ c s) = p c && all_chars p s

abbrev pub char_count : String → ℕ
char_count String.[] = 0
char_count (String.◌∷◌ c s) = suc (char_count s)

-- [a-zA-Z]{2}$
abbrev pub is_top_level : String → Bool
is_top_level s = all_chars is_letter s && leb 2 (char_count s)

-- the class again, or the separator and what follows it
more_then : (Char → Bool) → ℕ → (String → Bool) → String → Bool
more_then p separator k String.[] = false
more_then p separator k (String.◌∷◌ c s) =
    (eqb (code c) separator && k s) || (p c && more_then p separator k s)

-- the class once or more, the separator, and what follows it
some_then : (Char → Bool) → ℕ → (String → Bool) → String → Bool
unfolding more_then
some_then p separator k String.[] = false
some_then p separator k (String.◌∷◌ c s) = p c && more_then p separator k s

unfoldable pub email_regex : String → Bool
unfolding some_then
email_regex s = some_then is_local b'@' (some_then is_domain b'.' is_top_level) s

-- The text in front of a separator is not empty, and all of its class.
pub record Splits (p : Char → Bool) (separator : Char) (k : String → Bool) (s : String)
    : Type 0 where
  pub before : String
  pub after : String
  pub whole : s ≡ String.◌++◌ before (String.◌∷◌ separator after)
  pub classed : all_chars p before ≡ true
  pub rest : k after ≡ true

equal_codes : (c d : Char) → eqb (code c) (code d) ≡ true → c ≡ d
equal_codes c d h = codes_equal c d (same (compare_ℕ (code c) (code d)) h)
  where
    same :
        (o : Ordering)
        → (elim o as (λ x. Bool) [ Ordering.eq ↦ true | _ ↦ false ]) ≡ true
        → o ≡ Ordering.eq
    same Ordering.lt e = cc
    same Ordering.eq e = refl
    same Ordering.gt e = cc

module _ (p : Char → Bool) (separator : Char) (k : String → Bool) where
  more_then-Splits : (s : String) → more_then p (code separator) k s ≡ true → Splits p separator k s
  unfolding more_then
  more_then-Splits String.[] h = cc
  more_then-Splits (String.◌∷◌ c s) h = elim (Bool-cases (eqb (code c) (code separator) && k s)) [
    | inl e ↦ record {
      before = "";
      after = s;
      whole = rw (equal_codes c separator (ground arith), append.nil) refl;
      classed = refl;
      rest = ground arith;
    }
    | inr e ↦
        let r = more_then-Splits s (ground arith) in
        record {
          before = String.◌∷◌ c r.before;
          after = r.after;
          whole = rw append.cons (ap (String.◌∷◌ c) r.whole);
          classed = ground (arith, r.classed);
          rest = r.rest;
        }
  ]

  more_then_of :
      (a b : String)
      → all_chars p a ≡ true
      → k b ≡ true
      → more_then p (code separator) k (String.◌++◌ a (String.◌∷◌ separator b)) ≡ true
  unfolding more_then
  more_then_of String.[] b h e =
      rw append.nil (ground (arith, eqb_iff (code separator) (code separator)))
  more_then_of (String.◌∷◌ c a) b h e = rw append.cons (ground (arith, more_then_of a b))

  some_then-Splits :
      (s : String)
      → some_then p (code separator) k s ≡ true
      → (r : Splits p separator k s) × (r.before ≢ "")
  unfolding some_then
  some_then-Splits String.[] h = cc
  some_then-Splits (String.◌∷◌ c s) h =
      let r = more_then-Splits s (ground arith) in
      (
        record {
          before = String.◌∷◌ c r.before;
          after = r.after;
          whole = rw append.cons (ap (String.◌∷◌ c) r.whole);
          classed = ground (arith, r.classed);
          rest = r.rest;
        },
        λ e. cc e,
      )

  some_then_of :
      (s : String) (r : Splits p separator k s)
      → r.before ≢ ""
      → some_then p (code separator) k s ≡ true
  unfolding some_then
  some_then_of s r n = rw r.whole (step r.before r.classed n)
    where
      step :
          (a : String)
          → all_chars p a ≡ true
          → a ≢ ""
          → some_then p (code separator) k (String.◌++◌ a (String.◌∷◌ separator r.after)) ≡ true
      step String.[] h m = absurd (m refl)
      step (String.◌∷◌ c a) h m = rw append.cons (ground (arith, more_then_of a r.after))

-- local@domain.tld, where the three parts are of their classes, the first two are not empty and the
-- last has two letters or more.
pub record IsEmail (s : String) : Type 0 where
  pub local_part : String
  pub domain : String
  pub top_level : String
  pub whole :
      s ≡ String.◌++◌ local_part (String.◌∷◌ "@" (String.◌++◌ domain (String.◌∷◌ "." top_level)))
  pub classes : (all_chars is_local local_part ≡ true) × (all_chars is_domain domain ≡ true)
  pub not_empty : (local_part ≢ "") × (domain ≢ "")
  pub letters : (all_chars is_letter top_level ≡ true) × (2 ≤ char_count top_level)

-- The email pattern takes a text exactly when it is of the form local@domain.tld, where the local
-- part and the domain are not empty and of their classes, and the last part is two letters or more.
pub email_regex-IsEmail :
    (s : String) → (email_regex s ≡ true → IsEmail s) × (IsEmail s → email_regex s ≡ true)
unfolding email_regex
email_regex-IsEmail s = (
  λ h.
      let (r, n) = some_then-Splits is_local "@" (some_then is_domain b'.' is_top_level) s h in
      let (d, m) = some_then-Splits is_domain "." is_top_level r.after r.rest in
      record {
        local_part = r.before;
        domain = d.before;
        top_level = d.after;
        whole = r.whole ∙ ap (λ t. String.◌++◌ r.before (String.◌∷◌ "@" t)) d.whole;
        classes = (r.classed, d.classed);
        not_empty = (n, m);
        letters = (ground (arith, d.rest), ground (arith, d.rest));
      },
  λ e.
      let d : Splits is_domain "." is_top_level
          (String.◌++◌ e.domain (String.◌∷◌ "." e.top_level)) =
        record {
          before = e.domain;
          after = e.top_level;
          whole = refl;
          classed = e.classes.1;
          rest = ground (arith, e.letters.0, e.letters.1);
        } in
      some_then_of is_local "@" (some_then is_domain b'.' is_top_level) s
        (record {
          before = e.local_part;
          after = String.◌++◌ e.domain (String.◌∷◌ "." e.top_level);
          whole = e.whole;
          classed = e.classes.0;
          rest = some_then_of is_domain "." is_top_level _ d e.not_empty.1;
        })
        e.not_empty.0,
)
