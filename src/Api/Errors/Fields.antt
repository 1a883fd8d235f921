-- ===== src/Api/Errors/Fields.antt =====
-- The field and the reason that an error names come back from its text.
use Prim.Native.Char.{code}
use Prim.Native.String
use Prim.Native.String.append
use inwheel_api.Common.{
  ℕ, String, ◌==◌, ◌≡◌, refl, inl, inr, false, none, some, [], ◌∷◌, eqb, Bool-cases, Option-cases,
}
use inwheel_api.Api.Errors.{
  malformed, wrapping, validation_failed, after_space, split_colon, decoded_field,
  extract_field_error, validation_error_handler,
}

after_space-append :
    (s r : String) → after_space s ≡ none → after_space (String.◌++◌ s (String.◌++◌ ": " r)) ≡ none
after_space-append String.[] r h = rw (append.nil, append.cons) refl
after_space-append (String.◌∷◌ c s) r h = elim (Bool-cases (eqb (code c) b' ')) [
  | inl e ↦ let x = rw e at h in absurd cc
  | inr e ↦ rw (append.cons, e) refl
]

split_colon-append :
    (f r : String)
    → split_colon f ≡ none
    → split_colon (String.◌++◌ f (String.◌++◌ ": " r)) ≡ some (f, r)
unfolding split_colon
split_colon-append String.[] r h = rw (append.nil, append.cons, append.cons, append.nil) refl
split_colon-append (String.◌∷◌ c f) r h = elim (Bool-cases (eqb (code c) b':')) [
  | inl e ↦ elim (Option-cases (after_space f)) [
    | inr (t, a) ↦ let x = rw (e, a) at h in absurd cc
    | inl a ↦ elim (Option-cases (split_colon f)) [
      | inr (fr, k) ↦ let x = rw (e, a, k) at h in absurd cc
      | inl k ↦ rw (append.cons, e, after_space-append f r a, split_colon-append f r k) refl
    ]
  ]
  | inr e ↦ elim (Option-cases (split_colon f)) [
    | inr (fr, k) ↦ let x = rw (e, k) at h in absurd cc
    | inl k ↦ rw (append.cons, e, split_colon-append f r k) refl
  ]
]

-- A body that does not decode, for the reason r in the field f, is answered with that field and that
-- reason, where the field's name is not empty and has no ": " in it.
pub validation_error_handler-wrapping :
    (retry_after : ℕ) (f r : String)
    → (f == "") ≡ false
    → split_colon f ≡ none
    → validation_error_handler retry_after
        (malformed (wrapping (String.◌++◌ f (String.◌++◌ ": " r))))
      ≡ validation_failed (record { field = f; reason = r } ∷ [])
unfolding validation_error_handler extract_field_error decoded_field
validation_error_handler-wrapping retry_after f r h k = rw (split_colon-append f r k, h) refl
