-- ===== src/Identity/Score/Address.antt =====
-- The address component of a score.
use inwheel_api.Common.{String, eq_iff, ◌≡◌, ◌≢◌, refl, sym, ◌∙◌, ◌⊎◌, true, List, [], ◌∷◌, arith}
use inwheel_api.Float64.{one}
use inwheel_api.Identity.Normalize.{Unicode, normalize}
use inwheel_api.Identity.Score.{half, same_tokens, streets_match, address_score}

same_tokens_iff : (a b : List String) → same_tokens a b ≡ true → a ≡ b
unfolding same_tokens
same_tokens_iff [] [] h = refl
same_tokens_iff [] (b ∷ bs) h = cc
same_tokens_iff (a ∷ as_) [] h = cc
same_tokens_iff (a ∷ as_) (b ∷ bs) h = ground (arith, eq_iff a b, same_tokens_iff as_ bs)

same_tokens_refl : (a : List String) → same_tokens a a ≡ true
unfolding same_tokens
same_tokens_refl [] = refl
same_tokens_refl (a ∷ as_) = ground (arith, eq_iff a a, same_tokens_refl as_)

-- Two streets match exactly where their names have the same tokens in the same order.
pub streets_match_iff :
    (unicode : Unicode) (a b : String)
    → (streets_match unicode a b ≡ true → normalize unicode a ≡ normalize unicode b)
      × (normalize unicode a ≡ normalize unicode b → streets_match unicode a b ≡ true)
unfolding streets_match
streets_match_iff unicode a b = (
  same_tokens_iff (normalize unicode a) (normalize unicode b),
  λ e. rw e (same_tokens_refl (normalize unicode b)),
)

-- Two streets that have no token at all, such as two different business suffixes, are taken for the
-- same street: the address counts for at least a half.
pub address_score_no_tokens :
    (unicode : Unicode) (r_street r_house p_street p_house : String)
    → r_street ≢ ""
    → p_street ≢ ""
    → normalize unicode r_street ≡ []
    → normalize unicode p_street ≡ []
    → (address_score unicode r_street r_house p_street p_house ≡ (one, true))
      ⊎ (address_score unicode r_street r_house p_street p_house ≡ (half, true))
unfolding address_score
address_score_no_tokens unicode r_street r_house p_street p_house hr hp er ep =
    let m = (streets_match_iff unicode r_street p_street).1 (er ∙ sym ep) in
    ground (arith, eq_iff r_street "", eq_iff p_street "", m)
