-- ===== src/Identity/Match/Best.antt =====
-- The loop over the candidates ends with the first of the best.
use inwheel_api.Common.{
  ℕ, suc, ◌+◌, ◌≡◌, refl, ◌⊎◌, inl, inr, true, false, Option, some, List, [], ◌∷◌, arith, get_elem?,
  take, Bool-cases, All,
}
use native.Mathlib.Nat.{add-zero}
use inwheel_api.Float64.{Float64, lt, is_nan}
use inwheel_api.Float64.Order.{lt_irrefl, lt_trans, le-lt_trans, le_of_not_lt, not_nan_of_lt}
use inwheel_api.Models.{Place}
use inwheel_api.Identity.Match.{best_from}

add_suc : (i k : ℕ) → suc i + k ≡ i + suc k
add_suc i k = omega arith

-- The candidates before the best one score less, or their score is not a number.
abbrev pub AreWorse : (Place → Float64) → Float64 → List Place → Type 0
AreWorse score best cs = All (λ c. (is_nan (score c) ≡ true) ⊎ (lt (score c) best ≡ true)) cs

-- What the loop returns on `cs`, from index i on and from a best index and score: either no
-- candidate beats the score, and they are kept; or the index and the score of a candidate that
-- does, which no candidate beats and which those before it are worse than.
pub data IsBest (score : Place → Float64) (i : ℕ) (idx : Option ℕ) (best : Float64)
    (cs : List Place) (r : Option ℕ × Float64) : Type 0 where
  kept : r ≡ (idx, best) → All (λ c. lt best (score c) ≡ false) cs → IsBest score i idx best cs r
  found :
      (k : ℕ) (p : Place)
      → get_elem? cs k ≡ some p
      → r ≡ (some (i + k), score p)
      → lt best (score p) ≡ true
      → All (λ c. lt (score p) (score c) ≡ false) cs
      → AreWorse score (score p) (take k cs)
      → IsBest score i idx best cs r

not_lt_back : (x y : Float64) → lt x y ≡ true → lt y x ≡ false
not_lt_back x y h = elim (Bool-cases (lt y x)) [
  | inl e ↦ cc (lt_trans x y x h e, lt_irrefl x)
  | inr e ↦ e
]

not_lt_through : (b p c : Float64) → lt b p ≡ true → lt b c ≡ false → lt p c ≡ false
not_lt_through b p c h k = elim (Bool-cases (lt p c)) [
  | inl e ↦ cc (lt_trans b p c h e)
  | inr e ↦ e
]

worse_of_not_better :
    (b c p : Float64)
    → is_nan b ≡ false
    → lt b c ≡ false
    → lt b p ≡ true
    → (is_nan c ≡ true) ⊎ (lt c p ≡ true)
worse_of_not_better b c p n h k = elim (Bool-cases (is_nan c)) [
  | inl e ↦ inl e
  | inr e ↦ inr (le-lt_trans c b p (le_of_not_lt b c n e h) k)
]

module _ (score : Place → Float64) where
  IsBest-better :
      (i : ℕ) (idx : Option ℕ) (best : Float64) (c : Place) (cs : List Place)
      (r : Option ℕ × Float64)
      → lt best (score c) ≡ true
      → IsBest score (suc i) (some i) (score c) cs r
      → IsBest score i idx best (c ∷ cs) r
  IsBest-better i idx best c cs r h (kept e all) =
      found 0 c refl (rw add-zero e) h (lt_irrefl (score c), all) tt
  IsBest-better i idx best c cs r h (found k p at e beats all worse) =
      found (suc k) p at (rw (add_suc i k) at e) (lt_trans _ _ _ h beats)
        (not_lt_back _ _ beats, all) (inr beats, worse)

  IsBest-same :
      (i : ℕ) (idx : Option ℕ) (best : Float64) (c : Place) (cs : List Place)
      (r : Option ℕ × Float64)
      → is_nan best ≡ false
      → lt best (score c) ≡ false
      → IsBest score (suc i) idx best cs r
      → IsBest score i idx best (c ∷ cs) r
  IsBest-same i idx best c cs r n h (kept e all) = kept e (h, all)
  IsBest-same i idx best c cs r n h (found k p at e beats all worse) =
      found (suc k) p at (rw (add_suc i k) at e) beats (not_lt_through best _ _ beats h, all)
        (worse_of_not_better best _ _ n h beats, worse)

  pub best_from-IsBest :
      (i : ℕ) (idx : Option ℕ) (best : Float64) (cs : List Place)
      → is_nan best ≡ false
      → IsBest score i idx best cs (best_from score i idx best cs)
  unfolding best_from
  best_from-IsBest i idx best [] n = kept refl tt
  best_from-IsBest i idx best (c ∷ cs) n = elim (Bool-cases (lt best (score c))) [
    | inl e ↦ rw e (
        IsBest-better i idx best c cs _ e
          (best_from-IsBest (suc i) (some i) (score c) cs (not_nan_of_lt _ _ e).1))
    | inr e ↦ rw e (IsBest-same i idx best c cs _ n e (best_from-IsBest (suc i) idx best cs n))
  ]
