-- ===== src/Identity/Match/Decides.antt =====
-- The decision is the best candidate's, by the thresholds; it is always made.
use native.Mathlib.Nat.{zero-add}
use inwheel_api.Common.{
  ℕ, ◌≡◌, refl, inl, inr, true, false, Option, none, some, List, [], ◌∷◌, get_elem?, take,
  if◌then◌else◌, Bool-cases, All,
}
use inwheel_api.Common.Result.{Error, wrap, Result, ok, err}
use inwheel_api.Float64.{Float64, Arithmetic, lt, le, minus_one, is_nan, rank}
use inwheel_api.Float64.Order.{lt-le_trans, le_trans, le_of_not_lt, not_nan_of_le, not_nan_of_lt}
use inwheel_api.Models.{Place}
use inwheel_api.Identity.Compat.{compatible}
use inwheel_api.Identity.Normalize.{Unicode}
use inwheel_api.Identity.Score.{radius_m, confident_threshold, low_confidence_threshold}
use inwheel_api.Identity.Match.{
  Record, low_confidence, confident, Decision, zero_decision, CandidateRepo, score_candidate,
  best_id, indexed_id, matched, decide, match_candidates, match_found, match,
}
use inwheel_api.Identity.Match.Best.{IsBest, kept, found, AreWorse, best_from-IsBest}

-- The decision for a place whose score reaches a threshold.
abbrev pub decision_of : Place → Float64 → Decision
decision_of p s = record {
  kind = if le confident_threshold s then confident else low_confidence;
  matched_place_id = p.id;
  confidence = s;
}

-- The answer for candidates in the order of the query: the first of the best ones, where its score
-- reaches a threshold, with the kind that the threshold gives; no match, where none does.
pub data IsDecision (score : Place → Float64) (cs : List Place) (d : Decision) : Type 0 where
  chosen :
      (k : ℕ) (p : Place)
      → get_elem? cs k ≡ some p
      → d ≡ decision_of p (score p)
      → le low_confidence_threshold (score p) ≡ true
      → All (λ c. lt (score p) (score c) ≡ false) cs
      → AreWorse score (score p) (take k cs)
      → IsDecision score cs d
  rejected :
      d ≡ zero_decision
      → All (λ c. le low_confidence_threshold (score c) ≡ false) cs
      → IsDecision score cs d

All-mono {ℓ} :
    {A : Type ℓ} (P Q : A → Type 0) (xs : List A) → ((a : A) → P a → Q a) → All P xs → All Q xs
All-mono P Q [] f h = tt
All-mono P Q (x ∷ xs) f h = (f x h.0, All-mono P Q xs f h.1)

minus_one-lt-low : lt minus_one low_confidence_threshold ≡ true
unfolding lt is_nan rank
minus_one-lt-low = refl

le_low_of_confident :
    (x : Float64) → le confident_threshold x ≡ true → le low_confidence_threshold x ≡ true
unfolding le is_nan rank
le_low_of_confident x h = le_trans low_confidence_threshold confident_threshold x refl h

minus_one-not_nan : is_nan minus_one ≡ false
unfolding is_nan
minus_one-not_nan = refl

low_of_kept : (c : Float64) → lt minus_one c ≡ false → le low_confidence_threshold c ≡ false
low_of_kept c h = elim (Bool-cases (le low_confidence_threshold c)) [
  | inl e ↦ cc (lt-le_trans minus_one low_confidence_threshold c minus_one-lt-low e)
  | inr e ↦ e
]

low_of_best :
    (p c : Float64)
    → is_nan p ≡ false
    → le low_confidence_threshold p ≡ false
    → lt p c ≡ false
    → le low_confidence_threshold c ≡ false
low_of_best p c n h k = elim (Bool-cases (le low_confidence_threshold c)) [
  | inl e ↦
      cc (le_trans low_confidence_threshold c p e (le_of_not_lt p c n (not_nan_of_le _ _ e).1 k))
  | inr e ↦ e
]

module _ (score : Place → Float64) where
  abbrev Decided : List Place → Result Decision → Type 0
  Decided cs r = (d : Decision) × (r ≡ ok d) × IsDecision score cs d

  decide_found :
      (cs : List Place) (k : ℕ) (p : Place)
      → get_elem? cs k ≡ some p
      → lt minus_one (score p) ≡ true
      → All (λ c. lt (score p) (score c) ≡ false) cs
      → AreWorse score (score p) (take k cs)
      → Decided cs (decide cs (some k, score p))
  unfolding decide matched best_id indexed_id
  decide_found cs k p at beats all worse = elim (Bool-cases (le confident_threshold (score p))) [
    | inl e ↦ (
      decision_of p (score p),
      rw (e, at, indexed_id),
      chosen k p at refl (le_low_of_confident (score p) e) all worse,
    )
    | inr e ↦ elim (Bool-cases (le low_confidence_threshold (score p))) [
      | inl l ↦ (decision_of p (score p), rw (e, l, at, indexed_id), chosen k p at refl l all worse)
      | inr l ↦ (
        zero_decision,
        rw (e, l),
        rejected refl (
            All-mono _ _ cs (λ c h. low_of_best (score p) (score c) (not_nan_of_lt _ _ beats).1 l h)
              all),
      )
    ]
  ]

  decide_kept :
      (cs : List Place)
      → All (λ c. lt minus_one (score c) ≡ false) cs
      → Decided cs (decide cs (none, minus_one))
  unfolding decide le is_nan rank
  decide_kept cs all =
      (zero_decision, refl, rejected refl (All-mono _ _ cs (λ c. low_of_kept (score c)) all))

  decide-Decided :
      (cs : List Place) (r : Option ℕ × Float64)
      → IsBest score 0 none minus_one cs r
      → Decided cs (decide cs r)
  decide-Decided cs r (kept e all) = rw e (decide_kept cs all)
  decide-Decided cs r (found k p at e beats all worse) =
      rw (e, zero-add) (decide_found cs k p at beats all worse)

  -- Once the query answered, a decision is made, and it is the one of the specification: no index
  -- is out of range, whatever the scores, NaN among them.
  pub match_candidates-IsDecision :
      (cs : List Place)
      → (d : Decision) × (match_candidates score cs ≡ ok d) × IsDecision score cs d
  unfolding match_candidates
  match_candidates-IsDecision [] = (zero_decision, refl, rejected refl tt)
  match_candidates-IsDecision (c ∷ cs) =
      decide-Decided (c ∷ cs) _ (best_from-IsBest score 0 none minus_one (c ∷ cs) minus_one-not_nan)

-- Where the query for candidates succeeds, Match answers, in the state that the query leaves. Its
-- answer is the first of the best candidates, if that one's score reaches the lower threshold, with
-- the kind of the threshold that it reaches, and no match if no score reaches the lower one; a score
-- that is NaN never wins.
pub match-IsDecision :
    {S : Type 0} (arithmetic : Arithmetic) (unicode : Unicode) (repo : CandidateRepo S) (r : Record)
    (s s' : S) (cs : List Place)
    → repo.find_candidates r.lat r.lng radius_m (compatible r.category) s ≡ (ok cs, s')
    → (d : Decision) × (match arithmetic unicode repo r s ≡ (ok d, s'))
      × IsDecision (score_candidate arithmetic unicode r) cs d
unfolding match match_found
match-IsDecision arithmetic unicode repo r s s' cs h =
    let (d, e, i) = match_candidates-IsDecision (score_candidate arithmetic unicode r) cs in
    (d, rw (h, e), i)

-- A query that fails makes Match fail with that error, wrapped.
pub match_fails :
    {S : Type 0} (arithmetic : Arithmetic) (unicode : Unicode) (repo : CandidateRepo S) (r : Record)
    (s s' : S) (e : Error)
    → repo.find_candidates r.lat r.lng radius_m (compatible r.category) s ≡ (err e, s')
    → match arithmetic unicode repo r s ≡ (err (wrap "find candidates" e), s')
unfolding match match_found
match_fails arithmetic unicode repo r s s' e h = rw h
