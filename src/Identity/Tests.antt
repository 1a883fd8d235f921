-- ===== src/Identity/Tests.antt =====
-- Matching, resolving and sweeping on the sample registry.
use inwheel_api.Common.{ℕ, ◌≡◌, ◌⊎◌, refl, true, [], ◌∷◌}
use inwheel_api.Common.Result.{ok, err, message}
use inwheel_api.Float64.{one}
use inwheel_api.Identity.Normalize.{normalize, fields}
use inwheel_api.Identity.Score.{half, address_score}
use inwheel_api.Identity.Score.Address.{address_score_no_tokens}
use inwheel_api.Identity.Match.{Decision, CandidateRepo, score_candidate, match}
use inwheel_api.Identity.Match.Decides.{IsDecision, match-IsDecision}
use inwheel_api.Identity.Sweep.{SweepResult, sweep}
use inwheel_api.Identity.Sweep.Counts.{settled, sweep_counts}
use inwheel_api.Samples.{
  arithmetic, unicode, cafe, record_sample, cafe_repo, cafe_sweeper, bakery_row,
}

match-IsDecision_example :
    (d : Decision) × (match arithmetic unicode cafe_repo record_sample 7 ≡ (ok d, 8))
    × IsDecision (score_candidate arithmetic unicode record_sample) (cafe ∷ []) d
match-IsDecision_example =
    match-IsDecision arithmetic unicode cafe_repo record_sample 7 8 (cafe ∷ []) refl

abbrev broken_repo : CandidateRepo ℕ
broken_repo = record { find_candidates = λ lat lng radius_m cs n. (err (message "down"), n) }

sweep_counts_example :
    (res : SweepResult) × ((sweep arithmetic unicode cafe_sweeper (λ r. 9) ("p1" ∷ []) 0).0
      ≡ ok res)
    × (res.considered ≡ 2)
    × (settled res ≡ 2)
sweep_counts_example =
    sweep_counts arithmetic unicode cafe_sweeper (λ r. 9) "p1" [] 0 1 (bakery_row ∷ bakery_row ∷ [])
      refl

ab-suffix : normalize unicode "ab" ≡ []
unfolding normalize fields
ab-suffix = refl

oy-suffix : normalize unicode "oy" ≡ []
unfolding normalize fields
oy-suffix = refl

address_score_no_tokens_example :
    (address_score unicode "ab" "1" "oy" "2" ≡ (one, true))
    ⊎ (address_score unicode "ab" "1" "oy" "2" ≡ (half, true))
address_score_no_tokens_example =
    address_score_no_tokens unicode "ab" "1" "oy" "2" (λ e. cc) (λ e. cc) ab-suffix oy-suffix
