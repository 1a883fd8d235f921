-- ===== src/Draining/Tests.antt =====
-- A round of the sweep, a resolution and the queries of places, on the sample registry.
use inwheel_api.Draining.Kept.{lasting, sweep-lasting}
use inwheel_api.Common.{map, [], ◌∷◌, String, ◌==◌, ◌≡◌, ◌⊎◌, refl, false}
use inwheel_api.Common.Dict.{lookup, get}
use inwheel_api.Common.Result.{Error, ok, err}
use inwheel_api.Identity.Compat.{compatible}
use inwheel_api.Identity.Match.{
  match, match_candidates, decide, best_from, score_candidate, Decision, confident,
}
use inwheel_api.Identity.Score.{distance_score, name_score, combined_score, address_score}
use inwheel_api.Identity.Normalize.{normalize, fields}
use inwheel_api.Float64.{one, le, lt, rank, is_nan}
use inwheel_api.Identity.Resolve.{apply, resolve_matched, resolve, answer}
use inwheel_api.Identity.Sweep.{sweep, zero_result, sweep_row}
use inwheel_api.Database.{statement}
use inwheel_api.Unmatched.{enqueue}
use inwheel_api.Places.{find_candidates, attach_external_ref, attach_rows}
use inwheel_api.Places.Refs.{find_place, IsAttached, attach_external_ref_outcome}
use inwheel_api.Draining.{sweeper, resolver}
use inwheel_api.Draining.Safety.{IsSafeRound, sweep_row-IsSafeRound}
use inwheel_api.Draining.Resolved.{IsResolved, resolve-IsResolved}
use inwheel_api.Samples.{
  arithmetic, unicode, postgres, database, bakery_row, record_sample, osm_ref,
}

sweep_row-IsSafeRound_example :
    IsSafeRound 9 bakery_row database
      (sweep_row arithmetic unicode (sweeper postgres) (λ r. 9) bakery_row zero_result database).1
sweep_row-IsSafeRound_example =
    sweep_row-IsSafeRound arithmetic unicode postgres (λ r. 9) bakery_row zero_result database

attach_external_ref_outcome_example :
    ((attach_external_ref postgres "p1" "food" osm_ref database).1.queue ≡ database.queue)
    × (((e : Error) × ((attach_external_ref postgres "p1" "food" osm_ref database).0 ≡ err e)
          × ((attach_external_ref postgres "p1" "food" osm_ref database).1.places
              ≡ database.places))
        ⊎ (((attach_external_ref postgres "p1" "food" osm_ref database).0 ≡ ok tt)
            × IsAttached "p1" "food" osm_ref
                (postgres.now database.statements)
                database.places
                (attach_external_ref postgres "p1" "food" osm_ref database).1.places
            × ((j : String)
                → ("p1" == j) ≡ false
                → find_place j (attach_external_ref postgres "p1" "food" osm_ref database).1.places
                  ≡ find_place j database.places)))
attach_external_ref_outcome_example =
    attach_external_ref_outcome postgres "p1" "food" osm_ref database

-- The cafe has the name of the record, and the same location.
abbrev certain : Decision
certain = record { kind = confident; matched_place_id = "p1"; confidence = one }

resolve-sample :
    (resolve arithmetic unicode (resolver postgres) 9 record_sample database).0 ≡ ok certain
unfolding resolve match match_candidates find_candidates statement decide best_from score_candidate
    compatible apply resolve_matched answer enqueue attach_external_ref attach_rows le lt rank
    is_nan distance_score name_score combined_score address_score normalize fields lookup get
resolve-sample = refl

resolve-IsResolved_example :
    IsResolved 9 record_sample database
      (resolve arithmetic unicode (resolver postgres) 9 record_sample database).1
      certain
resolve-IsResolved_example =
    resolve-IsResolved arithmetic unicode postgres 9 record_sample database certain resolve-sample

sweep-lasting_example :
    map lasting (sweep arithmetic unicode (sweeper postgres) (λ r. 9) ("p1" ∷ []) database).1.places
    ≡ map lasting database.places
sweep-lasting_example = sweep-lasting arithmetic unicode postgres (λ r. 9) ("p1" ∷ []) database
