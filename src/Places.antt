-- ===== src/Places.antt =====
-- internal/place/repository.go: the candidates of a match, and the references of a place.
pub mod Refs
pub mod Batch
mod Tests
use inwheel_api.Common.{
  ℕ, String, ◌==◌, Bool, true, false, ◌&&◌, List, [], ◌∷◌, any, keep, contains, take, leb,
  if◌then◌else◌,
}
use inwheel_api.Common.Dict.{Dict, insert}
use inwheel_api.Common.Result.{message, wrap, Result, ok, err, Exec}
use inwheel_api.Float64.{Float64, magnitude}
use inwheel_api.Models.{Time, Category, ExternalRef, Place, place_status_active}
use inwheel_api.Identity.Match.{CandidateRepo}
use inwheel_api.Identity.Resolve.{AttachRepo}
use inwheel_api.Database.{Database, Postgres, statement}

-- the three WHERE clauses
abbrev pub is_candidate : Postgres → Float64 → Float64 → Float64 → List Category → Place → Bool
is_candidate pg lat lng radius_m categories p =
    p.status == place_status_active
    && (contains categories p.category && pg.within p.lng p.lat lng lat radius_m)

unfoldable pub find_candidates :
    Postgres → Float64 → Float64 → Float64 → List Category → Exec Database (List Place)
find_candidates pg lat lng radius_m [] db = (ok [], db)
find_candidates pg lat lng radius_m (c ∷ cs) db =
    statement pg "find candidates"
      (λ db'. (
        ok (
            take 32 (
              pg.order_by_distance lat lng
                (keep (is_candidate pg lat lng radius_m (c ∷ cs)) db'.places))),
        db',
      ))
      db

-- json.Marshal refuses a confidence that is NaN or infinite.
pub is_finite : Float64 → Bool
is_finite x = if leb 0x7FF0000000000000 (magnitude x) then false else true

-- SET external_ids = jsonb_set(..., ARRAY[source], ref, true), updated_at = NOW() WHERE id = place_id
unfoldable pub attach_rows : String → String → ExternalRef → Time → List Place → List Place
attach_rows place_id source ref now [] = []
attach_rows place_id source ref now (p ∷ ps) =
    (if p.id == place_id
      then record p { external_ids = insert source ref p.external_ids; updated_at = now }
      else p)
    ∷ attach_rows place_id source ref now ps

unfoldable pub attach_external_ref :
    Postgres → String → String → ExternalRef → Exec Database (Unit {0})
unfolding attach_rows is_finite
attach_external_ref pg place_id source ref db =
    let update =
      statement pg "attach external ref"
        (λ db'.
          if any (λ p. p.id == place_id) db'.places
          then (
            ok tt,
            record db' {
              places = attach_rows place_id source ref (pg.now db.statements) db'.places;
            },
          )
          else (err (message "attach external ref: place not found"), db'))
        db in
    if is_finite ref.confidence
    then update
    else (err (wrap "marshal external ref" (message "unsupported value")), db)

abbrev pub candidate_repo : Postgres → CandidateRepo Database
candidate_repo pg = record { find_candidates = find_candidates pg }

abbrev pub attach_repo : Postgres → AttachRepo Database
attach_repo pg = record { attach_external_ref = attach_external_ref pg }
