-- ===== src/Ingestion/Tests.antt =====
-- The pipelines: the import of a cafe into an empty database, and an external one that fails.
use inwheel_api.Common.{◌+◌, ℕ, suc, ◌≡◌, refl, Option, none, some, [], ◌∷◌}
use inwheel_api.Common.Result.{Error, message, ok, err, Exec}
use inwheel_api.Identity.Match.{Record, Decision}
use inwheel_api.Identity.Sweep.{sweep}
use inwheel_api.Profiles.{row, missing, Tx, transaction, upsert_profile_ingestion}
use inwheel_api.Draining.{sweeper}
use inwheel_api.Osm.Import.Delivers.{pois}
use inwheel_api.Ingestion.Batcher.Written.{places_of}
use inwheel_api.Ingestion.Pipeline.{osm_source, run_canonical, run_external}
use inwheel_api.Ingestion.Pipeline.Tally.{feed_records, total, run_external-total}
use inwheel_api.Common.Text.{strip_last, trim_space}
use inwheel_api.Osm.Tags.{
  map_tags_to_profile, map_entrance, map_restroom, map_parking, map_elevator, parse_percent,
  parse_metres, step_count_positive,
}
use inwheel_api.Common.Int.{pos}
use inwheel_api.Common.Dict.{lookup, get}
use inwheel_api.Database.{Database, statement}
use inwheel_api.Places.Batch.{
  upsert_batch, insert_or_update, takes_id, repeats_text, repeats_key, find_osm, filled,
  upsert_rows, upsert_row,
}
use inwheel_api.Osm.Filter.{evaluate, evaluate_rest, amenity_to_category}
use inwheel_api.Osm.Transform.{transform, place_of}
use inwheel_api.Osm.Import.{
  Object, node, full_import, label, stream_elements, visit, handle_element, emit,
}
use inwheel_api.Ingestion.Batcher.{
  sink, flush_now, flushed, cleared, write_profiles, write_pending, profile_written,
}
use inwheel_api.Ingestion.Pipeline.{imported, swept, dispatch, supported}
use inwheel_api.Ingestion.Pipeline.Rows.{
  LeavesPlaces, places-upsert_profile_ingestion, HaveRows, flush_answer, writers_of,
  run_canonical-HaveRows, sweep-find_osm,
}
use inwheel_api.Samples.{unicode, arithmetic, postgres, record_sample}

abbrev failing : Record → Exec ℕ Decision
failing r n = (err (message "down"), suc n)

run_external-total_example :
    ((run_external
        (record {
          full_importer = some (feed_records (record_sample ∷ record_sample ∷ []));
          diff_syncer = none;
        })
        "full-import"
        failing
        0).0
      ≡ none)
    × (total
          (run_external
            (record {
              full_importer = some (feed_records (record_sample ∷ record_sample ∷ []));
              diff_syncer = none;
            })
            "full-import"
            failing
            0).1.1
        ≡ 2)
run_external-total_example = run_external-total failing (record_sample ∷ record_sample ∷ []) none 0

abbrev corner_cafe : Object
corner_cafe = node (record {
  id = pos 1;
  lat = 0;
  lng = 0;
  tags = ("amenity", "cafe") ∷ ("wheelchair", "yes") ∷ [];
})

abbrev empty_database : Database
empty_database = record { places = []; queue = []; next_queue_id = 1; statements = 3 }

-- No place has a profile.
abbrev profiles : Tx Database
profiles = record {
  first_place = λ id db. (row tt, db);
  lock_profile = λ id db. (missing, db);
  load_profile = λ id db. (missing, db);
  create_profile = λ p db. (ok p, record db { statements = db.statements + 1 });
  update_profile = λ p q db. (ok 1, db);
  commit = λ db. (none, db);
  rollback = λ db db'. db;
}

profiles-LeavesPlaces : LeavesPlaces profiles
profiles-LeavesPlaces = record {
  loads = λ id db. refl;
  creates = λ p db. refl;
  updates = λ p q db. refl;
  commits = λ db. refl;
  rolls_back = λ db db'. refl;
}

abbrev imported_cafe : Option Error × Database
imported_cafe =
    run_canonical (osm_source arithmetic none ((3, corner_cafe) ∷ []) none) "full-import"
      (writers_of postgres (λ n. "p1") 2 (upsert_profile_ingestion profiles 9))
      (sweep arithmetic unicode (sweeper postgres) (λ r. 9)) empty_database

import_stores : imported_cafe.0 ≡ none
unfolding run_canonical imported swept dispatch supported full_import label stream_elements visit
    handle_element emit evaluate evaluate_rest transform place_of sink flush_now flushed cleared
    write_profiles write_pending profile_written transaction upsert_profile_ingestion flush_answer
    upsert_batch statement insert_or_update takes_id repeats_text repeats_key find_osm filled
    upsert_rows upsert_row amenity_to_category lookup get map_tags_to_profile map_entrance
    map_restroom map_parking map_elevator parse_percent strip_last trim_space parse_metres
    step_count_positive
import_stores = refl

run_canonical-HaveRows_example :
    HaveRows (places_of (pois arithmetic ((3, corner_cafe) ∷ []))) imported_cafe.1.places
run_canonical-HaveRows_example =
    run_canonical-HaveRows postgres (λ n. "p1") 2 (upsert_profile_ingestion profiles 9)
      (places-upsert_profile_ingestion profiles profiles-LeavesPlaces 9)
      (sweep arithmetic unicode (sweeper postgres) (λ r. 9))
      (sweep-find_osm arithmetic unicode postgres (λ r. 9)) arithmetic ((3, corner_cafe) ∷ []) none
      empty_database import_stores
