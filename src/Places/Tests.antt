-- ===== src/Places/Tests.antt =====
-- An import of the cafe that is in the table already, and has a reference of another source there.
use inwheel_api.Common.{◌≡◌, refl, [], ◌∷◌}
use inwheel_api.Common.Result.{ok}
use inwheel_api.Models.{Place}
use inwheel_api.Database.{Database, statement}
use inwheel_api.Places.Batch.{
  upsert_batch, filled, repeats_key, find_osm, upsert_row, upsert_rows, update_columns,
}
use inwheel_api.Places.Batch.Found.{IsUpserted, upsert_batch-find_osm}
use inwheel_api.Samples.{cafe, osm_ref, postgres}

abbrev matched_cafe : Place
matched_cafe = record cafe { external_ids = ("osm", osm_ref) ∷ ("food", osm_ref) ∷ [] }

abbrev table : Database
table = record { places = matched_cafe ∷ []; queue = []; next_queue_id = 1; statements = 3 }

abbrev renamed : Place
renamed = record cafe { id = ""; name = "red"; created_at = 3; updated_at = 3 }

upsert_succeeds :
    (upsert_batch postgres (λ n. "p2") (renamed ∷ []) table).0
    ≡ ok (record renamed { id = "p1" } ∷ [])
unfolding upsert_batch statement repeats_key find_osm upsert_rows upsert_row
upsert_succeeds = refl

upsert_batch-find_osm_example :
    IsUpserted
      (filled (λ n. "p2") 3 0 (renamed ∷ []))
      (matched_cafe ∷ [])
      (record renamed { id = "p1" } ∷ [])
      (upsert_batch postgres (λ n. "p2") (renamed ∷ []) table).1.places
upsert_batch-find_osm_example =
    upsert_batch-find_osm postgres (λ n. "p2") (renamed ∷ []) (record renamed { id = "p1" } ∷ [])
      table (refl, tt) upsert_succeeds

-- the reference of the other source is gone
reference_lost :
    (upsert_batch postgres (λ n. "p2") (renamed ∷ []) table).1.places
    ≡ record matched_cafe { name = "red"; external_ids = ("osm", osm_ref) ∷ []; updated_at = 3 }
      ∷ []
unfolding upsert_batch statement repeats_key find_osm upsert_rows upsert_row update_columns
reference_lost = refl
