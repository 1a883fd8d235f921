-- ===== src/Places/Batch.antt =====
-- UpsertBatch of internal/place/repository.go: one INSERT ... ON CONFLICT (osm_id, osm_type) WHERE
-- osm_id <> 0 DO UPDATE of all the places of a batch, which fills in their ids. The places of a batch
-- have no profile with them. A batch that has a key twice, or an id that is taken, is an error of
-- the statement, which changes nothing. `gen_random_uuid` is the database's, by the place's position.
pub mod Found
use inwheel_api.Common.{
  ℕ, suc, String, ◌==◌, Bool, true, false, not, ◌&&◌, ◌||◌, Option, none, some, List, [], ◌∷◌, any,
  keep, map, eqb, is_some, if◌then◌else◌,
}
use inwheel_api.Common.Int.{ℤ, pos, negsuc}
use inwheel_api.Common.Result.{Error, message, wrap, unique_violation, Result, ok, err, Exec}
use inwheel_api.Models.{Time, Place, place_status_active}
use inwheel_api.Database.{Database, Postgres, statement}

abbrev pub same_int : ℤ → ℤ → Bool
same_int (pos m) (pos n) = eqb m n
same_int (pos m) (negsuc n) = false
same_int (negsuc m) (pos n) = false
same_int (negsuc m) (negsuc n) = eqb m n

-- the conflict of ON CONFLICT (osm_id, osm_type) WHERE osm_id <> 0
abbrev pub same_osm : Place → Place → Bool
same_osm p q =
    not (same_int p.osm_id (pos 0)) && (same_int p.osm_id q.osm_id && p.osm_type == q.osm_type)

-- DO UPDATE SET, by the columns of DoUpdates
unfoldable pub update_columns : Place → Place → Place
update_columns p q = record q {
  name = p.name;
  lat = p.lat;
  lng = p.lng;
  category = p.category;
  rank = p.rank;
  tags = p.tags;
  external_ids = p.external_ids;
  status = p.status;
  updated_at = p.updated_at;
}

-- The id of the row, and the table.
unfoldable pub upsert_row : Place → List Place → String × List Place
upsert_row p [] = (p.id, p ∷ [])
upsert_row p (q ∷ qs) =
    let (id, rest) = upsert_row p qs in
    if same_osm p q then (q.id, update_columns p q ∷ qs) else (id, q ∷ rest)

unfoldable pub upsert_rows : List Place → List Place → List Place × List Place
upsert_rows [] rows = ([], rows)
upsert_rows (p ∷ ps) rows =
    let (id, rows') = upsert_row p rows in
    let (ps', rows'') = upsert_rows ps rows' in (record p { id = id } ∷ ps', rows'')

-- The row that has the key of a place.
unfoldable pub find_osm : Place → List Place → Option Place
find_osm p [] = none
find_osm p (q ∷ qs) = let rest = find_osm p qs in if same_osm p q then some q else rest

-- a key twice in one statement
unfoldable pub repeats_key : List Place → Bool
repeats_key [] = false
repeats_key (p ∷ ps) = any (same_osm p) ps || repeats_key ps

unfoldable pub repeats_text : List String → Bool
repeats_text [] = false
repeats_text (s ∷ ss) = any (λ t. s == t) ss || repeats_text ss

-- an inserted row with an id that is taken
unfoldable pub takes_id : List Place → List Place → Bool
unfolding repeats_text
takes_id ps rows =
    let inserted = keep (λ p. not (is_some (find_osm p rows))) ps in
    any (λ p. any (λ q. q.id == p.id) rows) inserted || repeats_text (map (λ p. p.id) inserted)

-- what is set where it is zero: the times by gorm, the id and the status by the database
unfoldable pub filled : (ℕ → String) → Time → ℕ → List Place → List Place
filled gen_random_uuid now n [] = []
filled gen_random_uuid now n (p ∷ ps) =
    record p {
      id = if p.id == "" then gen_random_uuid n else p.id;
      status = if p.status == "" then place_status_active else p.status;
      created_at = if eqb p.created_at 0 then now else p.created_at;
      updated_at = if eqb p.updated_at 0 then now else p.updated_at;
    }
    ∷ filled gen_random_uuid now (suc n) ps

unfoldable pub insert_or_update : List Place → Database → Result (List Place) × Database
unfolding takes_id
insert_or_update ps db =
    let (ps', rows) = upsert_rows ps db.places in
    if repeats_key ps
    then (
      err (
          wrap "upsert places"
            (message "ON CONFLICT DO UPDATE command cannot affect row a second time")),
      db,
    )
    else if takes_id ps db.places
    then (err (wrap "upsert places" unique_violation), db)
    else (ok ps', record db { places = rows })

unfoldable pub upsert_batch : Postgres → (ℕ → String) → List Place → Exec Database (List Place)
unfolding filled insert_or_update
upsert_batch pg gen_random_uuid [] db = (ok [], db)
upsert_batch pg gen_random_uuid (p ∷ ps) db =
    statement pg "upsert places"
      (insert_or_update (filled gen_random_uuid (pg.now db.statements) 0 (p ∷ ps))) db
