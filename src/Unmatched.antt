-- ===== src/Unmatched.antt =====
-- internal/unmatched/repository.go: the queue of records that wait for a match.
pub mod Keys
pub mod Rows
mod Tests
use inwheel_api.Common.{
  ℕ, ◌+◌, String, ◌==◌, Bool, not, ◌&&◌, List, [], ◌∷◌, map, any, keep, contains, eqb,
  if◌then◌else◌,
}
use inwheel_api.Common.Result.{message, Result, ok, err, Exec}
use inwheel_api.Float64.{Float64}
use inwheel_api.Models.{Time, Place, UnmatchedExternal}
use inwheel_api.Identity.Resolve.{EnqueueRepo}
use inwheel_api.Identity.Sweep.{SweepRepo}
use inwheel_api.Database.{Database, Postgres, statement}

-- UNIQUE (source, source_id)
abbrev pub same_key : String → String → UnmatchedExternal → Bool
same_key source source_id r = r.source == source && r.source_id == source_id

-- ON CONFLICT (source, source_id) DO UPDATE SET
abbrev pub refresh : UnmatchedExternal → UnmatchedExternal → UnmatchedExternal
refresh u r = record r {
  attempts = r.attempts + 1;
  last_attempted = u.last_attempted;
  payload = u.payload;
  name = u.name;
  category = u.category;
  street = u.street;
  house_number = u.house_number;
  lat = u.lat;
  lng = u.lng;
}

pub upsert_rows : UnmatchedExternal → ℕ → List UnmatchedExternal → List UnmatchedExternal
upsert_rows u id [] = record u { id = id } ∷ []
upsert_rows u id (r ∷ rs) =
    if same_key u.source u.source_id r then refresh u r ∷ rs else r ∷ upsert_rows u id rs

-- The sequence advances whether the row is inserted or refreshed.
unfoldable pub enqueue : Postgres → UnmatchedExternal → Exec Database (Unit {0})
unfolding upsert_rows
enqueue pg u = statement pg "enqueue unmatched" (λ db. (
  ok tt,
  record db {
    queue = upsert_rows u db.next_queue_id db.queue;
    next_queue_id = db.next_queue_id + 1;
  },
))

is_near_touched : Postgres → List String → Float64 → List Place → UnmatchedExternal → Bool
is_near_touched pg touched_ids radius_m places u =
    any (λ p. contains touched_ids p.id && pg.within u.lng u.lat p.lng p.lat radius_m) places

unfoldable pub find_candidates_near_touched :
    Postgres → List String → Float64 → Exec Database (List UnmatchedExternal)
unfolding is_near_touched
find_candidates_near_touched pg [] radius_m db = (ok [], db)
find_candidates_near_touched pg (id ∷ ids) radius_m db =
    statement pg "find candidates near touched"
      (λ db'. (ok (keep (is_near_touched pg (id ∷ ids) radius_m db'.places) db'.queue), db')) db

abbrev pub has_id : ℕ → List UnmatchedExternal → Bool
has_id id rows = any (λ r. eqb r.id id) rows

pub bump_rows : ℕ → Time → List UnmatchedExternal → List UnmatchedExternal
bump_rows id t [] = []
bump_rows id t (r ∷ rs) =
    (if eqb r.id id then record r { attempts = r.attempts + 1; last_attempted = t } else r)
    ∷ bump_rows id t rs

unfoldable pub bump_attempts : Postgres → ℕ → Time → Exec Database (Unit {0})
unfolding bump_rows
bump_attempts pg queue_id last_attempted = statement pg "bump attempts" (λ db.
    if has_id queue_id db.queue
    then (ok tt, record db { queue = bump_rows queue_id last_attempted db.queue })
    else (err (message "bump attempts: queue row not found"), db))

pub delete_rows : ℕ → List UnmatchedExternal → List UnmatchedExternal
delete_rows id [] = []
delete_rows id (r ∷ rs) = let rest = delete_rows id rs in if eqb r.id id then rest else r ∷ rest

pub delete : Postgres → ℕ → Exec Database (Unit {0})
unfolding delete_rows
delete pg queue_id = statement pg "delete unmatched" (λ db.
    if has_id queue_id db.queue
    then (ok tt, record db { queue = delete_rows queue_id db.queue })
    else (err (message "delete unmatched: queue row not found"), db))

-- The compile-time assertions: the repository is both interfaces.
abbrev pub enqueue_repo : Postgres → EnqueueRepo Database
enqueue_repo pg = record { enqueue = enqueue pg }

abbrev pub sweep_repo : Postgres → SweepRepo Database
sweep_repo pg = record {
  find_candidates_near_touched = find_candidates_near_touched pg;
  bump_attempts = bump_attempts pg;
  delete = delete pg;
}
