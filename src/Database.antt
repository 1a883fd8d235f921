-- ===== src/Database.antt =====
-- The tables that the raw SQL of the repositories reads and writes (internal/db/migrations), and
-- what PostgreSQL and PostGIS decide: which statement fails, the distance predicate, the order of a
-- query and the clock. A failed statement changes nothing but the count of statements.
use inwheel_api.Common.{ℕ, ◌+◌, String, Bool, List, if◌then◌else◌}
use inwheel_api.Common.Result.{message, wrap, err, Exec}
use inwheel_api.Float64.{Float64}
use inwheel_api.Models.{Time, Place, UnmatchedExternal}

pub record Database : Type 0 where
  -- places; the profiles are in a table of their own, so `accessibility` is none in these rows
  pub places : List Place
  -- unmatched_external
  pub queue : List UnmatchedExternal
  -- the sequence of the BIGSERIAL column `id` of unmatched_external
  pub next_queue_id : ℕ
  pub statements : ℕ

pub record Postgres : Type 0 where
  -- whether the n-th statement ends in an error
  pub fails : ℕ → Bool
  -- NOW() in the n-th statement
  pub now : ℕ → Time
  -- ST_DWithin(geography(ST_Point(lng, lat)), geography(ST_Point(lng', lat')), radius)
  pub within : Float64 → Float64 → Float64 → Float64 → Float64 → Bool
  -- ORDER BY ST_Distance(..., geography(ST_Point(lng, lat))) ASC
  pub order_by_distance : Float64 → Float64 → List Place → List Place

abbrev pub tick : Database → Database
tick db = record db { statements = db.statements + 1 }

-- One statement; `text` is the text of fmt.Errorf("<text>: %w", tx.Error).
unfoldable pub statement : {A : Type 0} → Postgres → String → Exec Database A → Exec Database A
statement pg text body db =
    if pg.fails db.statements
    then (err (wrap text (message "database")), tick db)
    else body (tick db)
