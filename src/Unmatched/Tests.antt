-- ===== src/Unmatched/Tests.antt =====
-- The queue operations on a queue of one row.
use inwheel_api.Common.{String, ◌≡◌, ◌⊎◌, refl, true, false, some, if◌then◌else◌, arith}
use inwheel_api.Common.Result.{message, wrap, ok, err}
use inwheel_api.Database.{tick}
use inwheel_api.Unmatched.{same_key, has_id, enqueue, bump_attempts, delete}
use inwheel_api.Unmatched.Keys.{QueueIsKeyed, queue_operations-QueueIsKeyed}
use inwheel_api.Unmatched.Rows.{find_key, enqueued, IsAhead, enqueue_outcome}
use inwheel_api.Samples.{postgres, database, bakery_row}

database-QueueIsKeyed : QueueIsKeyed database
database-QueueIsKeyed = (omega arith, refl, refl, tt)

queue_operations-QueueIsKeyed_example :
    QueueIsKeyed (enqueue postgres bakery_row database).1
    × QueueIsKeyed (bump_attempts postgres 4 9 database).1
    × QueueIsKeyed (delete postgres 4 database).1
queue_operations-QueueIsKeyed_example =
    queue_operations-QueueIsKeyed postgres database bakery_row 4 9 database-QueueIsKeyed

database-IsAhead : IsAhead database
database-IsAhead = (omega arith, tt)

enqueue_outcome_example :
    (has_id 5 database.queue ≡ false)
    × IsAhead (enqueue postgres bakery_row database).1
    × (((false ≡ true)
          × (enqueue postgres bakery_row database
              ≡ (err (wrap "enqueue unmatched" (message "database")), tick database)))
        ⊎ ((false ≡ false)
            × ((enqueue postgres bakery_row database).0 ≡ ok tt)
            × ((s i : String)
                → find_key s i (enqueue postgres bakery_row database).1.queue ≡ (
                    if same_key s i bakery_row
                    then some (enqueued bakery_row 5 (find_key s i database.queue))
                    else find_key s i database.queue))))
enqueue_outcome_example = enqueue_outcome postgres bakery_row database database-IsAhead
