-- ===== src/Unmatched/Rows.antt =====
-- What each operation does to the row of a key or of an id, and to the other rows.
use inwheel_api.Common.{
  ℕ, ◌+◌, ◌<◌, All, String, eq_iff, eqb_iff, ◌≡◌, refl, ◌⊎◌, inl, inr, true, false, Option, none,
  some, List, [], ◌∷◌, arith, eqb, if◌then◌else◌, Bool-cases,
}
use mathlib.Core.Option
use inwheel_api.Common.Result.{Error, message, wrap, ok, err}
use inwheel_api.Models.{Time, UnmatchedExternal}
use inwheel_api.Database.{Database, Postgres, statement, tick}
use inwheel_api.Unmatched.{
  same_key, upsert_rows, enqueue, has_id, bump_rows, bump_attempts, delete_rows, delete,
}

-- the row of a key
pub find_key : String → String → List UnmatchedExternal → Option UnmatchedExternal
find_key s i [] = none
find_key s i (r ∷ rs) = if same_key s i r then some r else find_key s i rs

-- the row of an id
pub find_id : ℕ → List UnmatchedExternal → Option UnmatchedExternal
find_id id [] = none
find_id id (r ∷ rs) = if eqb r.id id then some r else find_id id rs

-- The row that stands for u once it is enqueued: u under a new id; or u under the old row's id and
-- key, with one more attempt than the old row had.
abbrev pub enqueued : UnmatchedExternal → ℕ → Option UnmatchedExternal → UnmatchedExternal
enqueued u id none = record u { id = id }
enqueued u id (some r) = record u {
  id = r.id;
  source = r.source;
  source_id = r.source_id;
  attempts = r.attempts + 1;
}

-- The next id is above all ids of the queue.
abbrev pub IsAhead : Database → Type 0
IsAhead db = All (λ r. r.id < db.next_queue_id) db.queue

IsAhead-upsert :
    (u : UnmatchedExternal) (n : ℕ) (rows : List UnmatchedExternal)
    → All (λ r. r.id < n) rows
    → All (λ r. r.id < n + 1) (upsert_rows u n rows)
unfolding upsert_rows
IsAhead-upsert u n [] h = (omega arith, tt)
IsAhead-upsert u n (r ∷ rs) h = elim (Bool-cases (same_key u.source u.source_id r)) [
  | inl e ↦ rw e (omega (arith, h.0), ahead rs h.1)
  | inr e ↦ rw e (omega (arith, h.0), IsAhead-upsert u n rs h.1)
]
  where
    ahead : (qs : List UnmatchedExternal) → All (λ r'. r'.id < n) qs → All (λ r'. r'.id < n + 1) qs
    ahead [] k = tt
    ahead (q ∷ qs) k = (omega (arith, k.0), ahead qs k.1)

no_id_ahead :
    (n : ℕ) (rows : List UnmatchedExternal) → All (λ r. r.id < n) rows → has_id n rows ≡ false
no_id_ahead n [] h = refl
no_id_ahead n (r ∷ rs) h =
    let rest : has_id n rs ≡ false = no_id_ahead n rs h.1 in
    let here : r.id < n = h.0 in ground arith

find_key-upsert :
    (u : UnmatchedExternal) (id : ℕ) (s i : String) (rows : List UnmatchedExternal)
    → find_key s i (upsert_rows u id rows)
      ≡ (if same_key s i u then some (enqueued u id (find_key s i rows)) else find_key s i rows)
unfolding find_key upsert_rows
find_key-upsert u id s i [] = refl
find_key-upsert u id s i (r ∷ rs) = ground (
  arith,
  find_key-upsert u id s i rs,
  eq_iff r.source u.source,
  eq_iff r.source_id u.source_id,
  eq_iff r.source s,
  eq_iff r.source_id i,
  eq_iff u.source s,
  eq_iff u.source_id i,
)

pub enqueue_rows :
    (pg : Postgres) (u : UnmatchedExternal) (db : Database)
    → ((pg.fails db.statements ≡ true)
        × (enqueue pg u db ≡ (err (wrap "enqueue unmatched" (message "database")), tick db)))
      ⊎ ((pg.fails db.statements ≡ false)
          × ((enqueue pg u db).0 ≡ ok tt)
          × ((s i : String)
              → find_key s i (enqueue pg u db).1.queue ≡ (
                  if same_key s i u
                  then some (enqueued u db.next_queue_id (find_key s i db.queue))
                  else find_key s i db.queue)))
unfolding enqueue statement
enqueue_rows pg u db = elim (Bool-cases (pg.fails db.statements)) [
  | inl e ↦ inl (e, rw e)
  | inr e ↦ inr (e, rw e, λ s i. rw e (find_key-upsert u db.next_queue_id s i db.queue))
]

IsAhead-enqueue :
    (pg : Postgres) (u : UnmatchedExternal) (db : Database)
    → IsAhead db
    → IsAhead (enqueue pg u db).1
unfolding enqueue statement
IsAhead-enqueue pg u db h = elim (Bool-cases (pg.fails db.statements)) [
  | inl e ↦ rw e h
  | inr e ↦ rw e (IsAhead-upsert u db.next_queue_id db.queue h)
]

-- Where the next id is above all ids of the queue: no row has it, and an enqueue leaves the next id
-- above all ids again. The enqueue fails, with the queue as it was; or it succeeds, and the key of
-- the record then has the record's row: under the next id and with the record's own count of
-- attempts, if the key had no row, and else under the id of the row that it had, with one attempt
-- more than that row. The rows of all other keys are as they were.
pub enqueue_outcome :
    (pg : Postgres) (u : UnmatchedExternal) (db : Database)
    → IsAhead db
    → (has_id db.next_queue_id db.queue ≡ false)
      × IsAhead (enqueue pg u db).1
      × (((pg.fails db.statements ≡ true)
            × (enqueue pg u db ≡ (err (wrap "enqueue unmatched" (message "database")), tick db)))
          ⊎ ((pg.fails db.statements ≡ false)
              × ((enqueue pg u db).0 ≡ ok tt)
              × ((s i : String)
                  → find_key s i (enqueue pg u db).1.queue ≡ (
                      if same_key s i u
                      then some (enqueued u db.next_queue_id (find_key s i db.queue))
                      else find_key s i db.queue))))
enqueue_outcome pg u db h =
    (no_id_ahead db.next_queue_id db.queue h, IsAhead-enqueue pg u db h, enqueue_rows pg u db)

abbrev pub bumped : Time → UnmatchedExternal → UnmatchedExternal
bumped t r = record r { attempts = r.attempts + 1; last_attempted = t }

find_id-bump :
    (id j : ℕ) (t : Time) (rows : List UnmatchedExternal)
    → find_id j (bump_rows id t rows)
      ≡ (if eqb id j then Option.map (bumped t) (find_id j rows) else find_id j rows)
unfolding find_id bump_rows
find_id-bump id j t [] = ground arith
find_id-bump id j t (r ∷ rs) =
    ground (arith, find_id-bump id j t rs, eqb_iff r.id id, eqb_iff r.id j, eqb_iff id j)

find_id-delete :
    (id j : ℕ) (rows : List UnmatchedExternal)
    → find_id j (delete_rows id rows) ≡ (if eqb id j then none else find_id j rows)
unfolding find_id delete_rows
find_id-delete id j [] = ground arith
find_id-delete id j (r ∷ rs) =
    ground (arith, find_id-delete id j rs, eqb_iff r.id id, eqb_iff r.id j, eqb_iff id j)

-- Counting an attempt: the statement fails, or there is no row of that id, and the queue is as it
-- was beside an error; or the row of that id has one more attempt and the new time, and no other
-- row changed.
pub bump_attempts_outcome :
    (pg : Postgres) (id : ℕ) (t : Time) (db : Database)
    → ((e : Error) × ((bump_attempts pg id t db).0 ≡ err e)
        × ((bump_attempts pg id t db).1.queue ≡ db.queue))
      ⊎ (((bump_attempts pg id t db).0 ≡ ok tt)
          × ((j : ℕ)
              → find_id j (bump_attempts pg id t db).1.queue ≡ (
                  if eqb id j
                  then Option.map (bumped t) (find_id j db.queue)
                  else find_id j db.queue)))
unfolding bump_attempts statement
bump_attempts_outcome pg id t db = elim (Bool-cases (pg.fails db.statements)) [
  | inl e ↦ inl (wrap "bump attempts" (message "database"), rw e, rw e)
  | inr e ↦ elim (Bool-cases (has_id id db.queue)) [
    | inl h ↦ inr (rw (e, h), λ j. rw (e, h) (find_id-bump id j t db.queue))
    | inr h ↦ inl (message "bump attempts: queue row not found", rw (e, h), rw (e, h))
  ]
]

-- Deleting: the statement fails, or there is no row of that id, and the queue is as it was beside
-- an error; or no row of that id is left, and no other row changed.
pub delete_outcome :
    (pg : Postgres) (id : ℕ) (db : Database)
    → ((e : Error) × ((delete pg id db).0 ≡ err e) × ((delete pg id db).1.queue ≡ db.queue))
      ⊎ (((delete pg id db).0 ≡ ok tt)
          × ((j : ℕ)
              → find_id j (delete pg id db).1.queue
                ≡ (if eqb id j then none else find_id j db.queue)))
unfolding delete statement
delete_outcome pg id db = elim (Bool-cases (pg.fails db.statements)) [
  | inl e ↦ inl (wrap "delete unmatched" (message "database"), rw e, rw e)
  | inr e ↦ elim (Bool-cases (has_id id db.queue)) [
    | inl h ↦ inr (rw (e, h), λ j. rw (e, h) (find_id-delete id j db.queue))
    | inr h ↦ inl (message "delete unmatched: queue row not found", rw (e, h), rw (e, h))
  ]
]

pub places-delete :
    (pg : Postgres) (id : ℕ) (db : Database) → (delete pg id db).1.places ≡ db.places
unfolding delete statement
places-delete pg id db = elim (Bool-cases (pg.fails db.statements)) [
  | inl e ↦ rw e
  | inr e ↦ elim (Bool-cases (has_id id db.queue)) [ inl h ↦ rw (e, h) | inr h ↦ rw (e, h) ]
]
