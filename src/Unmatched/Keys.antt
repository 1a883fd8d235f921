-- ===== src/Unmatched/Keys.antt =====
-- The constraints of the table: the key (source, source_id) and the id are unique, and every id was
-- drawn from the sequence.
use inwheel_api.Common.{
  ℕ, ◌+◌, ◌<◌, ◌≤◌, String, eq_iff, ◌≡◌, ◌≢◌, refl, ◌∙◌, Bool, true, false, List, [], ◌∷◌, arith,
  any, eqb, if◌then◌else◌, Bool-cases, inl, inr,
}
use inwheel_api.Common.Result.{Result}
use inwheel_api.Models.{Time, UnmatchedExternal}
use inwheel_api.Database.{Database, Postgres, statement}
use inwheel_api.Unmatched.{
  same_key, upsert_rows, enqueue, has_id, bump_rows, bump_attempts, delete_rows, delete,
}

abbrev pub has_key : String → String → List UnmatchedExternal → Bool
has_key source source_id rows = any (same_key source source_id) rows

abbrev pub IsKeyed : ℕ → List UnmatchedExternal → Type 0
IsKeyed n [] = Unit
IsKeyed n (r ∷ rs) =
    (r.id < n) × (has_key r.source r.source_id rs ≡ false) × (has_id r.id rs ≡ false) × IsKeyed n rs

IsKeyed-mono : (m n : ℕ) (rows : List UnmatchedExternal) → m ≤ n → IsKeyed m rows → IsKeyed n rows
IsKeyed-mono m n [] h k = tt
IsKeyed-mono m n (r ∷ rs) h k = (omega arith, k.1, k.2, IsKeyed-mono m n rs h k.3)

has_key-upsert :
    (u : UnmatchedExternal) (id : ℕ) (s i : String) (rows : List UnmatchedExternal)
    → same_key s i u ≡ false
    → has_key s i (upsert_rows u id rows) ≡ has_key s i rows
unfolding upsert_rows
has_key-upsert u id s i [] h = rw h
has_key-upsert u id s i (r ∷ rs) h = elim (Bool-cases (same_key u.source u.source_id r)) [
  | inl e ↦ rw e
  | inr e ↦ rw (e, has_key-upsert u id s i rs h)
]

has_id-upsert :
    (u : UnmatchedExternal) (id j : ℕ) (rows : List UnmatchedExternal)
    → j ≢ id
    → has_id j (upsert_rows u id rows) ≡ has_id j rows
unfolding upsert_rows
has_id-upsert u id j [] h = ground arith
has_id-upsert u id j (r ∷ rs) h = elim (Bool-cases (same_key u.source u.source_id r)) [
  | inl e ↦ rw e
  | inr e ↦ rw (e, has_id-upsert u id j rs h)
]

same_key_symm :
    (r u : UnmatchedExternal)
    → same_key u.source u.source_id r ≡ false
    → same_key r.source r.source_id u ≡ false
same_key_symm r u h = ground (
  arith,
  eq_iff r.source u.source,
  eq_iff u.source r.source,
  eq_iff r.source_id u.source_id,
  eq_iff u.source_id r.source_id,
)

upsert_rows-IsKeyed :
    (u : UnmatchedExternal) (n : ℕ) (rows : List UnmatchedExternal)
    → IsKeyed n rows
    → IsKeyed (n + 1) (upsert_rows u n rows)
unfolding upsert_rows
upsert_rows-IsKeyed u n [] k = (omega arith, refl, refl, tt)
upsert_rows-IsKeyed u n (r ∷ rs) k = elim (Bool-cases (same_key u.source u.source_id r)) [
  | inl e ↦ rw e (omega arith, k.1, k.2, IsKeyed-mono n (n + 1) rs (omega arith) k.3)
  | inr e ↦ rw e (
    omega arith,
    rw (has_key-upsert u n r.source r.source_id rs (same_key_symm r u e)) k.1,
    rw (has_id-upsert u n r.id rs (λ q. omega arith)) k.2,
    upsert_rows-IsKeyed u n rs k.3,
  )
]

has_key-bump :
    (id : ℕ) (t : Time) (s i : String) (rows : List UnmatchedExternal)
    → has_key s i (bump_rows id t rows) ≡ has_key s i rows
unfolding bump_rows
has_key-bump id t s i [] = refl
has_key-bump id t s i (r ∷ rs) = elim (Bool-cases (eqb r.id id)) [
  | inl e ↦ rw (e, has_key-bump id t s i rs)
  | inr e ↦ rw (e, has_key-bump id t s i rs)
]

has_id-bump :
    (id j : ℕ) (t : Time) (rows : List UnmatchedExternal)
    → has_id j (bump_rows id t rows) ≡ has_id j rows
unfolding bump_rows
has_id-bump id j t [] = refl
has_id-bump id j t (r ∷ rs) = elim (Bool-cases (eqb r.id id)) [
  | inl e ↦ rw (e, has_id-bump id j t rs)
  | inr e ↦ rw (e, has_id-bump id j t rs)
]

IsKeyed-cons :
    (n : ℕ) (r : UnmatchedExternal) (rs rs' : List UnmatchedExternal)
    → IsKeyed n (r ∷ rs)
    → has_key r.source r.source_id rs' ≡ has_key r.source r.source_id rs
    → has_id r.id rs' ≡ has_id r.id rs
    → IsKeyed n rs'
    → IsKeyed n (r ∷ rs')
IsKeyed-cons n r rs rs' k e f h = (k.0, e ∙ k.1, f ∙ k.2, h)

bump_rows-IsKeyed :
    (id : ℕ) (t : Time) (n : ℕ) (rows : List UnmatchedExternal)
    → IsKeyed n rows
    → IsKeyed n (bump_rows id t rows)
unfolding bump_rows
bump_rows-IsKeyed id t n [] k = tt
bump_rows-IsKeyed id t n (r ∷ rs) k =
    let ih = bump_rows-IsKeyed id t n rs k.3 in
    elim (Bool-cases (eqb r.id id)) [
      | inl e ↦ rw e (
          IsKeyed-cons n r rs _ k (has_key-bump id t r.source r.source_id rs)
            (has_id-bump id r.id t rs) ih)
      | inr e ↦ rw e (
          IsKeyed-cons n r rs _ k (has_key-bump id t r.source r.source_id rs)
            (has_id-bump id r.id t rs) ih)
    ]

any-delete :
    (p : UnmatchedExternal → Bool) (id : ℕ) (rows : List UnmatchedExternal)
    → any p rows ≡ false
    → any p (delete_rows id rows) ≡ false
unfolding delete_rows
any-delete p id [] h = refl
any-delete p id (r ∷ rs) h = ground (arith, any-delete p id rs)

delete_rows-IsKeyed :
    (id n : ℕ) (rows : List UnmatchedExternal) → IsKeyed n rows → IsKeyed n (delete_rows id rows)
unfolding delete_rows
delete_rows-IsKeyed id n [] k = tt
delete_rows-IsKeyed id n (r ∷ rs) k = elim (Bool-cases (eqb r.id id)) [
  | inl e ↦ rw e (delete_rows-IsKeyed id n rs k.3)
  | inr e ↦
      rw e (k.0, any-delete _ id rs k.1, any-delete _ id rs k.2, delete_rows-IsKeyed id n rs k.3)
]

-- The constraints of the table, as an invariant of the database.
abbrev pub QueueIsKeyed : Database → Type 0
QueueIsKeyed db = IsKeyed db.next_queue_id db.queue

statement-QueueIsKeyed :
    {A : Type 0} (pg : Postgres) (text : String) (body : Database → Result A × Database)
    (db : Database)
    → ((db' : Database) → QueueIsKeyed db' → QueueIsKeyed (body db').1)
    → QueueIsKeyed db
    → QueueIsKeyed (statement pg text body db).1
unfolding statement
statement-QueueIsKeyed pg text body db keep h = elim (Bool-cases (pg.fails db.statements)) [
  | inl e ↦ rw e h
  | inr e ↦ rw e (keep (record db { statements = db.statements + 1 }) h)
]

guarded :
    (found : Bool) (a b : Result (Unit {0})) (db db' : Database)
    → QueueIsKeyed db
    → QueueIsKeyed db'
    → QueueIsKeyed (if◌then◌else◌ {A = Result (Unit {0}) × Database} found (a, db) (b, db')).1
guarded true a b db db' h k = h
guarded false a b db db' h k = k

-- Where the keys and the ids of the queue are unique and the ids are below the next of the sequence,
-- they are so after an enqueue, a count of an attempt and a delete, whether the statement fails,
-- finds no row or changes one.
pub queue_operations-QueueIsKeyed :
    (pg : Postgres) (db : Database) (u : UnmatchedExternal) (id : ℕ) (t : Time)
    → QueueIsKeyed db
    → QueueIsKeyed (enqueue pg u db).1
      × QueueIsKeyed (bump_attempts pg id t db).1
      × QueueIsKeyed (delete pg id db).1
unfolding enqueue bump_attempts delete
queue_operations-QueueIsKeyed pg db u id t h = (
  statement-QueueIsKeyed pg _ _ db (λ db' k. upsert_rows-IsKeyed u db'.next_queue_id db'.queue k) h,
  statement-QueueIsKeyed pg _ _ db
      (λ db' k.
        guarded (has_id id db'.queue) _ _ _ _ (bump_rows-IsKeyed id t db'.next_queue_id db'.queue k)
          k)
      h,
  statement-QueueIsKeyed pg _ _ db
      (λ db' k.
        guarded (has_id id db'.queue) _ _ _ _ (delete_rows-IsKeyed id db'.next_queue_id db'.queue k)
          k)
      h,
)
