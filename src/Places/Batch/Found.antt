-- ===== src/Places/Batch/Found.antt =====
-- What the table has of the places of a batch.
use inwheel_api.Common.{
  ℕ, suc, String, ◌==◌, eq_iff, ◌≡◌, refl, sym, ap, ◌∙◌, inl, inr, true, false, Option, none, some,
  List, [], ◌∷◌, any, All, map, arith, Bool-cases,
}
use inwheel_api.Common.Int.{ℤ, pos, negsuc}
use inwheel_api.Common.Result.{ok, ok_inj}
use inwheel_api.Models.{Place, Time}
use inwheel_api.Database.{Database, Postgres, statement, tick}
use inwheel_api.Places.Batch.{
  filled, takes_id, insert_or_update, upsert_batch, same_int, same_osm, update_columns, upsert_row,
  upsert_rows, find_osm, repeats_key,
}

-- A row for a place that the table does not have is the place. A row that it has becomes the place
-- too, but for the columns named here, which the row keeps.
abbrev pub row_of : Place → Option Place → Place
row_of p none = p
row_of p (some q) = record p {
  id = q.id;
  osm_id = q.osm_id;
  osm_type = q.osm_type;
  geometry = q.geometry;
  parent_id = q.parent_id;
  accessibility = q.accessibility;
  source = q.source;
  submitted_by = q.submitted_by;
  submitted_at = q.submitted_at;
  created_at = q.created_at;
}

same_int_trans : (a b c : ℤ) → same_int a b ≡ true → same_int c b ≡ same_int c a
same_int_trans (pos a) (pos b) (pos c) h = ground arith
same_int_trans (pos a) (pos b) (negsuc c) h = refl
same_int_trans (pos a) (negsuc b) c h = absurd cc
same_int_trans (negsuc a) (pos b) c h = absurd cc
same_int_trans (negsuc a) (negsuc b) (pos c) h = refl
same_int_trans (negsuc a) (negsuc b) (negsuc c) h = ground arith

same_text_right : (s t u : String) → (s == t) ≡ true → (u == t) ≡ (u == s)
same_text_right s t u h = ap (λ x. u == x) (sym ((eq_iff s t).0 h))

-- Places with the key of p are told apart from others as p is.
pub same_osm_trans : (p q r : Place) → same_osm p q ≡ true → same_osm r q ≡ same_osm r p
same_osm_trans p q r h =
    let i : same_int p.osm_id q.osm_id ≡ true = ground arith in
    let t : (p.osm_type == q.osm_type) ≡ true = ground arith in
    rw
      (
        same_int_trans p.osm_id q.osm_id r.osm_id i,
        same_text_right p.osm_type q.osm_type r.osm_type t,
      )
      refl

find_osm-upsert_row_same :
    (p : Place) (rows : List Place)
    → same_osm p p ≡ true
    → find_osm p (upsert_row p rows).1 ≡ some (row_of p (find_osm p rows))
unfolding find_osm upsert_row update_columns
find_osm-upsert_row_same p [] h = rw h refl
find_osm-upsert_row_same p (q ∷ qs) h = elim (Bool-cases (same_osm p q)) [
  | inl e ↦ rw (e, e) refl
  | inr e ↦ rw (e, e) (find_osm-upsert_row_same p qs h)
]

find_osm-upsert_row_other :
    (p r : Place) (rows : List Place)
    → same_osm r p ≡ false
    → find_osm r (upsert_row p rows).1 ≡ find_osm r rows
unfolding find_osm upsert_row update_columns
find_osm-upsert_row_other p r [] h = rw h refl
find_osm-upsert_row_other p r (q ∷ qs) h = elim (Bool-cases (same_osm p q)) [
  | inl e ↦ rw (e, same_osm_trans p q r e, h) refl
  | inr e ↦ rw e (rw (find_osm-upsert_row_other p r qs h) refl)
]

id-upsert_row :
    (p : Place) (rows : List Place) → (upsert_row p rows).0 ≡ (row_of p (find_osm p rows)).id
unfolding find_osm upsert_row update_columns
id-upsert_row p [] = refl
id-upsert_row p (q ∷ qs) = elim (Bool-cases (same_osm p q)) [
  | inl e ↦ rw e refl
  | inr e ↦ rw e (id-upsert_row p qs)
]

find_osm-upsert_rows_other :
    (r : Place) (ps rows : List Place)
    → any (same_osm r) ps ≡ false
    → find_osm r (upsert_rows ps rows).1 ≡ find_osm r rows
unfolding upsert_rows
find_osm-upsert_rows_other r [] rows h = refl
find_osm-upsert_rows_other r (p ∷ ps) rows h =
    let first : same_osm r p ≡ false = ground arith in
    let rest : any (same_osm r) ps ≡ false = ground arith in
    find_osm-upsert_rows_other r ps (upsert_row p rows).1 rest
    ∙ find_osm-upsert_row_other p r rows first

same_osm_sym : (p q : Place) → same_osm p p ≡ true → same_osm p q ≡ false → same_osm q p ≡ false
same_osm_sym p q h n = elim (Bool-cases (same_osm q p)) [
  | inl e ↦ let x = same_osm_trans q p p e in absurd (ground arith)
  | inr e ↦ e
]

-- Every place of the batch is found as `found` has it.
abbrev AllFound : List Place → List Place → List Place → Type 0
AllFound ps rows rows' = All (λ p. find_osm p rows' ≡ some (row_of p (find_osm p rows))) ps

shifted :
    (p : Place) (ps rows rows' : List Place)
    → any (same_osm p) ps ≡ false
    → All (λ r. same_osm r r ≡ true) ps
    → same_osm p p ≡ true
    → AllFound ps (upsert_row p rows).1 rows'
    → AllFound ps rows rows'
shifted p [] rows rows' n k h f = tt
shifted p (r ∷ ps) rows rows' n k h f =
    let pr : same_osm p r ≡ false = ground arith in
    let rest : any (same_osm p) ps ≡ false = ground arith in
    (
      f.0
          ∙ ap (λ o. some (row_of r o))
              (find_osm-upsert_row_other p r rows (same_osm_sym p r h pr)),
      shifted p ps rows rows' rest k.1 h f.1,
    )

AllFound-upsert_rows :
    (ps rows : List Place)
    → All (λ p. same_osm p p ≡ true) ps
    → repeats_key ps ≡ false
    → AllFound ps rows (upsert_rows ps rows).1
unfolding upsert_rows repeats_key
AllFound-upsert_rows [] rows k n = tt
AllFound-upsert_rows (p ∷ ps) rows k n =
    let first : any (same_osm p) ps ≡ false = ground arith in
    let rest : repeats_key ps ≡ false = ground arith in
    let rows1 = (upsert_row p rows).1 in
    (
      find_osm-upsert_rows_other p ps rows1 first ∙ find_osm-upsert_row_same p rows k.0,
      shifted p ps rows (upsert_rows ps rows1).1 first k.1 k.0
          (AllFound-upsert_rows ps rows1 k.1 rest),
    )

abbrev pub id_of : Option Place → Option String
id_of none = none
id_of (some p) = some p.id

-- The ids that come back are those of the rows.
ids-upsert_rows :
    (ps rows : List Place)
    → All (λ p. same_osm p p ≡ true) ps
    → repeats_key ps ≡ false
    → map (λ p. some p.id) (upsert_rows ps rows).0
      ≡ map (λ p. id_of (find_osm p (upsert_rows ps rows).1)) ps
unfolding upsert_rows repeats_key
ids-upsert_rows [] rows k n = refl
ids-upsert_rows (p ∷ ps) rows k n =
    let first : any (same_osm p) ps ≡ false = ground arith in
    let rest : repeats_key ps ≡ false = ground arith in
    let rows1 = (upsert_row p rows).1 in
    let found = find_osm-upsert_rows_other p ps rows1 first ∙ find_osm-upsert_row_same p rows k.0 in
    rw (found, id-upsert_row p rows, ids-upsert_rows ps rows1 k.1 rest) refl

filled-keys :
    (gen_random_uuid : ℕ → String) (now : Time) (n : ℕ) (ps : List Place)
    → All (λ p. same_osm p p ≡ true) ps
    → All (λ p. same_osm p p ≡ true) (filled gen_random_uuid now n ps)
unfolding filled
filled-keys gen_random_uuid now n [] k = tt
filled-keys gen_random_uuid now n (p ∷ ps) k = (k.0, filled-keys gen_random_uuid now (suc n) ps k.1)

-- What a batch, as it is sent, leaves of a table: each of its places is found under its key, as
-- `row_of` has it; the ids that come back are those of the rows; another key has the row that it had.
pub record IsUpserted (ps rows ps' rows' : List Place) : Type 0 where
  pub found : All (λ p. find_osm p rows' ≡ some (row_of p (find_osm p rows))) ps
  pub ids : map (λ p. some p.id) ps' ≡ map (λ p. id_of (find_osm p rows')) ps
  pub others : (r : Place) → any (same_osm r) ps ≡ false → find_osm r rows' ≡ find_osm r rows

inserted_or_updated :
    (ps ps' : List Place) (db : Database)
    → All (λ p. same_osm p p ≡ true) ps
    → (insert_or_update ps db).0 ≡ ok ps'
    → IsUpserted ps db.places ps' (insert_or_update ps db).1.places
unfolding insert_or_update
inserted_or_updated ps ps' db k h = elim (Bool-cases (repeats_key ps)) [
  | inl e ↦ let x = rw e at h in absurd cc
  | inr e ↦ elim (Bool-cases (takes_id ps db.places)) [
    | inl f ↦ let x = rw (e, f) at h in absurd cc
    | inr f ↦
        let same = ok_inj _ _ (rw (e, f) at h) in
        rw (e, f)
          record {
            found = AllFound-upsert_rows ps db.places k e;
            ids = rw (← same) (ids-upsert_rows ps db.places k e);
            others = λ r n. find_osm-upsert_rows_other r ps db.places n;
          }
  ]
]

nothing-IsUpserted :
    (gen_random_uuid : ℕ → String) (now : Time) (ps' rows : List Place)
    → [] ≡ ps'
    → IsUpserted (filled gen_random_uuid now 0 []) rows ps' rows
unfolding filled
nothing-IsUpserted gen_random_uuid now ps' rows h = record {
  found = tt;
  ids = rw (← h) refl;
  others = λ r n. refl;
}

-- Where UpsertBatch returns no error, for places from OpenStreetMap: each place of the batch, as it is
-- sent, is the row of its key; but if the table had a row for the key, then that row's id, key,
-- geometry, parent, source, submitter and times of submission and creation stay, while the name, the
-- coordinates, the category, the rank, the tags, the external_ids, the status and the time of the
-- update are the place's. The ids that come back are those of the rows, and every key that is not in
-- the batch has the row that it had.
pub upsert_batch-find_osm :
    (pg : Postgres) (gen_random_uuid : ℕ → String) (ps ps' : List Place) (db : Database)
    → All (λ p. same_osm p p ≡ true) ps
    → (upsert_batch pg gen_random_uuid ps db).0 ≡ ok ps'
    → IsUpserted
        (filled gen_random_uuid (pg.now db.statements) 0 ps)
        db.places
        ps'
        (upsert_batch pg gen_random_uuid ps db).1.places
unfolding upsert_batch statement
upsert_batch-find_osm pg gen_random_uuid [] ps' db k h =
    nothing-IsUpserted gen_random_uuid (pg.now db.statements) ps' db.places (ok_inj _ _ h)
upsert_batch-find_osm pg gen_random_uuid (p ∷ ps) ps' db k h =
    elim (Bool-cases (pg.fails db.statements)) [
      | inl e ↦ let x = rw e at h in absurd cc
      | inr e ↦
          let batch = filled gen_random_uuid (pg.now db.statements) 0 (p ∷ ps) in
          let keys = filled-keys gen_random_uuid (pg.now db.statements) 0 (p ∷ ps) k in
          rw e (inserted_or_updated batch ps' (tick db) keys (rw e at h))
    ]
