-- ===== src/Ingestion/Pipeline/Rows.antt =====
-- A canonical import whose batches are written by UpsertBatch, as cmd/ingestion/main.go wires it.
use mathlib.Core.Path.{subst}
use inwheel_api.Common.{
  map, sym, ap, ◌∙◌, ℕ, suc, String, ◌≡◌, refl, Bool, true, Option, none, some, List, [], ◌∷◌, ◌++◌,
  All, is_some, Bool-cases, inl, inr,
}
use inwheel_api.Common.Result.{Error, Result, ok, err, Exec}
use inwheel_api.Float64.{Arithmetic}
use inwheel_api.Models.{UnmatchedExternal, Time, Place, AccessibilityProfile}
use inwheel_api.A11y.{with_audit_flags}
use inwheel_api.Osm.Import.{Object}
use inwheel_api.Osm.Import.Delivers.{pois}
use inwheel_api.Identity.Normalize.{Unicode}
use inwheel_api.Identity.Sweep.{SweepResult, sweep}
use inwheel_api.Profiles.{Tx, upsert_profile_ingestion}
use inwheel_api.Profiles.Verified.{upsert-Keeps}
use inwheel_api.Draining.{sweeper}
use inwheel_api.Draining.Kept.{lasting, sweep-lasting}
use inwheel_api.Database.{Database, Postgres, statement, tick}
use inwheel_api.Places.Batch.{
  same_osm, update_columns, upsert_row, upsert_rows, find_osm, repeats_key, takes_id, filled,
  insert_or_update, upsert_batch,
}
use inwheel_api.Places.Batch.Found.{same_osm_trans}
use inwheel_api.Ingestion.Batcher.{ProfileWriter, Writers}
use inwheel_api.Ingestion.Batcher.Written.{places_of, Writes}
use inwheel_api.Ingestion.Pipeline.{osm_source, audited_writer, run_canonical}
use inwheel_api.Ingestion.Pipeline.Stored.{run_canonical-Has}

-- UpsertBatch as the flush of the batcher; the places of a batch that fails are not read again.
unfoldable pub flush_answer :
    List Place → Result (List Place) × Database → (Option Error × List Place) × Database
flush_answer ps (ok ps', db) = ((none, ps'), db)
flush_answer ps (err e, db) = ((some e, ps), db)

abbrev pub flush_batch :
    Postgres → (ℕ → String) → List Place → Database → (Option Error × List Place) × Database
flush_batch pg gen_random_uuid ps db = flush_answer ps (upsert_batch pg gen_random_uuid ps db)

-- UpsertProfileIngestion
abbrev pub Upsert : Type 0
Upsert = String → Option AccessibilityProfile → Exec Database Bool

-- The literal of the batcher in runCanonical, for a batch size.
abbrev pub writers_of : Postgres → (ℕ → String) → ℕ → Upsert → Writers Database
writers_of pg gen_random_uuid size upsert = record {
  size = size;
  flush = flush_batch pg gen_random_uuid;
  write_profile = some (audited_writer upsert);
}

found_first :
    (r p : Place) (rows : List Place)
    → is_some (find_osm r rows) ≡ true
    → is_some (find_osm r (p ∷ rows)) ≡ true
unfolding find_osm
found_first r p rows h = elim (Bool-cases (same_osm r p)) [ inl e ↦ rw e refl | inr e ↦ rw e h ]

kept :
    (p r : Place) (rows : List Place)
    → is_some (find_osm r rows) ≡ true
    → is_some (find_osm r (upsert_row p rows).1) ≡ true
unfolding find_osm upsert_row update_columns
kept p r [] h = absurd cc
kept p r (q ∷ qs) h = elim (Bool-cases (same_osm r q)) [
  | inl f ↦ elim (Bool-cases (same_osm p q)) [ inl e ↦ rw (e, f) refl | inr e ↦ rw (e, f) refl ]
  | inr f ↦ elim (Bool-cases (same_osm p q)) [
    | inl e ↦ rw (e, f) (rw f at h)
    | inr e ↦ rw (e, f) (kept p r qs (rw f at h))
  ]
]

own :
    (p r : Place) (rows : List Place)
    → same_osm r p ≡ true
    → is_some (find_osm r (upsert_row p rows).1) ≡ true
unfolding find_osm upsert_row update_columns
own p r [] h = rw h refl
own p r (q ∷ qs) h = elim (Bool-cases (same_osm p q)) [
  | inl e ↦ rw (e, same_osm_trans p q r e, h) refl
  | inr e ↦ rw e (found_first r q (upsert_row p qs).1 (own p r qs h))
]

kept_rows :
    (ps : List Place) (r : Place) (rows : List Place)
    → is_some (find_osm r rows) ≡ true
    → is_some (find_osm r (upsert_rows ps rows).1) ≡ true
unfolding upsert_rows
kept_rows [] r rows h = h
kept_rows (p ∷ ps) r rows h = kept_rows ps r (upsert_row p rows).1 (kept p r rows h)

-- Each place of OpenStreetMap has a row.
abbrev pub HaveRows : List Place → List Place → Type 0
HaveRows all rows = All (λ p. same_osm p p ≡ true → is_some (find_osm p rows) ≡ true) all

HaveRows-filled :
    (gen_random_uuid : ℕ → String) (now : Time) (n : ℕ) (ps rows : List Place)
    → HaveRows ps (upsert_rows (filled gen_random_uuid now n ps) rows).1
unfolding upsert_rows filled
HaveRows-filled gen_random_uuid now n [] rows = tt
HaveRows-filled gen_random_uuid now n (p ∷ ps) rows =
    let p' = filled gen_random_uuid now n (p ∷ []) in
    (
      λ h. kept_rows (filled gen_random_uuid now (suc n) ps) p _ (own _ p rows h),
      HaveRows-filled gen_random_uuid now (suc n) ps _,
    )

HaveRows-kept :
    (all ps rows : List Place) → HaveRows all rows → HaveRows all (upsert_rows ps rows).1
HaveRows-kept [] ps rows h = tt
HaveRows-kept (p ∷ all) ps rows h =
    (λ k. kept_rows ps p rows (h.0 k), HaveRows-kept all ps rows h.1)

HaveRows-++ :
    (all ps rows : List Place) → HaveRows all rows → HaveRows ps rows → HaveRows (all ++ ps) rows
HaveRows-++ [] ps rows h k = k
HaveRows-++ (p ∷ all) ps rows h k = (h.0, HaveRows-++ all ps rows h.1 k)

inserted-HaveRows :
    (gen_random_uuid : ℕ → String) (now : Time) (all ps qs : List Place) (db : Database)
    → (flush_answer qs (insert_or_update (filled gen_random_uuid now 0 ps) db)).0.0 ≡ none
    → HaveRows all db.places
    → HaveRows
        (all ++ ps)
        (flush_answer qs (insert_or_update (filled gen_random_uuid now 0 ps) db)).1.places
unfolding insert_or_update flush_answer
inserted-HaveRows gen_random_uuid now all ps qs db h k =
    let batch = filled gen_random_uuid now 0 ps in
    elim (Bool-cases (repeats_key batch)) [
      | inl e ↦ let x = rw e at h in absurd cc
      | inr e ↦ elim (Bool-cases (takes_id batch db.places)) [
        | inl f ↦ let x = rw (e, f) at h in absurd cc
        | inr f ↦
            rw (e, f)
              (HaveRows-++ all ps _ (HaveRows-kept all batch db.places k)
                (HaveRows-filled gen_random_uuid now 0 ps db.places))
      ]
    ]

flush_batch-HaveRows :
    (pg : Postgres) (gen_random_uuid : ℕ → String) (all ps : List Place) (db : Database)
    → (flush_batch pg gen_random_uuid ps db).0.0 ≡ none
    → HaveRows all db.places
    → HaveRows (all ++ ps) (flush_batch pg gen_random_uuid ps db).1.places
unfolding upsert_batch statement flush_answer
flush_batch-HaveRows pg gen_random_uuid all [] db h k = HaveRows-++ all [] db.places k tt
flush_batch-HaveRows pg gen_random_uuid all (p ∷ ps) db h k =
    elim (Bool-cases (pg.fails db.statements)) [
      | inl e ↦ let x = rw e at h in absurd cc
      | inr e ↦ rw e (
          inserted-HaveRows gen_random_uuid (pg.now db.statements) all (p ∷ ps) (p ∷ ps) (tick db)
            (rw e at h) k)
    ]

writers_of-Writes :
    (pg : Postgres) (gen_random_uuid : ℕ → String) (size : ℕ) (upsert : Upsert)
    (same_places : (id : String) (p : Option AccessibilityProfile) (db : Database)
      → (upsert id p db).1.places ≡ db.places)
    → Writes (writers_of pg gen_random_uuid size upsert) (λ all db. HaveRows all db.places)
writers_of-Writes pg gen_random_uuid size upsert same_places = record {
  flushes = flush_batch-HaveRows pg gen_random_uuid;
  profiles = λ all f id p db e h.
      subst
        (λ (o : Option (ProfileWriter Database)).
          HaveRows all (elim o as (λ x. Database) [ none ↦ db | some g ↦ (g id p db).1 ]).places)
        e (rw (same_places id (some (with_audit_flags p)) db) h);
}

HaveRows-mono :
    (all rows rows' : List Place)
    → ((r : Place) → is_some (find_osm r rows) ≡ true → is_some (find_osm r rows') ≡ true)
    → HaveRows all rows
    → HaveRows all rows'
HaveRows-mono [] rows rows' keeps h = tt
HaveRows-mono (p ∷ all) rows rows' keeps h =
    (λ k. keeps p (h.0 k), HaveRows-mono all rows rows' keeps h.1)

-- Where the batches are written by UpsertBatch, the writing of a profile leaves the table of places
-- as it is, and the sweep leaves a row under every key that had one: when a full import of a map file
-- ends without an error, every place of the file that has a key of OpenStreetMap has a row in the
-- table under its key, for any batch size and any rows that the table had before.
pub run_canonical-HaveRows :
    (pg : Postgres) (gen_random_uuid : ℕ → String) (size : ℕ) (upsert : Upsert)
    (same_places : (id : String) (p : Option AccessibilityProfile) (db : Database)
      → (upsert id p db).1.places ≡ db.places)
    (sweep : List String → Exec Database SweepResult)
    (keeps : (ids : List String) (db : Database) (r : Place)
      → is_some (find_osm r db.places) ≡ true
      → is_some (find_osm r (sweep ids db).1.places) ≡ true)
    (arithmetic : Arithmetic) (objects : List (Time × Object)) (scan_error : Option Error)
    (db : Database)
    → (run_canonical
        (osm_source arithmetic none objects scan_error)
        "full-import"
        (writers_of pg gen_random_uuid size upsert)
        sweep
        db).0
      ≡ none
    → HaveRows
        (places_of (pois arithmetic objects))
        (run_canonical
          (osm_source arithmetic none objects scan_error)
          "full-import"
          (writers_of pg gen_random_uuid size upsert)
          sweep
          db).1.places
run_canonical-HaveRows pg gen_random_uuid size upsert same_places sweep keeps arithmetic objects
      scan_error db h =
    run_canonical-Has (writers_of pg gen_random_uuid size upsert) (λ all s. HaveRows all s.places)
      (writers_of-Writes pg gen_random_uuid size upsert same_places) sweep
      (λ all ids s k. HaveRows-mono all s.places (sweep ids s).1.places (keeps ids s) k) arithmetic
      objects scan_error db tt h

find_osm-lasting :
    (r : Place) (ps : List Place) → is_some (find_osm r (map lasting ps)) ≡ is_some (find_osm r ps)
unfolding find_osm
find_osm-lasting r [] = refl
find_osm-lasting r (p ∷ ps) = elim (Bool-cases (same_osm r p)) [
  | inl e ↦ rw e refl
  | inr e ↦ rw e (find_osm-lasting r ps)
]

-- The sweep that runCanonical runs leaves a row under every key that had one.
pub sweep-find_osm :
    (arithmetic : Arithmetic) (unicode : Unicode) (pg : Postgres) (now : UnmatchedExternal → Time)
    (ids : List String) (db : Database) (r : Place)
    → is_some (find_osm r db.places) ≡ true
    → is_some (find_osm r (sweep arithmetic unicode (sweeper pg) now ids db).1.places) ≡ true
sweep-find_osm arithmetic unicode pg now ids db r h =
    sym (find_osm-lasting r (sweep arithmetic unicode (sweeper pg) now ids db).1.places)
    ∙ ap (λ ps. is_some (find_osm r ps)) (sweep-lasting arithmetic unicode pg now ids db)
    ∙ find_osm-lasting r db.places
    ∙ h

-- The calls of gorm in the transaction of a profile leave the table of places as it is.
pub record LeavesPlaces (tx : Tx Database) : Type 0 where
  pub loads :
      (place_id : String) (db : Database) → (tx.load_profile place_id db).1.places ≡ db.places
  pub creates :
      (p : AccessibilityProfile) (db : Database) → (tx.create_profile p db).1.places ≡ db.places
  pub updates :
      (p q : AccessibilityProfile) (db : Database) → (tx.update_profile p q db).1.places ≡ db.places
  pub commits : (db : Database) → (tx.commit db).1.places ≡ db.places
  pub rolls_back : (db db' : Database) → (tx.rollback db db').places ≡ db.places

-- Where they do, so does UpsertProfileIngestion.
pub places-upsert_profile_ingestion :
    (tx : Tx Database)
    → LeavesPlaces tx
    → (now : Time) (place_id : String) (profile : Option AccessibilityProfile) (db : Database)
    → (upsert_profile_ingestion tx now place_id profile db).1.places ≡ db.places
places-upsert_profile_ingestion tx leaves now place_id profile db =
    upsert-Keeps tx (λ s. s.places ≡ db.places)
      record {
        loads = λ id s h. leaves.loads id s ∙ h;
        creates = λ p s e h. leaves.creates p s ∙ h;
        updates = λ p q s e f h. leaves.updates p q s ∙ h;
        commits = λ s h. leaves.commits s ∙ h;
        rolls_back = λ s s' h k. leaves.rolls_back s s' ∙ h;
      }
      now place_id profile db refl
