-- ===== src/Draining/Kept.antt =====
-- What the sweep over the repositories leaves of the places.
use inwheel_api.Common.{
  ℕ, String, ◌≡◌, refl, ap, ◌∙◌, inl, inr, ◌==◌, any, List, [], ◌∷◌, map, Bool-cases,
}
use inwheel_api.Common.Result.{Result, ok, err}
use inwheel_api.Float64.{Float64, Arithmetic}
use inwheel_api.Models.{Time, Category, ExternalRef, Place, UnmatchedExternal}
use inwheel_api.Identity.Normalize.{Unicode}
use inwheel_api.Identity.Match.{Kind, no_match, low_confidence, confident, Decision, match}
use inwheel_api.Identity.Sweep.{
  SweepResult, Sweeper, record_of_row, counted, delete_attached, settle, settle_matched, sweep_row,
  sweep_rows, sweep_found, sweep,
}
use inwheel_api.Database.{Database, Postgres, statement}
use inwheel_api.Unmatched.{find_candidates_near_touched, bump_attempts, has_id}
use inwheel_api.Unmatched.Rows.{places-delete}
use inwheel_api.Places.{attach_rows, attach_external_ref, is_finite}
use inwheel_api.Places.Refs.{find_candidates_reads}
use inwheel_api.Draining.{sweeper}

-- A property of the state that each operation of the interfaces keeps.
record Preserves {S : Type 0} (sw : Sweeper S) (P : S → Type 0) : Type 0 where
  finds :
      (lat lng radius_m : Float64) (cs : List Category) (s : S)
      → P s
      → P (sw.candidates.find_candidates lat lng radius_m cs s).1
  attaches :
      (id source : String) (ref : ExternalRef) (s : S)
      → P s
      → P (sw.places.attach_external_ref id source ref s).1
  nears :
      (ids : List String) (radius_m : Float64) (s : S)
      → P s
      → P (sw.queue.find_candidates_near_touched ids radius_m s).1
  bumps : (id : ℕ) (t : Time) (s : S) → P s → P (sw.queue.bump_attempts id t s).1
  deletes : (id : ℕ) (s : S) → P s → P (sw.queue.delete id s).1

module _ {S : Type 0} (sw : Sweeper S) (P : S → Type 0) (preserves : Preserves sw P) where
  counted-Keeps :
      (kind : Kind) (res : SweepResult) (r : Result (Unit {0}) × S)
      → P r.1
      → P (counted kind res r).1
  unfolding counted
  counted-Keeps kind res (ok u, s) h = h
  counted-Keeps kind res (err e, s) h = h

  delete_attached-Keeps :
      (row : UnmatchedExternal) (kind : Kind) (res : SweepResult) (r : Result (Unit {0}) × S)
      → P r.1
      → P (delete_attached sw row kind res r).1
  unfolding delete_attached
  delete_attached-Keeps row kind res (ok u, s) h =
      counted-Keeps kind res _ (preserves.deletes row.id s h)
  delete_attached-Keeps row kind res (err e, s) h = h

  settle-Keeps :
      (now : Time) (row : UnmatchedExternal) (kind : Kind) (d : Decision) (res : SweepResult)
      (s : S)
      → P s
      → P (settle sw now row kind d res s).1
  unfolding settle
  settle-Keeps now row no_match d res s h =
      counted-Keeps no_match res _ (preserves.bumps row.id now s h)
  settle-Keeps now row low_confidence d res s h =
      delete_attached-Keeps row low_confidence res _ (preserves.attaches _ _ _ s h)
  settle-Keeps now row confident d res s h =
      delete_attached-Keeps row confident res _ (preserves.attaches _ _ _ s h)

  settle_matched-Keeps :
      (now : Time) (row : UnmatchedExternal) (res : SweepResult) (r : Result Decision × S)
      → P r.1
      → P (settle_matched sw now row res r).1
  unfolding settle_matched
  settle_matched-Keeps now row res (err e, s) h = h
  settle_matched-Keeps now row res (ok d, s) h = settle-Keeps now row d.kind d res s h

  module _ (arithmetic : Arithmetic) (unicode : Unicode) (now : UnmatchedExternal → Time) where
    sweep_rows-Keeps :
        (rows : List UnmatchedExternal) (res : SweepResult) (s : S)
        → P s
        → P (sweep_rows arithmetic unicode sw now rows res s).1
    unfolding sweep_rows sweep_row match
    sweep_rows-Keeps [] res s h = h
    sweep_rows-Keeps (row ∷ rows) res s h =
        let matched = match arithmetic unicode sw.candidates (record_of_row row) s in
        sweep_rows-Keeps rows _ _
          (settle_matched-Keeps (now row) row res matched (preserves.finds _ _ _ _ s h))

    sweep_found-Keeps :
        (r : Result (List UnmatchedExternal) × S)
        → P r.1
        → P (sweep_found arithmetic unicode sw now r).1
    unfolding sweep_found
    sweep_found-Keeps (err e, s) h = h
    sweep_found-Keeps (ok rows, s) h = sweep_rows-Keeps rows _ s h

    sweep-Keeps : (ids : List String) (s : S) → P s → P (sweep arithmetic unicode sw now ids s).1
    unfolding sweep
    sweep-Keeps [] s h = h
    sweep-Keeps (id ∷ ids) s h = sweep_found-Keeps _ (preserves.nears _ _ s h)

-- The columns of a place but its references and the time of its update.
abbrev pub lasting : Place → Place
lasting p = record p { external_ids = []; updated_at = 0 }

map-attach_rows :
    (id source : String) (ref : ExternalRef) (now : Time) (ps : List Place)
    → map lasting (attach_rows id source ref now ps) ≡ map lasting ps
unfolding attach_rows
map-attach_rows id source ref now [] = refl
map-attach_rows id source ref now (p ∷ ps) = elim (Bool-cases (p.id == id)) [
  | inl e ↦ rw (e, map-attach_rows id source ref now ps) refl
  | inr e ↦ rw (e, map-attach_rows id source ref now ps) refl
]

attached-lasting :
    (pg : Postgres) (id source : String) (ref : ExternalRef) (db : Database)
    → map lasting (attach_external_ref pg id source ref db).1.places ≡ map lasting db.places
unfolding attach_external_ref statement
attached-lasting pg id source ref db = elim (Bool-cases (is_finite ref.confidence)) [
  | inr n ↦ rw n refl
  | inl n ↦ elim (Bool-cases (pg.fails db.statements)) [
    | inl f ↦ rw (n, f) refl
    | inr f ↦ elim (Bool-cases (any (λ p. p.id == id) db.places)) [
      | inr m ↦ rw (n, f, m) refl
      | inl m ↦ rw (n, f, m) (map-attach_rows id source ref (pg.now db.statements) db.places)
    ]
  ]
]

places-near :
    (pg : Postgres) (ids : List String) (radius_m : Float64) (db : Database)
    → (find_candidates_near_touched pg ids radius_m db).1.places ≡ db.places
unfolding find_candidates_near_touched statement
places-near pg [] radius_m db = refl
places-near pg (id ∷ ids) radius_m db = elim (Bool-cases (pg.fails db.statements)) [
  | inl f ↦ rw f refl
  | inr f ↦ rw f refl
]

places-bump :
    (pg : Postgres) (id : ℕ) (t : Time) (db : Database)
    → (bump_attempts pg id t db).1.places ≡ db.places
unfolding bump_attempts statement
places-bump pg id t db = elim (Bool-cases (pg.fails db.statements)) [
  | inl f ↦ rw f refl
  | inr f ↦ elim (Bool-cases (has_id id db.queue)) [
    | inl h ↦ rw (f, h) refl
    | inr h ↦ rw (f, h) refl
  ]
]

repositories-Preserve :
    (pg : Postgres) (places : List Place)
    → Preserves (sweeper pg) (λ db. map lasting db.places ≡ map lasting places)
repositories-Preserve pg places = record {
  finds = λ lat lng radius_m cs db h.
      ap (map lasting) (find_candidates_reads pg lat lng radius_m cs db).1 ∙ h;
  attaches = λ id source ref db h. attached-lasting pg id source ref db ∙ h;
  nears = λ ids radius_m db h. ap (map lasting) (places-near pg ids radius_m db) ∙ h;
  bumps = λ id t db h. ap (map lasting) (places-bump pg id t db) ∙ h;
  deletes = λ id db h. ap (map lasting) (places-delete pg id db) ∙ h;
}

-- A whole sweep over the repositories, whichever statements fail, leaves the table of places as it
-- is, row by row, but for the references of the places and the times of their updates.
pub sweep-lasting :
    (arithmetic : Arithmetic) (unicode : Unicode) (pg : Postgres) (now : UnmatchedExternal → Time)
    (ids : List String) (db : Database)
    → map lasting (sweep arithmetic unicode (sweeper pg) now ids db).1.places
      ≡ map lasting db.places
sweep-lasting arithmetic unicode pg now ids db =
    sweep-Keeps (sweeper pg) _ (repositories-Preserve pg db.places) arithmetic unicode now ids db
      refl
