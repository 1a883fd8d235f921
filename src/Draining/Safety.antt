-- ===== src/Draining/Safety.antt =====
-- A queue row is deleted only once its reference stands on a place.
use mathlib.Core.Option
use inwheel_api.Common.{
  ℕ, String, ◌≡◌, ◌≢◌, refl, ◌∙◌, ap, ◌⊎◌, inl, inr, true, false, none, arith, eqb, eqb_iff,
}
use inwheel_api.Common.Result.{Error, Result, ok, err}
use inwheel_api.Float64.{Arithmetic}
use inwheel_api.Models.{Time, UnmatchedExternal}
use inwheel_api.Identity.Normalize.{Unicode}
use inwheel_api.Identity.Score.{radius_m}
use inwheel_api.Identity.Compat.{compatible}
use inwheel_api.Identity.Match.{Kind, no_match, low_confidence, confident, Decision, match}
use inwheel_api.Identity.Resolve.{ref_of}
use inwheel_api.Identity.Sweep.{
  SweepResult, record_of_row, counted, delete_attached, settle, settle_matched, sweep_row,
}
use inwheel_api.Database.{Database, Postgres}
use inwheel_api.Unmatched.{bump_attempts, delete}
use inwheel_api.Unmatched.Rows.{
  find_id, bumped, bump_attempts_outcome, delete_outcome, places-delete,
}
use inwheel_api.Places.{attach_external_ref, candidate_repo}
use inwheel_api.Places.Refs.{
  find_candidates_reads, HasRef, IsAttached-HasRef, attach_external_ref_outcome,
}
use inwheel_api.Draining.{sweeper}

-- What one round of the sweep may do to the queue: the other rows stay; the row itself stays as it
-- is (an error), has one more attempt (no match), or is gone, and then the place that it was
-- matched to has its reference.
pub record IsSafeRound (now : Time) (row : UnmatchedExternal) (before after : Database)
    : Type 0 where
  pub others : (j : ℕ) → j ≢ row.id → find_id j after.queue ≡ find_id j before.queue
  pub itself :
      (find_id row.id after.queue ≡ find_id row.id before.queue)
      ⊎ ((find_id row.id after.queue ≡ Option.map (bumped now) (find_id row.id before.queue))
          ⊎ ((find_id row.id after.queue ≡ none)
              × ((place_id : String) × (d : Decision) × HasRef place_id row.source
                    (ref_of (record_of_row row) d now)
                    after.places)))

same_queue :
    (now : Time) (row : UnmatchedExternal) (before after : Database)
    → after.queue ≡ before.queue
    → IsSafeRound now row before after
same_queue now row before after e = record {
  others = λ j n. ap (find_id j) e;
  itself = inl (ap (find_id row.id) e);
}

other_id : (i j : ℕ) → j ≢ i → eqb i j ≡ false
other_id i j h = ground (arith, eqb_iff i j)

own_id : (i : ℕ) → eqb i i ≡ true
own_id i = ground (arith, eqb_iff i i)

module _ (pg : Postgres) (now : Time) (row : UnmatchedExternal) where
  counted_state :
      (kind : Kind) (res : SweepResult) (r : Result (Unit {0}) × Database)
      → (counted kind res r).1 ≡ r.1
  unfolding counted
  counted_state kind res (ok u, s) = refl
  counted_state kind res (err e, s) = refl

  bump-IsSafeRound :
      (before db : Database)
      → db.queue ≡ before.queue
      → IsSafeRound now row before (bump_attempts pg row.id now db).1
  bump-IsSafeRound before db e = elim (bump_attempts_outcome pg row.id now db) [
    | inl (x, f, q) ↦ same_queue now row before _ (q ∙ e)
    | inr (f, law) ↦ record {
      others = λ j n. law j ∙ rw (other_id row.id j n) (ap (find_id j) e);
      itself = inr (
          inl (
            law row.id
            ∙ rw (own_id row.id) (ap (λ q. Option.map (bumped now) (find_id row.id q)) e)));
    }
  ]

  delete-IsSafeRound :
      (before db : Database) (place_id : String) (d : Decision)
      → db.queue ≡ before.queue
      → HasRef place_id row.source (ref_of (record_of_row row) d now) db.places
      → IsSafeRound now row before (delete pg row.id db).1
  delete-IsSafeRound before db place_id d e h = elim (delete_outcome pg row.id db) [
    | inl (x, f, q) ↦ same_queue now row before _ (q ∙ e)
    | inr (f, law) ↦ record {
      others = λ j n. law j ∙ rw (other_id row.id j n) (ap (find_id j) e);
      itself =
          inr (
            inr
              (law row.id ∙ rw (own_id row.id), (place_id, d, rw (places-delete pg row.id db) h)));
    }
  ]

  attach_failed :
      (before : Database) (kind : Kind) (res : SweepResult) (r : Result (Unit {0}) × Database)
      (x : Error)
      → r.0 ≡ err x
      → r.1.queue ≡ before.queue
      → IsSafeRound now row before (delete_attached (sweeper pg) row kind res r).1
  unfolding delete_attached
  attach_failed before kind res (ok u, db) x f e = cc f
  attach_failed before kind res (err y, db) x f e = same_queue now row before db e

  attach_done :
      (before : Database) (kind : Kind) (d : Decision) (res : SweepResult)
      (r : Result (Unit {0}) × Database)
      → r.0 ≡ ok tt
      → r.1.queue ≡ before.queue
      → HasRef d.matched_place_id row.source (ref_of (record_of_row row) d now) r.1.places
      → IsSafeRound now row before (delete_attached (sweeper pg) row kind res r).1
  unfolding delete_attached
  attach_done before kind d res (ok u, db) f e h =
      rw (counted_state kind res (delete pg row.id db))
        (delete-IsSafeRound before db d.matched_place_id d e h)
  attach_done before kind d res (err y, db) f e h = cc f

  attach-IsSafeRound :
      (before db : Database) (kind : Kind) (d : Decision) (res : SweepResult)
      → db.queue ≡ before.queue
      → IsSafeRound now row before
          (delete_attached (sweeper pg) row kind res (
            attach_external_ref pg d.matched_place_id row.source
              (ref_of (record_of_row row) d now)
              db)).1
  attach-IsSafeRound before db kind d res e =
      let (q, outcome) =
        attach_external_ref_outcome pg d.matched_place_id row.source
          (ref_of (record_of_row row) d now) db in
      elim outcome [
        | inl (x, f, p) ↦ attach_failed before kind res _ x f (q ∙ e)
        | inr (f, h, p) ↦ attach_done before kind d res _ f (q ∙ e) (IsAttached-HasRef h)
      ]

  settle-IsSafeRound :
      (before db : Database) (kind : Kind) (d : Decision) (res : SweepResult)
      → db.queue ≡ before.queue
      → IsSafeRound now row before (settle (sweeper pg) now row kind d res db).1
  unfolding settle
  settle-IsSafeRound before db no_match d res e =
      rw (counted_state no_match res (bump_attempts pg row.id now db))
        (bump-IsSafeRound before db e)
  settle-IsSafeRound before db low_confidence d res e =
      attach-IsSafeRound before db low_confidence d res e
  settle-IsSafeRound before db confident d res e = attach-IsSafeRound before db confident d res e

  settle_matched-IsSafeRound :
      (before : Database) (res : SweepResult) (r : Result Decision × Database)
      → r.1.queue ≡ before.queue
      → IsSafeRound now row before (settle_matched (sweeper pg) now row res r).1
  unfolding settle_matched
  settle_matched-IsSafeRound before res (err x, db) e = same_queue now row before db e
  settle_matched-IsSafeRound before res (ok d, db) e = settle-IsSafeRound before db d.kind d res e

queue-match :
    (arithmetic : Arithmetic) (unicode : Unicode) (pg : Postgres) (row : UnmatchedExternal)
    (db : Database)
    → (match arithmetic unicode (candidate_repo pg) (record_of_row row) db).1.queue ≡ db.queue
unfolding match
queue-match arithmetic unicode pg row db =
    (find_candidates_reads pg row.lat row.lng radius_m (compatible row.category) db).0

-- One round of the sweep, over the repositories as they are and whichever statements fail: no other
-- row of the queue changes, and the row itself stays, counts one more attempt, or is deleted after
-- its reference was recorded on a place.
pub sweep_row-IsSafeRound :
    (arithmetic : Arithmetic) (unicode : Unicode) (pg : Postgres) (now : UnmatchedExternal → Time)
    (row : UnmatchedExternal) (res : SweepResult) (db : Database)
    → IsSafeRound (now row) row db (sweep_row arithmetic unicode (sweeper pg) now row res db).1
unfolding sweep_row
sweep_row-IsSafeRound arithmetic unicode pg now row res db =
    settle_matched-IsSafeRound pg (now row) row db res
      (match arithmetic unicode (candidate_repo pg) (record_of_row row) db)
      (queue-match arithmetic unicode pg row db)
