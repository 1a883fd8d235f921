-- ===== src/Draining/Resolved.antt =====
-- A record that is resolved is on a place or in the queue.
use inwheel_api.Common.{ℕ, String, ◌≡◌, ◌≢◌, refl, ◌∙◌, ap, inl, inr, true, some}
use text.Mathlib.TextPositions.{eq_refl}
use mathlib.Core.Path.{subst}
use inwheel_api.Common.Result.{Result, ok, err, ok_inj}
use inwheel_api.Float64.{Arithmetic}
use inwheel_api.Models.{Time}
use inwheel_api.Identity.Normalize.{Unicode}
use inwheel_api.Identity.Match.{Record, Kind, no_match, low_confidence, confident, Decision, match}
use inwheel_api.Identity.Resolve.{ref_of, queue_row, answer, apply, resolve_matched, resolve}
use inwheel_api.Database.{Database, Postgres}
use inwheel_api.Unmatched.{same_key, enqueue}
use inwheel_api.Unmatched.Rows.{find_key, enqueued, enqueue_rows}
use inwheel_api.Places.{attach_external_ref, candidate_repo}
use inwheel_api.Places.Refs.{
  find_candidates_reads, HasRef, IsAttached-HasRef, attach_external_ref_outcome,
}
use inwheel_api.Draining.{resolver}
use inwheel_api.Identity.Score.{radius_m}
use inwheel_api.Identity.Compat.{compatible}

-- Where a decision leaves its record: no match, and the queue has its row, a new one or the old one
-- with one more attempt; or a match, and the place has its reference beside the queue as it was.
pub data IsResolved (now : Time) (rec : Record) (before after : Database) (d : Decision)
    : Type 0 where
  queued :
      (id : ℕ)
      → d.kind ≡ no_match
      → find_key rec.source rec.source_id after.queue
        ≡ some (enqueued (queue_row rec now) id (find_key rec.source rec.source_id before.queue))
      → IsResolved now rec before after d
  attached :
      d.kind ≢ no_match
      → after.queue ≡ before.queue
      → HasRef d.matched_place_id rec.source (ref_of rec d now) after.places
      → IsResolved now rec before after d

own_key : (rec : Record) (now : Time) → same_key rec.source rec.source_id (queue_row rec now) ≡ true
own_key rec now = rw (eq_refl rec.source, eq_refl rec.source_id)

module _ (pg : Postgres) (now : Time) (rec : Record) (before : Database) where
  answer_ok :
      (text : String) (d x : Decision) (r : Result (Unit {0}) × Database)
      → (answer text d r).0 ≡ ok x
      → (d ≡ x) × (r.0 ≡ ok tt)
  unfolding answer
  answer_ok text d x (ok u, db) h = (ok_inj d x h, refl)
  answer_ok text d x (err e, db) h = cc

  answer_state :
      (text : String) (d : Decision) (r : Result (Unit {0}) × Database) → (answer text d r).1 ≡ r.1
  unfolding answer
  answer_state text d (ok u, db) = refl
  answer_state text d (err e, db) = refl

  queue-IsResolved :
      (d : Decision) (db : Database)
      → d.kind ≡ no_match
      → db.queue ≡ before.queue
      → (enqueue pg (queue_row rec now) db).0 ≡ ok tt
      → IsResolved now rec before (enqueue pg (queue_row rec now) db).1 d
  queue-IsResolved d db k e h = elim (enqueue_rows pg (queue_row rec now) db) [
    | inl (f, x) ↦ cc (ap (λ r. r.0) x)
    | inr (f, o, law) ↦ queued db.next_queue_id k (
        law rec.source rec.source_id
        ∙ rw (own_key rec now) (
            ap
              (λ q. some (
                enqueued (queue_row rec now) db.next_queue_id
                  (find_key rec.source rec.source_id q)))
              e))
  ]

  attach-IsResolved :
      (d : Decision) (db : Database)
      → d.kind ≢ no_match
      → db.queue ≡ before.queue
      → (attach_external_ref pg d.matched_place_id rec.source (ref_of rec d now) db).0 ≡ ok tt
      → IsResolved now rec before
          (attach_external_ref pg d.matched_place_id rec.source (ref_of rec d now) db).1
          d
  attach-IsResolved d db k e h =
      let (q, outcome) =
        attach_external_ref_outcome pg d.matched_place_id rec.source (ref_of rec d now) db in
      elim outcome [
        | inl (x, f, p) ↦ cc
        | inr (f, has, p) ↦ attached k (q ∙ e) (IsAttached-HasRef has)
      ]

  apply-IsResolved :
      (k : Kind) (d x : Decision) (db : Database)
      → d.kind ≡ k
      → db.queue ≡ before.queue
      → (apply (resolver pg) now rec k d db).0 ≡ ok x
      → IsResolved now rec before (apply (resolver pg) now rec k d db).1 x
  unfolding apply
  apply-IsResolved no_match d x db k e h =
      let (same, o) = answer_ok _ d x _ h in
      rw (answer_state "enqueue unmatched" d (enqueue pg (queue_row rec now) db))
        (subst (IsResolved now rec before _) same (queue-IsResolved d db k e o))
  apply-IsResolved low_confidence d x db k e h =
      let (same, o) = answer_ok _ d x _ h in
      rw
        (answer_state "attach external ref" d
          (attach_external_ref pg d.matched_place_id rec.source (ref_of rec d now) db))
        (subst (IsResolved now rec before _) same (attach-IsResolved d db (λ n. cc) e o))
  apply-IsResolved confident d x db k e h =
      let (same, o) = answer_ok _ d x _ h in
      rw
        (answer_state "attach external ref" d
          (attach_external_ref pg d.matched_place_id rec.source (ref_of rec d now) db))
        (subst (IsResolved now rec before _) same (attach-IsResolved d db (λ n. cc) e o))

  resolve_matched-IsResolved :
      (x : Decision) (r : Result Decision × Database)
      → r.1.queue ≡ before.queue
      → (resolve_matched (resolver pg) now rec r).0 ≡ ok x
      → IsResolved now rec before (resolve_matched (resolver pg) now rec r).1 x
  unfolding resolve_matched
  resolve_matched-IsResolved x (err e, db) q h = cc
  resolve_matched-IsResolved x (ok d, db) q h = apply-IsResolved d.kind d x db refl q h

-- A record that Resolve answers is not lost: without a match its row is in the queue, and with a
-- match its reference is on the matched place.
pub resolve-IsResolved :
    (arithmetic : Arithmetic) (unicode : Unicode) (pg : Postgres) (now : Time) (rec : Record)
    (db : Database) (d : Decision)
    → (resolve arithmetic unicode (resolver pg) now rec db).0 ≡ ok d
    → IsResolved now rec db (resolve arithmetic unicode (resolver pg) now rec db).1 d
unfolding resolve match
resolve-IsResolved arithmetic unicode pg now rec db d h =
    resolve_matched-IsResolved pg now rec db d (match arithmetic unicode (candidate_repo pg) rec db)
      (find_candidates_reads pg rec.lat rec.lng radius_m (compatible rec.category) db).0 h
