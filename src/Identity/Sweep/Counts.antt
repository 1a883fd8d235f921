-- ===== src/Identity/Sweep/Counts.antt =====
-- The summary of a sweep accounts for every row.
use inwheel_api.Common.{ℕ, ◌+◌, String, ◌≡◌, refl, ◌∙◌, List, [], ◌∷◌, length, arith}
use inwheel_api.Common.Result.{Result, ok, err}
use inwheel_api.Float64.{Arithmetic}
use inwheel_api.Models.{Time, UnmatchedExternal}
use inwheel_api.Identity.Normalize.{Unicode}
use inwheel_api.Identity.Score.{radius_m}
use inwheel_api.Identity.Match.{Kind, no_match, low_confidence, confident, Decision, match}
use inwheel_api.Identity.Sweep.{
  SweepResult, zero_result, Sweeper, counted, delete_attached, settle, settle_matched, sweep_row,
  sweep_rows, sweep_found, sweep, record_of_row,
}

-- rows with an outcome
abbrev pub settled : SweepResult → ℕ
settled res = res.confident_count + res.low_confidence_count + res.no_match_count + res.errors

-- One more row is settled, and the number of rows considered stays.
record Counts (before after : SweepResult) : Type 0 where
  settled_one : settled after ≡ settled before + 1
  considered : after.considered ≡ before.considered

module _ {S : Type 0} (sweeper : Sweeper S) where
  counted-Counts :
      (kind : Kind) (res : SweepResult) (r : Result (Unit {0}) × S)
      → Counts res (counted kind res r).0
  unfolding counted
  counted-Counts no_match res (ok u, s) = record { settled_one = omega arith; considered = refl }
  counted-Counts low_confidence res (ok u, s) = record {
    settled_one = omega arith;
    considered = refl;
  }
  counted-Counts confident res (ok u, s) = record { settled_one = omega arith; considered = refl }
  counted-Counts kind res (err e, s) = record { settled_one = omega arith; considered = refl }

  delete-Counts :
      (row : UnmatchedExternal) (kind : Kind) (res : SweepResult) (r : Result (Unit {0}) × S)
      → Counts res (delete_attached sweeper row kind res r).0
  unfolding delete_attached
  delete-Counts row kind res (ok u, s) = counted-Counts kind res _
  delete-Counts row kind res (err e, s) = record { settled_one = omega arith; considered = refl }

  settle-Counts :
      (now : Time) (row : UnmatchedExternal) (kind : Kind) (d : Decision) (res : SweepResult)
      (s : S)
      → Counts res (settle sweeper now row kind d res s).0
  unfolding settle
  settle-Counts now row no_match d res s = counted-Counts no_match res _
  settle-Counts now row low_confidence d res s = delete-Counts row low_confidence res _
  settle-Counts now row confident d res s = delete-Counts row confident res _

  settle_matched-Counts :
      (now : Time) (row : UnmatchedExternal) (res : SweepResult) (r : Result Decision × S)
      → Counts res (settle_matched sweeper now row res r).0
  unfolding settle_matched
  settle_matched-Counts now row res (err e, s) = record {
    settled_one = omega arith;
    considered = refl;
  }
  settle_matched-Counts now row res (ok d, s) = settle-Counts now row d.kind d res s

module _ {S : Type 0} (arithmetic : Arithmetic) (unicode : Unicode) (sweeper : Sweeper S)
    (now : UnmatchedExternal → Time) where
  sweep_row-Counts :
      (row : UnmatchedExternal) (res : SweepResult) (s : S)
      → Counts res (sweep_row arithmetic unicode sweeper now row res s).0
  unfolding sweep_row
  sweep_row-Counts row res s =
      settle_matched-Counts sweeper (now row) row res
        (match arithmetic unicode sweeper.candidates (record_of_row row) s)

  rows_counted :
      (rows : List UnmatchedExternal) (res : SweepResult) (s : S)
      → (settled (sweep_rows arithmetic unicode sweeper now rows res s).0
          ≡ settled res + length rows)
        × ((sweep_rows arithmetic unicode sweeper now rows res s).0.considered ≡ res.considered)
  unfolding sweep_rows
  rows_counted [] res s = (omega arith, refl)
  rows_counted (row ∷ rows) res s =
      let r = sweep_row arithmetic unicode sweeper now row res s in
      let step = sweep_row-Counts row res s in
      let rest = rows_counted rows r.0 r.1 in
      (omega (arith, step.settled_one, rest.0), rest.1 ∙ step.considered)

  -- A sweep whose query answers never fails, whatever matching, attaching, deleting and counting an
  -- attempt do: its summary considers every row that the query gave, and files each under exactly
  -- one of confident, low confidence, no match and error.
  pub sweep_counts :
      (id : String) (ids : List String) (s s' : S) (rows : List UnmatchedExternal)
      → sweeper.queue.find_candidates_near_touched (id ∷ ids) radius_m s ≡ (ok rows, s')
      → (res : SweepResult) × ((sweep arithmetic unicode sweeper now (id ∷ ids) s).0 ≡ ok res)
        × (res.considered ≡ length rows)
        × (settled res ≡ length rows)
  unfolding sweep sweep_found
  sweep_counts id ids s s' rows h =
      let first = record zero_result { considered = length rows } in
      let c = rows_counted rows first s' in
      (
        (sweep_rows arithmetic unicode sweeper now rows first s').0,
        rw (h, sweep_found),
        c.1,
        omega (arith, c.0),
      )
