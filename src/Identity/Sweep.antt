-- ===== src/Identity/Sweep.antt =====
-- sweep.go: after an import the queue rows near the touched places are matched again. The time at
-- which a row is handled is the argument `now` at that row. The log lines are not modelled.
pub mod Counts
use inwheel_api.Common.{ℕ, ◌+◌, String, Option, none, some, List, [], ◌∷◌, length}
use inwheel_api.Common.Result.{Error, wrap, Result, ok, err, Exec}
use inwheel_api.Float64.{Float64, Arithmetic}
use inwheel_api.Models.{Time, UnmatchedExternal}
use inwheel_api.Identity.Normalize.{Unicode}
use inwheel_api.Identity.Score.{radius_m}
use inwheel_api.Identity.Match.{
  Record, Kind, no_match, low_confidence, confident, Decision, CandidateRepo, match,
}
use inwheel_api.Identity.Resolve.{AttachRepo, ref_of}

pub record SweepRepo (S : Type 0) : Type 0 where
  pub find_candidates_near_touched : List String → Float64 → Exec S (List UnmatchedExternal)
  pub bump_attempts : ℕ → Time → Exec S (Unit {0})
  pub delete : ℕ → Exec S (Unit {0})

pub record SweepResult : Type 0 where
  pub considered : ℕ
  pub confident_count : ℕ
  pub low_confidence_count : ℕ
  pub no_match_count : ℕ
  pub errors : ℕ

abbrev pub zero_result : SweepResult
zero_result = record {
  considered = 0;
  confident_count = 0;
  low_confidence_count = 0;
  no_match_count = 0;
  errors = 0;
}

pub record Sweeper (S : Type 0) : Type 0 where
  pub candidates : CandidateRepo S
  pub places : AttachRepo S
  pub queue : SweepRepo S

abbrev pub record_of_row : UnmatchedExternal → Record
record_of_row row = record {
  source = row.source;
  source_id = row.source_id;
  name = row.name;
  lat = row.lat;
  lng = row.lng;
  category = row.category;
  street = row.street;
  house_number = row.house_number;
  payload = some row.payload;
}

abbrev pub count_error : SweepResult → SweepResult
count_error res = record res { errors = res.errors + 1 }

count_match : Kind → SweepResult → SweepResult
count_match confident res = record res { confident_count = res.confident_count + 1 }
count_match low_confidence res = record res { low_confidence_count = res.low_confidence_count + 1 }
count_match no_match res = record res { no_match_count = res.no_match_count + 1 }

-- The end of a case: the count of the decision, or of an error.
unfoldable pub counted : {S : Type 0} → Kind → SweepResult → Result (Unit {0}) × S → SweepResult × S
unfolding count_match
counted kind res (ok u, s) = (count_match kind res, s)
counted kind res (err e, s) = (count_error res, s)

unfoldable pub delete_attached :
    {S : Type 0}
    → Sweeper S
    → UnmatchedExternal
    → Kind
    → SweepResult
    → Result (Unit {0}) × S
    → SweepResult × S
delete_attached sweeper row kind res (ok u, s) = counted kind res (sweeper.queue.delete row.id s)
delete_attached sweeper row kind res (err e, s) = (count_error res, s)

-- the switch over the kind
unfoldable pub settle :
    {S : Type 0}
    → Sweeper S
    → Time
    → UnmatchedExternal
    → Kind
    → Decision
    → SweepResult
    → S
    → SweepResult × S
settle sweeper now row no_match d res s =
    counted no_match res (sweeper.queue.bump_attempts row.id now s)
settle sweeper now row low_confidence d res s = delete_attached sweeper row low_confidence res (
    sweeper.places.attach_external_ref d.matched_place_id row.source
      (ref_of (record_of_row row) d now) s)
settle sweeper now row confident d res s = delete_attached sweeper row confident res (
    sweeper.places.attach_external_ref d.matched_place_id row.source
      (ref_of (record_of_row row) d now) s)

unfoldable pub settle_matched :
    {S : Type 0}
    → Sweeper S
    → Time
    → UnmatchedExternal
    → SweepResult
    → Result Decision × S
    → SweepResult × S
settle_matched sweeper now row res (err e, s) = (count_error res, s)
settle_matched sweeper now row res (ok d, s) = settle sweeper now row d.kind d res s

module _ {S : Type 0} (arithmetic : Arithmetic) (unicode : Unicode) (sweeper : Sweeper S)
    (now : UnmatchedExternal → Time) where
  -- one round of the loop
  unfoldable pub sweep_row : UnmatchedExternal → SweepResult → S → SweepResult × S
  sweep_row row res s =
      settle_matched sweeper (now row) row res
        (match arithmetic unicode sweeper.candidates (record_of_row row) s)

  unfoldable pub sweep_rows : List UnmatchedExternal → SweepResult → S → SweepResult × S
  sweep_rows [] res s = (res, s)
  sweep_rows (row ∷ rows) res s = let (res', s') = sweep_row row res s in sweep_rows rows res' s'

  unfoldable pub sweep_found : Result (List UnmatchedExternal) × S → Result SweepResult × S
  sweep_found (err e, s) = (err (wrap "find candidates near touched" e), s)
  sweep_found (ok rows, s) =
      let (res, s') = sweep_rows rows (record zero_result { considered = length rows }) s in
      (ok res, s')

  unfoldable pub sweep : List String → Exec S SweepResult
  unfolding sweep_found
  sweep [] s = (ok zero_result, s)
  sweep (id ∷ ids) s =
      sweep_found (sweeper.queue.find_candidates_near_touched (id ∷ ids) radius_m s)
