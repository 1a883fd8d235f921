-- ===== src/Ingestion/Pipeline/Stored.antt =====
-- A canonical import into a store in which a later batch may change the rows of an earlier one.
use inwheel_api.Common.{ap, ◌||◌, is_some, String, ◌≡◌, refl, Option, none, some, List, []}
use inwheel_api.Common.Result.{Error, Exec}
use inwheel_api.Float64.{Arithmetic}
use inwheel_api.Models.{Time, Place}
use inwheel_api.Osm.Import.{Object, full_import}
use inwheel_api.Osm.Import.Delivers.{pois, full_import-deliver}
use inwheel_api.Identity.Sweep.{SweepResult}
use inwheel_api.Ingestion.Batcher.{Writers, empty_batcher, Step, sink, flush_now}
use inwheel_api.Ingestion.Batcher.Written.{
  places_of, Writes, Holds, deliver-Holds, flush_now-Flushed,
}
use inwheel_api.Ingestion.Pipeline.{dispatch, supported, osm_source, imported, swept, run_canonical}

-- Delivery has not failed when the import that counts it has not.
deliver_of_import :
    (failed delivered scan_error : Option Error)
    → is_some failed ≡ (is_some delivered || is_some scan_error)
    → failed ≡ none
    → delivered ≡ none
deliver_of_import failed none scan_error h k = refl
deliver_of_import failed (some x) scan_error h k = cc (h, ap is_some k)

module _ {S : Type 0} (writers : Writers S) (Has : List Place → S → Type 0)
    (writes : Writes writers Has) (sweep : List String → Exec S SweepResult)
    (quiet : (all : List Place) (ids : List String) (s : S)
      → Has all s
      → Has all (sweep ids s).1) where
  swept-Has :
      (all : List Place) (r : Step S)
      → ((swept sweep r).0 ≡ none → r.0 ≡ none)
        × (r.0 ≡ none → Has all r.1.1 → Has all (swept sweep r).1)
  unfolding swept
  swept-Has all (none, (b, s)) = (λ h. refl, λ h k. quiet all b.touched_ids s k)
  swept-Has all (some x, (b, s)) = (λ h. cc, λ h k. absurd cc)

  imported-Has :
      (all : List Place) (r : Step S)
      → (r.0 ≡ none → Holds writers Has writes all r.1)
      → (imported writers sweep r).0 ≡ none
      → Has all (imported writers sweep r).1
  unfolding imported
  imported-Has all (some x, (b, s)) h k = absurd cc
  imported-Has all (none, (b, s)) h k =
      let (written, has, e) = h refl in
      let flushed = (swept-Has all (flush_now writers (b, s))).0 k in
      let (a, c) = flush_now-Flushed writers Has writes written b s has flushed in
      (swept-Has all (flush_now writers (b, s))).1 flushed (rw (← e) a)

  import-Holds :
      (arithmetic : Arithmetic) (objects : List (Time × Object)) (scan_error : Option Error) (s : S)
      → Has [] s
      → (full_import arithmetic none objects scan_error (sink writers) (empty_batcher, s)).0 ≡ none
      → Holds writers Has writes
          (places_of (pois arithmetic objects))
          (full_import arithmetic none objects scan_error (sink writers) (empty_batcher, s)).1.0
  import-Holds arithmetic objects scan_error s has h =
      let (state, failed, skipped) =
        full_import-deliver arithmetic (sink writers) objects scan_error (empty_batcher, s) in
      rw state (
        deliver-Holds writers Has writes [] (pois arithmetic objects) (empty_batcher, s)
          ([], has, refl) (deliver_of_import _ _ scan_error failed h))

  -- What is true of the places that successful flushes wrote is true of all the places of the file.
  pub run_canonical-Has :
      (arithmetic : Arithmetic) (objects : List (Time × Object)) (scan_error : Option Error) (s : S)
      → Has [] s
      → (run_canonical
          (osm_source arithmetic none objects scan_error)
          "full-import"
          writers
          sweep
          s).0
        ≡ none
      → Has
          (places_of (pois arithmetic objects))
          (run_canonical
            (osm_source arithmetic none objects scan_error)
            "full-import"
            writers
            sweep
            s).1
  unfolding run_canonical dispatch supported
  run_canonical-Has arithmetic objects scan_error s has h =
      let r = full_import arithmetic none objects scan_error (sink writers) (empty_batcher, s) in
      imported-Has (places_of (pois arithmetic objects)) (r.0, r.1.0)
        (import-Holds arithmetic objects scan_error s has) h
