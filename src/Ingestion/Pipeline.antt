-- ===== src/Ingestion/Pipeline.antt =====
-- cmd/ingestion/main.go: the pipelines of canonical and of external sources. A source that has no
-- full import or no difference has `none` there. The log lines are not modelled; the counters that
-- they print are.
pub mod Stored
pub mod Rows
pub mod Tally
use inwheel_api.Common.{ℕ, ◌+◌, String, ◌==◌, Bool, Option, none, some, List, if◌then◌else◌}
use inwheel_api.Common.Result.{Error, message, wrap, Result, ok, err, Exec}
use inwheel_api.Float64.{Arithmetic}
use inwheel_api.Models.{Time, Place, AccessibilityProfile}
use inwheel_api.A11y.{with_audit_flags}
use inwheel_api.Osm.Import.{Object, Sink, full_import}
use inwheel_api.Identity.Match.{Record, Kind, no_match, low_confidence, confident, Decision}
use inwheel_api.Identity.Sweep.{SweepResult}
use inwheel_api.Ingestion.Batcher.{
  ProfileWriter, Writers, Batcher, empty_batcher, Step, sink, flush_now,
}

-- An import that feeds a sink of items, over a state T.
abbrev pub Feed : Type 0 → Type 0 → Type 0
Feed Item T = (Item → T → Option Error × T) → T → Option Error × T

-- sources.FullImporter and sources.DiffSyncer, with the zero time of the call; for external sources
-- the items are records.
pub record Source (Item T : Type 0) : Type 0 where
  pub full_importer : Option (Feed Item T)
  pub diff_syncer : Option (Feed Item T)

-- src.(sources.FullImporter) and the call, or the error text
unfoldable pub supported : {Item T : Type 0} → String → Option (Feed Item T) → Feed Item T
supported text none sink t = (some (message text), t)
supported text (some feed) sink t = feed sink t

-- dispatchCanonical and dispatchExternal differ in the type of the items alone.
unfoldable pub dispatch : {Item T : Type 0} → Source Item T → String → Feed Item T
unfolding supported
dispatch source command sink t =
    if command == "full-import"
    then supported "source does not support full-import" source.full_importer sink t
    else if command == "diff-sync"
    then supported "source does not support diff-sync" source.diff_syncer sink t
    else (some (message "unknown command"), t)

abbrev pub Poi : Type 0
Poi = Place × Option AccessibilityProfile

-- osm.Source
abbrev pub osm_source :
    {T : Type 0} → Arithmetic → Option Error → List (Time × Object) → Option Error → Source Poi T
osm_source arithmetic opened objects scan_error = record {
  full_importer = some (λ sink t.
      let r = full_import arithmetic opened objects scan_error (λ p profile. sink (p, profile)) t in
      (r.0, r.1.0));
  diff_syncer = none;
}

-- The closure `writeProfile`: the flags are computed on the profile before it is written.
abbrev pub audited_writer :
    {S : Type 0} → (String → Option AccessibilityProfile → Exec S Bool) → ProfileWriter S
audited_writer upsert id p = upsert id (some (with_audit_flags p))

-- The final flush is done; the touched places are swept, and a sweep that fails is only logged.
unfoldable pub swept : {S : Type 0} → (List String → Exec S SweepResult) → Step S → Option Error × S
swept sweep (some x, (b, s)) = (some (wrap "final flush" x), s)
swept sweep (none, (b, s)) = (none, (sweep b.touched_ids s).1)

unfoldable pub imported :
    {S : Type 0} → Writers S → (List String → Exec S SweepResult) → Step S → Option Error × S
unfolding swept
imported writers sweep (some x, (b, s)) = (some (wrap "source" x), s)
imported writers sweep (none, r) = swept sweep (flush_now writers r)

unfoldable pub run_canonical :
    {S : Type 0}
    → Source Poi (Batcher × S)
    → String
    → Writers S
    → (List String → Exec S SweepResult)
    → S
    → Option Error × S
unfolding imported
run_canonical source command writers sweep s =
    imported writers sweep
      (dispatch source command (λ poi r. sink writers poi.0 poi.1 r) (empty_batcher, s))

pub record ResolveCounters : Type 0 where
  pub confident_count : ℕ
  pub low_confidence_count : ℕ
  pub no_match_count : ℕ
  pub errors : ℕ

abbrev pub zero_counters : ResolveCounters
zero_counters = record {
  confident_count = 0;
  low_confidence_count = 0;
  no_match_count = 0;
  errors = 0;
}

tally_kind : Kind → ResolveCounters → ResolveCounters
tally_kind confident c = record c { confident_count = c.confident_count + 1 }
tally_kind low_confidence c = record c { low_confidence_count = c.low_confidence_count + 1 }
tally_kind no_match c = record c { no_match_count = c.no_match_count + 1 }

tally : Result Decision → ResolveCounters → ResolveCounters
unfolding tally_kind
tally (ok d) c = tally_kind d.kind c
tally (err e) c = record c { errors = c.errors + 1 }

-- buildRecordSink
unfoldable pub record_sink :
    {S : Type 0}
    → (Record → Exec S Decision)
    → Record
    → S × ResolveCounters
    → Option Error × (S × ResolveCounters)
unfolding tally
record_sink resolve r (s, c) = let (d, s') = resolve r s in (none, (s', tally d c))

external_done :
    {S : Type 0} → Option Error × (S × ResolveCounters) → Option Error × (S × ResolveCounters)
external_done (some x, r) = (some (wrap "source" x), r)
external_done (none, r) = (none, r)

-- runExternal, with the counters as they stand when it ends
unfoldable pub run_external :
    {S : Type 0}
    → Source Record (S × ResolveCounters)
    → String
    → (Record → Exec S Decision)
    → S
    → Option Error × (S × ResolveCounters)
unfolding external_done
run_external source command resolve s =
    external_done (dispatch source command (record_sink resolve) (s, zero_counters))
