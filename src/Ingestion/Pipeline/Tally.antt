-- ===== src/Ingestion/Pipeline/Tally.antt =====
-- The counters of an import of an external source account for every record.
use inwheel_api.Common.{ℕ, ◌+◌, ◌≡◌, refl, ◌∙◌, Option, none, some, List, [], ◌∷◌, length, arith}
use inwheel_api.Common.Result.{Error, Result, ok, err, Exec}
use inwheel_api.Identity.Match.{Record, Kind, no_match, low_confidence, confident, Decision}
use inwheel_api.Ingestion.Pipeline.{
  Feed, dispatch, supported, ResolveCounters, zero_counters, tally_kind, tally, record_sink,
  run_external, external_done,
}

-- A source of a list of records, which stops at the first error of its sink.
pub feed_records : {T : Type 0} → List Record → Feed Record T
feed_records [] sink t = (none, t)
feed_records (r ∷ rs) sink t =
    let (failed, t') = sink r t in
    elim failed [ none ↦ feed_records rs sink t' | some x ↦ (some x, t') ]

abbrev pub total : ResolveCounters → ℕ
total c = c.confident_count + c.low_confidence_count + c.no_match_count + c.errors

tally_kind-total : (k : Kind) (c : ResolveCounters) → total (tally_kind k c) ≡ total c + 1
unfolding tally_kind
tally_kind-total confident c = omega arith
tally_kind-total low_confidence c = omega arith
tally_kind-total no_match c = omega arith

tally-total : (d : Result Decision) (c : ResolveCounters) → total (tally d c) ≡ total c + 1
unfolding tally
tally-total (ok d) c = tally_kind-total d.kind c
tally-total (err e) c = omega arith

module _ {S : Type 0} (resolve : Record → Exec S Decision) where
  feed-total :
      (rs : List Record) (s : S) (c : ResolveCounters)
      → ((feed_records rs (record_sink resolve) (s, c)).0 ≡ none)
        × (total (feed_records rs (record_sink resolve) (s, c)).1.1 ≡ total c + length rs)
  unfolding feed_records record_sink
  feed-total [] s c = (refl, omega arith)
  feed-total (r ∷ rs) s c =
      let d = resolve r s in
      let (a, b) = feed-total rs d.1 (tally d.0 c) in (a, b ∙ omega (arith, tally-total d.0 c))

-- However many records an external source hands over, and whatever resolving them does, none stops
-- the import, which succeeds, and each is counted exactly once, as confident, low confidence, no
-- match or an error.
pub run_external-total :
    {S : Type 0} (resolve : Record → Exec S Decision) (rs : List Record)
    (diff : Option (Feed Record (S × ResolveCounters))) (s : S)
    → ((run_external
          (record { full_importer = some (feed_records rs); diff_syncer = diff })
          "full-import"
          resolve
          s).0
        ≡ none)
      × (total
            (run_external
              (record { full_importer = some (feed_records rs); diff_syncer = diff })
              "full-import"
              resolve
              s).1.1
          ≡ length rs)
unfolding run_external dispatch supported external_done
run_external-total {S = S} resolve rs diff s =
    let (a, b) = feed-total resolve rs s zero_counters in
    done (feed_records rs (record_sink resolve) (s, zero_counters)) a b
  where
    done :
        (r : Option Error × (S × ResolveCounters))
        → r.0 ≡ none
        → total r.1.1 ≡ 0 + length rs
        → ((external_done r).0 ≡ none) × (total (external_done r).1.1 ≡ length rs)
    done (none, r) a b = (refl, omega (arith, b))
    done (some x, r) a b = cc
