-- ===== src/Osm/Import.antt =====
-- pbf.go and source.go: the stream of a .osm.pbf file, and the import that feeds a sink. The
-- scanner is a library: what it yields is an argument, each object with the time at which it is
-- handled, and so are the error of the scan and of opening the file. The progress lines of the log
-- are not modelled; the three counters that they print are.
pub mod Delivers
use Prim.Native.String.{String}
use inwheel_api.Common.{ℕ, ◌+◌, Bool, Option, none, some, List, [], ◌∷◌, length, eqb, if◌then◌else◌}
use inwheel_api.Common.Int.{ℤ}
use inwheel_api.Common.Dict.{Dict}
use inwheel_api.Common.Result.{Error, message, wrap, Result, ok, err, Exec}
use inwheel_api.Float64.{Float64, Arithmetic}
use inwheel_api.Models.{Time, Category, Place, AccessibilityProfile}
use inwheel_api.Osm.Filter.{evaluate}
use inwheel_api.Osm.Transform.{Element, transform_osm_node, transform_osm_way}

pub record Way : Type 0 where
  pub id : ℤ
  -- o.LineString(): the resolved points, (x, y) each
  pub line_string : List (Float64 × Float64)
  pub tags : Dict String

pub data Object : Type 0 where
  node : Element → Object
  way : Way → Object
  relation : Object

-- if err != nil { return fmt.Errorf("<text>: %w", err) }
unfoldable pub label {ℓ} : {S : Type ℓ} → String → Option Error × S → Option Error × S
label text (none, s) = (none, s)
label text (some x, s) = (some (wrap text x), s)

module _ (arithmetic : Arithmetic) where
  open arithmetic use {add, div, of_count}

  sums : Float64 × Float64 → List (Float64 × Float64) → Float64 × Float64
  sums acc [] = acc
  sums (sum_lat, sum_lng) ((x, y) ∷ ps) = sums (add sum_lat y, add sum_lng x) ps

  unfoldable pub centroid : List (Float64 × Float64) → Float64 × Float64
  unfolding sums
  centroid ls =
      let (sum_lat, sum_lng) = sums (0, 0) ls in
      let n = of_count (length ls) in (div sum_lat n, div sum_lng n)

  -- The element that a way stands for: its centroid, if its points were resolved.
  unfoldable pub way_element : Way → Option Element
  unfolding centroid
  way_element w = elim w.line_string [
    | [] ↦ none
    | p ∷ ps ↦
        let (lat, lng) = centroid (p ∷ ps) in
        some (record { id = w.id; lat = lat; lng = lng; tags = w.tags })
  ]

  -- One round of the loop over the scanned objects.
  unfoldable pub visit {ℓ} :
      {S : Type ℓ}
      → (Time → Element → S → Option Error × S)
      → Option (Time → Element → S → Option Error × S)
      → Time × Object
      → S
      → Option Error × S
  unfolding label
  visit node_sink way_sink (now, node e) s = label "node" (node_sink now e s)
  visit node_sink none (now, way w) s = (none, s)
  visit node_sink (some sink) (now, way w) s = elim (way_element w) [
    | none ↦ (none, s)
    | some e ↦ label "way" (sink now e s)
  ]
  visit node_sink way_sink (now, relation) s = (none, s)

  -- StreamElements, with the error that the scanner ends with
  unfoldable pub stream_elements {ℓ} :
      {S : Type ℓ}
      → (Time → Element → S → Option Error × S)
      → Option (Time → Element → S → Option Error × S)
      → List (Time × Object)
      → Option Error
      → S
      → Option Error × S
  stream_elements node_sink way_sink [] scan_error s = label "pbf scan" (scan_error, s)
  stream_elements node_sink way_sink (o ∷ objects) scan_error s =
      let (failed, s') = visit node_sink way_sink o s in
      elim failed [
        | none ↦ stream_elements node_sink way_sink objects scan_error s'
        | some x ↦ (some x, s')
      ]

-- The counters of FullImport.
pub record Progress : Type 0 where
  pub processed : ℕ
  pub emitted : ℕ
  pub skipped : ℕ

abbrev pub Sink {ℓ} : Type ℓ → Type ℓ
Sink S = Place → Option AccessibilityProfile → S → Option Error × S

-- What the two callbacks do once the filter took the element.
unfoldable pub emit {ℓ} :
    {S : Type ℓ}
    → Sink S
    → Result (Place × Option AccessibilityProfile)
    → S × Progress
    → Option Error × (S × Progress)
emit sink (err x) (s, c) = (none, (s, record c { skipped = c.skipped + 1 }))
emit sink (ok (p, profile)) (s, c) =
    let (failed, s') = sink p profile s in (failed, (s', record c { emitted = c.emitted + 1 }))

-- The two callbacks differ in the transformer alone.
unfoldable pub handle_element {ℓ} :
    {S : Type ℓ}
    → (Time → Element → Category → Result (Place × Option AccessibilityProfile))
    → Sink S
    → Time
    → Element
    → S × Progress
    → Option Error × (S × Progress)
unfolding emit
handle_element transformer sink now e (s, c) =
    let c' = record c { processed = c.processed + 1 } in
    elim (evaluate e.tags) [
      | none ↦ (none, (s, c'))
      | some category ↦ emit sink (transformer now e category) (s, c')
    ]

abbrev pub start : Progress
start = record { processed = 0; emitted = 0; skipped = 0 }

-- FullImport; the counters are returned too, as they stand when it ends.
unfoldable pub full_import {ℓ} :
    {S : Type ℓ}
    → Arithmetic
    → Option Error
    → List (Time × Object)
    → Option Error
    → Sink S
    → S
    → Option Error × (S × Progress)
full_import arithmetic (some x) objects scan_error sink s = (some (wrap "open pbf" x), (s, start))
full_import arithmetic none objects scan_error sink s = label "stream" (
    stream_elements arithmetic (handle_element (transform_osm_node arithmetic) sink)
      (some (handle_element (transform_osm_way arithmetic) sink)) objects scan_error (s, start))
