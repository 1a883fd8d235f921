-- ===== src/Osm/Import/Delivers.antt =====
-- The import hands its sink the places of the file, in the order of the file, up to the first error.
use inwheel_api.Common.{
  String, ◌≡◌, refl, ap, ◌∙◌, ◌||◌, Option, none, some, List, [], ◌∷◌, is_some, Option-cases, inl,
  inr,
}
use inwheel_api.Common.Result.{Error}
use inwheel_api.Float64.{Arithmetic}
use inwheel_api.Models.{Time, Place, AccessibilityProfile, osm_node, osm_way}
use inwheel_api.Osm.Filter.{evaluate}
use inwheel_api.Osm.Tags.{map_tags_to_profile}
use inwheel_api.Osm.Transform.{Element, transform, transform_osm_node, transform_osm_way, place_of}
use inwheel_api.Osm.Transform.Accepts.{evaluate_nonempty}
use inwheel_api.Osm.Import.{
  Object, node, way, relation, way_element, visit, stream_elements, Progress, Sink, emit,
  handle_element, start, label, full_import,
}

abbrev pub Poi : Type 0
Poi = Place × Option AccessibilityProfile

module _ (arithmetic : Arithmetic) where
  -- The place that an element stands for, where its tags qualify.
  pub element_poi : String → Time → Element → Option Poi
  element_poi osm_type now e = elim (evaluate e.tags) [
    | none ↦ none
    | some c ↦ some (place_of e c osm_type, map_tags_to_profile arithmetic now e.tags)
  ]

  pub object_poi : Time × Object → Option Poi
  object_poi (now, node e) = element_poi osm_node now e
  object_poi (now, way w) = elim (way_element arithmetic w) [
    | none ↦ none
    | some e ↦ element_poi osm_way now e
  ]
  object_poi (now, relation) = none

  -- The places of a file, in its order.
  pub pois : List (Time × Object) → List Poi
  pois [] = []
  pois (o ∷ os) = let rest = pois os in elim (object_poi o) [ none ↦ rest | some p ↦ p ∷ rest ]

-- The specification of a delivery: the sink takes the places one by one, until it fails.
unfoldable pub deliver {ℓ} : {S : Type ℓ} → Sink S → List Poi → S → Option Error × S
deliver sink [] s = (none, s)
deliver sink ((p, profile) ∷ rest) s =
    let (failed, s') = sink p profile s in
    elim failed [ none ↦ deliver sink rest s' | some x ↦ (some x, s') ]

-- the delivery of one place or none
deliver_one {ℓ} : {S : Type ℓ} → Sink S → Option Poi → S → Option Error × S
deliver_one sink none s = (none, s)
deliver_one sink (some (p, profile)) s = sink p profile s

module _ {ℓ} {S : Type ℓ} (arithmetic : Arithmetic) (sink : Sink S) where
  -- How a step of the import that ends in `r` relates to the delivery of `poi`.
  record Delivers (poi : Option Poi) (s : S) (c : Progress) (r : Option Error × (S × Progress))
      : Type ℓ where
    state : r.1.0 ≡ (deliver_one sink poi s).1
    failed : is_some r.0 ≡ is_some (deliver_one sink poi s).0
    skipped : r.1.1.skipped ≡ c.skipped

  handle-Delivers :
      (osm_type : String) (now : Time) (e : Element) (s : S) (c : Progress)
      → Delivers
          (element_poi arithmetic osm_type now e)
          s
          c
          (handle_element (λ t e' k. transform arithmetic t e' k osm_type) sink now e (s, c))
  unfolding handle_element element_poi emit deliver_one transform
  handle-Delivers osm_type now e s c = elim (Option-cases (evaluate e.tags)) [
    | inl x ↦
        rw (x, handle_element, element_poi) (record { state = refl; failed = refl; skipped = refl })
    | inr (k, x) ↦
        rw (x, handle_element, element_poi)
          (rw (evaluate_nonempty e.tags k x)
            (record { state = refl; failed = refl; skipped = refl }))
  ]

  label-Delivers :
      (text : String) (poi : Option Poi) (s : S) (c : Progress) (r : Option Error × (S × Progress))
      → Delivers poi s c r
      → Delivers poi s c (label text r)
  unfolding label
  label-Delivers text poi s c (none, r) h = h
  label-Delivers text poi s c (some x, r) h = record {
    state = h.state;
    failed = h.failed;
    skipped = h.skipped;
  }

  abbrev on_node : Time → Element → S × Progress → Option Error × (S × Progress)
  on_node = handle_element (transform_osm_node arithmetic) sink

  abbrev on_way : Time → Element → S × Progress → Option Error × (S × Progress)
  on_way = handle_element (transform_osm_way arithmetic) sink

  visit-Delivers :
      (o : Time × Object) (s : S) (c : Progress)
      → Delivers (object_poi arithmetic o) s c (visit arithmetic on_node (some on_way) o (s, c))
  unfolding visit object_poi deliver_one
  visit-Delivers (now, node e) s c =
      label-Delivers "node" _ s c _ (handle-Delivers osm_node now e s c)
  visit-Delivers (now, way w) s c = elim (Option-cases (way_element arithmetic w)) [
    | inl x ↦ rw (x, visit, object_poi) (record { state = refl; failed = refl; skipped = refl })
    | inr (e, x) ↦
        rw (x, visit, object_poi) (label-Delivers "way" _ s c _ (handle-Delivers osm_way now e s c))
  ]
  visit-Delivers (now, relation) s c = record { state = refl; failed = refl; skipped = refl }

  -- the same of the whole stream
  record DeliversAll (ps : List Poi) (scan_error : Option Error) (s : S) (c : Progress)
      (r : Option Error × (S × Progress)) : Type ℓ where
    state : r.1.0 ≡ (deliver sink ps s).1
    failed : is_some r.0 ≡ (is_some (deliver sink ps s).0 || is_some scan_error)
    skipped : r.1.1.skipped ≡ c.skipped

  deliver_next :
      (p : Poi) (ps : List Poi) (s : S)
      → (sink p.0 p.1 s).0 ≡ none
      → deliver sink (p ∷ ps) s ≡ deliver sink ps (sink p.0 p.1 s).1
  unfolding deliver
  deliver_next p ps s e = rw (e, deliver)

  deliver_stop :
      (p : Poi) (ps : List Poi) (s : S) (x : Error)
      → (sink p.0 p.1 s).0 ≡ some x
      → deliver sink (p ∷ ps) s ≡ (some x, (sink p.0 p.1 s).1)
  unfolding deliver
  deliver_stop p ps s x e = rw (e, deliver)

  cons-DeliversAll :
      (poi : Option Poi) (ps : List Poi) (se : Option Error) (s : S) (c : Progress)
      (r : Option Error × (S × Progress)) (next : S → Progress → Option Error × (S × Progress))
      → Delivers poi s c r
      → ((s' : S) (c' : Progress) → DeliversAll ps se s' c' (next s' c'))
      → DeliversAll
          (elim poi [ none ↦ ps | some p ↦ p ∷ ps ])
          se
          s
          c
          (elim r.0 [ none ↦ next r.1.0 r.1.1 | some x ↦ (some x, r.1) ])
  unfolding deliver deliver_one
  cons-DeliversAll none ps se s c (none, (s', c')) next h k =
      let m = k s' c' in
      record {
        state = rw (← h.state) m.state;
        failed = rw (← h.state) m.failed;
        skipped = m.skipped ∙ h.skipped;
      }
  cons-DeliversAll none ps se s c (some x, (s', c')) next h k = cc h.failed
  cons-DeliversAll (some p) ps se s c (none, (s', c')) next h k =
      elim (Option-cases (sink p.0 p.1 s).0) [
        | inl e ↦
            let m = k s' c' in
            let d = deliver_next p ps s e in
            record {
              state = rw (d, ← h.state) m.state;
              failed = rw (d, ← h.state) m.failed;
              skipped = m.skipped ∙ h.skipped;
            }
        | inr (x, e) ↦ cc (h.failed, ap is_some e)
      ]
  cons-DeliversAll (some p) ps se s c (some x, (s', c')) next h k =
      elim (Option-cases (sink p.0 p.1 s).0) [
        | inl e ↦ cc (h.failed, ap is_some e)
        | inr (y, e) ↦
            let d = deliver_stop p ps s y e in
            record { state = rw d h.state; failed = rw d; skipped = h.skipped }
      ]

  stream-DeliversAll :
      (os : List (Time × Object)) (se : Option Error) (s : S) (c : Progress)
      → DeliversAll
          (pois arithmetic os)
          se
          s
          c
          (stream_elements arithmetic on_node (some on_way) os se (s, c))
  unfolding stream_elements pois deliver label
  stream-DeliversAll [] none s c = record { state = refl; failed = refl; skipped = refl }
  stream-DeliversAll [] (some x) s c = record { state = refl; failed = refl; skipped = refl }
  stream-DeliversAll (o ∷ os) se s c =
      cons-DeliversAll (object_poi arithmetic o) (pois arithmetic os) se s c _
        (λ s' c'. stream_elements arithmetic on_node (some on_way) os se (s', c'))
        (visit-Delivers o s c) (stream-DeliversAll os se)

  label-DeliversAll :
      (text : String) (ps : List Poi) (se : Option Error) (s : S) (c : Progress)
      (r : Option Error × (S × Progress))
      → DeliversAll ps se s c r
      → DeliversAll ps se s c (label text r)
  unfolding label
  label-DeliversAll text ps se s c (none, r) h = h
  label-DeliversAll text ps se s c (some x, r) h = record {
    state = h.state;
    failed = h.failed;
    skipped = h.skipped;
  }

  -- An import of a file that could be opened leaves its sink in the state in which a delivery of the
  -- file's places, in the order of the file and up to the sink's first error, leaves it. It fails
  -- just where the sink failed or the scan did. It skips no element that its filter took.
  pub full_import-deliver :
      (objects : List (Time × Object)) (scan_error : Option Error) (s : S)
      → ((full_import arithmetic none objects scan_error sink s).1.0
          ≡ (deliver sink (pois arithmetic objects) s).1)
        × (is_some (full_import arithmetic none objects scan_error sink s).0
            ≡ (is_some (deliver sink (pois arithmetic objects) s).0 || is_some scan_error))
        × ((full_import arithmetic none objects scan_error sink s).1.1.skipped ≡ 0)
  unfolding full_import
  full_import-deliver objects scan_error s =
      let h =
        label-DeliversAll "stream" _ scan_error s start _
          (stream-DeliversAll objects scan_error s start) in
      (h.state, h.failed, h.skipped)
