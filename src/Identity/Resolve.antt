-- ===== src/Identity/Resolve.antt =====
-- resolve.go: the resolver attaches a reference to the matched place, or queues the record.
use inwheel_api.Common.{String, Option, none, some}
use inwheel_api.Common.Result.{wrap, Result, ok, err, Exec}
use inwheel_api.Float64.{Arithmetic}
use inwheel_api.Models.{Time, ExternalRef, UnmatchedExternal}
use inwheel_api.Identity.Normalize.{Unicode}
use inwheel_api.Identity.Match.{
  Record, Kind, no_match, low_confidence, confident, Decision, CandidateRepo, match,
}

pub record AttachRepo (S : Type 0) : Type 0 where
  pub attach_external_ref : String → String → ExternalRef → Exec S (Unit {0})

pub record EnqueueRepo (S : Type 0) : Type 0 where
  pub enqueue : UnmatchedExternal → Exec S (Unit {0})

pub record Resolver (S : Type 0) : Type 0 where
  pub candidates : CandidateRepo S
  pub places : AttachRepo S
  pub unmatched : EnqueueRepo S

abbrev pub ref_of : Record → Decision → Time → ExternalRef
ref_of rec d now = record { id = rec.source_id; confidence = d.confidence; matched_at = now }

abbrev payload_or_empty : Option String → String
payload_or_empty none = "{}"
payload_or_empty (some p) = p

abbrev pub queue_row : Record → Time → UnmatchedExternal
queue_row rec now = record {
  id = 0;
  source = rec.source;
  source_id = rec.source_id;
  name = rec.name;
  category = rec.category;
  street = rec.street;
  house_number = rec.house_number;
  lat = rec.lat;
  lng = rec.lng;
  payload = payload_or_empty rec.payload;
  last_attempted = now;
  attempts = 1;
}

-- if err != nil { return Decision{}, fmt.Errorf("<text>: %w", err) }; return d, nil
unfoldable pub answer :
    {S : Type 0} → String → Decision → Result (Unit {0}) × S → Result Decision × S
answer text d (ok u, s) = (ok d, s)
answer text d (err e, s) = (err (wrap text e), s)

-- the switch over the kind
unfoldable pub apply : {S : Type 0} → Resolver S → Time → Record → Kind → Decision → Exec S Decision
unfolding answer
apply resolver now rec no_match d s =
    answer "enqueue unmatched" d (resolver.unmatched.enqueue (queue_row rec now) s)
apply resolver now rec low_confidence d s =
    answer "attach external ref" d
      (resolver.places.attach_external_ref d.matched_place_id rec.source (ref_of rec d now) s)
apply resolver now rec confident d s =
    answer "attach external ref" d
      (resolver.places.attach_external_ref d.matched_place_id rec.source (ref_of rec d now) s)

unfoldable pub resolve_matched :
    {S : Type 0} → Resolver S → Time → Record → Result Decision × S → Result Decision × S
unfolding apply
resolve_matched resolver now rec (err e, s) = (err (wrap "match" e), s)
resolve_matched resolver now rec (ok d, s) = apply resolver now rec d.kind d s

unfoldable pub resolve :
    {S : Type 0} → Arithmetic → Unicode → Resolver S → Time → Record → Exec S Decision
unfolding resolve_matched
resolve arithmetic unicode resolver now rec s =
    resolve_matched resolver now rec (match arithmetic unicode resolver.candidates rec s)
