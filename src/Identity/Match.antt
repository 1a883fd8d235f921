-- ===== src/Identity/Match.antt =====
-- record.go, decision.go and matcher.go: the incoming record, the decision, and the choice of the
-- best candidate. The repository is the interface `CandidateRepo` over a state of its own.
pub mod Best
pub mod Decides
use inwheel_api.Common.{
  ℕ, suc, String, Bool, Option, none, some, List, [], ◌∷◌, get_elem?, if◌then◌else◌,
}
use inwheel_api.Common.Dict.{get}
use inwheel_api.Common.Result.{Error, message, wrap, Result, ok, err, Exec}
use inwheel_api.Float64.{Float64, Arithmetic, lt, le, minus_one}
use inwheel_api.Models.{Category, Place}
use inwheel_api.Identity.Compat.{compatible}
use inwheel_api.Identity.Normalize.{Unicode}
use inwheel_api.Identity.Score.{
  radius_m, confident_threshold, low_confidence_threshold, distance_score, name_score,
  address_score, combined_score,
}

-- `payload` is nil where the upstream row is missing.
pub record Record : Type 0 where
  pub source : String
  pub source_id : String
  pub name : String
  pub lat : Float64
  pub lng : Float64
  pub category : Category
  pub street : String
  pub house_number : String
  pub payload : Option String

pub data Kind : Type 0 where
  no_match low_confidence confident : Kind

pub record Decision : Type 0 where
  pub kind : Kind
  pub matched_place_id : String
  pub confidence : Float64

-- Decision{}, which is also Decision{Kind: KindNoMatch}
abbrev pub zero_decision : Decision
zero_decision = record { kind = no_match; matched_place_id = ""; confidence = 0 }

pub record CandidateRepo (S : Type 0) : Type 0 where
  pub find_candidates : Float64 → Float64 → Float64 → List Category → Exec S (List Place)

unfoldable pub score_candidate : Arithmetic → Unicode → Record → Place → Float64
score_candidate arithmetic unicode r p =
    let dist = distance_score arithmetic r.lat r.lng p.lat p.lng in
    let name = name_score arithmetic unicode r.name p.name in
    let p_street = get p.tags "addr:street" in
    let p_house = get p.tags "addr:housenumber" in
    let (addr, present) = address_score unicode r.street r.house_number p_street p_house in
    combined_score arithmetic dist name addr present

-- The loop over the candidates from index i on, with bestIdx (`none` is -1) and bestScore.
unfoldable pub best_from :
    (Place → Float64) → ℕ → Option ℕ → Float64 → List Place → Option ℕ × Float64
best_from score i best_idx best_score [] = (best_idx, best_score)
best_from score i best_idx best_score (c ∷ cs) =
    let better = best_from score (suc i) (some i) (score c) cs in
    let same = best_from score (suc i) best_idx best_score cs in
    if lt best_score (score c) then better else same

-- candidates[bestIdx].ID, with the panic of an index out of range
indexed_id : Option Place → Result String
indexed_id none = err (message "index out of range")
indexed_id (some p) = ok p.id

best_id : List Place → Option ℕ → Result String
unfolding indexed_id
best_id candidates none = err (message "index out of range")
best_id candidates (some i) = indexed_id (get_elem? candidates i)

matched : Kind → Float64 → Result String → Result Decision
matched kind score (err e) = err e
matched kind score (ok id) = ok (record { kind = kind; matched_place_id = id; confidence = score })

-- the switch over the best score
unfoldable pub decide : List Place → Option ℕ × Float64 → Result Decision
unfolding matched best_id
decide candidates (best_idx, best_score) =
    if le confident_threshold best_score
    then matched confident best_score (best_id candidates best_idx)
    else if le low_confidence_threshold best_score
    then matched low_confidence best_score (best_id candidates best_idx)
    else ok zero_decision

-- the part of Match below the query
unfoldable pub match_candidates : (Place → Float64) → List Place → Result Decision
match_candidates score [] = ok zero_decision
match_candidates score (c ∷ cs) = decide (c ∷ cs) (best_from score 0 none minus_one (c ∷ cs))

match_found : (Place → Float64) → Result (List Place) → Result Decision
unfolding match_candidates
match_found score (err e) = err (wrap "find candidates" e)
match_found score (ok candidates) = match_candidates score candidates

unfoldable pub match :
    {S : Type 0} → Arithmetic → Unicode → CandidateRepo S → Record → Exec S Decision
unfolding match_found
match arithmetic unicode repo r s =
    let (found, s') = repo.find_candidates r.lat r.lng radius_m (compatible r.category) s in
    (match_found (score_candidate arithmetic unicode r) found, s')
