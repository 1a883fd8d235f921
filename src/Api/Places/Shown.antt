-- ===== src/Api/Places/Shown.antt =====
-- What GetPlace shows of a place.
use inwheel_api.Common.{String, ◌≡◌, refl, Option, none, some}
use inwheel_api.Common.Result.{Error, Result, ok, err}
use inwheel_api.Models.{Place, AccessibilityProfile}
use inwheel_api.A11y.Effective.{IsMerge, profile_of, compute_effective_profile-IsMerge}
use inwheel_api.Profiles.{Lookup, row, missing, failed}
use inwheel_api.Api.Places.{
  Store, PlaceResponse, shown, not_found, with_place_id, with_parent, parent_of, found_place,
  get_place,
}

-- What a lookup of the store gives.
abbrev pub HasRow : {S : Type 0} → Store S → String → S → Lookup Place → S → Type 0
HasRow store id s l s' = store.first_place id s ≡ (l, s')

-- What may be answered for an id, by what the store has of the place and of its parent.
pub data IsShown {S : Type 0} (store : Store S) (id : String) (s : S)
    : Result PlaceResponse × S → Type 0 where
  no_parent :
      (p : Place) (s' : S)
      → HasRow store id s (row p) s'
      → p.parent_id ≡ none
      → IsShown store id s (ok (shown p), s')
  under_parent :
      (p parent : Place) (parent_id : String) (merged : AccessibilityProfile) (s' s'' : S)
      → HasRow store id s (row p) s'
      → p.parent_id ≡ some parent_id
      → HasRow store parent_id s' (row parent) s''
      → IsMerge parent.id (profile_of p.accessibility) (profile_of parent.accessibility) merged
      → IsShown store id s
          (ok (shown (record p { accessibility = some (record merged { place_id = p.id }) })), s'')
  lost_parent :
      (p : Place) (parent_id : String) (s' s'' : S)
      → HasRow store id s (row p) s'
      → p.parent_id ≡ some parent_id
      → HasRow store parent_id s' missing s''
      → IsShown store id s (ok (shown p), s'')
  failed_parent :
      (p : Place) (parent_id : String) (e : Error) (s' s'' : S)
      → HasRow store id s (row p) s'
      → p.parent_id ≡ some parent_id
      → HasRow store parent_id s' (failed e) s''
      → IsShown store id s (ok (shown p), s'')
  no_place : (s' : S) → HasRow store id s missing s' → IsShown store id s (ok not_found, s')
  failed_place :
      (e : Error) (s' : S) → HasRow store id s (failed e) s' → IsShown store id s (err e, s')

module _ {S : Type 0} (store : Store S) (id : String) (s : S) where
  with_parent-IsShown :
      (p : Place) (parent_id : String) (s' s'' : S) (l : Lookup Place)
      → HasRow store id s (row p) s'
      → p.parent_id ≡ some parent_id
      → HasRow store parent_id s' l s''
      → IsShown store id s (with_parent store p (l, s''))
  unfolding with_parent with_place_id
  with_parent-IsShown p parent_id s' s'' missing h n k = lost_parent p parent_id s' s'' h n k
  with_parent-IsShown p parent_id s' s'' (failed e) h n k = failed_parent p parent_id e s' s'' h n k
  with_parent-IsShown p parent_id s' s'' (row parent) h n k =
      let (merged, e, m) = compute_effective_profile-IsMerge p parent in
      rw e (under_parent p parent parent_id merged s' s'' h n k m)

  parent_of-IsShown :
      (p : Place) (o : Option String) (s' : S)
      → HasRow store id s (row p) s'
      → p.parent_id ≡ o
      → IsShown store id s (parent_of store p o s')
  unfolding parent_of
  parent_of-IsShown p none s' h n = no_parent p s' h n
  parent_of-IsShown p (some parent_id) s' h n =
      let (l, s'') = store.first_place parent_id s' in
      with_parent-IsShown p parent_id s' s'' l h n refl

  found_place-IsShown :
      (l : Lookup Place) (s' : S)
      → HasRow store id s l s'
      → IsShown store id s (found_place store (l, s'))
  unfolding found_place
  found_place-IsShown missing s' h = no_place s' h
  found_place-IsShown (failed e) s' h = failed_place e s' h
  found_place-IsShown (row p) s' h = parent_of-IsShown p p.parent_id s' h refl

  -- A place without a parent, or whose parent is not found or cannot be read, is shown as it is
  -- stored; a place with a parent is shown with the merge of its profile and the parent's, under its
  -- own id; a place that is not there is answered with 404, and an error of the database is passed
  -- on.
  pub get_place-IsShown : IsShown store id s (get_place store id s)
  unfolding get_place
  get_place-IsShown = let (l, s') = store.first_place id s in found_place-IsShown l s' refl
