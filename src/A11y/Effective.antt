-- ===== src/A11y/Effective.antt =====
-- The effective profile: what a place shows of its own components and of its parent's.
use inwheel_api.Common.{String, ◌≡◌, refl, ap, true, Option, none, some}
use inwheel_api.Models.{
  EntranceProps, PathwayProps, RestroomProps, ParkingProps, ElevatorProps, AccessibilityProfile,
  Place,
}
use inwheel_api.A11y.{
  inherit, own_profile, inherit_from, merge_parent, compute_effective_profile, empty_profile,
}

-- The components of a profile that a child may own or inherit.
abbrev pub profile_of : Option AccessibilityProfile → AccessibilityProfile
profile_of none = empty_profile
profile_of (some p) = p

-- `shown` is the child's own component, or else the parent's with `mark` on it; it is missing
-- only where both are.
abbrev pub Merges {ℓ} : {A : Type ℓ} → (A → A) → Option A → Option A → Option A → Type ℓ
Merges mark own parent shown =
    ((a : _) → own ≡ some a → shown ≡ some a)
    × (own ≡ none → (a : _) → parent ≡ some a → shown ≡ some (mark a))
    × (own ≡ none → parent ≡ none → shown ≡ none)

inherit-Merges {ℓ} :
    {A : Type ℓ} (mark : A → A) (own parent : Option A)
    → Merges mark own parent (inherit mark own parent)
inherit-Merges mark none none = (λ a e. cc, λ _ a e. cc, λ _ _. refl)
inherit-Merges mark none (some p) = (λ a e. cc, λ _ a e. cc, λ _ e. cc)
inherit-Merges mark (some o) parent = (λ a e. e, λ e a _. cc, λ e _. cc)

inherit_idem {ℓ} :
    {A : Type ℓ} (mark : A → A) (own parent : Option A)
    → inherit mark (inherit mark own parent) parent ≡ inherit mark own parent
inherit_idem mark (some o) parent = refl
inherit_idem mark none none = refl
inherit_idem mark none (some p) = refl

inherit-none {ℓ} : {A : Type ℓ} (mark : A → A) (own : Option A) → inherit mark own none ≡ own
inherit-none mark none = refl
inherit-none mark (some o) = refl

merge_parent_idem :
    (parent : Option (String × Option AccessibilityProfile)) (o : Option AccessibilityProfile)
    → merge_parent parent (own_profile (some (merge_parent parent (own_profile o))))
      ≡ merge_parent parent (own_profile o)
unfolding own_profile merge_parent
merge_parent_idem none none = refl
merge_parent_idem none (some p) = refl
merge_parent_idem (some (id, none)) none = refl
merge_parent_idem (some (id, none)) (some p) = refl
merge_parent_idem (some (id, some pa)) none = simp inherit_idem
merge_parent_idem (some (id, some pa)) (some p) = simp inherit_idem

-- Merging the same parent in a second time, into a place that stores the effective profile as its
-- own, changes nothing.
pub compute_effective_profile_idem :
    (child parent : Place)
    → compute_effective_profile
        (some
          (record child { accessibility = compute_effective_profile (some child) (some parent) }))
        (some parent)
      ≡ compute_effective_profile (some child) (some parent)
unfolding compute_effective_profile
compute_effective_profile_idem child parent =
    ap some (merge_parent_idem (some (parent.id, parent.accessibility)) child.accessibility)

-- The profile that is shown for a child under a parent: each component is the child's or the
-- parent's, by `Merges`; the rest is the child's.
pub record IsMerge (parent_id : String) (own parent shown : AccessibilityProfile) : Type 0 where
  pub entrance :
      Merges
        (λ (c : EntranceProps). record c { is_inherited = true; source_id = parent_id })
        own.entrance
        parent.entrance
        shown.entrance
  pub pathways :
      Merges
        (λ (c : PathwayProps). record c { is_inherited = true; source_id = parent_id })
        own.pathways
        parent.pathways
        shown.pathways
  pub restroom :
      Merges
        (λ (c : RestroomProps). record c { is_inherited = true; source_id = parent_id })
        own.restroom
        parent.restroom
        shown.restroom
  pub parking :
      Merges
        (λ (c : ParkingProps). record c { is_inherited = true; source_id = parent_id })
        own.parking
        parent.parking
        shown.parking
  pub elevator :
      Merges
        (λ (c : ElevatorProps). record c { is_inherited = true; source_id = parent_id })
        own.elevator
        parent.elevator
        shown.elevator
  pub id : shown.id ≡ own.id
  pub place_id : shown.place_id ≡ own.place_id
  pub source_reports : shown.source_reports ≡ own.source_reports
  pub user_verified : shown.user_verified ≡ own.user_verified

inherit_from-IsMerge :
    (parent_id : String) (pa e : AccessibilityProfile)
    → IsMerge parent_id e pa (inherit_from parent_id pa (record e { submitted_by = none }))
unfolding inherit_from
inherit_from-IsMerge parent_id pa e = record {
  entrance = inherit-Merges _ e.entrance pa.entrance;
  pathways = inherit-Merges _ e.pathways pa.pathways;
  restroom = inherit-Merges _ e.restroom pa.restroom;
  parking = inherit-Merges _ e.parking pa.parking;
  elevator = inherit-Merges _ e.elevator pa.elevator;
  id = refl;
  place_id = refl;
  source_reports = refl;
  user_verified = refl;
}

-- A missing profile of the parent merges like an empty one.
inherit_from_empty :
    (parent_id : String) (e : AccessibilityProfile) → inherit_from parent_id empty_profile e ≡ e
unfolding inherit_from
inherit_from_empty parent_id e = simp inherit-none

profile_of_own :
    (o : Option AccessibilityProfile)
    → own_profile o ≡ record (profile_of o) { submitted_by = none }
unfolding own_profile
profile_of_own none = refl
profile_of_own (some p) = refl

merge_parent-IsMerge :
    (id : String) (parent o : Option AccessibilityProfile)
    → IsMerge id
        (profile_of o)
        (profile_of parent)
        (merge_parent (some (id, parent)) (own_profile o))
unfolding merge_parent inherit_from
merge_parent-IsMerge id none o =
    rw (profile_of_own o, ← inherit_from_empty id (record (profile_of o) { submitted_by = none }))
      (inherit_from-IsMerge id empty_profile (profile_of o))
merge_parent-IsMerge id (some pa) o = rw profile_of_own (inherit_from-IsMerge id pa (profile_of o))

-- What a child with a parent shows: never the parent's component where the child owns one, the
-- parent's marked as inherited, with the parent's id, where it owns none, and nothing else.
pub compute_effective_profile-IsMerge :
    (child parent : Place)
    → (shown : AccessibilityProfile) × (compute_effective_profile (some child) (some parent)
        ≡ some shown)
      × IsMerge parent.id (profile_of child.accessibility) (profile_of parent.accessibility) shown
unfolding compute_effective_profile
compute_effective_profile-IsMerge child parent =
    (_, refl, merge_parent-IsMerge parent.id parent.accessibility child.accessibility)
