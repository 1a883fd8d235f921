-- ===== src/A11y/Flags.antt =====
-- What the audit flags of a component say, and when a profile carries the flags of its own values.
use inwheel_api.Common.{
  String, ◌==◌, ◌≡◌, refl, Bool, true, false, not, ◌&&◌, ◌||◌, Option, none, some, List, [], ◌∷◌,
  ◌++◌, contains, if◌then◌else◌, arith,
}
use inwheel_api.Models.{EntranceProps, RestroomProps, ElevatorProps, AccessibilityProfile}
use inwheel_api.A11y.{
  flag_entrance_narrow_width, flag_entrance_no_level_route, flag_restroom_narrow_door,
  flag_restroom_small_turning, flag_restroom_no_grab_rails, flag_elevator_narrow_width,
  flag_elevator_shallow_depth, flag_elevator_narrow_door, flag_elevator_no_braille,
  flag_elevator_no_audio, level_is_no, is_known_false, is_known_true, append_if, entrance_flags,
  pathway_flags, restroom_flags, parking_flags, elevator_flags, with_audit_flags, update_some,
}

contains-append :
    (xs : List String) (f g : String) → contains (xs ++ f ∷ []) g ≡ (contains xs g || (f == g))
contains-append [] f g = ground arith
contains-append (x ∷ xs) f g = ground (arith, contains-append xs f g)

contains-append_if :
    (c : Bool) (f g : String) (fs : List String)
    → contains (append_if c f fs) g ≡ (contains fs g || (c && (f == g)))
contains-append_if true f g fs = contains-append fs f g
contains-append_if false f g fs = ground arith

or_false : (b : Bool) → (b || false) ≡ b
or_false true = refl
or_false false = refl

and_true : (b : Bool) → (b && true) ≡ b
and_true true = refl
and_true false = refl

and_false : (b : Bool) → (b && false) ≡ false
and_false true = refl
and_false false = refl

ruleset flag_rules = (contains-append_if, or_false, and_true, and_false)

entrance_tests :
    (w l f r : Bool)
    → (contains
          (if l
            then append_if
                (not (f || r))
                flag_entrance_no_level_route
                (append_if w flag_entrance_narrow_width [])
            else append_if w flag_entrance_narrow_width [])
          flag_entrance_narrow_width
        ≡ w)
      × (contains
            (if l
              then append_if
                  (not (f || r))
                  flag_entrance_no_level_route
                  (append_if w flag_entrance_narrow_width [])
              else append_if w flag_entrance_narrow_width [])
            flag_entrance_no_level_route
          ≡ (l && (not f && not r)))
entrance_tests true true true r = (refl, refl)
entrance_tests true true false true = (refl, refl)
entrance_tests true true false false = (refl, refl)
entrance_tests true false f r = (refl, refl)
entrance_tests false true true r = (refl, refl)
entrance_tests false true false true = (refl, refl)
entrance_tests false true false false = (refl, refl)
entrance_tests false false f r = (refl, refl)

-- A flag of an entrance stands in the list exactly when the recorded values violate its rule: the
-- width is "no"; the entrance is known not to be level and no ramp, fixed or removable, is known.
pub contains-entrance_flags :
    (p : EntranceProps)
    → (contains (entrance_flags p) flag_entrance_narrow_width ≡ level_is_no p.width)
      × (contains (entrance_flags p) flag_entrance_no_level_route ≡ (
          is_known_false p.is_level
          && (not (is_known_true p.has_fixed_ramp) && not (is_known_true p.has_removable_ramp))))
unfolding entrance_flags
contains-entrance_flags p =
    entrance_tests (level_is_no p.width) (is_known_false p.is_level)
      (is_known_true p.has_fixed_ramp) (is_known_true p.has_removable_ramp)

-- A flag of an elevator stands in the list exactly when its own recorded value calls for it: a level
-- that is "no", of the width, the depth or the door, or braille or audio known to be missing.
pub contains-elevator_flags :
    (p : ElevatorProps)
    → (contains (elevator_flags p) flag_elevator_narrow_width ≡ level_is_no p.width)
      × (contains (elevator_flags p) flag_elevator_shallow_depth ≡ level_is_no p.depth)
      × (contains (elevator_flags p) flag_elevator_narrow_door ≡ level_is_no p.door_width)
      × (contains (elevator_flags p) flag_elevator_no_braille ≡ is_known_false p.has_braille)
      × (contains (elevator_flags p) flag_elevator_no_audio ≡ is_known_false p.has_audio)
unfolding elevator_flags
contains-elevator_flags p =
    (simp flag_rules, simp flag_rules, simp flag_rules, simp flag_rules, simp flag_rules)

-- A flag of a restroom stands in the list exactly when its own recorded value calls for it: a level
-- that is "no", of the door width or the turning radius, or grab rails known to be missing.
pub contains-restroom_flags :
    (p : RestroomProps)
    → (contains (restroom_flags p) flag_restroom_narrow_door ≡ level_is_no p.door_width)
      × (contains (restroom_flags p) flag_restroom_small_turning ≡ level_is_no p.turning_radius)
      × (contains (restroom_flags p) flag_restroom_no_grab_rails ≡ is_known_false p.has_grab_rails)
unfolding restroom_flags
contains-restroom_flags p = (simp flag_rules, simp flag_rules, simp flag_rules)

-- What holds of the component behind a pointer that is not nil.
abbrev pub OnSome {ℓ} : {A : Type ℓ} → (A → Type 0) → Option A → Type 0
OnSome P none = Unit
OnSome P (some a) = P a

-- Each component of the profile carries the flags that its own values call for.
pub record IsAudited (p : AccessibilityProfile) : Type 0 where
  pub entrance : OnSome (λ c. c.audit_flags ≡ entrance_flags c) p.entrance
  pub pathways : OnSome (λ c. c.audit_flags ≡ pathway_flags c) p.pathways
  pub restroom : OnSome (λ c. c.audit_flags ≡ restroom_flags c) p.restroom
  pub parking : OnSome (λ c. c.audit_flags ≡ parking_flags c) p.parking
  pub elevator : OnSome (λ c. c.audit_flags ≡ elevator_flags c) p.elevator

OnSome-update {ℓ} :
    {A : Type ℓ} (P : A → Type 0) (f : A → A) (o : Option A)
    → ((a : A) → P (f a))
    → OnSome P (update_some f o)
OnSome-update P f none h = tt
OnSome-update P f (some a) h = h a

-- After WithAuditFlags each component that the profile has carries exactly the flags that its own
-- values, as they stand after the call, call for.
pub with_audit_flags-IsAudited : (p : AccessibilityProfile) → IsAudited (with_audit_flags p)
unfolding with_audit_flags entrance_flags pathway_flags restroom_flags parking_flags elevator_flags
with_audit_flags-IsAudited p = record {
  entrance = OnSome-update _ _ p.entrance (λ c. refl);
  pathways = OnSome-update _ _ p.pathways (λ c. refl);
  restroom = OnSome-update _ _ p.restroom (λ c. refl);
  parking = OnSome-update _ _ p.parking (λ c. refl);
  elevator = OnSome-update _ _ p.elevator (λ c. refl);
}
