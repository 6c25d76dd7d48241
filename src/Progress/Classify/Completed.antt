-- ===== src/Progress/Classify/Completed.antt =====
-- When an activity counts as completed, in terms of the plan's verification surfaces.
use mathlib.Core.List.{append_assoc, append-nil}
use paa_platform.Prelude.{
  String, ◌≡◌, ◌↔◌, ◌⊎◌, refl, Bool, true, ◌&&◌, Option, none, some, List, [], ◌∷◌, ◌++◌, arith,
  eq_iff, select, All, opt_eq, opt_eq_iff, if◌then◌else◌,
}
use paa_platform.Progress.Models.{Classification, ActivityRecord, VerificationSurfaceRecord}
use paa_platform.Progress.Groups.{Groups, group, group-append_to}
use paa_platform.Progress.Classify.{
  classify_activity, add_surface, required_by_activity, missing_required, activity_detail,
}

-- An activity is completed exactly when its state says so and no required verification is missing.
classify_completed :
    (state : String) (missing : List String)
    → (classify_activity state missing ≡ Classification.completed)
      ↔ ((state ≡ "completed") × (missing ≡ []))
unfolding classify_activity
classify_completed state [] = ((λ h. (ground (arith, eq_iff state "completed"), refl)), λ h. rw h.0)
classify_completed state (m ∷ missing) = ground arith

-- The required surfaces of one activity.
abbrev belongs : String → VerificationSurfaceRecord → Bool
belongs id s = opt_eq s.implementation_plan_activity_id (some id) && s.required

group-add_surface :
    (id : String) (o : Option String) (s : VerificationSurfaceRecord)
    (g : Groups VerificationSurfaceRecord)
    → group id (add_surface o s g)
      ≡ (if opt_eq o (some id) && s.required then group id g ++ s ∷ [] else group id g)
unfolding add_surface
group-add_surface id none s g = refl
group-add_surface id (some j) s g = ground (arith, group-append_to j id s g)

group-required :
    (id : String) (ss : List VerificationSurfaceRecord) (g : Groups VerificationSurfaceRecord)
    → group id (required_by_activity ss g) ≡ group id g ++ select (belongs id) ss
unfolding required_by_activity select
group-required id [] g = rw append-nil
group-required id (s ∷ ss) g =
    let next = add_surface s.implementation_plan_activity_id s g in
    ground (
      arith,
      group-required id ss next,
      group-add_surface id s.implementation_plan_activity_id s g,
      append_assoc (group id g) (s ∷ []) (select (belongs id) ss),
    )

-- A surface that a completed activity needs has passed or was waived.
abbrev pub Verified : String → VerificationSurfaceRecord → Type 0
Verified id s =
    s.implementation_plan_activity_id ≡ some id
    → s.required ≡ true
    → (s.status ≡ "passed") ⊎ (s.status ≡ "waived")

none_missing :
    (id : String) (ss : List VerificationSurfaceRecord)
    → (missing_required (select (belongs id) ss) ≡ []) ↔ All (Verified id) ss
unfolding missing_required select
none_missing id [] = ground arith
none_missing id (s ∷ ss) =
    let ih = none_missing id ss in
    ground (
      arith,
      ih,
      opt_eq_iff s.implementation_plan_activity_id (some id),
      eq_iff s.status "passed",
      eq_iff s.status "waived",
    )

-- An activity counts as completed exactly when its state is `completed` and every required surface
-- of the plan that names it has passed or was waived.
pub completed-Verified :
    (surfaces : List VerificationSurfaceRecord) (a : ActivityRecord)
    → ((activity_detail (required_by_activity surfaces []) a).classification
        ≡ Classification.completed)
      ↔ ((a.activity_state ≡ "completed")
          × All (Verified a.implementation_plan_activity_id) surfaces)
unfolding activity_detail group
completed-Verified surfaces a =
    let id = a.implementation_plan_activity_id in
    let surfaces_of : List VerificationSurfaceRecord = select (belongs id) surfaces in
    let split = classify_completed a.activity_state (missing_required surfaces_of) in
    let none_left = none_missing id surfaces in
    rw (group-required id surfaces []) (
      (λ h. let parts = split.0 h in (parts.0, none_left.0 parts.1)),
      λ h. split.1 (h.0, none_left.1 h.1),
    )
