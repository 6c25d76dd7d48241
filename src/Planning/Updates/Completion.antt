-- ===== src/Planning/Updates/Completion.antt =====
-- A plan that is worked off over the repository: at each of the given times the progress service names
-- the next activity, and `set_implementation_plan_activity_state` records it as completed.
use paa_platform.Prelude.{
  String, ◌≡◌, refl, true, Option, none, some, List, [], ◌∷◌, All, All-map, All-sort_by, select,
  select-passes, Bool-cases, inl, inr, ◌==◌,
}
use paa_platform.Progress.Models.{ActivityRecord, ProgressSummary}
use paa_platform.Progress.Next.{ranked_before}
use paa_platform.Progress.Classify.Completing.{Completes}
use paa_platform.Progress.Service.{summarize_plan_progress}
use paa_platform.Planning.Records.{ImplementationPlanActivityStateUpdateSpec}
use paa_platform.Planning.Store.{of_plan}
use paa_platform.Planning.Store.Plans.{Store, get_implementation_plan}
use paa_platform.Planning.Store.Listing.{
  plan_repository, list_implementation_plan_activities,
  list_implementation_plan_verification_surfaces,
}
use paa_platform.Planning.Updates.{
  stated_activity, state_activity, set_implementation_plan_activity_state,
}

abbrev pub completing : String → String → String → ImplementationPlanActivityStateUpdateSpec
completing id key at = record {
  implementation_plan_id = id;
  activity_key = key;
  activity_state = "completed";
  blocking_reason = none;
  started_at = none;
  completed_at = some at;
  metadata = none;
}

abbrev complete_key : String → String → Option String → Store → Store
complete_key id at none store = store
complete_key id at (some k) store =
    set_implementation_plan_activity_state (completing id k at) at store

abbrev pub next_key : Option ProgressSummary → Option String
next_key none = none
next_key (some s) = s.next_activity_key

-- The next activity is completed at a time, if there is one.
unfoldable pub complete_next : String → String → Store → Store
complete_next id at store =
    complete_key id at (next_key (summarize_plan_progress (plan_repository store) id)) store

unfoldable pub work_off : String → List String → Store → Store
work_off id [] store = store
work_off id (at ∷ times) store = work_off id times (complete_next id at store)

-- The update completes the activity of its key, among those of the plan.
state_activity-Completes :
    (id k at : String) (a : ActivityRecord)
    → (a.implementation_plan_id == id) ≡ true
    → Completes k a (state_activity (completing id k at) at a)
unfolding stated_activity
state_activity-Completes id k at a own = rw own (elim (Bool-cases (a.activity_key == k)) [
  | inl e ↦
      rw e (record { same_key = refl; same_order = refl; here = λ _. refl; elsewhere = λ d. cc })
  | inr e ↦
      rw e (record { same_key = refl; same_order = refl; here = λ d. cc; elsewhere = λ _. refl })
])

pub listed-Completes :
    (id k at : String) (store : Store)
    → All
        (λ a. Completes k a (state_activity (completing id k at) at a))
        (list_implementation_plan_activities store id)
unfolding list_implementation_plan_activities
listed-Completes id k at store =
    All-sort_by _ ranked_before (select (of_plan id) store.activities) (
      All-map (select (of_plan id) store.activities) (state_activity-Completes id k at)
        (select-passes (of_plan id) store.activities))

-- An update of an activity leaves the plans and the verification surfaces alone.
module _ (spec : ImplementationPlanActivityStateUpdateSpec) (now : String) (store : Store)
    (id : String) where
  pub plan-set_state :
      get_implementation_plan (set_implementation_plan_activity_state spec now store) id
      ≡ get_implementation_plan store id
  unfolding get_implementation_plan set_implementation_plan_activity_state
  plan-set_state = refl

  pub surfaces-set_state :
      list_implementation_plan_verification_surfaces
        (set_implementation_plan_activity_state spec now store)
        id
      ≡ list_implementation_plan_verification_surfaces store id
  unfolding list_implementation_plan_verification_surfaces set_implementation_plan_activity_state
  surfaces-set_state = refl
