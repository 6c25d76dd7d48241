-- ===== src/Planning/Updates.antt =====
-- The updates of plans and activities in repositories/implementation_plan/postgres.py.
pub mod Kept
pub mod Ordered
pub mod Completion
pub mod Finished
use paa_platform.Prelude.{[], ◌∷◌, String, Option, none, some, List, map, if◌then◌else◌}
use paa_platform.Json.{Dict, dict, put, update}
use paa_platform.Progress.Models.{ActivityRecord}
use paa_platform.Planning.Records.{
  ImplementationPlanRecord, ImplementationPlanProgressUpdateSpec,
  ImplementationPlanActivityStateUpdateSpec,
}
use paa_platform.Planning.Store.{has_key}
use paa_platform.Planning.Store.Plans.{Store, has_plan_id}

-- `column = value` where a value is given, and `COALESCE(value, column)`.
abbrev pub given_or {ℓ} : {A : Type ℓ} → Option A → A → A
given_or none old = old
given_or (some new) old = new

abbrev pub coalesce {ℓ} : {A : Type ℓ} → Option A → Option A → Option A
coalesce none old = old
coalesce (some new) old = some new

-- A given authority state stamps the row.
abbrev pub state_updated_at : Option String → String → Option String → Option String
state_updated_at none now old = old
state_updated_at (some state) now old = some now

-- The row of a plan after an update of its progress.
unfoldable pub progressed_plan :
    ImplementationPlanProgressUpdateSpec
    → String
    → ImplementationPlanRecord
    → ImplementationPlanRecord
progressed_plan spec now p = record p {
  metadata = put p.metadata "component_completion" (dict spec.component_completion);
  status = given_or spec.status p.status;
  authority_state = given_or spec.authority_state p.authority_state;
  authority_state_updated_at =
      state_updated_at spec.authority_state now p.authority_state_updated_at;
  completed_at = coalesce spec.completed_at p.completed_at;
  updated_at = some now;
}

abbrev pub progress_plan :
    ImplementationPlanProgressUpdateSpec
    → String
    → ImplementationPlanRecord
    → ImplementationPlanRecord
progress_plan spec now p =
    if has_plan_id spec.implementation_plan_id p then progressed_plan spec now p else p

unfoldable pub update_implementation_plan_progress :
    ImplementationPlanProgressUpdateSpec → String → Store → Store
update_implementation_plan_progress spec now store = record store {
  plans = map (progress_plan spec now) store.plans;
}

-- `COALESCE(metadata_json, '{}') || …`
abbrev pub merged_metadata : Option Dict → Dict → Dict
merged_metadata none old = old
merged_metadata (some d) old = update old d

-- The row of an activity after an update of its state.
unfoldable pub stated_activity :
    ImplementationPlanActivityStateUpdateSpec → String → ActivityRecord → ActivityRecord
stated_activity spec now a = record a {
  activity_state = spec.activity_state;
  blocking_reason = spec.blocking_reason;
  started_at = coalesce spec.started_at a.started_at;
  completed_at = spec.completed_at;
  metadata = merged_metadata spec.metadata a.metadata;
  updated_at = some now;
}

abbrev pub state_activity :
    ImplementationPlanActivityStateUpdateSpec → String → ActivityRecord → ActivityRecord
state_activity spec now a =
    if has_key spec.implementation_plan_id spec.activity_key a
    then stated_activity spec now a
    else a

-- An UPDATE: where no row has the key, nothing changes.
unfoldable pub set_implementation_plan_activity_state :
    ImplementationPlanActivityStateUpdateSpec → String → Store → Store
set_implementation_plan_activity_state spec now store = record store {
  activities = map (state_activity spec now) store.activities;
}

-- A sequence of state updates, each with its time.
unfoldable pub set_states :
    List (ImplementationPlanActivityStateUpdateSpec × String) → Store → Store
set_states [] store = store
set_states (u ∷ us) store = set_states us (set_implementation_plan_activity_state u.0 u.1 store)
