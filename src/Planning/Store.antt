-- ===== src/Planning/Store.antt =====
-- The rows of activities and dependencies in the tables behind
-- repositories/implementation_plan/postgres.py; enum casts, casts of ids to uuid and foreign keys
-- are left out.
pub mod Plans
pub mod Activities
pub mod Listing
pub mod Summary
pub mod Edges
use paa_platform.Planning.Store.Plans.{
  Database, DependencyRow, Store, external_id_taken, for_package, get_implementation_plan,
  get_implementation_plan_for_design_package, has_plan_id, inserted_plan, plan_refused, update_plan,
  updated_plan, upsert_implementation_plan, written_plans,
}
use Prim.Native.String.{compare}
use text.Mathlib.Text.{is_le}
use paa_platform.Prelude.{
  ℤ, pos, negsuc, ltb, ltb_ℤ, eqb_ℤ, String, Bool, true, false, not, ◌&&◌, ◌||◌, ◌==◌, Option, none,
  some, List, [], ◌∷◌, ◌++◌, map, is_some, is_none, find, select, sort_by, if◌then◌else◌,
}
use paa_platform.Json.{Dict, dict_or_empty}
use paa_platform.Progress.Models.{
  ActivityRecord, DependencyRecord, VerificationSurfaceRecord, PlanRecord,
}
use paa_platform.Progress.Next.{ranked_before}
use paa_platform.Progress.Service.{PlanRepository}
use paa_platform.Planning.Records.{
  ImplementationPlanRecord, ImplementationPlanUpsertSpec, ImplementationPlanActivityUpsertSpec,
  ImplementationPlanActivityDependencyUpsertSpec,
}

abbrev pub of_plan : String → ActivityRecord → Bool
of_plan id a = a.implementation_plan_id == id

abbrev pub has_key : String → String → ActivityRecord → Bool
has_key id key a = a.implementation_plan_id == id && a.activity_key == key

unfoldable pub get_implementation_plan_activity_by_key :
    Store → String → String → Option ActivityRecord
get_implementation_plan_activity_by_key store id key = find (has_key id key) store.activities

unfoldable pub inserted_activity : ImplementationPlanActivityUpsertSpec → Database → ActivityRecord
inserted_activity spec db = record {
  implementation_plan_activity_id = db.activity_id spec.implementation_plan_id spec.activity_key;
  implementation_plan_id = spec.implementation_plan_id;
  component_element_id = spec.component_element_id;
  component_element_realization_id = spec.component_element_realization_id;
  assigned_role_id = spec.assigned_role_id;
  activity_key = spec.activity_key;
  activity_title = spec.activity_title;
  activity_kind = spec.activity_kind;
  activity_state = spec.activity_state;
  sequence_order = spec.sequence_order;
  target_path = spec.target_path;
  target_module = spec.target_module;
  planned_artifact_type_key = spec.planned_artifact_type_key;
  blocking_reason = spec.blocking_reason;
  metadata = dict_or_empty spec.metadata;
  started_at = spec.started_at;
  completed_at = spec.completed_at;
  created_at = some db.now;
  updated_at = some db.now;
}

-- `ON CONFLICT (implementation_plan_id, activity_key) DO UPDATE`
unfoldable pub updated_activity :
    ImplementationPlanActivityUpsertSpec → String → ActivityRecord → ActivityRecord
updated_activity spec now a = record a {
  component_element_id = spec.component_element_id;
  component_element_realization_id = spec.component_element_realization_id;
  assigned_role_id = spec.assigned_role_id;
  activity_title = spec.activity_title;
  activity_kind = spec.activity_kind;
  activity_state = spec.activity_state;
  sequence_order = spec.sequence_order;
  target_path = spec.target_path;
  target_module = spec.target_module;
  planned_artifact_type_key = spec.planned_artifact_type_key;
  blocking_reason = spec.blocking_reason;
  metadata = dict_or_empty spec.metadata;
  started_at = spec.started_at;
  completed_at = spec.completed_at;
  updated_at = some now;
}

-- The row of the key is updated in place, or a new one is added.
unfoldable pub put_activity :
    ImplementationPlanActivityUpsertSpec → Database → List ActivityRecord → List ActivityRecord
put_activity spec db [] = inserted_activity spec db ∷ []
put_activity spec db (a ∷ as_) =
    let rest = put_activity spec db as_ in
    if has_key spec.implementation_plan_id spec.activity_key a
    then updated_activity spec db.now a ∷ as_
    else a ∷ rest

-- What an INTEGER column holds.
abbrev pub fits_integer : ℤ → Bool
fits_integer (pos n) = ltb n 2147483648
fits_integer (negsuc n) = ltb n 2147483648

-- `none` is the error of a sequence order that is out of the range of its column.
unfoldable pub upsert_implementation_plan_activity :
    ImplementationPlanActivityUpsertSpec → Database → Store → Option Store
upsert_implementation_plan_activity spec db store =
    if fits_integer spec.sequence_order
    then some (record store { activities = put_activity spec db store.activities })
    else none

abbrev pub has_edge : String → String → String → DependencyRow → Bool
has_edge id predecessor successor row =
    row.implementation_plan_id == id
    && (row.predecessor_activity_id == predecessor && row.successor_activity_id == successor)

unfoldable pub inserted_dependency :
    ImplementationPlanActivityDependencyUpsertSpec → Database → String → String → DependencyRow
inserted_dependency spec db predecessor successor = record {
  implementation_plan_activity_dependency_id =
      db.dependency_id spec.implementation_plan_id predecessor successor;
  implementation_plan_id = spec.implementation_plan_id;
  predecessor_activity_id = predecessor;
  successor_activity_id = successor;
  sequencing_requirement = spec.sequencing_requirement;
  dependency_strength = spec.dependency_strength;
  notes = spec.notes;
  metadata = dict_or_empty spec.metadata;
  created_at = some db.now;
}

unfoldable pub updated_dependency :
    ImplementationPlanActivityDependencyUpsertSpec → DependencyRow → DependencyRow
updated_dependency spec row = record row {
  sequencing_requirement = spec.sequencing_requirement;
  dependency_strength = spec.dependency_strength;
  notes = spec.notes;
  metadata = dict_or_empty spec.metadata;
}

unfoldable pub put_dependency :
    ImplementationPlanActivityDependencyUpsertSpec
    → Database
    → String
    → String
    → List DependencyRow
    → List DependencyRow
put_dependency spec db predecessor successor [] =
    inserted_dependency spec db predecessor successor ∷ []
put_dependency spec db predecessor successor (row ∷ rows) =
    let rest = put_dependency spec db predecessor successor rows in
    if has_edge spec.implementation_plan_id predecessor successor row
    then updated_dependency spec row ∷ rows
    else row ∷ rest

-- The row between two activities that the SELECT finds; `none` is the violated CHECK.
unfoldable pub put_edge :
    ImplementationPlanActivityDependencyUpsertSpec
    → Database
    → Store
    → ActivityRecord
    → ActivityRecord
    → Option Store
put_edge spec db store predecessor successor =
    if predecessor.implementation_plan_activity_id == successor.implementation_plan_activity_id
    then none
    else some (record store {
      dependencies =
          put_dependency spec db predecessor.implementation_plan_activity_id
            successor.implementation_plan_activity_id store.dependencies;
    })

-- Where the SELECT finds no predecessor or no successor it gives no row, and nothing is written.
unfoldable pub upsert_implementation_plan_activity_dependency :
    ImplementationPlanActivityDependencyUpsertSpec → Database → Store → Option Store
upsert_implementation_plan_activity_dependency spec db store =
    let id = spec.implementation_plan_id in
    elim (get_implementation_plan_activity_by_key store id spec.predecessor_activity_key) [
      | none ↦ some store
      | some predecessor ↦
          elim (get_implementation_plan_activity_by_key store id spec.successor_activity_key) [
            | none ↦ some store
            | some successor ↦ put_edge spec db store predecessor successor
          ]
    ]
