-- ===== src/Planning/Store/Plans.antt =====
-- The tables behind repositories/implementation_plan/postgres.py, and the rows of the plans. Enum casts
-- and foreign keys are left out.
use paa_platform.Prelude.{
  String, Bool, not, ◌&&◌, ◌||◌, ◌==◌, Option, none, some, List, [], ◌∷◌, ◌++◌, map, is_some,
  is_none, find, if◌then◌else◌,
}
use paa_platform.Json.{Dict, dict_or_empty}
use paa_platform.Progress.Models.{ActivityRecord, VerificationSurfaceRecord}
use paa_platform.Planning.Records.{ImplementationPlanRecord, ImplementationPlanUpsertSpec}

-- A row of `implementation_plan_activity_dependencies`: it names its activities by their ids.
pub record DependencyRow : Type 0 where
  pub implementation_plan_activity_dependency_id : String
  pub implementation_plan_id : String
  pub predecessor_activity_id : String
  pub successor_activity_id : String
  pub sequencing_requirement : String
  pub dependency_strength : String
  pub notes : Option String
  pub metadata : Dict
  pub created_at : Option String

pub record Store : Type 0 where
  pub plans : List ImplementationPlanRecord
  pub activities : List ActivityRecord
  pub dependencies : List DependencyRow
  pub surfaces : List VerificationSurfaceRecord

-- `now()` and the keys that the database generates: one for a new plan, and one for the new row of an
-- activity or a dependency, which are named here by what their unique constraint holds.
pub record Database : Type 0 where
  pub now : String
  pub plan_id : String
  pub activity_id : String → String → String
  pub dependency_id : String → String → String → String

abbrev pub has_plan_id : String → ImplementationPlanRecord → Bool
has_plan_id id p = p.implementation_plan_id == id

unfoldable pub get_implementation_plan : Store → String → Option ImplementationPlanRecord
get_implementation_plan store id = find (has_plan_id id) store.plans

abbrev pub for_package : String → String → ImplementationPlanRecord → Bool
for_package design_package_id consumer_context_key p =
    p.design_package_id == design_package_id && p.consumer_context_key == consumer_context_key

unfoldable pub get_implementation_plan_for_design_package :
    Store → String → String → Option ImplementationPlanRecord
get_implementation_plan_for_design_package store design_package_id consumer_context_key =
    find (for_package design_package_id consumer_context_key) store.plans

-- The row of a new plan.
unfoldable pub inserted_plan : ImplementationPlanUpsertSpec → Database → ImplementationPlanRecord
inserted_plan spec db = record {
  implementation_plan_id = db.plan_id;
  project_id = spec.project_id;
  work_item_id = spec.work_item_id;
  design_package_id = spec.design_package_id;
  spec_fragment_id = spec.spec_fragment_id;
  implementation_target_id = spec.implementation_target_id;
  authority_version_id = spec.authority_version_id;
  primary_component_id = spec.primary_component_id;
  plan_id_external = spec.plan_id_external;
  schema_version = spec.schema_version;
  consumer_context_key = spec.consumer_context_key;
  plan_title = spec.plan_title;
  plan_kind = spec.plan_kind;
  status = spec.status;
  authority_state = spec.authority_state;
  authority_state_updated_at = some db.now;
  plan = dict_or_empty spec.plan;
  build_sequence = dict_or_empty spec.build_sequence;
  touch_surfaces = dict_or_empty spec.touch_surfaces;
  protected_constraints = dict_or_empty spec.protected_constraints;
  verification_plan = dict_or_empty spec.verification_plan;
  provenance = dict_or_empty spec.provenance;
  metadata = dict_or_empty spec.metadata;
  created_by_role_id = spec.created_by_role_id;
  created_by_agent_id = spec.created_by_agent_id;
  approved_at = spec.approved_at;
  activated_at = spec.activated_at;
  completed_at = spec.completed_at;
  created_at = some db.now;
  updated_at = some db.now;
}

-- `ON CONFLICT (design_package_id, consumer_context_key) DO UPDATE`
unfoldable pub updated_plan :
    ImplementationPlanUpsertSpec → String → ImplementationPlanRecord → ImplementationPlanRecord
updated_plan spec now p = record p {
  project_id = spec.project_id;
  work_item_id = spec.work_item_id;
  spec_fragment_id = spec.spec_fragment_id;
  implementation_target_id = spec.implementation_target_id;
  authority_version_id = spec.authority_version_id;
  primary_component_id = spec.primary_component_id;
  plan_id_external = spec.plan_id_external;
  schema_version = spec.schema_version;
  plan_title = spec.plan_title;
  plan_kind = spec.plan_kind;
  status = spec.status;
  authority_state = spec.authority_state;
  authority_state_updated_at = some now;
  plan = dict_or_empty spec.plan;
  build_sequence = dict_or_empty spec.build_sequence;
  touch_surfaces = dict_or_empty spec.touch_surfaces;
  protected_constraints = dict_or_empty spec.protected_constraints;
  verification_plan = dict_or_empty spec.verification_plan;
  provenance = dict_or_empty spec.provenance;
  metadata = dict_or_empty spec.metadata;
  approved_at = spec.approved_at;
  activated_at = spec.activated_at;
  completed_at = spec.completed_at;
  updated_at = some now;
}

-- Another plan holds the external id in the project (`UNIQUE (project_id, plan_id_external)`).
abbrev pub external_id_taken : ImplementationPlanUpsertSpec → ImplementationPlanRecord → Bool
external_id_taken spec p =
    (p.project_id == spec.project_id && p.plan_id_external == spec.plan_id_external)
    && not (for_package spec.design_package_id spec.consumer_context_key p)

-- The columns that are NOT NULL, and the unique external id.
unfoldable pub plan_refused : ImplementationPlanUpsertSpec → Store → Bool
plan_refused spec store =
    is_none spec.work_item_id
    || (is_none spec.implementation_target_id
        || is_some (find (external_id_taken spec) store.plans))

abbrev pub update_plan :
    ImplementationPlanUpsertSpec → String → ImplementationPlanRecord → ImplementationPlanRecord
update_plan spec now p =
    if for_package spec.design_package_id spec.consumer_context_key p
    then updated_plan spec now p
    else p

-- The plans after the statement, where the constraints hold.
unfoldable pub written_plans :
    ImplementationPlanUpsertSpec
    → Database
    → List ImplementationPlanRecord
    → List ImplementationPlanRecord
written_plans spec db plans =
    if is_some (find (for_package spec.design_package_id spec.consumer_context_key) plans)
    then map (update_plan spec db.now) plans
    else plans ++ inserted_plan spec db ∷ []

-- `none` is a database error, which leaves the tables as they were.
unfoldable pub upsert_implementation_plan :
    ImplementationPlanUpsertSpec → Database → Store → Option Store
upsert_implementation_plan spec db store =
    if plan_refused spec store
    then none
    else some (record store { plans = written_plans spec db store.plans })
