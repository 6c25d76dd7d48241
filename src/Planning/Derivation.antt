-- ===== src/Planning/Derivation.antt =====
-- services/implementation_plan_derivation. Logging is left out.
pub mod Specs
pub mod Gaps
pub mod Stored
pub mod Keeps
pub mod Edges
pub mod Persisted
pub mod Passes
pub mod Returns
pub mod Order
use paa_platform.Planning.Derivation.Specs.{
  about, activity_spec_from_blueprint, blueprint_metadata, default_named, dependency_spec,
  dependency_specs_from_blueprints, detect_gaps, detect_warnings, duplicate_gaps, warnings_of,
  zero_id,
}
use Prim.Native.String
use paa_platform.Prelude.{
  String, Bool, true, false, ◌&&◌, ◌==◌, Option, none, some, List, [], ◌∷◌, ◌++◌, map, is_none,
  is_empty, member, truthy, when, if◌then◌else◌,
}
use paa_platform.Json.{
  Dict, empty, entry, text, opt_text, set_default, dict_or_empty, Message, lit, shown, plain,
}
use paa_platform.Planning.Records.{
  ImplementationPlanRecord, ImplementationPlanActivityUpsertSpec,
  ImplementationPlanActivityDependencyUpsertSpec, ImplementationPlanActivityBlueprint,
  ImplementationPlanDerivationRequest, ImplementationPlanDerivationResult,
}
use paa_platform.Planning.Store.{
  upsert_implementation_plan_activity, upsert_implementation_plan_activity_dependency,
}
use paa_platform.Planning.Store.Plans.{
  Store, Database, get_implementation_plan_for_design_package, upsert_implementation_plan,
}

unfoldable pub ephemeral_plan_record :
    ImplementationPlanDerivationRequest → ImplementationPlanRecord
ephemeral_plan_record request = record {
  implementation_plan_id = zero_id;
  project_id = request.plan.project_id;
  work_item_id = request.plan.work_item_id;
  design_package_id = request.plan.design_package_id;
  spec_fragment_id = request.plan.spec_fragment_id;
  implementation_target_id = request.plan.implementation_target_id;
  authority_version_id = request.plan.authority_version_id;
  primary_component_id = request.plan.primary_component_id;
  plan_id_external = request.plan.plan_id_external;
  schema_version = request.plan.schema_version;
  consumer_context_key = request.plan.consumer_context_key;
  plan_title = request.plan.plan_title;
  plan_kind = request.plan.plan_kind;
  status = request.plan.status;
  authority_state = request.plan.authority_state;
  authority_state_updated_at = none;
  plan = dict_or_empty request.plan.plan;
  build_sequence = dict_or_empty request.plan.build_sequence;
  touch_surfaces = dict_or_empty request.plan.touch_surfaces;
  protected_constraints = dict_or_empty request.plan.protected_constraints;
  verification_plan = dict_or_empty request.plan.verification_plan;
  provenance = dict_or_empty request.plan.provenance;
  metadata = dict_or_empty request.plan.metadata;
  created_by_role_id = request.plan.created_by_role_id;
  created_by_agent_id = request.plan.created_by_agent_id;
  approved_at = request.plan.approved_at;
  activated_at = request.plan.activated_at;
  completed_at = request.plan.completed_at;
  created_at = none;
  updated_at = none;
}

-- `replace(spec, implementation_plan_id=…)`
abbrev pub activity_in :
    String → ImplementationPlanActivityUpsertSpec → ImplementationPlanActivityUpsertSpec
activity_in id spec = record spec { implementation_plan_id = id }

abbrev pub dependency_in :
    String
    → ImplementationPlanActivityDependencyUpsertSpec
    → ImplementationPlanActivityDependencyUpsertSpec
dependency_in id spec = record spec { implementation_plan_id = id }

abbrev pub activity_specs :
    ImplementationPlanDerivationRequest → List ImplementationPlanActivityUpsertSpec
activity_specs request = map activity_spec_from_blueprint request.activity_blueprints

abbrev pub dependency_specs :
    ImplementationPlanDerivationRequest → List ImplementationPlanActivityDependencyUpsertSpec
dependency_specs request = dependency_specs_from_blueprints request.activity_blueprints

unfoldable pub derivation_result :
    ImplementationPlanDerivationRequest
    → ImplementationPlanRecord
    → Bool
    → ImplementationPlanDerivationResult
derivation_result request plan persisted = record {
  plan_record = plan;
  activity_specs = map (activity_in plan.implementation_plan_id) (activity_specs request);
  dependency_specs = map (dependency_in plan.implementation_plan_id) (dependency_specs request);
  verification_surfaces = request.verification_surfaces;
  warnings = detect_warnings request.activity_blueprints;
  gaps = detect_gaps request.activity_blueprints;
  persisted = persisted;
}

-- A call returns a result, or raises; either way it leaves the tables.
pub data Outcome : Type 0 where
  returned : ImplementationPlanDerivationResult → Store → Outcome
  raised : Store → Outcome

-- A loop over writes: it stops where a write raises, with what was written so far.
pub data Written : Type 0 where
  all : Store → Written
  stopped : Store → Written

-- The loop over the activities.
unfoldable pub write_activities :
    String → Database → List ImplementationPlanActivityUpsertSpec → Store → Written
write_activities id db [] store = all store
write_activities id db (spec ∷ specs) store =
    elim (upsert_implementation_plan_activity (activity_in id spec) db store) [
      | none ↦ stopped store
      | some next ↦ write_activities id db specs next
    ]

-- The loop over the dependencies.
unfoldable pub write_dependencies :
    String → Database → List ImplementationPlanActivityDependencyUpsertSpec → Store → Written
write_dependencies id db [] store = all store
write_dependencies id db (spec ∷ specs) store =
    elim (upsert_implementation_plan_activity_dependency (dependency_in id spec) db store) [
      | none ↦ stopped store
      | some next ↦ write_dependencies id db specs next
    ]

-- The two loops and the result.
unfoldable pub persist_under :
    ImplementationPlanDerivationRequest → ImplementationPlanRecord → Database → Store → Outcome
persist_under request plan db store =
    let id = plan.implementation_plan_id in
    elim (write_activities id db (activity_specs request) store) [
      | stopped s ↦ raised s
      | all filled ↦ elim (write_dependencies id db (dependency_specs request) filled) [
        | stopped s ↦ raised s
        | all s ↦ returned (derivation_result request plan true) s
      ]
    ]

-- From the upsert of the plan on. A plan that cannot be found again is the `RuntimeError`.
unfoldable pub persist_plan : ImplementationPlanDerivationRequest → Database → Store → Outcome
persist_plan request db store = elim (upsert_implementation_plan request.plan db store) [
  | none ↦ raised store
  | some planned ↦
      elim (get_implementation_plan_for_design_package planned request.plan.design_package_id
        request.plan.consumer_context_key) [
          | none ↦ raised planned
          | some plan ↦ persist_under request plan db planned
        ]
]

unfoldable pub derive_plan : ImplementationPlanDerivationRequest → Database → Store → Outcome
derive_plan request db store =
    if request.persist
    then persist_plan request db store
    else returned (derivation_result request (ephemeral_plan_record request) false) store
