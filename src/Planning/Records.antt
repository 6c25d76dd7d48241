-- ===== src/Planning/Records.antt =====
-- The records of repositories/implementation_plan/models.py that the derivation writes, and
-- services/implementation_plan_derivation/models.py.
use paa_platform.Prelude.{ℤ, String, Bool, Option, List}
use paa_platform.Json.{Dict, Message}

pub record ImplementationPlanRecord : Type 0 where
  pub implementation_plan_id : String
  pub project_id : String
  pub work_item_id : Option String
  pub design_package_id : String
  pub spec_fragment_id : Option String
  pub implementation_target_id : Option String
  pub authority_version_id : Option String
  pub primary_component_id : Option String
  pub plan_id_external : String
  pub schema_version : String
  pub consumer_context_key : String
  pub plan_title : String
  pub plan_kind : String
  pub status : String
  pub authority_state : String
  pub authority_state_updated_at : Option String
  pub plan : Dict
  pub build_sequence : Dict
  pub touch_surfaces : Dict
  pub protected_constraints : Dict
  pub verification_plan : Dict
  pub provenance : Dict
  pub metadata : Dict
  pub created_by_role_id : Option String
  pub created_by_agent_id : Option String
  pub approved_at : Option String
  pub activated_at : Option String
  pub completed_at : Option String
  pub created_at : Option String
  pub updated_at : Option String

pub record ImplementationPlanUpsertSpec : Type 0 where
  pub project_id : String
  pub design_package_id : String
  pub plan_id_external : String
  pub consumer_context_key : String
  pub plan_title : String
  pub plan_kind : String
  pub status : String
  pub authority_state : String
  pub work_item_id : Option String
  pub spec_fragment_id : Option String
  pub implementation_target_id : Option String
  pub authority_version_id : Option String
  pub primary_component_id : Option String
  pub schema_version : String
  pub plan : Option Dict
  pub build_sequence : Option Dict
  pub touch_surfaces : Option Dict
  pub protected_constraints : Option Dict
  pub verification_plan : Option Dict
  pub provenance : Option Dict
  pub metadata : Option Dict
  pub created_by_role_id : Option String
  pub created_by_agent_id : Option String
  pub approved_at : Option String
  pub activated_at : Option String
  pub completed_at : Option String

pub record ImplementationPlanActivityUpsertSpec : Type 0 where
  pub implementation_plan_id : String
  pub activity_key : String
  pub activity_title : String
  pub activity_kind : String
  pub activity_state : String
  pub sequence_order : ℤ
  pub component_element_id : Option String
  pub component_element_realization_id : Option String
  pub assigned_role_id : Option String
  pub target_path : Option String
  pub target_module : Option String
  pub planned_artifact_type_key : Option String
  pub blocking_reason : Option String
  pub metadata : Option Dict
  pub started_at : Option String
  pub completed_at : Option String

pub record ImplementationPlanActivityDependencyUpsertSpec : Type 0 where
  pub implementation_plan_id : String
  pub predecessor_activity_key : String
  pub successor_activity_key : String
  pub sequencing_requirement : String
  pub dependency_strength : String
  pub notes : Option String
  pub metadata : Option Dict

pub record ImplementationPlanProgressUpdateSpec : Type 0 where
  pub implementation_plan_id : String
  pub component_completion : Dict
  pub authority_state : Option String
  pub status : Option String
  pub completed_at : Option String

pub record ImplementationPlanActivityStateUpdateSpec : Type 0 where
  pub implementation_plan_id : String
  pub activity_key : String
  pub activity_state : String
  pub blocking_reason : Option String
  pub started_at : Option String
  pub completed_at : Option String
  pub metadata : Option Dict

pub record ImplementationPlanActivityBlueprint : Type 0 where
  pub activity_key : String
  pub activity_title : String
  pub activity_kind : String
  pub sequence_order : ℤ
  pub component_element_id : Option String
  pub component_element_key : Option String
  pub component_element_realization_id : Option String
  pub code_artifact_target_key : Option String
  pub target_path : Option String
  pub target_module : Option String
  pub assigned_role_id : Option String
  pub blocking_reason : Option String
  pub metadata : Option Dict
  pub predecessor_activity_keys : List String
  pub activity_state : String

pub record ImplementationPlanVerificationSurfaceDraft : Type 0 where
  pub activity_key : Option String
  pub surface_kind : String
  pub surface_ref : String
  pub required : Bool
  pub sequence_order : ℤ
  pub verification_obligation_id : Option String
  pub metadata : Option Dict
  pub status : String

pub record ImplementationPlanDerivationRequest : Type 0 where
  pub plan : ImplementationPlanUpsertSpec
  pub activity_blueprints : List ImplementationPlanActivityBlueprint
  pub verification_surfaces : List ImplementationPlanVerificationSurfaceDraft
  pub persist : Bool
  pub replace_existing_draft : Bool
  pub metadata : Option Dict

pub record ImplementationPlanDerivationResult : Type 0 where
  pub plan_record : ImplementationPlanRecord
  pub activity_specs : List ImplementationPlanActivityUpsertSpec
  pub dependency_specs : List ImplementationPlanActivityDependencyUpsertSpec
  pub verification_surfaces : List ImplementationPlanVerificationSurfaceDraft
  pub warnings : List Message
  pub gaps : List Message
  pub persisted : Bool
