-- ===== src/Methodology/Records.antt =====
-- repositories/methodology_execution/models.py, and the models of
-- runtime/workflow/methodology_execution_state.
use paa_platform.Prelude.{String, Bool, Option, List}
use paa_platform.Json.{Dict, Message}

pub record MethodologyExecutionRecord : Type 0 where
  pub methodology_execution_id : String
  pub project_id : String
  pub work_item_id : Option String
  pub lane : String
  pub stage : String
  pub step : String
  pub status : String
  pub current_owner_role : String
  pub next_action_key : Option String
  pub blocked_reason : Option String
  pub component_id : Option String
  pub design_package_id : Option String
  pub implementation_plan_id : Option String
  pub coder_run_brief_id : Option String
  pub packet_id : Option String
  pub workflow_state_id : Option String
  pub active_authority_ref : Option String
  pub active_artifact_ref : Option String
  pub metadata : Dict
  pub created_at : String
  pub updated_at : String

pub record MethodologyExecutionEventRecord : Type 0 where
  pub methodology_execution_event_id : String
  pub methodology_execution_id : String
  pub from_lane : Option String
  pub to_lane : String
  pub from_stage : Option String
  pub to_stage : String
  pub from_step : Option String
  pub to_step : String
  pub from_status : Option String
  pub to_status : String
  pub transition_kind : String
  pub actor_role_id : Option String
  pub actor_name : Option String
  pub notes : Option String
  pub evidence : Dict
  pub created_at : String

pub record MethodologyExecutionBindingRecord : Type 0 where
  pub methodology_execution_binding_id : String
  pub methodology_execution_id : String
  pub binding_kind : String
  pub bound_record_id : Option String
  pub bound_record_key : Option String
  pub bound_record_ref : Option String
  pub is_primary : Bool
  pub notes : Option String
  pub metadata : Dict
  pub created_at : String
  pub updated_at : String

pub record MethodologyExecutionUpsertSpec : Type 0 where
  pub methodology_execution_id : String
  pub project_id : String
  pub lane : String
  pub stage : String
  pub step : String
  pub status : String
  pub current_owner_role : String
  pub work_item_id : Option String
  pub next_action_key : Option String
  pub blocked_reason : Option String
  pub component_id : Option String
  pub design_package_id : Option String
  pub implementation_plan_id : Option String
  pub coder_run_brief_id : Option String
  pub packet_id : Option String
  pub workflow_state_id : Option String
  pub active_authority_ref : Option String
  pub active_artifact_ref : Option String
  pub metadata : Option Dict

pub record MethodologyExecutionEventAppendSpec : Type 0 where
  pub methodology_execution_id : String
  pub to_lane : String
  pub to_stage : String
  pub to_step : String
  pub to_status : String
  pub transition_kind : String
  pub from_lane : Option String
  pub from_stage : Option String
  pub from_step : Option String
  pub from_status : Option String
  pub actor_role_id : Option String
  pub actor_name : Option String
  pub notes : Option String
  pub evidence : Option Dict

pub record MethodologyExecutionBindingEntrySpec : Type 0 where
  pub binding_kind : String
  pub bound_record_id : Option String
  pub bound_record_key : Option String
  pub bound_record_ref : Option String
  pub is_primary : Bool
  pub notes : Option String
  pub metadata : Option Dict

pub record MethodologyExecutionBindingReplaceSpec : Type 0 where
  pub methodology_execution_id : String
  pub bindings : List MethodologyExecutionBindingEntrySpec
  pub replace_scope : String

pub record MethodologyExecutionStateRequest : Type 0 where
  pub methodology_execution_id : Option String
  pub project_id : Option String
  pub work_item_id : Option String
  pub component_id : Option String
  pub transition_key : Option String
  pub to_lane : Option String
  pub to_stage : Option String
  pub to_step : Option String
  pub to_status : Option String
  pub actor_role_id : Option String
  pub actor_name : Option String
  pub notes : Option String
  pub evidence : Option Dict
  pub binding_entries : List MethodologyExecutionBindingEntrySpec
  pub metadata : Option Dict

pub record MethodologyExecutionStateSummary : Type 0 where
  pub methodology_execution_id : String
  pub lane : String
  pub stage : String
  pub step : String
  pub status : String
  pub current_owner_role : String
  pub next_action_key : Option String
  pub blocked_reason : Option String
  pub component_id : Option String
  pub design_package_id : Option String
  pub implementation_plan_id : Option String
  pub coder_run_brief_id : Option String
  pub packet_id : Option String
  pub workflow_state_id : Option String
  pub active_authority_ref : Option String
  pub active_artifact_ref : Option String
  pub binding_refs : List String
  pub notes : List Message
  pub metadata : Dict

pub record MethodologyExecutionTransitionSummary : Type 0 where
  pub transition_key : String
  pub transition_kind : String
  pub from_lane : Option String
  pub to_lane : String
  pub from_stage : Option String
  pub to_stage : String
  pub from_step : Option String
  pub to_step : String
  pub from_status : Option String
  pub to_status : String
  pub current_owner_role : Option String
  pub next_owner_role : Option String
  pub prerequisites_satisfied : Bool
  pub blocking_reasons : List String
  pub recommended_next_action : Option String

pub record MethodologyExecutionStateResult : Type 0 where
  pub methodology_execution_id : Option String
  pub request : MethodologyExecutionStateRequest
  pub current_state : Option MethodologyExecutionStateSummary
  pub transition : Option MethodologyExecutionTransitionSummary
  pub ok : Bool
  pub reason : Option String
  pub details : Option Message
  pub binding_update_applied : Option Bool
  pub metadata : Option Dict
