-- ===== src/Methodology/Projection/Models.antt =====
-- The records of runtime/workflow/methodology_execution_projection.
use paa_platform.Prelude.{String, Bool, Option, List}
use paa_platform.Json.{Dict, Message}

pub record MethodologyExecutionProjectionRequest : Type 0 where
  pub methodology_execution_id : Option String
  pub project_id : Option String
  pub work_item_id : Option String
  pub component_id : Option String
  pub projection_mode : Option String
  pub actor_role_id : Option String
  pub actor_name : Option String
  pub metadata : Option Dict

pub record MethodologyExecutionStatusProjection : Type 0 where
  pub methodology_execution_id : String
  pub lane : String
  pub stage : String
  pub step : String
  pub status : String
  pub current_owner_role : String
  pub next_action_key : Option String
  pub blocked_reason : Option String
  pub component_id : Option String
  pub design_package_id : Option String
  pub implementation_plan_id : Option String
  pub coder_run_brief_id : Option String
  pub packet_id : Option String
  pub workflow_state_id : Option String
  pub active_authority_ref : Option String
  pub active_artifact_ref : Option String
  pub binding_refs : List String
  pub summary_text : Message
  pub metadata : Dict

pub record MethodologyExecutionNextActionProjection : Type 0 where
  pub methodology_execution_id : String
  pub recommended_next_action_key : Option String
  pub recommended_owner_role : Option String
  pub lane : String
  pub stage : String
  pub step : String
  pub prerequisite_summary : List Message
  pub blocked_reason : Option String
  pub component_id : Option String
  pub implementation_plan_id : Option String
  pub packet_id : Option String
  pub metadata : Dict

pub record MethodologyExecutionExplainProjection : Type 0 where
  pub methodology_execution_id : String
  pub lane : String
  pub stage : String
  pub step : String
  pub status : String
  pub current_owner_role : String
  pub explanation_summary : Message
  pub transition_context : Option String
  pub binding_refs : List String
  pub blocked_reason : Option String
  pub metadata : Dict

pub record MethodologyExecutionProjectionResult : Type 0 where
  pub methodology_execution_id : Option String
  pub request : MethodologyExecutionProjectionRequest
  pub status_projection : Option MethodologyExecutionStatusProjection
  pub next_action_projection : Option MethodologyExecutionNextActionProjection
  pub explain_projection : Option MethodologyExecutionExplainProjection
  pub ok : Bool
  pub reason : Option String
  pub details : Option Message
  pub metadata : Option Dict
