-- ===== src/Workflow/Models.antt =====
-- runtime/workflow/workflow_lifecycle/models.py
use paa_platform.Prelude.{ℤ, String, Option, Bool, List}
use paa_platform.Json.{Dict, Message}

pub record WorkflowLifecycleRequest : Type 0 where
  pub project_id : String
  pub work_item_id : String
  pub workflow_state_id : Option String
  pub requested_transition_type : Option String
  pub requested_from_stage : Option String
  pub requested_to_stage : Option String
  pub source_queue_message_id : Option String
  pub source_message_id_external : Option String
  pub source_packet_schema_type : Option String
  pub automation_run_id : Option String
  pub execution_surface_key : Option String
  pub repo_root_path : Option String
  pub runtime_root_path : Option String
  pub metadata : Option Dict

pub record WorkflowLifecycleStateView : Type 0 where
  pub workflow_state_id : String
  pub project_id : String
  pub work_item_id : String
  pub workflow_stage : String
  pub current_owner_role_id : Option String
  pub lineage_state : String
  pub terminal_decision : String
  pub state_consistency : String
  pub blocking_reason_code : Option String
  pub blocking_reason_text : Option String
  pub current_issue_number : Option ℤ
  pub current_pr_number : Option ℤ
  pub canonical_branch : Option String
  pub active_role_branch : Option String
  pub active_handoff_id : Option String
  pub active_queue_message_id : Option String
  pub active_message_id_external : Option String
  pub active_queue_claim_id : Option String
  pub closed_at : Option String
  pub metadata : Dict

pub record WorkflowLifecycleDecisionSummary : Type 0 where
  pub transition_allowed : Bool
  pub acceptance_allowed : Bool
  pub requires_manual_repair : Bool
  pub should_reset : Bool
  pub should_retry : Bool
  pub blocking_reasons : List Message
  pub notes : List Message
  pub metadata : Dict

pub record WorkflowLifecycleResult : Type 0 where
  pub project_id : String
  pub work_item_id : String
  pub requested_transition_type : Option String
  pub applied : Bool
  pub state_view : Option WorkflowLifecycleStateView
  pub decision_summary : WorkflowLifecycleDecisionSummary
  pub resolved_execution_surface_key : Option String
  pub recommended_next_action : Option Message
  pub metadata : Dict
