-- ===== src/Workflow/Records.antt =====
-- repositories/workflow_state/models.py and the records of repositories/runtime_event/models.py that
-- the workflow services read.
use paa_platform.Prelude.{ℤ, String, Option}
use paa_platform.Json.{Dict}

pub record WorkflowStateRecord : Type 0 where
  pub workflow_state_id : String
  pub project_id : String
  pub work_item_id : String
  pub authority_version_id : Option String
  pub design_package_id : Option String
  pub coder_run_brief_id : Option String
  pub workflow_stage : String
  pub current_owner_role_id : Option String
  pub lineage_state : String
  pub blocking_reason_code : Option String
  pub blocking_reason_text : Option String
  pub terminal_decision : String
  pub state_consistency : String
  pub current_issue_number : Option ℤ
  pub current_pr_number : Option ℤ
  pub canonical_branch : Option String
  pub active_role_branch : Option String
  pub active_handoff_id : Option String
  pub active_queue_message_id : Option String
  pub active_message_id_external : Option String
  pub active_assignment_role_id : Option String
  pub active_result_role_id : Option String
  pub active_queue_claim_id : Option String
  pub state_entered_at : Option String
  pub last_transition_at : Option String
  pub closed_at : Option String
  pub metadata : Dict
  pub created_at : Option String
  pub updated_at : Option String

pub record WorkflowTransitionRecord : Type 0 where
  pub workflow_transition_id : String
  pub workflow_state_id : String
  pub project_id : String
  pub work_item_id : String
  pub transition_type : String
  pub transition_status : String
  pub from_workflow_stage : Option String
  pub to_workflow_stage : Option String
  pub from_owner_role_id : Option String
  pub to_owner_role_id : Option String
  pub reason_code : Option String
  pub reason_text : Option String
  pub source_handoff_id : Option String
  pub source_queue_message_id : Option String
  pub source_queue_claim_id : Option String
  pub source_message_id_external : Option String
  pub source_packet_schema_type : Option String
  pub source_role_id : Option String
  pub source_transition_input_id : Option String
  pub result_handoff_id : Option String
  pub result_queue_message_id : Option String
  pub result_queue_claim_id : Option String
  pub result_message_id_external : Option String
  pub result_packet_schema_type : Option String
  pub result_role_id : Option String
  pub performed_by_role_id : Option String
  pub performed_by_agent_id : Option String
  pub automation_run_id : Option String
  pub error_code : Option String
  pub error_details : Option String
  pub transition_requested_at : Option String
  pub transition_applied_at : Option String
  pub metadata : Dict
  pub created_at : Option String

pub record QueueClaimRecord : Type 0 where
  pub queue_claim_id : String
  pub queue_message_id : String
  pub handoff_id : Option String
  pub project_id : String
  pub work_item_id : String
  pub claimed_by_role_id : Option String
  pub claimed_by_agent_id : Option String
  pub claim_attempt_source : String
  pub claim_status : String
  pub ack_outcome : String
  pub release_reason_code : Option String
  pub release_reason_text : Option String
  pub claimed_at : Option String
  pub lease_expires_at : Option String
  pub released_at : Option String
  pub acked_at : Option String
  pub metadata : Dict
  pub created_at : Option String

pub record WorkflowStateUpsertSpec : Type 0 where
  pub project_id : String
  pub work_item_id : String
  pub workflow_stage : String
  pub lineage_state : String
  pub current_owner_role_id : Option String
  pub authority_version_id : Option String
  pub design_package_id : Option String
  pub coder_run_brief_id : Option String
  pub blocking_reason_code : Option String
  pub blocking_reason_text : Option String
  pub terminal_decision : String
  pub state_consistency : String
  pub current_issue_number : Option ℤ
  pub current_pr_number : Option ℤ
  pub canonical_branch : Option String
  pub active_role_branch : Option String
  pub active_handoff_id : Option String
  pub active_queue_message_id : Option String
  pub active_message_id_external : Option String
  pub active_assignment_role_id : Option String
  pub active_result_role_id : Option String
  pub active_queue_claim_id : Option String
  pub state_entered_at : Option String
  pub last_transition_at : Option String
  pub closed_at : Option String
  pub metadata : Option Dict

pub record WorkflowTransitionAppendSpec : Type 0 where
  pub workflow_state_id : String
  pub project_id : String
  pub work_item_id : String
  pub transition_type : String
  pub transition_status : String
  pub from_workflow_stage : Option String
  pub to_workflow_stage : Option String
  pub from_owner_role_id : Option String
  pub to_owner_role_id : Option String
  pub reason_code : Option String
  pub reason_text : Option String
  pub source_handoff_id : Option String
  pub source_queue_message_id : Option String
  pub source_queue_claim_id : Option String
  pub source_message_id_external : Option String
  pub source_packet_schema_type : Option String
  pub source_role_id : Option String
  pub source_transition_input_id : Option String
  pub result_handoff_id : Option String
  pub result_queue_message_id : Option String
  pub result_queue_claim_id : Option String
  pub result_message_id_external : Option String
  pub result_packet_schema_type : Option String
  pub result_role_id : Option String
  pub performed_by_role_id : Option String
  pub performed_by_agent_id : Option String
  pub automation_run_id : Option String
  pub error_code : Option String
  pub error_details : Option String
  pub transition_requested_at : Option String
  pub transition_applied_at : Option String
  pub metadata : Option Dict

pub record QueueMessageRecord : Type 0 where
  pub queue_message_id : String
  pub handoff_id : String
  pub queue_name : String
  pub schema_type : String
  pub message_id_external : Option String
  pub correlation_key : Option String
  pub payload : Dict
  pub status : String
  pub sent_at : Option String
  pub claimed_at : Option String
  pub acknowledged_at : Option String
  pub metadata : Dict
  pub created_at : Option String
  pub updated_at : Option String

pub record TransitionInputRecord : Type 0 where
  pub transition_input_id : String
  pub project_id : String
  pub work_item_id : String
  pub workflow_state_id : Option String
  pub workflow_transition_id : Option String
  pub automation_run_id : Option String
  pub input_type : String
  pub input_schema_type : Option String
  pub input_source_surface : String
  pub input_key : Option String
  pub input_hash : Option String
  pub source_queue_message_id : Option String
  pub source_handoff_id : Option String
  pub source_message_id_external : Option String
  pub source_report_path : Option String
  pub payload : Dict
  pub content_summary : Dict
  pub schema_version : Option String
  pub captured_at : Option String
  pub metadata : Dict
  pub created_at : Option String
