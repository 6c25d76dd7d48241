-- ===== src/Decision/Acceptance/Models.antt =====
-- The records of services/techlead_acceptance_decision.
use paa_platform.Prelude.{ℤ, String, Bool, Option, List}
use paa_platform.Json.{Dict, Message}
use paa_platform.Workflow.Models.{WorkflowLifecycleResult}

pub record TechLeadAcceptanceDecisionRequest : Type 0 where
  pub project_slug : String
  pub issue_number : ℤ
  pub pr_number : Option ℤ
  pub workflow_stage : String
  pub qa_result_type : String
  pub source_packet_schema_type : Option String
  pub source_packet_message_id : Option String
  pub workflow_lifecycle_result : Option WorkflowLifecycleResult
  pub merge_state : Option Dict
  pub acceptance_event_state : Option Dict
  pub metadata : Option Dict

pub record TechLeadAcceptanceDecisionSummary : Type 0 where
  pub decision_supported : Bool
  pub recommended_next_decision : Option String
  pub acceptance_allowed : Bool
  pub closeout_allowed : Bool
  pub decision_summary : Message
  pub blocking_reasons : List String
  pub notes : List String

pub record TechLeadAcceptanceDecisionResult : Type 0 where
  pub project_slug : String
  pub issue_number : ℤ
  pub pr_number : Option ℤ
  pub workflow_stage : String
  pub qa_result_type : String
  pub source_packet_schema_type : Option String
  pub source_packet_message_id : Option String
  pub summary : TechLeadAcceptanceDecisionSummary
  pub ok : Bool
  pub reason : Option String
  pub details : Option Message
  pub recommended_actions : Option (List String)
  pub unattended_safe : Option Bool
  pub metadata : Option Dict
