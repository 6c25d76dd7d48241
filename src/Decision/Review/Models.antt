-- ===== src/Decision/Review/Models.antt =====
-- The records of services/techlead_worker_review_routing.
use paa_platform.Prelude.{ℤ, String, Bool, Option, List}
use paa_platform.Json.{Dict, Message}
use paa_platform.Workflow.Models.{WorkflowLifecycleResult}

pub record TechLeadWorkerReviewRoutingRequest : Type 0 where
  pub project_slug : String
  pub issue_number : ℤ
  pub pr_number : Option ℤ
  pub workflow_stage : String
  pub worker_role : String
  pub worker_result_type : String
  pub source_packet_schema_type : Option String
  pub source_packet_message_id : Option String
  pub workflow_lifecycle_result : Option WorkflowLifecycleResult
  pub metadata : Option Dict

pub record TechLeadWorkerReviewRoutingSummary : Type 0 where
  pub decision_supported : Bool
  pub recommended_next_decision : Option String
  pub recommended_target_role : Option String
  pub qa_assignment_allowed : Bool
  pub review_summary : Message
  pub blocking_reasons : List String
  pub notes : List String

pub record TechLeadWorkerReviewRoutingResult : Type 0 where
  pub project_slug : String
  pub issue_number : ℤ
  pub pr_number : Option ℤ
  pub workflow_stage : String
  pub worker_role : String
  pub worker_result_type : String
  pub source_packet_schema_type : Option String
  pub source_packet_message_id : Option String
  pub summary : TechLeadWorkerReviewRoutingSummary
  pub ok : Bool
  pub reason : Option String
  pub details : Option Message
  pub recommended_actions : Option (List String)
  pub unattended_safe : Option Bool
  pub metadata : Option Dict
