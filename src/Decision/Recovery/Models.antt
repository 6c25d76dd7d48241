-- ===== src/Decision/Recovery/Models.antt =====
-- The records of services/techlead_reset_recovery_decision.
use paa_platform.Prelude.{ℤ, String, Bool, Option, List}
use paa_platform.Json.{Dict, Message}

pub record TechLeadResetRecoveryDecisionRequest : Type 0 where
  pub project_slug : String
  pub issue_number : ℤ
  pub issue_url : Option String
  pub pr_number : Option ℤ
  pub pr_url : Option String
  pub workflow_stage : String
  pub lineage_state : String
  pub reset_escalation_type : Option String
  pub reset_escalation_summary : Option String
  pub reset_escalation_details : Option Dict
  pub source_packet_schema_type : Option String
  pub source_packet_message_id : Option String
  pub source_packet_path : Option String
  pub branch_name : Option String
  pub metadata : Option Dict

pub record TechLeadResetRecoveryDecisionSummary : Type 0 where
  pub decision_supported : Bool
  pub recommended_next_decision : Option String
  pub recommended_target_role : Option String
  pub reset_allowed : Bool
  pub reset_recovery_summary : Message
  pub blocking_reasons : List String
  pub notes : List String

pub record TechLeadResetRecoveryDecisionResult : Type 0 where
  pub project_slug : String
  pub issue_number : ℤ
  pub issue_url : Option String
  pub pr_number : Option ℤ
  pub pr_url : Option String
  pub workflow_stage : String
  pub lineage_state : String
  pub reset_escalation_type : Option String
  pub source_packet_schema_type : Option String
  pub source_packet_message_id : Option String
  pub source_packet_path : Option String
  pub branch_name : Option String
  pub summary : TechLeadResetRecoveryDecisionSummary
  pub ok : Bool
  pub reason : Option String
  pub details : Option Message
  pub recommended_actions : Option (List String)
  pub unattended_safe : Option Bool
  pub metadata : Option Dict
