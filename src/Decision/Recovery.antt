-- ===== src/Decision/Recovery.antt =====
-- services/techlead_reset_recovery_decision. Logging is left out; `now` is the service's clock.
pub mod Models
pub mod Supported
use paa_platform.Decision.Recovery.Models.{
  TechLeadResetRecoveryDecisionRequest, TechLeadResetRecoveryDecisionResult,
  TechLeadResetRecoveryDecisionSummary,
}
use paa_platform.Prelude.{
  ℤ, is_positive, String, Bool, true, false, not, ◌&&◌, ◌||◌, ◌==◌, Option, none, some, List, [],
  ◌∷◌, is_some, member, strip, if◌then◌else◌,
}
use paa_platform.Json.{
  Dict, flag, text, put, set_default, dict_or_empty, Message, lit, digits, repr, plain,
}

-- `(reset_escalation_type or '').strip()`
abbrev pub normalized : Option String → String
normalized none = strip ""
normalized (some s) = strip s

-- `s or None`
abbrev pub or_none : String → Option String
or_none s = if s == "" then none else some s

abbrev pub stripped_member : Option String → List String → Bool
stripped_member none names = false
stripped_member (some s) names = member (strip s) names

unfoldable pub supports_reset_recovery_decision : String → Option String → Option String → Bool
supports_reset_recovery_decision workflow_stage lineage_state reset_escalation_type =
    member (strip workflow_stage) ("dev_reset_required" ∷ [])
    || (stripped_member lineage_state ("reset_required" ∷ [])
        || stripped_member reset_escalation_type
            ("reset_branch_required" ∷ "reset_branch_recommended" ∷ []))

-- The arguments of a rejection.
pub record Rejection : Type 0 where
  pub reason : String
  pub details : Message
  pub note : String

-- The guards of `derive_reset_recovery_decision`, in their order.
unfoldable pub rejection : TechLeadResetRecoveryDecisionRequest → Option Rejection
rejection request =
    let stage = strip request.workflow_stage in
    let lineage = strip request.lineage_state in
    let escalation = normalized request.reset_escalation_type in
    if not (is_positive request.issue_number)
    then some (record {
      reason = "missing_issue_number";
      details = plain "The reset-recovery decision request must include a positive issue number.";
      note = "issue-number-required";
    })
    else if stage == ""
    then some (record {
      reason = "missing_workflow_stage";
      details = plain "The reset-recovery decision request must include a workflow stage.";
      note = "workflow-stage-required";
    })
    else if lineage == "" && escalation == ""
    then some (record {
      reason = "missing_reset_recovery_signal";
      details =
          plain
            "The reset-recovery decision request must include a lineage state or reset escalation type.";
      note = "reset-signal-required";
    })
    else if not (supports_reset_recovery_decision stage (or_none lineage) (or_none escalation))
    then some (record {
      reason = "unsupported_reset_recovery_decision";
      details =
          lit "Current workflow stage "
          ∷ repr (some stage)
          ∷ lit ", lineage state "
          ∷ repr (some lineage)
          ∷ lit ", and reset escalation type "
          ∷ repr (some escalation)
          ∷ lit " are not supported in this slice."
          ∷ [];
      note = "fail-closed";
    })
    else none

unfoldable pub base_metadata : TechLeadResetRecoveryDecisionRequest → Dict
base_metadata request =
    set_default
      (set_default
        (set_default (dict_or_empty request.metadata) "service_component"
          (text "TechLeadResetRecoveryDecisionService"))
        "source_packet_present" (flag (is_some request.source_packet_schema_type)))
      "reset_escalation_details_supplied" (flag (is_some request.reset_escalation_details))

-- `request.reset_escalation_summary or f'…'`
unfoldable pub summary_text : TechLeadResetRecoveryDecisionRequest → Message
summary_text request =
    let default =
      lit "Reset branch recovery is required for issue #"
      ∷ digits request.issue_number
      ∷ lit " before more implementation work can continue."
      ∷ [] in
    elim request.reset_escalation_summary [
      | none ↦ default
      | some s ↦ if s == "" then default else plain s
    ]

unfoldable pub supported_result :
    TechLeadResetRecoveryDecisionRequest → TechLeadResetRecoveryDecisionResult
supported_result request = record {
  project_slug = request.project_slug;
  issue_number = request.issue_number;
  issue_url = request.issue_url;
  pr_number = request.pr_number;
  pr_url = request.pr_url;
  workflow_stage = request.workflow_stage;
  lineage_state = request.lineage_state;
  reset_escalation_type = request.reset_escalation_type;
  source_packet_schema_type = request.source_packet_schema_type;
  source_packet_message_id = request.source_packet_message_id;
  source_packet_path = request.source_packet_path;
  branch_name = request.branch_name;
  summary = record {
    decision_supported = true;
    recommended_next_decision = some "reset_branch";
    recommended_target_role = some "Python Dev";
    reset_allowed = true;
    reset_recovery_summary = summary_text request;
    blocking_reasons = [];
    notes = "reset-required" ∷ [];
  };
  ok = true;
  reason = none;
  details = none;
  recommended_actions = some ("reset_branch" ∷ []);
  unattended_safe = some false;
  metadata = some (base_metadata request);
}

unfoldable pub rejected_result :
    String → TechLeadResetRecoveryDecisionRequest → Rejection → TechLeadResetRecoveryDecisionResult
rejected_result now request r = record {
  project_slug = request.project_slug;
  issue_number = request.issue_number;
  issue_url = request.issue_url;
  pr_number = request.pr_number;
  pr_url = request.pr_url;
  workflow_stage = request.workflow_stage;
  lineage_state = request.lineage_state;
  reset_escalation_type = request.reset_escalation_type;
  source_packet_schema_type = request.source_packet_schema_type;
  source_packet_message_id = request.source_packet_message_id;
  source_packet_path = request.source_packet_path;
  branch_name = request.branch_name;
  summary = record {
    decision_supported = false;
    recommended_next_decision = none;
    recommended_target_role = none;
    reset_allowed = false;
    reset_recovery_summary =
        plain "No supported reset-recovery decision is available for this slice.";
    blocking_reasons = r.reason ∷ [];
    notes = r.note ∷ [];
  };
  ok = false;
  reason = some r.reason;
  details = some r.details;
  recommended_actions = none;
  unattended_safe = some false;
  metadata = some (put (base_metadata request) "rejected_at" (text now));
}

unfoldable pub derive_reset_recovery_decision :
    String → TechLeadResetRecoveryDecisionRequest → TechLeadResetRecoveryDecisionResult
derive_reset_recovery_decision now request = elim (rejection request) [
  | some r ↦ rejected_result now request r
  | none ↦ supported_result request
]
