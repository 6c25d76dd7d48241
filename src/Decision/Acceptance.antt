-- ===== src/Decision/Acceptance.antt =====
-- services/techlead_acceptance_decision. Logging is left out; `now` is the service's clock.
pub mod Guards
pub mod Models
pub mod Allowed
use paa_platform.Decision.Actions.{actions_of}
use paa_platform.Decision.Acceptance.Guards.{
  Rejection, first_flag, is_false, refuse, rejection, resolve_execution_mode, resolve_merge_ready,
  some_flag, some_text, supports_acceptance_decision, unsupported_schema,
}
use paa_platform.Decision.Acceptance.Models.{
  TechLeadAcceptanceDecisionRequest, TechLeadAcceptanceDecisionResult,
  TechLeadAcceptanceDecisionSummary,
}
use paa_platform.Prelude.{
  ℤ, is_positive, String, Bool, true, false, not, ◌&&◌, ◌==◌, Option, none, some, List, [], ◌∷◌,
  is_some, is_none, member, strip, if◌then◌else◌,
}
use paa_platform.Json.{
  Value, null, Dict, get, flag, text, put, set_default, dict_or_empty, Message, lit, digits, repr,
  plain,
}
use paa_platform.Workflow.Models.{WorkflowLifecycleResult}
use paa_platform.Decision.Recovery.{normalized, or_none}

abbrev pub opt_flag : Option Bool → Value
opt_flag none = null
opt_flag (some b) = flag b

unfoldable pub base_metadata : TechLeadAcceptanceDecisionRequest → String → Dict
base_metadata request execution_mode =
    set_default
      (set_default
        (set_default
          (set_default (dict_or_empty request.metadata) "workflow_lifecycle_result_supplied"
            (flag (is_some request.workflow_lifecycle_result)))
          "service_component" (text "TechLeadAcceptanceDecisionService"))
        "execution_mode" (text execution_mode))
      "merge_ready" (opt_flag (resolve_merge_ready request))

unfoldable pub build_supported_result :
    TechLeadAcceptanceDecisionRequest
    → TechLeadAcceptanceDecisionSummary
    → String
    → TechLeadAcceptanceDecisionResult
build_supported_result request summary execution_mode = record {
  project_slug = request.project_slug;
  issue_number = request.issue_number;
  pr_number = request.pr_number;
  workflow_stage = request.workflow_stage;
  qa_result_type = request.qa_result_type;
  source_packet_schema_type = request.source_packet_schema_type;
  source_packet_message_id = request.source_packet_message_id;
  summary = summary;
  ok = true;
  reason = none;
  details = none;
  recommended_actions = actions_of summary.recommended_next_decision;
  unattended_safe = some true;
  metadata = some (base_metadata request execution_mode);
}

unfoldable pub derive_prepare_merge :
    TechLeadAcceptanceDecisionRequest → String → TechLeadAcceptanceDecisionResult
derive_prepare_merge request execution_mode =
    build_supported_result request
      (record {
        decision_supported = true;
        recommended_next_decision = some "prepare_merge";
        acceptance_allowed = true;
        closeout_allowed = false;
        decision_summary =
            lit "TechLead may prepare merge acceptance for issue #"
            ∷ digits request.issue_number
            ∷ lit " because QA returned a passing verification result."
            ∷ [];
        blocking_reasons = [];
        notes = "qa-pass" ∷ "live-delivery" ∷ [];
      })
      execution_mode

unfoldable pub derive_proof_only_closeout :
    TechLeadAcceptanceDecisionRequest → String → TechLeadAcceptanceDecisionResult
derive_proof_only_closeout request execution_mode =
    build_supported_result request
      (record {
        decision_supported = true;
        recommended_next_decision = some "close_slice";
        acceptance_allowed = true;
        closeout_allowed = true;
        decision_summary =
            lit "TechLead may record proof-only closeout for issue #"
            ∷ digits request.issue_number
            ∷ lit " because QA returned a passing verification result in proof-only execution mode."
            ∷ [];
        blocking_reasons = [];
        notes = "qa-pass" ∷ "proof-only-closeout" ∷ [];
      })
      execution_mode

unfoldable pub build_rejected_result :
    String → TechLeadAcceptanceDecisionRequest → Rejection → TechLeadAcceptanceDecisionResult
build_rejected_result now request r = record {
  project_slug = request.project_slug;
  issue_number = request.issue_number;
  pr_number = request.pr_number;
  workflow_stage = request.workflow_stage;
  qa_result_type = request.qa_result_type;
  source_packet_schema_type = request.source_packet_schema_type;
  source_packet_message_id = request.source_packet_message_id;
  summary = record {
    decision_supported = false;
    recommended_next_decision = none;
    acceptance_allowed = false;
    closeout_allowed = false;
    decision_summary = plain "No supported acceptance decision is available for this slice.";
    blocking_reasons = r.blocking_reason ∷ [];
    notes = r.note ∷ [];
  };
  ok = false;
  reason = some r.reason;
  details = some r.details;
  recommended_actions = none;
  unattended_safe = some false;
  metadata =
      some (put (base_metadata request (resolve_execution_mode request)) "rejected_at" (text now));
}

unfoldable pub derive_acceptance_decision :
    String → TechLeadAcceptanceDecisionRequest → TechLeadAcceptanceDecisionResult
derive_acceptance_decision now request =
    let mode = resolve_execution_mode request in
    elim (rejection request) [
      | some r ↦ build_rejected_result now request r
      | none ↦
          if mode == "proof_only"
          then derive_proof_only_closeout request mode
          else derive_prepare_merge request mode
    ]
