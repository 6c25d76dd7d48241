-- ===== src/Decision/Tests.antt =====
-- The decision services at concrete requests.
use paa_platform.Decision.Review.Routed.{Answered, derive-Answered}
use paa_platform.Json.{entry, flag, empty}
use paa_platform.Decision.Acceptance.Allowed.{Decided, derive-Decided}
use paa_platform.Decision.Acceptance.{derive_acceptance_decision}
use paa_platform.Decision.Acceptance.Models.{TechLeadAcceptanceDecisionRequest}
use paa_platform.Decision.Review.{derive_worker_review_routing}
use paa_platform.Decision.Review.Models.{
  TechLeadWorkerReviewRoutingRequest, TechLeadWorkerReviewRoutingResult,
}
use paa_platform.Prelude.{pos, String, ◌≡◌, ◌↔◌, ◌⊎◌, none, some, true, [], ◌∷◌}
use paa_platform.Decision.Recovery.{derive_reset_recovery_decision}
use paa_platform.Decision.Recovery.Models.{TechLeadResetRecoveryDecisionRequest}
use paa_platform.Decision.Recovery.Supported.{Resettable, derived_iff}

abbrev reset : TechLeadResetRecoveryDecisionRequest
reset = record {
  project_slug = "p";
  issue_number = pos 7;
  issue_url = none;
  pr_number = none;
  pr_url = none;
  workflow_stage = " dev_reset_required ";
  lineage_state = "reset_required";
  reset_escalation_type = none;
  reset_escalation_summary = none;
  reset_escalation_details = none;
  source_packet_schema_type = none;
  source_packet_message_id = none;
  source_packet_path = none;
  branch_name = none;
  metadata = none;
}

derived_iff_example :
    let result = derive_reset_recovery_decision "t1" reset in
    ((result.ok ≡ true) ↔ Resettable reset)
    × (result.summary.decision_supported ≡ result.ok)
    × (result.summary.reset_allowed ≡ result.ok)
    × ((result.ok ≡ true)
        ⊎ ((reason : String) × (result.reason ≡ some reason)
            × (result.summary.blocking_reasons ≡ reason ∷ [])))
derived_iff_example = derived_iff "t1" reset

abbrev returned_result : TechLeadWorkerReviewRoutingRequest
returned_result = record {
  project_slug = "p";
  issue_number = pos 7;
  pr_number = none;
  workflow_stage = "techlead_worker_review_pending";
  worker_role = "Python Dev";
  worker_result_type = " blocked ";
  source_packet_schema_type = none;
  source_packet_message_id = none;
  workflow_lifecycle_result = none;
  metadata = none;
}

derive-Answered_example :
    (result : TechLeadWorkerReviewRoutingResult) × (derive_worker_review_routing "t1"
        returned_result
      ≡ some result)
    × Answered returned_result result
derive-Answered_example = derive-Answered "t1" returned_result

abbrev passed : TechLeadAcceptanceDecisionRequest
passed = record {
  project_slug = "p";
  issue_number = pos 7;
  pr_number = none;
  workflow_stage = "techlead_qa_review_pending";
  qa_result_type = "pass";
  source_packet_schema_type = some "qa_verification_packet";
  source_packet_message_id = none;
  workflow_lifecycle_result = none;
  merge_state = some (entry "merge_ready" (flag true) empty);
  acceptance_event_state = none;
  metadata = none;
}

derive-Decided_example : Decided passed (derive_acceptance_decision "t1" passed)
derive-Decided_example = derive-Decided "t1" passed
