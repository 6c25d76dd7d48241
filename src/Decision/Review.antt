-- ===== src/Decision/Review.antt =====
-- services/techlead_worker_review_routing. Logging is left out; `now` is the service's clock.
pub mod Models
pub mod Routed
use paa_platform.Decision.Actions.{actions_of}
use paa_platform.Decision.Review.Models.{
  TechLeadWorkerReviewRoutingRequest, TechLeadWorkerReviewRoutingResult,
  TechLeadWorkerReviewRoutingSummary,
}
use paa_platform.Prelude.{
  ℤ, is_positive, String, Bool, true, false, not, ◌&&◌, ◌==◌, Option, none, some, List, [], ◌∷◌,
  is_some, member, strip, if◌then◌else◌,
}
use paa_platform.Json.{
  Dict, flag, text, put, set_default, dict_or_empty, Message, lit, shown, digits, repr, plain,
}
use paa_platform.Workflow.Models.{WorkflowLifecycleResult}
use paa_platform.Decision.Recovery.{Rejection}

abbrev pub supported_stages : List String
supported_stages = "techlead_dev_review_pending" ∷ "techlead_worker_review_pending" ∷ []

abbrev pub supported_result_types : List String
supported_result_types =
    "implemented_ready_for_qa" ∷ "blocked" ∷ "needs_clarification"
    ∷ "cannot_complete_without_scope_change" ∷ "superseded_by_branch_reset" ∷ []

-- A value of `_RECOMMENDATION_BY_RESULT_TYPE`.
pub record Recommendation : Type 0 where
  pub next_decision : String
  pub target_role : String
  pub qa_assignment_allowed : Bool
  pub notes : List String

abbrev pub recommend : String → String → Bool → String → Option Recommendation
recommend decision role allowed note = some (record {
  next_decision = decision;
  target_role = role;
  qa_assignment_allowed = allowed;
  notes = note ∷ [];
})

-- `none` is the `KeyError`.
unfoldable pub recommendation_by_result_type : String → Option Recommendation
recommendation_by_result_type t =
    if t == "implemented_ready_for_qa"
    then recommend "assign_qa" "QA" true "ready-for-qa"
    else if t == "blocked"
    then recommend "return_to_delivery_architect" "Delivery Architect" false "blocked-worker-result"
    else if t == "needs_clarification"
    then recommend "return_to_delivery_architect" "Delivery Architect" false
        "clarification-required"
    else if t == "cannot_complete_without_scope_change"
    then recommend "escalate_to_authority_architect" "Architect" false "scope-change-required"
    else if t == "superseded_by_branch_reset"
    then recommend "reset_branch" "Python Dev" false "branch-reset-required"
    else none

unfoldable pub supports_worker_review_routing : String → Option String → Bool
supports_worker_review_routing workflow_stage none = member (strip workflow_stage) supported_stages
supports_worker_review_routing workflow_stage (some t) =
    member (strip workflow_stage) supported_stages && member (strip t) supported_result_types

abbrev pub refuse : String → Message → String → Option Rejection
refuse reason details note = some (record { reason = reason; details = details; note = note })

-- The guards of `derive_worker_review_routing`, in their order.
unfoldable pub rejection : TechLeadWorkerReviewRoutingRequest → Option Rejection
rejection request =
    let stage = strip request.workflow_stage in
    let role = strip request.worker_role in
    let result_type = strip request.worker_result_type in
    if not (is_positive request.issue_number)
    then refuse "missing_issue_number"
        (plain "The worker-review routing request must include a positive issue number.")
        "issue-number-required"
    else if stage == ""
    then refuse "missing_workflow_stage"
        (plain "The worker-review routing request must include a workflow stage.")
        "workflow-stage-required"
    else if role == ""
    then refuse "missing_worker_role"
        (plain "The worker-review routing request must include the returning worker role.")
        "worker-role-required"
    else if result_type == ""
    then refuse "missing_worker_result_type"
        (plain "The worker-review routing request must include a worker result type.")
        "worker-result-type-required"
    else if not (supports_worker_review_routing stage (some result_type))
    then refuse "unsupported_worker_review_routing"
        (lit "Current workflow stage "
          ∷ repr (some stage)
          ∷ lit " and worker result type "
          ∷ repr (some result_type)
          ∷ lit " are not supported in this slice."
          ∷ [])
        "fail-closed"
    else none

unfoldable pub base_metadata : TechLeadWorkerReviewRoutingRequest → Dict
base_metadata request =
    set_default
      (set_default (dict_or_empty request.metadata) "workflow_lifecycle_result_supplied"
        (flag (is_some request.workflow_lifecycle_result)))
      "service_component" (text "TechLeadWorkerReviewRoutingService")

unfoldable pub supported_summary :
    TechLeadWorkerReviewRoutingRequest → Recommendation → TechLeadWorkerReviewRoutingSummary
supported_summary request r = record {
  decision_supported = true;
  recommended_next_decision = some r.next_decision;
  recommended_target_role = some r.target_role;
  qa_assignment_allowed = r.qa_assignment_allowed;
  review_summary =
      lit "TechLead reviewed the "
      ∷ shown (strip request.worker_role)
      ∷ lit " worker result for issue #"
      ∷ digits request.issue_number
      ∷ lit " and recommends "
      ∷ shown r.next_decision
      ∷ lit "."
      ∷ [];
  blocking_reasons = [];
  notes = r.notes;
}

unfoldable pub build_supported_result :
    TechLeadWorkerReviewRoutingRequest
    → TechLeadWorkerReviewRoutingSummary
    → TechLeadWorkerReviewRoutingResult
build_supported_result request summary = record {
  project_slug = request.project_slug;
  issue_number = request.issue_number;
  pr_number = request.pr_number;
  workflow_stage = request.workflow_stage;
  worker_role = request.worker_role;
  worker_result_type = request.worker_result_type;
  source_packet_schema_type = request.source_packet_schema_type;
  source_packet_message_id = request.source_packet_message_id;
  summary = summary;
  ok = true;
  reason = none;
  details = none;
  recommended_actions = actions_of summary.recommended_next_decision;
  unattended_safe = some true;
  metadata = some (base_metadata request);
}

unfoldable pub build_rejected_result :
    String → TechLeadWorkerReviewRoutingRequest → Rejection → TechLeadWorkerReviewRoutingResult
build_rejected_result now request r = record {
  project_slug = request.project_slug;
  issue_number = request.issue_number;
  pr_number = request.pr_number;
  workflow_stage = request.workflow_stage;
  worker_role = request.worker_role;
  worker_result_type = request.worker_result_type;
  source_packet_schema_type = request.source_packet_schema_type;
  source_packet_message_id = request.source_packet_message_id;
  summary = record {
    decision_supported = false;
    recommended_next_decision = none;
    recommended_target_role = none;
    qa_assignment_allowed = false;
    review_summary =
        plain "No supported worker-review routing decision is available for this slice.";
    blocking_reasons = r.reason ∷ [];
    notes = r.note ∷ [];
  };
  ok = false;
  reason = some r.reason;
  details = some r.details;
  recommended_actions = none;
  unattended_safe = some false;
  metadata = some (put (base_metadata request) "rejected_at" (text now));
}

-- `none` where the lookup of the recommendation raises.
unfoldable pub derive_worker_review_routing :
    String → TechLeadWorkerReviewRoutingRequest → Option TechLeadWorkerReviewRoutingResult
derive_worker_review_routing now request = elim (rejection request) [
  | some r ↦ some (build_rejected_result now request r)
  | none ↦ elim (recommendation_by_result_type (strip request.worker_result_type)) [
    | none ↦ none
    | some r ↦ some (build_supported_result request (supported_summary request r))
  ]
]
