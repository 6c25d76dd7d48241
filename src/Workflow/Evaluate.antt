-- ===== src/Workflow/Evaluate.antt =====
-- The evaluation half of `DefaultWorkflowLifecycleService`: is a requested transition allowed now?
use paa_platform.Prelude.{
  String, Bool, false, not, ◌&&◌, ◌==◌, Option, none, some, List, [], ◌∷◌, is_empty, is_none,
  truthy, opt_eq, find, if◌then◌else◌,
}
use paa_platform.Json.{Dict, nil, cons, tuple, empty, entry, text, Message, lit, repr, plain}
use paa_platform.Policy.Recovery.{ResetRecoveryDecision}
use paa_platform.Workflow.Records.{
  WorkflowStateRecord, QueueClaimRecord, QueueMessageRecord, TransitionInputRecord,
}
use paa_platform.Workflow.Models.{
  WorkflowLifecycleRequest, WorkflowLifecycleStateView, WorkflowLifecycleResult,
}
use paa_platform.Workflow.Store.{
  Store, get_workflow_state, get_workflow_state_for_work_item, get_active_queue_claim_for_message,
  get_queue_message, get_queue_message_by_external, list_transition_inputs_for_work_item,
}

abbrev pub worker_result_transition : String
worker_result_transition = "worker_result_returned"

abbrev pub qa_result_transition : String
qa_result_transition = "qa_result_returned"

abbrev pub is_qa : String → Bool
is_qa transition_type = transition_type == qa_result_transition

unfoldable pub target_stage_for_transition : String → String
target_stage_for_transition t =
    if is_qa t then "techlead_qa_review_pending" else "techlead_worker_review_pending"

unfoldable pub from_stage_for_transition : String → String
from_stage_for_transition t =
    if is_qa t then "qa_execution_in_progress" else "worker_execution_in_progress"

unfoldable pub packet_schema_for_transition : String → String
packet_schema_for_transition t =
    if is_qa t then "qa_verification_packet" else "worker_result_packet"

unfoldable pub recommended_apply_action : String → String
recommended_apply_action t =
    if is_qa t
    then "Apply the QA-result transition to move the slice into TechLead QA review."
    else "Apply the worker-result transition to move the slice into TechLead worker review."

abbrev transition_label : String → String
transition_label t = if is_qa t then "QA-result" else "worker-result"

-- `_recommended_next_action`, as a message.
unfoldable pub recommended_next_action : String → ResetRecoveryDecision → List Message → Message
recommended_next_action t reset blocking =
    if reset.requires_manual_repair
    then lit "Repair workflow consistency before applying the "
      ∷ lit (transition_label t)
      ∷ lit " transition."
      ∷ []
    else if reset.should_reset
    then lit "Reset or reassign the active claim before accepting the "
      ∷ lit (transition_label t)
      ∷ lit " transition."
      ∷ []
    else if not (is_empty blocking)
    then lit "Correct the "
      ∷ lit (transition_label t)
      ∷ lit " transition request and evidence before retrying."
      ∷ []
    else plain (recommended_apply_action t)

unfoldable pub state_view_from_record : WorkflowStateRecord → WorkflowLifecycleStateView
state_view_from_record state = record {
  workflow_state_id = state.workflow_state_id;
  project_id = state.project_id;
  work_item_id = state.work_item_id;
  workflow_stage = state.workflow_stage;
  current_owner_role_id = state.current_owner_role_id;
  lineage_state = state.lineage_state;
  terminal_decision = state.terminal_decision;
  state_consistency = state.state_consistency;
  blocking_reason_code = state.blocking_reason_code;
  blocking_reason_text = state.blocking_reason_text;
  current_issue_number = state.current_issue_number;
  current_pr_number = state.current_pr_number;
  canonical_branch = state.canonical_branch;
  active_role_branch = state.active_role_branch;
  active_handoff_id = state.active_handoff_id;
  active_queue_message_id = state.active_queue_message_id;
  active_message_id_external = state.active_message_id_external;
  active_queue_claim_id = state.active_queue_claim_id;
  closed_at = state.closed_at;
  metadata = state.metadata;
}

-- `none` is the `LookupError`.
unfoldable pub require_current_state : Store → WorkflowLifecycleRequest → Option WorkflowStateRecord
require_current_state store request =
    let by_work_item = get_workflow_state_for_work_item store request.work_item_id in
    elim request.workflow_state_id [
      | none ↦ by_work_item
      | some id ↦ if id == "" then by_work_item else (elim (get_workflow_state store id) [
        | none ↦ by_work_item
        | some state ↦ some state
      ])
    ]

-- The message that a request names, by its own id or by the external one.
unfoldable pub resolve_queue_message : Store → WorkflowLifecycleRequest → Option QueueMessageRecord
resolve_queue_message store request =
    if truthy request.source_queue_message_id
    then (elim request.source_queue_message_id [
      | none ↦ none
      | some id ↦ get_queue_message store id
    ])
    else if truthy request.source_message_id_external
    then (elim request.source_message_id_external [
      | none ↦ none
      | some id ↦ get_queue_message_by_external store id
    ])
    else none

-- The rest of `_resolve_transition_evidence`.
unfoldable pub resolve_transition_input :
    Store
    → WorkflowLifecycleRequest
    → String
    → Option QueueMessageRecord
    → Option TransitionInputRecord
resolve_transition_input store request schema message =
    if is_none message && is_none request.source_packet_schema_type
    then find (λ i. opt_eq i.input_schema_type (some schema))
        (list_transition_inputs_for_work_item store request.work_item_id)
    else none

unfoldable pub resolve_source_schema_type :
    WorkflowLifecycleRequest
    → Option QueueMessageRecord
    → Option TransitionInputRecord
    → Option String
resolve_source_schema_type request (some message) input = some message.schema_type
resolve_source_schema_type request none input = elim request.source_packet_schema_type [
  | some schema ↦ some schema
  | none ↦ elim input [ some i ↦ i.input_schema_type | none ↦ none ]
]

unfoldable pub resolve_active_claim :
    Store → WorkflowStateRecord → Option QueueMessageRecord → Option QueueClaimRecord
resolve_active_claim store state (some message) =
    get_active_queue_claim_for_message store message.queue_message_id
resolve_active_claim store state none = elim state.active_queue_message_id [
  | some id ↦ get_active_queue_claim_for_message store id
  | none ↦ none
]

-- The key that the execution package resolution service finds for a request; `none` is an exception
-- of that service.
abbrev pub Resolver : Type 0
Resolver = WorkflowLifecycleRequest → Option String

-- `_resolve_execution_surface_key`: the outer `none` is an exception.
unfoldable pub resolve_execution_surface_key :
    Resolver → WorkflowLifecycleRequest → Option (Option String)
resolve_execution_surface_key resolver request =
    if not (truthy request.execution_surface_key)
      && not (truthy request.repo_root_path)
      && not (truthy request.runtime_root_path)
    then some none
    else (elim (resolver request) [ none ↦ none | some key ↦ some (some key) ])

unfoldable pub rejected_result :
    WorkflowLifecycleRequest
    → List Message
    → List Message
    → Dict
    → Message
    → WorkflowLifecycleResult
rejected_result request blocking notes metadata action = record {
  project_id = request.project_id;
  work_item_id = request.work_item_id;
  requested_transition_type = request.requested_transition_type;
  applied = false;
  state_view = none;
  decision_summary = record {
    transition_allowed = false;
    acceptance_allowed = false;
    requires_manual_repair = false;
    should_reset = false;
    should_retry = false;
    blocking_reasons = blocking;
    notes = notes;
    metadata = metadata;
  };
  resolved_execution_surface_key = none;
  recommended_next_action = some action;
  metadata = metadata;
}

unfoldable pub unsupported_result : WorkflowLifecycleRequest → WorkflowLifecycleResult
unsupported_result request =
    rejected_result request
      ((lit "Unsupported transition type "
          ∷ repr request.requested_transition_type
          ∷ lit "; only "
          ∷ repr (some worker_result_transition)
          ∷ lit " and "
          ∷ repr (some qa_result_transition)
          ∷ lit " are implemented in this slice."
          ∷ [])
        ∷ [])
      (plain
          "This workflow lifecycle slice currently supports only worker-result and qa-result return paths."
        ∷ [])
      (entry "supported_transition_types"
        (tuple (cons (text worker_result_transition) (cons (text qa_result_transition) nil))) empty)
      (plain
        "Use the worker-result or qa-result transition family, or extend the workflow lifecycle slice.")
