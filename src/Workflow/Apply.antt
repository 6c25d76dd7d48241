-- ===== src/Workflow/Apply.antt =====
-- `apply_workflow_transition`, `detect_workflow_blocks` and `get_current_workflow_state`.
pub mod Effects
pub mod Step
pub mod Advanced
pub mod Machine
use mathlib.Core.Option
use paa_platform.Prelude.{String, true, Option, none, some, or_else, or_text, if◌then◌else◌, ◌==◌}
use paa_platform.Json.{empty, entry, text, opt_text, update, plain}
use paa_platform.Workflow.Records.{
  WorkflowStateRecord, WorkflowStateUpsertSpec, WorkflowTransitionAppendSpec,
}
use paa_platform.Workflow.Models.{
  WorkflowLifecycleRequest, WorkflowLifecycleStateView, WorkflowLifecycleResult,
}
use paa_platform.Workflow.Store.{
  Store, get_workflow_state_for_work_item, upsert_workflow_state, append_workflow_transition,
}
use paa_platform.Workflow.Evaluate.{
  Resolver, is_qa, worker_result_transition, target_stage_for_transition,
  packet_schema_for_transition, state_view_from_record, require_current_state,
}
use paa_platform.Workflow.Lifecycle.{evaluate_workflow_transition}

-- What an apply takes from outside: the service's clock, the keys of new rows and the database's
-- clock.
pub record Environment : Type 0 where
  pub now_iso : String
  pub new_state_id : String
  pub new_transition_id : String
  pub db_now : String

unfoldable pub derive_next_lineage_state : String → WorkflowStateRecord → String
derive_next_lineage_state t state =
    if is_qa t
    then "awaiting_acceptance"
    else if state.lineage_state == ""
    then "awaiting_result"
    else state.lineage_state

unfoldable pub lineage_strategy_for_transition : String → String
lineage_strategy_for_transition t =
    if is_qa t then "advance_to_awaiting_acceptance" else "preserve_current_lineage_state"

unfoldable pub post_apply_review_action : String → String
post_apply_review_action t =
    if is_qa t
    then "TechLead should review the returned QA verification result."
    else "TechLead should review the returned worker result."

-- `requested_transition_type or _WORKER_RESULT_TRANSITION`
abbrev pub applied_type : WorkflowLifecycleRequest → String
applied_type request = or_text request.requested_transition_type worker_result_transition

-- `active_result_role_id or current_owner_role_id`
abbrev pub next_owner : WorkflowStateRecord → Option String
next_owner state = or_else state.active_result_role_id state.current_owner_role_id

unfoldable pub state_spec :
    WorkflowLifecycleRequest → WorkflowStateRecord → String → WorkflowStateUpsertSpec
state_spec request state now =
    let t = applied_type request in
    record {
      project_id = state.project_id;
      work_item_id = state.work_item_id;
      workflow_stage = target_stage_for_transition t;
      lineage_state = derive_next_lineage_state t state;
      current_owner_role_id = next_owner state;
      authority_version_id = state.authority_version_id;
      design_package_id = state.design_package_id;
      coder_run_brief_id = state.coder_run_brief_id;
      blocking_reason_code = none;
      blocking_reason_text = none;
      terminal_decision = state.terminal_decision;
      state_consistency = state.state_consistency;
      current_issue_number = state.current_issue_number;
      current_pr_number = state.current_pr_number;
      canonical_branch = state.canonical_branch;
      active_role_branch = state.active_role_branch;
      active_handoff_id = state.active_handoff_id;
      active_queue_message_id =
          or_else request.source_queue_message_id state.active_queue_message_id;
      active_message_id_external =
          or_else request.source_message_id_external state.active_message_id_external;
      active_assignment_role_id = state.active_assignment_role_id;
      active_result_role_id = state.active_result_role_id;
      active_queue_claim_id = state.active_queue_claim_id;
      state_entered_at = some now;
      last_transition_at = some now;
      closed_at = state.closed_at;
      metadata = some (
          update state.metadata (
            entry "last_applied_transition_type" (text t)
              (entry "lineage_state_strategy" (text (lineage_strategy_for_transition t)) empty)));
    }

unfoldable pub transition_spec :
    WorkflowLifecycleRequest → WorkflowStateRecord → String → WorkflowTransitionAppendSpec
transition_spec request state now =
    let t = applied_type request in
    record {
      workflow_state_id = state.workflow_state_id;
      project_id = state.project_id;
      work_item_id = state.work_item_id;
      transition_type = t;
      transition_status = "applied";
      from_workflow_stage = some state.workflow_stage;
      to_workflow_stage = some (target_stage_for_transition t);
      from_owner_role_id = state.current_owner_role_id;
      to_owner_role_id = next_owner state;
      reason_code = none;
      reason_text = none;
      source_handoff_id = state.active_handoff_id;
      source_queue_message_id =
          or_else request.source_queue_message_id state.active_queue_message_id;
      source_queue_claim_id = state.active_queue_claim_id;
      source_message_id_external =
          or_else request.source_message_id_external state.active_message_id_external;
      source_packet_schema_type = some (packet_schema_for_transition t);
      source_role_id = none;
      source_transition_input_id = none;
      result_handoff_id = none;
      result_queue_message_id = none;
      result_queue_claim_id = none;
      result_message_id_external = none;
      result_packet_schema_type = none;
      result_role_id = next_owner state;
      performed_by_role_id = none;
      performed_by_agent_id = none;
      automation_run_id = request.automation_run_id;
      error_code = none;
      error_details = none;
      transition_requested_at = some now;
      transition_applied_at = some now;
      metadata = some (
          entry "lineage_state" (text (derive_next_lineage_state t state))
            (entry "requested_transition_type" (opt_text request.requested_transition_type) empty));
    }

-- The two writes: the state row first, then the history.
unfoldable pub write_transition :
    Environment → WorkflowLifecycleRequest → WorkflowStateRecord → Store → Store
write_transition env request state store =
    append_workflow_transition (transition_spec request state env.now_iso) env.new_transition_id
      env.db_now
      (upsert_workflow_state (state_spec request state env.now_iso) env.new_state_id env.db_now
        store)

unfoldable pub applied_result :
    Environment
    → WorkflowLifecycleRequest
    → WorkflowLifecycleResult
    → WorkflowStateRecord
    → WorkflowLifecycleResult
applied_result env request evaluation updated =
    let t = applied_type request in
    record evaluation {
      project_id = request.project_id;
      work_item_id = request.work_item_id;
      requested_transition_type = request.requested_transition_type;
      applied = true;
      state_view = some (state_view_from_record updated);
      recommended_next_action = some (plain (post_apply_review_action t));
      metadata = update evaluation.metadata (
          entry "applied_transition_type" (text t)
            (entry "transition_applied_at" (text env.now_iso) empty));
    }

-- The part of an apply that follows an evaluation that allows the transition.
unfoldable pub commit_transition :
    Environment
    → WorkflowLifecycleRequest
    → WorkflowLifecycleResult
    → Store
    → Option (WorkflowLifecycleResult × Store)
commit_transition env request evaluation store = elim (require_current_state store request) [
  | none ↦ none
  | some state ↦
      let store' = write_transition env request state store in
      Option.map (λ updated. (applied_result env request evaluation updated, store'))
        (require_current_state store' request)
]

-- `none` is an exception, which leaves the store as it was.
unfoldable pub apply_workflow_transition :
    Environment
    → Resolver
    → WorkflowLifecycleRequest
    → Store
    → Option (WorkflowLifecycleResult × Store)
apply_workflow_transition env resolver request store =
    elim (evaluate_workflow_transition resolver store request) [
      | none ↦ none
      | some evaluation ↦
          if evaluation.decision_summary.transition_allowed
          then commit_transition env request evaluation store
          else some (evaluation, store)
    ]

unfoldable pub detect_workflow_blocks :
    Resolver → Store → WorkflowLifecycleRequest → Option WorkflowLifecycleResult
detect_workflow_blocks resolver store request = evaluate_workflow_transition resolver store request

unfoldable pub get_current_workflow_state : Store → String → Option WorkflowLifecycleStateView
get_current_workflow_state store id =
    Option.map state_view_from_record (get_workflow_state_for_work_item store id)
