-- ===== src/Workflow/Store.antt =====
-- The tables behind repositories/workflow_state/postgres.py and repositories/runtime_event/postgres.py,
-- as the queries of the workflow services read and write them.
pub mod Laws
use paa_platform.Prelude.{
  String, Bool, ◌&&◌, ◌==◌, Option, none, some, List, [], ◌∷◌, ◌++◌, map, opt_eq, is_some, find,
  select, if◌then◌else◌,
}
use paa_platform.Json.{dict_or_empty}
use paa_platform.Workflow.Records.{
  WorkflowStateRecord, WorkflowTransitionRecord, QueueClaimRecord, WorkflowStateUpsertSpec,
  WorkflowTransitionAppendSpec, QueueMessageRecord, TransitionInputRecord,
}

-- Claims stand newest first (`ORDER BY created_at DESC`), and so do the transition inputs.
pub record Store : Type 0 where
  pub workflow_states : List WorkflowStateRecord
  pub workflow_transitions : List WorkflowTransitionRecord
  pub queue_claims : List QueueClaimRecord
  pub queue_messages : List QueueMessageRecord
  pub transition_inputs : List TransitionInputRecord

abbrev pub has_state_id : String → WorkflowStateRecord → Bool
has_state_id id r = r.workflow_state_id == id

abbrev pub of_work_item : String → WorkflowStateRecord → Bool
of_work_item id r = r.work_item_id == id

unfoldable pub get_workflow_state : Store → String → Option WorkflowStateRecord
get_workflow_state s id = find (has_state_id id) s.workflow_states

unfoldable pub get_workflow_state_for_work_item : Store → String → Option WorkflowStateRecord
get_workflow_state_for_work_item s id = find (of_work_item id) s.workflow_states

-- Only claims whose status is `active` are looked at.
unfoldable pub get_active_queue_claim_for_message : Store → String → Option QueueClaimRecord
get_active_queue_claim_for_message s id =
    find (λ c. c.queue_message_id == id && c.claim_status == "active") s.queue_claims

unfoldable pub get_queue_message : Store → String → Option QueueMessageRecord
get_queue_message s id = find (λ m. m.queue_message_id == id) s.queue_messages

unfoldable pub get_queue_message_by_external : Store → String → Option QueueMessageRecord
get_queue_message_by_external s id =
    find (λ m. opt_eq m.message_id_external (some id)) s.queue_messages

unfoldable pub list_transition_inputs_for_work_item : Store → String → List TransitionInputRecord
list_transition_inputs_for_work_item s id = select (λ i. i.work_item_id == id) s.transition_inputs

-- `_timestamp_or_now`
abbrev pub or_now : Option String → String → String
or_now none now = now
or_now (some t) now = t

-- `ON CONFLICT (work_item_id) DO UPDATE`
unfoldable pub updated_state :
    WorkflowStateUpsertSpec → String → WorkflowStateRecord → WorkflowStateRecord
updated_state spec now r = record r {
  workflow_stage = spec.workflow_stage;
  lineage_state = spec.lineage_state;
  current_owner_role_id = spec.current_owner_role_id;
  authority_version_id = spec.authority_version_id;
  design_package_id = spec.design_package_id;
  coder_run_brief_id = spec.coder_run_brief_id;
  blocking_reason_code = spec.blocking_reason_code;
  blocking_reason_text = spec.blocking_reason_text;
  terminal_decision = spec.terminal_decision;
  state_consistency = spec.state_consistency;
  current_issue_number = spec.current_issue_number;
  current_pr_number = spec.current_pr_number;
  canonical_branch = spec.canonical_branch;
  active_role_branch = spec.active_role_branch;
  active_handoff_id = spec.active_handoff_id;
  active_queue_message_id = spec.active_queue_message_id;
  active_message_id_external = spec.active_message_id_external;
  active_assignment_role_id = spec.active_assignment_role_id;
  active_result_role_id = spec.active_result_role_id;
  active_queue_claim_id = spec.active_queue_claim_id;
  state_entered_at = some (or_now spec.state_entered_at now);
  last_transition_at = some (or_now spec.last_transition_at now);
  closed_at = spec.closed_at;
  metadata = dict_or_empty spec.metadata;
  updated_at = some now;
}

-- The row that is inserted where the work item has none.
unfoldable pub inserted_state : WorkflowStateUpsertSpec → String → String → WorkflowStateRecord
inserted_state spec id now = record {
  workflow_state_id = id;
  project_id = spec.project_id;
  work_item_id = spec.work_item_id;
  workflow_stage = spec.workflow_stage;
  lineage_state = spec.lineage_state;
  current_owner_role_id = spec.current_owner_role_id;
  authority_version_id = spec.authority_version_id;
  design_package_id = spec.design_package_id;
  coder_run_brief_id = spec.coder_run_brief_id;
  blocking_reason_code = spec.blocking_reason_code;
  blocking_reason_text = spec.blocking_reason_text;
  terminal_decision = spec.terminal_decision;
  state_consistency = spec.state_consistency;
  current_issue_number = spec.current_issue_number;
  current_pr_number = spec.current_pr_number;
  canonical_branch = spec.canonical_branch;
  active_role_branch = spec.active_role_branch;
  active_handoff_id = spec.active_handoff_id;
  active_queue_message_id = spec.active_queue_message_id;
  active_message_id_external = spec.active_message_id_external;
  active_assignment_role_id = spec.active_assignment_role_id;
  active_result_role_id = spec.active_result_role_id;
  active_queue_claim_id = spec.active_queue_claim_id;
  state_entered_at = some (or_now spec.state_entered_at now);
  last_transition_at = some (or_now spec.last_transition_at now);
  closed_at = spec.closed_at;
  metadata = dict_or_empty spec.metadata;
  created_at = some now;
  updated_at = some now;
}

abbrev pub update_row : WorkflowStateUpsertSpec → String → WorkflowStateRecord → WorkflowStateRecord
update_row spec now r = if of_work_item spec.work_item_id r then updated_state spec now r else r

-- `id` is the key that the database gives to a new row, `now` its clock.
unfoldable pub upsert_workflow_state : WorkflowStateUpsertSpec → String → String → Store → Store
upsert_workflow_state spec id now s =
    let rows =
      if is_some (find (of_work_item spec.work_item_id) s.workflow_states)
      then map (update_row spec now) s.workflow_states
      else s.workflow_states ++ inserted_state spec id now ∷ [] in
    record s { workflow_states = rows }

unfoldable pub appended_transition :
    WorkflowTransitionAppendSpec → String → String → WorkflowTransitionRecord
appended_transition spec id now = record {
  workflow_transition_id = id;
  workflow_state_id = spec.workflow_state_id;
  project_id = spec.project_id;
  work_item_id = spec.work_item_id;
  transition_type = spec.transition_type;
  transition_status = spec.transition_status;
  from_workflow_stage = spec.from_workflow_stage;
  to_workflow_stage = spec.to_workflow_stage;
  from_owner_role_id = spec.from_owner_role_id;
  to_owner_role_id = spec.to_owner_role_id;
  reason_code = spec.reason_code;
  reason_text = spec.reason_text;
  source_handoff_id = spec.source_handoff_id;
  source_queue_message_id = spec.source_queue_message_id;
  source_queue_claim_id = spec.source_queue_claim_id;
  source_message_id_external = spec.source_message_id_external;
  source_packet_schema_type = spec.source_packet_schema_type;
  source_role_id = spec.source_role_id;
  source_transition_input_id = spec.source_transition_input_id;
  result_handoff_id = spec.result_handoff_id;
  result_queue_message_id = spec.result_queue_message_id;
  result_queue_claim_id = spec.result_queue_claim_id;
  result_message_id_external = spec.result_message_id_external;
  result_packet_schema_type = spec.result_packet_schema_type;
  result_role_id = spec.result_role_id;
  performed_by_role_id = spec.performed_by_role_id;
  performed_by_agent_id = spec.performed_by_agent_id;
  automation_run_id = spec.automation_run_id;
  error_code = spec.error_code;
  error_details = spec.error_details;
  transition_requested_at = some (or_now spec.transition_requested_at now);
  transition_applied_at = spec.transition_applied_at;
  metadata = dict_or_empty spec.metadata;
  created_at = some now;
}

unfoldable pub append_workflow_transition :
    WorkflowTransitionAppendSpec → String → String → Store → Store
append_workflow_transition spec id now s = record s {
  workflow_transitions = s.workflow_transitions ++ appended_transition spec id now ∷ [];
}
