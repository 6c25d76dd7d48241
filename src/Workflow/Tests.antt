-- ===== src/Workflow/Tests.antt =====
-- The lifecycle service at a store with one work item whose worker has returned a result.
use paa_platform.Workflow.Apply.Advanced.{Advanced, apply-Advanced}
use paa_platform.Policy.Recovery.{evaluate_reset_recovery, claim_lost}
use paa_platform.Policy.Transition.{evaluate_transition, stage_mismatch, needs_repair}
use paa_platform.Workflow.Apply.Step.{written_state}
use paa_platform.Workflow.Apply.Machine.{Moves, applied-Moves, repeated-refused}
use paa_platform.Workflow.Lifecycle.Allowed.{Legal, allowed-Legal}
use paa_platform.Workflow.Evaluate.{
  target_stage_for_transition, from_stage_for_transition, Resolver, require_current_state,
  resolve_queue_message, resolve_execution_surface_key, resolve_transition_input,
  resolve_active_claim, packet_schema_for_transition, resolve_source_schema_type,
}
use paa_platform.Prelude.{none, some, [], ◌∷◌, ◌≡◌, if-true, false, true, ◌∙◌, ◌⊎◌, refl, find}
use paa_platform.Json.{empty}
use paa_platform.Workflow.Records.{WorkflowStateRecord, QueueMessageRecord}
use paa_platform.Workflow.Models.{WorkflowLifecycleRequest, WorkflowLifecycleResult}
use paa_platform.Workflow.Store.{
  get_active_queue_claim_for_message, get_queue_message, updated_state, Store,
  upsert_workflow_state, append_workflow_transition, get_workflow_state_for_work_item,
}
use paa_platform.Workflow.Lifecycle.{
  reset_decision, Evidence, evaluate_workflow_transition, evaluated_result, supported_type,
  all_blocking, evaluate_type, service_blocking, gather_evidence, wrong_target, wrong_schema,
  no_evidence, transition_decision,
}
use paa_platform.Workflow.Apply.{
  Environment, write_transition, commit_transition, apply_workflow_transition, applied_result,
  state_spec,
}

abbrev state : WorkflowStateRecord
state = record {
  workflow_state_id = "ws1";
  project_id = "p1";
  work_item_id = "w1";
  authority_version_id = none;
  design_package_id = none;
  coder_run_brief_id = none;
  workflow_stage = "worker_execution_in_progress";
  current_owner_role_id = some "dev";
  lineage_state = "awaiting_result";
  blocking_reason_code = none;
  blocking_reason_text = none;
  terminal_decision = "none";
  state_consistency = "consistent";
  current_issue_number = none;
  current_pr_number = none;
  canonical_branch = none;
  active_role_branch = none;
  active_handoff_id = none;
  active_queue_message_id = none;
  active_message_id_external = none;
  active_assignment_role_id = none;
  active_result_role_id = some "techlead";
  active_queue_claim_id = none;
  state_entered_at = none;
  last_transition_at = none;
  closed_at = none;
  metadata = empty;
  created_at = none;
  updated_at = none;
}

abbrev message : QueueMessageRecord
message = record {
  queue_message_id = "m1";
  handoff_id = "h1";
  queue_name = "q";
  schema_type = "worker_result_packet";
  message_id_external = none;
  correlation_key = none;
  payload = empty;
  status = "sent";
  sent_at = none;
  claimed_at = none;
  acknowledged_at = none;
  metadata = empty;
  created_at = none;
  updated_at = none;
}

abbrev store : Store
store = record {
  workflow_states = state ∷ [];
  workflow_transitions = [];
  queue_claims = [];
  queue_messages = message ∷ [];
  transition_inputs = [];
}

abbrev request : WorkflowLifecycleRequest
request = record {
  project_id = "p1";
  work_item_id = "w1";
  workflow_state_id = none;
  requested_transition_type = some "worker_result_returned";
  requested_from_stage = none;
  requested_to_stage = none;
  source_queue_message_id = some "m1";
  source_message_id_external = none;
  source_packet_schema_type = none;
  automation_run_id = none;
  execution_surface_key = none;
  repo_root_path = none;
  runtime_root_path = none;
  metadata = none;
}

abbrev evidence : Evidence
evidence = record { state = state; message = some message; input = none; claim = none }

abbrev env : Environment
env = record { now_iso = "t1"; new_state_id = "ws2"; new_transition_id = "wt1"; db_now = "t2" }

abbrev resolver : Resolver
resolver r = none

abbrev evaluation : WorkflowLifecycleResult
evaluation = evaluated_result request "worker_result_returned" evidence none

abbrev result : WorkflowLifecycleResult
result = applied_result env request evaluation (written_state env request state)

abbrev after : Store
after = write_transition env request state store

evaluated : evaluate_workflow_transition resolver store request ≡ some evaluation
unfolding evaluate_workflow_transition supported_type evaluate_type gather_evidence
    require_current_state get_workflow_state_for_work_item find resolve_queue_message
    get_queue_message resolve_execution_surface_key evaluated_result resolve_transition_input
    resolve_active_claim packet_schema_for_transition get_active_queue_claim_for_message
evaluated = refl

allowed : evaluation.decision_summary.transition_allowed ≡ true
unfolding evaluated_result all_blocking service_blocking wrong_target wrong_schema no_evidence
    transition_decision reset_decision evaluate_transition stage_mismatch needs_repair
    evaluate_reset_recovery claim_lost resolve_source_schema_type packet_schema_for_transition
    from_stage_for_transition target_stage_for_transition
allowed = refl

allowed-Legal_example : Legal request "worker_result_returned" evidence
allowed-Legal_example = (allowed-Legal request "worker_result_returned" evidence none).0 allowed

committed : commit_transition env request evaluation store ≡ some (result, after)
unfolding commit_transition write_transition upsert_workflow_state append_workflow_transition
    require_current_state get_workflow_state_for_work_item find state_spec updated_state
committed = refl

applied : apply_workflow_transition env resolver request store ≡ some (result, after)
unfolding apply_workflow_transition commit_transition
applied = rw (evaluated, apply_workflow_transition) (if-true _ _ allowed ∙ committed)

apply-Advanced_example :
    ((result.applied ≡ false)
      × (after ≡ store)
      × (evaluate_workflow_transition resolver store request ≡ some result))
    ⊎ ((result.applied ≡ true) × Advanced env resolver request store after result)
apply-Advanced_example = apply-Advanced env resolver request store result after applied

is_applied : result.applied ≡ true
unfolding applied_result
is_applied = refl

applied-Moves_example : Moves env resolver request store after
applied-Moves_example = applied-Moves env resolver request store result after applied is_applied

repeated-refused_example :
    (again : WorkflowLifecycleResult) × (apply_workflow_transition env resolver request after
      ≡ some (again, after))
    × (again.applied ≡ false)
repeated-refused_example =
    repeated-refused env resolver request store result after applied is_applied refl env
