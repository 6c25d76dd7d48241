-- ===== src/Workflow/Lifecycle.antt =====
-- `_evaluate_supported_transition` and the public operations of `DefaultWorkflowLifecycleService`.
-- Logging is left out.
pub mod Allowed
pub mod Inversion
use mathlib.Core.Option
use paa_platform.Prelude.{
  String, Bool, false, not, ◌&&◌, ◌||◌, ◌==◌, Option, none, some, List, [], ◌∷◌, ◌++◌, is_empty,
  is_none, truthy, or_text, opt_eq, when, if◌then◌else◌,
}
use paa_platform.Json.{Dict, empty, entry, text, opt_text, dict_or_empty, Message, lit, repr, plain}
use paa_platform.Policy.Transition.{WorkflowTransitionDecision, evaluate_transition}
use paa_platform.Policy.Recovery.{ResetRecoveryDecision, evaluate_reset_recovery}
use paa_platform.Workflow.Records.{
  WorkflowStateRecord, QueueClaimRecord, QueueMessageRecord, TransitionInputRecord,
}
use paa_platform.Workflow.Models.{WorkflowLifecycleRequest, WorkflowLifecycleResult}
use paa_platform.Workflow.Store.{Store}
use paa_platform.Workflow.Evaluate.{
  Resolver, target_stage_for_transition, require_current_state, resolve_source_schema_type,
  packet_schema_for_transition, from_stage_for_transition, state_view_from_record,
  worker_result_transition, resolve_execution_surface_key, unsupported_result,
  resolve_queue_message, recommended_apply_action, qa_result_transition, resolve_transition_input,
  recommended_next_action, resolve_active_claim,
}

-- What the evaluation has read: the state, the evidence and the claim.
pub record Evidence : Type 0 where
  pub state : WorkflowStateRecord
  pub message : Option QueueMessageRecord
  pub input : Option TransitionInputRecord
  pub claim : Option QueueClaimRecord

unfoldable pub gather_evidence : Store → WorkflowLifecycleRequest → String → Option Evidence
gather_evidence store request t = elim (require_current_state store request) [
  | none ↦ none
  | some state ↦
      let message = resolve_queue_message store request in
      some (record {
        state = state;
        message = message;
        input = resolve_transition_input store request (packet_schema_for_transition t) message;
        claim = resolve_active_claim store state message;
      })
]

abbrev pub source_schema : WorkflowLifecycleRequest → Evidence → Option String
source_schema request e = resolve_source_schema_type request e.message e.input

-- A to-stage is requested, and it is not the one that the transition leads to.
unfoldable pub wrong_target : WorkflowLifecycleRequest → String → Bool
wrong_target request t =
    truthy request.requested_to_stage
    && not (opt_eq request.requested_to_stage (some (target_stage_for_transition t)))

unfoldable pub wrong_schema : WorkflowLifecycleRequest → String → Evidence → Bool
wrong_schema request t e =
    not (opt_eq (source_schema request e) (some (packet_schema_for_transition t)))

unfoldable pub no_evidence : WorkflowLifecycleRequest → Evidence → Bool
no_evidence request e =
    is_none e.message && is_none e.input && is_none request.source_packet_schema_type

-- The reasons that the service finds itself.
unfoldable pub service_blocking : WorkflowLifecycleRequest → String → Evidence → List Message
service_blocking request t e =
    when (wrong_target request t) (
      lit "Requested to-stage "
      ∷ repr request.requested_to_stage
      ∷ lit " does not match the supported target stage "
      ∷ repr (some (target_stage_for_transition t))
      ∷ lit "."
      ∷ [])
    ++ (when (wrong_schema request t e) (
          repr (some t)
          ∷ lit " requires source schema "
          ∷ repr (some (packet_schema_for_transition t))
          ∷ lit ", received "
          ∷ repr (source_schema request e)
          ∷ lit "."
          ∷ [])
        ++ when (no_evidence request e)
            (lit "No runtime evidence was provided for transition " ∷ repr (some t) ∷ lit "." ∷ []))

abbrev pub state_metadata : WorkflowStateRecord → Option Dict
state_metadata state = some (entry "workflow_state_id" (text state.workflow_state_id) empty)

-- The call of the workflow transition policy.
unfoldable pub transition_decision :
    WorkflowLifecycleRequest → String → Evidence → WorkflowTransitionDecision
transition_decision request t e =
    evaluate_transition
      (record {
        work_item_id = request.work_item_id;
        transition_type = t;
        requested_by_role = none;
        requested_by_agent = none;
        requested_from_stage =
            some (or_text request.requested_from_stage (from_stage_for_transition t));
        requested_to_stage = some (target_stage_for_transition t);
        source_schema_type = source_schema request e;
        result_schema_type = none;
        metadata = some (dict_or_empty request.metadata);
      })
      (record {
        current_workflow_stage = some e.state.workflow_stage;
        current_owner_role = e.state.current_owner_role_id;
        lineage_state = some e.state.lineage_state;
        state_consistency = some e.state.state_consistency;
        execution_surface_type = none;
        execution_surface_key = request.execution_surface_key;
        metadata = state_metadata e.state;
      })

-- The call of the reset recovery policy.
unfoldable pub reset_decision : WorkflowLifecycleRequest → Evidence → ResetRecoveryDecision
reset_decision request e =
    evaluate_reset_recovery
      (record {
        work_item_id = request.work_item_id;
        workflow_stage = some e.state.workflow_stage;
        transition_status = some "proposed";
        retry_requested = false;
        metadata = some (dict_or_empty request.metadata);
      })
      (record {
        state_consistency = some e.state.state_consistency;
        blocking_reason_code = e.state.blocking_reason_code;
        active_claim_status = Option.map (λ c. c.claim_status) e.claim;
        execution_surface_key = request.execution_surface_key;
        metadata = state_metadata e.state;
      })

unfoldable pub all_blocking : WorkflowLifecycleRequest → String → Evidence → List Message
all_blocking request t e =
    service_blocking request t e
    ++ ((transition_decision request t e).blocking_reasons
        ++ (reset_decision request e).blocking_reasons)

abbrev surface_note : Option String → List Message
surface_note none = []
surface_note (some key) =
    (lit "Execution context resolved for surface " ∷ repr (some key) ∷ lit "." ∷ []) ∷ []

-- The result, once everything has been read.
unfoldable pub evaluated_result :
    WorkflowLifecycleRequest → String → Evidence → Option String → WorkflowLifecycleResult
evaluated_result request t e key =
    let decision = transition_decision request t e in
    let reset = reset_decision request e in
    let blocking = all_blocking request t e in
    let allowed = is_empty blocking && decision.allowed in
    record {
      project_id = request.project_id;
      work_item_id = request.work_item_id;
      requested_transition_type = request.requested_transition_type;
      applied = false;
      state_view = some (state_view_from_record e.state);
      decision_summary = record {
        transition_allowed = allowed;
        acceptance_allowed = false;
        requires_manual_repair = reset.requires_manual_repair;
        should_reset = reset.should_reset;
        should_retry = reset.should_retry;
        blocking_reasons = blocking;
        notes = decision.notes ++ (reset.notes ++ surface_note key);
        metadata = entry "resolved_to_stage" (opt_text decision.resolved_to_stage) (
            entry "rejection_code" (opt_text decision.rejection_code) (
              entry "source_schema_type" (opt_text (source_schema request e))
                (entry "transition_type" (text t) empty)));
      };
      resolved_execution_surface_key = key;
      recommended_next_action = some (
          if allowed
          then plain (recommended_apply_action t)
          else recommended_next_action t reset blocking);
      metadata = entry "current_workflow_stage" (text e.state.workflow_stage) (
          entry "target_workflow_stage" (text (target_stage_for_transition t)) (
            entry "source_queue_message_id" (opt_text request.source_queue_message_id) (
              entry "source_message_id_external" (opt_text request.source_message_id_external) (
                entry "source_transition_input_id"
                  (opt_text (Option.map (λ i. i.transition_input_id) e.input)) empty))));
    }

-- `requested_transition_type in {worker result, qa result}`, with the type at hand.
unfoldable pub supported_type : WorkflowLifecycleRequest → Option String
supported_type request = elim request.requested_transition_type [
  | none ↦ none
  | some t ↦ if t == worker_result_transition || t == qa_result_transition then some t else none
]

-- The evaluation of a supported type; `none` is an exception.
unfoldable pub evaluate_type :
    Resolver → Store → WorkflowLifecycleRequest → String → Option WorkflowLifecycleResult
evaluate_type resolver store request t = elim (gather_evidence store request t) [
  | none ↦ none
  | some e ↦
      Option.map (evaluated_result request t e) (resolve_execution_surface_key resolver request)
]

unfoldable pub evaluate_workflow_transition :
    Resolver → Store → WorkflowLifecycleRequest → Option WorkflowLifecycleResult
evaluate_workflow_transition resolver store request = elim (supported_type request) [
  | none ↦ some (unsupported_result request)
  | some t ↦ evaluate_type resolver store request t
]
