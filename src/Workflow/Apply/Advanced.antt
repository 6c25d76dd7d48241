-- ===== src/Workflow/Apply/Advanced.antt =====
-- What an applied transition makes of the row of its work item and of the history, in the values of the
-- two transitions (`apply_workflow_transition` of runtime/workflow/workflow_lifecycle).
use paa_platform.Prelude.{
  String, ◌≡◌, ◌≢◌, ◌⊎◌, ◌∙◌, refl, ap, true, false, Option, none, some, [], ◌∷◌, ◌++◌, inl, inr,
  Bool-cases, eq_iff, or_else, absurd_some, if◌then◌else◌, ◌==◌,
}
use paa_platform.Json.{empty, entry, text, update}
use paa_platform.Workflow.Records.{WorkflowStateRecord, WorkflowTransitionRecord}
use paa_platform.Workflow.Models.{WorkflowLifecycleRequest, WorkflowLifecycleResult}
use paa_platform.Workflow.Store.{
  Store, get_workflow_state_for_work_item, updated_state, appended_transition,
}
use paa_platform.Workflow.Evaluate.{
  Resolver, require_current_state, state_view_from_record, target_stage_for_transition,
  packet_schema_for_transition, worker_result_transition, qa_result_transition,
}
use paa_platform.Workflow.Lifecycle.{evaluate_workflow_transition, supported_type}
use paa_platform.Workflow.Lifecycle.Inversion.{allowed-Evaluated}
use paa_platform.Workflow.Apply.{
  Environment, state_spec, transition_spec, apply_workflow_transition, derive_next_lineage_state,
  lineage_strategy_for_transition,
}
use paa_platform.Workflow.Apply.Step.{Applied, written_state, apply-Applied}

-- The two transitions of the lifecycle, with what they lead to.
pub data Edge : Type 0 where
  worker_result : Edge
  qa_result : Edge

abbrev pub type_of : Edge → String
type_of worker_result = "worker_result_returned"
type_of qa_result = "qa_result_returned"

abbrev pub stage_after : Edge → String
stage_after worker_result = "techlead_worker_review_pending"
stage_after qa_result = "techlead_qa_review_pending"

-- A worker result keeps the lineage, where there is one.
abbrev pub lineage_after : Edge → String → String
lineage_after worker_result old = if old == "" then "awaiting_result" else old
lineage_after qa_result old = "awaiting_acceptance"

abbrev pub strategy_of : Edge → String
strategy_of worker_result = "preserve_current_lineage_state"
strategy_of qa_result = "advance_to_awaiting_acceptance"

abbrev pub packet_of : Edge → String
packet_of worker_result = "worker_result_packet"
packet_of qa_result = "qa_verification_packet"

-- The row after the transition: what is not named stays as it is.
abbrev pub advanced :
    Environment → WorkflowLifecycleRequest → Edge → WorkflowStateRecord → WorkflowStateRecord
advanced env request edge state = record state {
  workflow_stage = stage_after edge;
  lineage_state = lineage_after edge state.lineage_state;
  current_owner_role_id = or_else state.active_result_role_id state.current_owner_role_id;
  blocking_reason_code = none;
  blocking_reason_text = none;
  active_queue_message_id = or_else request.source_queue_message_id state.active_queue_message_id;
  active_message_id_external =
      or_else request.source_message_id_external state.active_message_id_external;
  state_entered_at = some env.now_iso;
  last_transition_at = some env.now_iso;
  metadata = update state.metadata (
      entry "last_applied_transition_type" (text (type_of edge))
        (entry "lineage_state_strategy" (text (strategy_of edge)) empty));
  updated_at = some env.db_now;
}

-- What the history says of the transition.
pub record Logged (env : Environment) (request : WorkflowLifecycleRequest) (edge : Edge)
    (state : WorkflowStateRecord) (line : WorkflowTransitionRecord) : Type 0 where
  pub id : line.workflow_transition_id ≡ env.new_transition_id
  pub of_state : line.workflow_state_id ≡ state.workflow_state_id
  pub of_item : line.work_item_id ≡ state.work_item_id
  pub kind : line.transition_type ≡ type_of edge
  pub status : line.transition_status ≡ "applied"
  pub from_stage : line.from_workflow_stage ≡ some state.workflow_stage
  pub to_stage : line.to_workflow_stage ≡ some (stage_after edge)
  pub from_owner : line.from_owner_role_id ≡ state.current_owner_role_id
  pub to_owner :
      line.to_owner_role_id ≡ or_else state.active_result_role_id state.current_owner_role_id
  pub packet : line.source_packet_schema_type ≡ some (packet_of edge)
  pub message :
      line.source_queue_message_id
      ≡ or_else request.source_queue_message_id state.active_queue_message_id
  pub no_error : line.error_code ≡ none
  pub applied_at : line.transition_applied_at ≡ some env.now_iso

-- An apply that goes through.
pub record Advanced (env : Environment) (resolver : Resolver) (request : WorkflowLifecycleRequest)
    (before after : Store) (result : WorkflowLifecycleResult) : Type 0 where
  pub evaluation : WorkflowLifecycleResult
  pub evaluated : evaluate_workflow_transition resolver before request ≡ some evaluation
  pub allowed : evaluation.decision_summary.transition_allowed ≡ true
  pub edge : Edge
  pub requested : request.requested_transition_type ≡ some (type_of edge)
  pub state : WorkflowStateRecord
  pub was : require_current_state before request ≡ some state
  pub is : require_current_state after request ≡ some (advanced env request edge state)
  pub shown : result.state_view ≡ some (state_view_from_record (advanced env request edge state))
  pub logged : WorkflowTransitionRecord
  pub history : after.workflow_transitions ≡ before.workflow_transitions ++ logged ∷ []
  pub log : Logged env request edge state logged
  pub others :
      (id : String)
      → id ≢ state.work_item_id
      → get_workflow_state_for_work_item after id ≡ get_workflow_state_for_work_item before id
  pub claims : after.queue_claims ≡ before.queue_claims
  pub messages : after.queue_messages ≡ before.queue_messages

supported-Edge :
    (request : WorkflowLifecycleRequest) (t : String)
    → supported_type request ≡ some t
    → (edge : Edge) × (request.requested_transition_type ≡ some (type_of edge))
unfolding supported_type
supported-Edge request t h = go request.requested_transition_type refl
  where
    go :
        (o : Option String)
        → request.requested_transition_type ≡ o
        → (edge : Edge) × (request.requested_transition_type ≡ some (type_of edge))
    go none e = absurd_some (rw (e, supported_type) at h)
    go (some u) e = elim (Bool-cases (u == worker_result_transition)) [
      | inl w ↦ (worker_result, e ∙ ap some ((eq_iff u worker_result_transition).0 w))
      | inr w ↦ elim (Bool-cases (u == qa_result_transition)) [
        | inl q ↦ (qa_result, e ∙ ap some ((eq_iff u qa_result_transition).0 q))
        | inr q ↦ absurd_some (rw (e, w, q, supported_type) at h)
      ]
    ]

module _ (env : Environment) (request : WorkflowLifecycleRequest)
    (state : WorkflowStateRecord) where
  written-advanced :
      (edge : Edge)
      → request.requested_transition_type ≡ some (type_of edge)
      → written_state env request state ≡ advanced env request edge state
  unfolding updated_state state_spec target_stage_for_transition derive_next_lineage_state
      lineage_strategy_for_transition
  written-advanced worker_result e = rw (e, updated_state, state_spec) refl
  written-advanced qa_result e = rw (e, updated_state, state_spec) refl

  appended-Logged :
      (edge : Edge)
      → request.requested_transition_type ≡ some (type_of edge)
      → Logged env request edge state (
          appended_transition
            (transition_spec request state env.now_iso)
            env.new_transition_id
            env.db_now)
  unfolding appended_transition transition_spec target_stage_for_transition
      packet_schema_for_transition
  appended-Logged worker_result e = record {
    id = refl;
    of_state = refl;
    of_item = refl;
    kind = rw e refl;
    status = refl;
    from_stage = refl;
    to_stage = rw (e, transition_spec) refl;
    from_owner = refl;
    to_owner = refl;
    packet = rw (e, transition_spec) refl;
    message = refl;
    no_error = refl;
    applied_at = refl;
  }
  appended-Logged qa_result e = record {
    id = refl;
    of_state = refl;
    of_item = refl;
    kind = rw e refl;
    status = refl;
    from_stage = refl;
    to_stage = rw (e, transition_spec) refl;
    from_owner = refl;
    to_owner = refl;
    packet = rw (e, transition_spec) refl;
    message = refl;
    no_error = refl;
    applied_at = refl;
  }

module _ (env : Environment) (resolver : Resolver) (request : WorkflowLifecycleRequest)
    (store : Store) where
  Applied-Advanced :
      {result : WorkflowLifecycleResult} {after : Store}
      → Applied env resolver request store after result
      → Advanced env resolver request store after result
  Applied-Advanced x =
      let v = allowed-Evaluated resolver store request x.evaluation x.evaluated x.allowed in
      let (edge, requested) = supported-Edge request v.t v.supported in
      let row = written-advanced env request x.state edge requested in
      record {
        evaluation = x.evaluation;
        evaluated = x.evaluated;
        allowed = x.allowed;
        edge = edge;
        requested = requested;
        state = x.state;
        was = x.was;
        is = x.is ∙ ap some row;
        shown = x.shown ∙ ap (λ r. some (state_view_from_record r)) row;
        logged =
            appended_transition (transition_spec request x.state env.now_iso) env.new_transition_id
              env.db_now;
        history = x.history;
        log = appended-Logged env request x.state edge requested;
        others = x.others;
        claims = x.claims;
        messages = x.messages;
      }

  -- An apply that returns either changes nothing, and then its result is the evaluation and reports
  -- that nothing was applied, or it reports an applied transition, which the evaluation allowed, of one of
  -- the two types, and has made the step. The row that the request finds is the old one in the review
  -- stage of the type, with the lineage of the type, the active result role as its owner where there is
  -- one, no blocking reason, and the message of the request. One record stands at the end of the history
  -- and tells the type, both stages, both owners and the packet schema. The rows of other work items, the
  -- claims and the messages are those of before.
  pub apply-Advanced :
      (result : WorkflowLifecycleResult) (after : Store)
      → apply_workflow_transition env resolver request store ≡ some (result, after)
      → ((result.applied ≡ false)
          × (after ≡ store)
          × (evaluate_workflow_transition resolver store request ≡ some result))
        ⊎ ((result.applied ≡ true) × Advanced env resolver request store after result)
  apply-Advanced result after h = elim (apply-Applied env resolver request store result after h) [
    | inl x ↦ inl x
    | inr x ↦ inr (x.0, Applied-Advanced x.1)
  ]
