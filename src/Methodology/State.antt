-- ===== src/Methodology/State.antt =====
-- runtime/workflow/methodology_execution_state. Logging is left out.
pub mod Current
pub mod Apply
pub mod Moved
pub mod Repeat
pub mod History
use paa_platform.Methodology.State.Current.{
  binding_refs, find_current_methodology_execution, get_current_methodology_execution, labelled,
  named_texts, resolve_by_primary_ref, resolve_record, summary_from_record,
}
use paa_platform.Prelude.{
  String, Bool, true, false, not, ◌&&◌, ◌==◌, Option, none, some, List, [], ◌∷◌, ◌++◌, truthy,
  opt_eq, is_empty, if◌then◌else◌,
}
use paa_platform.Json.{
  Dict, empty, entry, text, texts, tuple, dict_or_empty, Message, lit, repr, shown, str, plain,
}
use paa_platform.Methodology.Records.{
  MethodologyExecutionRecord, MethodologyExecutionBindingRecord, MethodologyExecutionUpsertSpec,
  MethodologyExecutionEventAppendSpec, MethodologyExecutionBindingReplaceSpec,
  MethodologyExecutionStateRequest, MethodologyExecutionStateSummary,
  MethodologyExecutionTransitionSummary, MethodologyExecutionStateResult,
}
use paa_platform.Methodology.Store.{
  Store, Database, get_methodology_execution, find_methodology_execution_by_primary_ref,
  list_methodology_execution_bindings, upsert_methodology_execution,
  append_methodology_execution_event, replace_methodology_execution_bindings,
}

abbrev pub supported_transition_key : String
supported_transition_key = "component-progress-reconciled"

abbrev pub next_owner_role : String
next_owner_role = "System"

abbrev pub recommended_next_action : String
recommended_next_action = "derive-next-activity-bundle"

-- `current_tuple == self._SUPPORTED_FROM`
unfoldable pub at_source : MethodologyExecutionRecord → Bool
at_source r =
    r.lane == "component_realization"
    && (r.stage == "slice_execution"
        && (r.step == "reconcile_component_plan_progress" && r.status == "active"))

unfoldable pub supports_transition : String → Bool
supports_transition key = key == supported_transition_key

abbrev pub current_id : Option MethodologyExecutionStateSummary → Option String → Option String
current_id none id = id
current_id (some s) id = some s.methodology_execution_id

unfoldable pub blocked_result :
    MethodologyExecutionStateRequest
    → Option MethodologyExecutionStateSummary
    → String
    → Message
    → MethodologyExecutionStateResult
blocked_result request current_state reason details = record {
  methodology_execution_id = current_id current_state request.methodology_execution_id;
  request = request;
  current_state = current_state;
  transition = none;
  ok = false;
  reason = some reason;
  details = some details;
  binding_update_applied = some false;
  metadata = some (entry "blocking_reason" (text reason) empty);
}

unfoldable pub transition_of : MethodologyExecutionRecord → MethodologyExecutionTransitionSummary
transition_of r = record {
  transition_key = supported_transition_key;
  transition_kind = "automated_progression";
  from_lane = some r.lane;
  to_lane = "component_realization";
  from_stage = some r.stage;
  to_stage = "slice_execution";
  from_step = some r.step;
  to_step = "derive_next_activity_bundle";
  from_status = some r.status;
  to_status = "ready";
  current_owner_role = some r.current_owner_role;
  next_owner_role = some next_owner_role;
  prerequisites_satisfied = true;
  blocking_reasons = [];
  recommended_next_action = some recommended_next_action;
}

unfoldable pub upsert_spec :
    MethodologyExecutionRecord
    → MethodologyExecutionTransitionSummary
    → MethodologyExecutionUpsertSpec
upsert_spec r t = record {
  methodology_execution_id = r.methodology_execution_id;
  project_id = r.project_id;
  lane = t.to_lane;
  stage = t.to_stage;
  step = t.to_step;
  status = t.to_status;
  current_owner_role = next_owner_role;
  work_item_id = r.work_item_id;
  next_action_key = some recommended_next_action;
  blocked_reason = none;
  component_id = r.component_id;
  design_package_id = r.design_package_id;
  implementation_plan_id = r.implementation_plan_id;
  coder_run_brief_id = r.coder_run_brief_id;
  packet_id = r.packet_id;
  workflow_state_id = r.workflow_state_id;
  active_authority_ref = r.active_authority_ref;
  active_artifact_ref = r.active_artifact_ref;
  metadata = some r.metadata;
}

unfoldable pub event_spec :
    MethodologyExecutionStateRequest
    → MethodologyExecutionRecord
    → MethodologyExecutionTransitionSummary
    → MethodologyExecutionEventAppendSpec
event_spec request r t = record {
  methodology_execution_id = r.methodology_execution_id;
  to_lane = t.to_lane;
  to_stage = t.to_stage;
  to_step = t.to_step;
  to_status = t.to_status;
  transition_kind = t.transition_kind;
  from_lane = some r.lane;
  from_stage = some r.stage;
  from_step = some r.step;
  from_status = some r.status;
  actor_role_id = request.actor_role_id;
  actor_name = request.actor_name;
  notes = request.notes;
  evidence = some (dict_or_empty request.evidence);
}

-- A call returns a result, or raises; either way it leaves a store.
pub data Outcome : Type 0 where
  returned : MethodologyExecutionStateResult → Store → Outcome
  raised : Store → Outcome

-- The rows written for the execution and the event.
unfoldable pub write_transition :
    MethodologyExecutionStateRequest → MethodologyExecutionRecord → Database → Store → Store
write_transition request r db store =
    append_methodology_execution_event (event_spec request r (transition_of r)) db
      (upsert_methodology_execution (upsert_spec r (transition_of r)) db store)

unfoldable pub replace_spec :
    MethodologyExecutionStateRequest
    → MethodologyExecutionRecord
    → MethodologyExecutionBindingReplaceSpec
replace_spec request r = record {
  methodology_execution_id = r.methodology_execution_id;
  bindings = request.binding_entries;
  replace_scope = "replace_kind";
}

-- `if request.binding_entries`; `none` is the `ValueError` of the repository.
unfoldable pub write_bindings :
    MethodologyExecutionStateRequest → MethodologyExecutionRecord → Database → Store → Option Store
write_bindings request r db store =
    if is_empty request.binding_entries
    then some store
    else replace_methodology_execution_bindings (replace_spec request r) db store

unfoldable pub applied_result :
    Store
    → MethodologyExecutionStateRequest
    → MethodologyExecutionRecord
    → MethodologyExecutionRecord
    → MethodologyExecutionStateResult
applied_result store request r updated = record {
  methodology_execution_id = some r.methodology_execution_id;
  request = request;
  current_state = some (summary_from_record store updated);
  transition = some (transition_of r);
  ok = true;
  reason = none;
  details = none;
  binding_update_applied = some (not (is_empty request.binding_entries));
  metadata = some (entry "recommended_next_action" (text recommended_next_action) empty);
}

-- The end of `apply_transition`: the execution is read again.
unfoldable pub read_back :
    MethodologyExecutionStateRequest → MethodologyExecutionRecord → Store → Outcome
read_back request r store = elim (get_methodology_execution store r.methodology_execution_id) [
  | none ↦ raised store
  | some updated ↦ returned (applied_result store request r updated) store
]

-- From the construction of the transition on.
unfoldable pub commit_transition :
    MethodologyExecutionStateRequest → MethodologyExecutionRecord → Database → Store → Outcome
commit_transition request r db store =
    let written = write_transition request r db store in
    elim (write_bindings request r db written) [
      | none ↦ raised written
      | some bound ↦ read_back request r bound
    ]

abbrev pub missing_details : Message
missing_details =
    plain "No current methodology execution record could be resolved for the supplied identity."

abbrev pub unsupported_key_details : MethodologyExecutionStateRequest → Message
unsupported_key_details request =
    lit "Transition "
    ∷ repr request.transition_key
    ∷ lit " is not supported by the current MethodologyExecutionStateService slice."
    ∷ []

abbrev pub unsupported_state_details : MethodologyExecutionRecord → Message
unsupported_state_details r =
    lit "Current methodology execution state does not match the supported transition source: "
    ∷ str (tuple (texts (r.lane ∷ r.stage ∷ r.step ∷ r.status ∷ [])))
    ∷ []

-- The guards on a resolved record.
unfoldable pub apply_to :
    MethodologyExecutionStateRequest → MethodologyExecutionRecord → Database → Store → Outcome
apply_to request r db store =
    let current = some (summary_from_record store r) in
    if not (opt_eq request.transition_key (some supported_transition_key))
    then returned
        (blocked_result request current "unsupported_transition_key"
          (unsupported_key_details request))
        store
    else if not (at_source r)
    then returned
        (blocked_result request current "unsupported_current_state" (unsupported_state_details r))
        store
    else commit_transition request r db store

unfoldable pub apply_transition : MethodologyExecutionStateRequest → Database → Store → Outcome
apply_transition request db store = elim (resolve_record store request) [
  | none ↦
      returned (blocked_result request none "missing_methodology_execution" missing_details) store
  | some r ↦ apply_to request r db store
]
