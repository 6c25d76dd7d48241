-- ===== src/Methodology/Projection.antt =====
-- runtime/workflow/methodology_execution_projection. Logging is left out.
pub mod Models
pub mod Texts
pub mod Modes
pub mod AfterMove
use paa_platform.Methodology.Projection.Models.{
  MethodologyExecutionExplainProjection, MethodologyExecutionNextActionProjection,
  MethodologyExecutionProjectionRequest, MethodologyExecutionProjectionResult,
  MethodologyExecutionStatusProjection,
}
use paa_platform.Methodology.Projection.Texts.{
  by_state, explanation_summary, place, prerequisite_summary, status_summary_text,
}
use paa_platform.Prelude.{
  String, Bool, true, false, ◌==◌, Option, none, some, List, [], ◌∷◌, ◌++◌, opt_eq, last, member,
  is_some, if◌then◌else◌, named,
}
use paa_platform.Json.{Dict, empty, entry, opt_text, text, Message, lit, repr, shown, plain}
use paa_platform.Methodology.Records.{MethodologyExecutionRecord, MethodologyExecutionEventRecord}
use paa_platform.Methodology.Store.{
  Store, MethodologyExecutionProjectionInputRecord, find_methodology_execution_by_primary_ref,
  load_methodology_execution_projection_inputs,
}
use paa_platform.Methodology.State.Current.{binding_refs, labelled}

unfoldable pub status_projection_from_input :
    MethodologyExecutionProjectionInputRecord → MethodologyExecutionStatusProjection
status_projection_from_input input =
    let r = input.execution in
    record {
      methodology_execution_id = r.methodology_execution_id;
      lane = r.lane;
      stage = r.stage;
      step = r.step;
      status = r.status;
      current_owner_role = r.current_owner_role;
      next_action_key = r.next_action_key;
      blocked_reason = r.blocked_reason;
      component_id = r.component_id;
      design_package_id = r.design_package_id;
      implementation_plan_id = r.implementation_plan_id;
      coder_run_brief_id = r.coder_run_brief_id;
      packet_id = r.packet_id;
      workflow_state_id = r.workflow_state_id;
      active_authority_ref = r.active_authority_ref;
      active_artifact_ref = r.active_artifact_ref;
      binding_refs = binding_refs input.bindings;
      summary_text = status_summary_text r;
      metadata = r.metadata;
    }

unfoldable pub next_action_projection_from_input :
    MethodologyExecutionProjectionInputRecord → MethodologyExecutionNextActionProjection
next_action_projection_from_input input =
    let r = input.execution in
    record {
      methodology_execution_id = r.methodology_execution_id;
      recommended_next_action_key = r.next_action_key;
      recommended_owner_role = some r.current_owner_role;
      lane = r.lane;
      stage = r.stage;
      step = r.step;
      prerequisite_summary = prerequisite_summary r;
      blocked_reason = r.blocked_reason;
      component_id = r.component_id;
      implementation_plan_id = r.implementation_plan_id;
      packet_id = r.packet_id;
      metadata = r.metadata;
    }

abbrev pub transition_context : Option MethodologyExecutionEventRecord → Option String
transition_context none = none
transition_context (some e) = some e.transition_kind

unfoldable pub explain_projection_from_input :
    MethodologyExecutionProjectionInputRecord → MethodologyExecutionExplainProjection
explain_projection_from_input input =
    let r = input.execution in
    record {
      methodology_execution_id = r.methodology_execution_id;
      lane = r.lane;
      stage = r.stage;
      step = r.step;
      status = r.status;
      current_owner_role = r.current_owner_role;
      explanation_summary = explanation_summary r;
      transition_context = transition_context (last input.events);
      binding_refs = binding_refs input.bindings;
      blocked_reason = r.blocked_reason;
      metadata = r.metadata;
    }

-- `none` is the `LookupError`.
unfoldable pub get_status_projection : Store → String → Option MethodologyExecutionStatusProjection
get_status_projection store id = elim (load_methodology_execution_projection_inputs store id) [
  | none ↦ none
  | some input ↦ some (status_projection_from_input input)
]

-- The outer `none` is the `LookupError`, the inner one the `None` that is returned.
unfoldable pub find_status_projection :
    Store → String → String → Option String → Option (Option MethodologyExecutionStatusProjection)
find_status_projection store project_id work_item_id component_id =
    elim (find_methodology_execution_by_primary_ref store project_id work_item_id component_id) [
      | none ↦ some none
      | some r ↦ elim (get_status_projection store r.methodology_execution_id) [
        | none ↦ none
        | some p ↦ some (some p)
      ]
    ]

unfoldable pub get_next_action_projection :
    Store → String → Option MethodologyExecutionNextActionProjection
get_next_action_projection store id = elim (load_methodology_execution_projection_inputs store id) [
  | none ↦ none
  | some input ↦ some (next_action_projection_from_input input)
]

unfoldable pub explain_current_methodology_execution :
    Store → String → Option MethodologyExecutionExplainProjection
explain_current_methodology_execution store id =
    elim (load_methodology_execution_projection_inputs store id) [
      | none ↦ none
      | some input ↦ some (explain_projection_from_input input)
    ]

-- The id that is looked for: only where none is given the primary reference is asked.
unfoldable pub projected_id : Store → MethodologyExecutionProjectionRequest → Option String
projected_id store request = elim request.methodology_execution_id [
  | some id ↦ some id
  | none ↦ elim (named request.project_id) [
    | none ↦ none
    | some project_id ↦ elim (named request.work_item_id) [
      | none ↦ none
      | some work_item_id ↦
          elim (find_methodology_execution_by_primary_ref store project_id work_item_id
            request.component_id) [ none ↦ none | some r ↦ some r.methodology_execution_id ]
    ]
  ]
]

unfoldable pub resolve_projection_input :
    Store → MethodologyExecutionProjectionRequest → Option MethodologyExecutionProjectionInputRecord
resolve_projection_input store request = elim (projected_id store request) [
  | none ↦ none
  | some id ↦ load_methodology_execution_projection_inputs store id
]

abbrev pub supported_projection_modes : List String
supported_projection_modes = "status" ∷ "next" ∷ "explain" ∷ []

abbrev pub mode_supported : Option String → Bool
mode_supported none = false
mode_supported (some mode) = member mode supported_projection_modes

unfoldable pub blocked_projection :
    MethodologyExecutionProjectionRequest → String → Message → MethodologyExecutionProjectionResult
blocked_projection request reason details = record {
  methodology_execution_id = request.methodology_execution_id;
  request = request;
  status_projection = none;
  next_action_projection = none;
  explain_projection = none;
  ok = false;
  reason = some reason;
  details = some details;
  metadata = some (entry "blocking_reason" (text reason) empty);
}

-- `projection if request.projection_mode == mode else None`
abbrev pub in_mode {ℓ} : {A : Type ℓ} → Option String → String → A → Option A
in_mode requested mode a = if opt_eq requested (some mode) then some a else none

unfoldable pub projection_result :
    MethodologyExecutionProjectionRequest
    → MethodologyExecutionProjectionInputRecord
    → MethodologyExecutionProjectionResult
projection_result request input = record {
  methodology_execution_id = some input.execution.methodology_execution_id;
  request = request;
  status_projection = in_mode request.projection_mode "status" (status_projection_from_input input);
  next_action_projection =
      in_mode request.projection_mode "next" (next_action_projection_from_input input);
  explain_projection =
      in_mode request.projection_mode "explain" (explain_projection_from_input input);
  ok = true;
  reason = none;
  details = none;
  metadata = some (entry "projection_mode" (opt_text request.projection_mode) empty);
}

unfoldable pub get_projection :
    Store → MethodologyExecutionProjectionRequest → MethodologyExecutionProjectionResult
get_projection store request =
    if mode_supported request.projection_mode
    then (elim (resolve_projection_input store request) [
      | none ↦ blocked_projection request "missing_methodology_execution" (
          plain
            "No current methodology execution record could be resolved for the supplied identity.")
      | some input ↦ projection_result request input
    ])
    else blocked_projection request "unsupported_projection_mode" (
        lit "Projection mode "
        ∷ repr request.projection_mode
        ∷ lit " is not supported by the current MethodologyExecutionProjectionService slice."
        ∷ [])
