-- ===== src/Methodology/State/Current.antt =====
-- The current execution of a request, and its summary.
use paa_platform.Prelude.{
  String, ◌==◌, Option, none, some, List, [], ◌∷◌, ◌++◌, if◌then◌else◌, named,
}
use paa_platform.Json.{Message, lit, shown}
use paa_platform.Methodology.Records.{
  MethodologyExecutionRecord, MethodologyExecutionBindingRecord, MethodologyExecutionStateRequest,
  MethodologyExecutionStateSummary,
}
use paa_platform.Methodology.Store.{
  Store, get_methodology_execution, find_methodology_execution_by_primary_ref,
  list_methodology_execution_bindings,
}

-- The texts among these that are neither `None` nor empty.
abbrev pub named_texts : List (Option String) → List String
named_texts [] = []
named_texts (none ∷ rest) = named_texts rest
named_texts (some s ∷ rest) =
    let others = named_texts rest in if s == "" then others else s ∷ others

unfoldable pub binding_refs : List MethodologyExecutionBindingRecord → List String
binding_refs [] = []
binding_refs (b ∷ bs) = named_texts (b.bound_record_ref ∷ []) ++ binding_refs bs

-- `f'{label}{value}'`, where the value is neither `None` nor empty.
abbrev pub labelled : String → Option String → List Message
labelled label none = []
labelled label (some s) = if s == "" then [] else (lit label ∷ shown s ∷ []) ∷ []

unfoldable pub summary_from_record :
    Store → MethodologyExecutionRecord → MethodologyExecutionStateSummary
summary_from_record store r = record {
  methodology_execution_id = r.methodology_execution_id;
  lane = r.lane;
  stage = r.stage;
  step = r.step;
  status = r.status;
  current_owner_role = r.current_owner_role;
  next_action_key = r.next_action_key;
  blocked_reason = r.blocked_reason;
  component_id = r.component_id;
  design_package_id = r.design_package_id;
  implementation_plan_id = r.implementation_plan_id;
  coder_run_brief_id = r.coder_run_brief_id;
  packet_id = r.packet_id;
  workflow_state_id = r.workflow_state_id;
  active_authority_ref = r.active_authority_ref;
  active_artifact_ref = r.active_artifact_ref;
  binding_refs =
      binding_refs (list_methodology_execution_bindings store r.methodology_execution_id);
  notes = labelled "blocked:" r.blocked_reason ++ labelled "next:" r.next_action_key;
  metadata = r.metadata;
}

-- `none` is the `LookupError`.
unfoldable pub get_current_methodology_execution :
    Store → String → Option MethodologyExecutionStateSummary
get_current_methodology_execution store id = elim (get_methodology_execution store id) [
  | none ↦ none
  | some r ↦ some (summary_from_record store r)
]

unfoldable pub find_current_methodology_execution :
    Store → String → String → Option String → Option MethodologyExecutionStateSummary
find_current_methodology_execution store project_id work_item_id component_id =
    elim (find_methodology_execution_by_primary_ref store project_id work_item_id component_id) [
      | none ↦ none
      | some r ↦ some (summary_from_record store r)
    ]

-- From `if request.project_id and request.work_item_id` on.
unfoldable pub resolve_by_primary_ref :
    Store → MethodologyExecutionStateRequest → Option MethodologyExecutionRecord
resolve_by_primary_ref store request = elim (named request.project_id) [
  | none ↦ none
  | some project_id ↦ elim (named request.work_item_id) [
    | none ↦ none
    | some work_item_id ↦
        find_methodology_execution_by_primary_ref store project_id work_item_id request.component_id
  ]
]

unfoldable pub resolve_record :
    Store → MethodologyExecutionStateRequest → Option MethodologyExecutionRecord
resolve_record store request = elim (named request.methodology_execution_id) [
  | some id ↦ get_methodology_execution store id
  | none ↦ resolve_by_primary_ref store request
]
