-- ===== src/Methodology/Tests.antt =====
-- The methodology runtime at a concrete store.
use paa_platform.Prelude.{
  String, ◌≡◌, refl, false, true, none, some, [], ◌∷◌, select, find, last, absurd_some, ◌⊎◌,
}
use paa_platform.Json.{empty}
use paa_platform.Methodology.Records.{
  MethodologyExecutionRecord, MethodologyExecutionBindingRecord, MethodologyExecutionStateRequest,
  MethodologyExecutionStateResult,
}
use paa_platform.Methodology.Store.{
  Store, Database, get_methodology_execution, list_methodology_execution_events,
}
use paa_platform.Methodology.State.{apply_transition, returned, applied_result, apply_to, at_source}
use paa_platform.Methodology.State.Current.{resolve_record}
use paa_platform.Methodology.State.Moved.{bound, updated, commit-Moved}
use paa_platform.Methodology.State.Apply.{Ends, apply-Ends, store_of}
use paa_platform.Methodology.State.Repeat.{repeated_transition-refused}
use paa_platform.Methodology.State.History.{Explained, apply-Explained}
use paa_platform.Methodology.Projection.{
  get_next_action_projection, explain_current_methodology_execution,
}
use paa_platform.Methodology.Projection.Models.{
  MethodologyExecutionProjectionRequest, MethodologyExecutionNextActionProjection,
  MethodologyExecutionExplainProjection,
}
use paa_platform.Methodology.Projection.Modes.{answered-or-blocked, Answered, Blocked}
use paa_platform.Methodology.Projection.AfterMove.{projected_after_move}

abbrev pointer : String → String → String → MethodologyExecutionRecord
pointer id step status = record {
  methodology_execution_id = id;
  project_id = "p";
  work_item_id = some "w";
  lane = "component_realization";
  stage = "slice_execution";
  step = step;
  status = status;
  current_owner_role = "TechLead";
  next_action_key = none;
  blocked_reason = none;
  component_id = none;
  design_package_id = none;
  implementation_plan_id = none;
  coder_run_brief_id = none;
  packet_id = none;
  workflow_state_id = none;
  active_authority_ref = none;
  active_artifact_ref = none;
  metadata = empty;
  created_at = "t0";
  updated_at = "t0";
}

abbrev binding : String → String → MethodologyExecutionBindingRecord
binding id kind = record {
  methodology_execution_binding_id = "b";
  methodology_execution_id = id;
  binding_kind = kind;
  bound_record_id = none;
  bound_record_key = none;
  bound_record_ref = some "old";
  is_primary = false;
  notes = none;
  metadata = empty;
  created_at = "t0";
  updated_at = "t0";
}

abbrev tables : Store
tables = record {
  executions =
      pointer "m1" "reconcile_component_plan_progress" "active"
      ∷ pointer "m2" "techlead_worker_dispatch" "blocked"
      ∷ [];
  events = [];
  bindings = binding "m1" "plan" ∷ binding "m1" "brief" ∷ binding "m2" "plan" ∷ [];
}

abbrev db : Database
db = record { now = "t1"; event_id = "e1"; binding_id = λ n. "n" }

abbrev request : MethodologyExecutionStateRequest
request = record {
  methodology_execution_id = some "m1";
  project_id = none;
  work_item_id = none;
  component_id = none;
  transition_key = some "component-progress-reconciled";
  to_lane = none;
  to_stage = none;
  to_step = none;
  to_status = none;
  actor_role_id = none;
  actor_name = some "dev";
  notes = none;
  evidence = none;
  binding_entries =
      record {
        binding_kind = "plan";
        bound_record_id = none;
        bound_record_key = none;
        bound_record_ref = some "new";
        is_primary = true;
        notes = none;
        metadata = none;
      }
      ∷ [];
  metadata = none;
}

abbrev at_start : MethodologyExecutionRecord
at_start = pointer "m1" "reconcile_component_plan_progress" "active"

abbrev after : Store
after = bound request at_start db tables

abbrev result : MethodologyExecutionStateResult
result = applied_result after request at_start (updated request at_start db tables)

applied : apply_transition request db tables ≡ returned result after
unfolding apply_transition resolve_record get_methodology_execution find apply_to at_source
applied = (commit-Moved request at_start db tables).0

is_ok : result.ok ≡ true
unfolding applied_result
is_ok = refl

apply-Ends_example : Ends request db tables (apply_transition request db tables)
apply-Ends_example = apply-Ends request db tables

repeated_transition-refused_example :
    (again : MethodologyExecutionStateResult) × (apply_transition request db after
      ≡ returned again after)
    × (again.ok ≡ false)
    × (again.reason ≡ some "unsupported_current_state")
repeated_transition-refused_example =
    repeated_transition-refused request "m1" refl db db tables after result applied is_ok

no_events : Explained tables
unfolding list_methodology_execution_events select last
no_events id r e h k = absurd_some k

apply-Explained_example : Explained (store_of (apply_transition request db tables))
apply-Explained_example = apply-Explained request db tables no_events

abbrev next_request : MethodologyExecutionProjectionRequest
next_request = record {
  methodology_execution_id = some "m1";
  project_id = none;
  work_item_id = none;
  component_id = none;
  projection_mode = some "next";
  actor_role_id = none;
  actor_name = none;
  metadata = none;
}

answered-or-blocked_example : Answered after next_request ⊎ Blocked after next_request
answered-or-blocked_example = answered-or-blocked after next_request

projected_after_move_example :
    (next : MethodologyExecutionNextActionProjection)
    × (explain : MethodologyExecutionExplainProjection) × (get_next_action_projection after "m1"
        ≡ some next)
    × (explain_current_methodology_execution after "m1" ≡ some explain)
    × (next.recommended_next_action_key ≡ some "derive-next-activity-bundle")
    × (next.recommended_owner_role ≡ some "System")
    × (next.blocked_reason ≡ none)
    × (explain.step ≡ "derive_next_activity_bundle")
    × (explain.transition_context ≡ some "automated_progression")
projected_after_move_example =
    projected_after_move request "m1" refl db tables after result applied is_ok
