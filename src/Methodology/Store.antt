-- ===== src/Methodology/Store.antt =====
-- The tables behind repositories/methodology_execution/postgres.py. Executions stand in the order of
-- their last update, newest first, which is the order of the query by primary reference; events and
-- bindings stand in the order of their creation. Texts are ordered by their code points. The
-- casts of ids to uuid, which raise on a text that is none, are left out: ids are texts that they accept.
pub mod Laws
use Prim.Native.String.{compare}
use text.Mathlib.Text.{is_le}
use paa_platform.Prelude.{
  ℕ, suc, String, Bool, true, not, ◌&&◌, ◌||◌, ◌==◌, Option, none, some, List, [], ◌∷◌, ◌++◌, map,
  opt_eq, find, select, member, sort_by, if◌then◌else◌,
}
use paa_platform.Json.{dict_or_empty}
use paa_platform.Methodology.Records.{
  MethodologyExecutionRecord, MethodologyExecutionEventRecord, MethodologyExecutionBindingRecord,
  MethodologyExecutionUpsertSpec, MethodologyExecutionEventAppendSpec,
  MethodologyExecutionBindingEntrySpec, MethodologyExecutionBindingReplaceSpec,
}

pub record Store : Type 0 where
  pub executions : List MethodologyExecutionRecord
  pub events : List MethodologyExecutionEventRecord
  pub bindings : List MethodologyExecutionBindingRecord

-- `now()` and the keys that the database generates in one call.
pub record Database : Type 0 where
  pub now : String
  pub event_id : String
  pub binding_id : ℕ → String

abbrev pub has_execution_id : String → MethodologyExecutionRecord → Bool
has_execution_id id r = r.methodology_execution_id == id

unfoldable pub get_methodology_execution : Store → String → Option MethodologyExecutionRecord
get_methodology_execution store id = find (has_execution_id id) store.executions

-- A missing component id is `IS NULL`.
abbrev pub has_primary_ref : String → String → Option String → MethodologyExecutionRecord → Bool
has_primary_ref project_id work_item_id component_id r =
    r.project_id == project_id
    && (opt_eq r.work_item_id (some work_item_id) && opt_eq r.component_id component_id)

unfoldable pub find_methodology_execution_by_primary_ref :
    Store → String → String → Option String → Option MethodologyExecutionRecord
find_methodology_execution_by_primary_ref store project_id work_item_id component_id =
    find (has_primary_ref project_id work_item_id component_id) store.executions

abbrev pub event_of : String → MethodologyExecutionEventRecord → Bool
event_of id e = e.methodology_execution_id == id

unfoldable pub list_methodology_execution_events :
    Store → String → List MethodologyExecutionEventRecord
list_methodology_execution_events store id = select (event_of id) store.events

abbrev pub binding_of : String → MethodologyExecutionBindingRecord → Bool
binding_of id b = b.methodology_execution_id == id

-- `is_primary DESC, binding_kind`
unfoldable pub listed_before :
    MethodologyExecutionBindingRecord → MethodologyExecutionBindingRecord → Bool
listed_before a b =
    if a.is_primary
    then not b.is_primary || is_le (compare a.binding_kind b.binding_kind)
    else not b.is_primary && is_le (compare a.binding_kind b.binding_kind)

unfoldable pub list_methodology_execution_bindings :
    Store → String → List MethodologyExecutionBindingRecord
list_methodology_execution_bindings store id =
    sort_by listed_before (select (binding_of id) store.bindings)

-- The row that an upsert leaves, with the creation time of an old row.
unfoldable pub upserted :
    MethodologyExecutionUpsertSpec → String → String → MethodologyExecutionRecord
upserted spec created_at now = record {
  methodology_execution_id = spec.methodology_execution_id;
  project_id = spec.project_id;
  work_item_id = spec.work_item_id;
  lane = spec.lane;
  stage = spec.stage;
  step = spec.step;
  status = spec.status;
  current_owner_role = spec.current_owner_role;
  next_action_key = spec.next_action_key;
  blocked_reason = spec.blocked_reason;
  component_id = spec.component_id;
  design_package_id = spec.design_package_id;
  implementation_plan_id = spec.implementation_plan_id;
  coder_run_brief_id = spec.coder_run_brief_id;
  packet_id = spec.packet_id;
  workflow_state_id = spec.workflow_state_id;
  active_authority_ref = spec.active_authority_ref;
  active_artifact_ref = spec.active_artifact_ref;
  metadata = dict_or_empty spec.metadata;
  created_at = created_at;
  updated_at = now;
}

abbrev pub created_or_now : Option MethodologyExecutionRecord → String → String
created_or_now none now = now
created_or_now (some r) now = r.created_at

-- Inserted or updated, the row is the one updated last.
unfoldable pub upsert_methodology_execution :
    MethodologyExecutionUpsertSpec → Database → Store → Store
upsert_methodology_execution spec db store = record store {
  executions =
      upserted spec
        (created_or_now (get_methodology_execution store spec.methodology_execution_id) db.now)
        db.now
      ∷ select (λ r. not (has_execution_id spec.methodology_execution_id r)) store.executions;
}

unfoldable pub appended_event :
    MethodologyExecutionEventAppendSpec → Database → MethodologyExecutionEventRecord
appended_event spec db = record {
  methodology_execution_event_id = db.event_id;
  methodology_execution_id = spec.methodology_execution_id;
  from_lane = spec.from_lane;
  to_lane = spec.to_lane;
  from_stage = spec.from_stage;
  to_stage = spec.to_stage;
  from_step = spec.from_step;
  to_step = spec.to_step;
  from_status = spec.from_status;
  to_status = spec.to_status;
  transition_kind = spec.transition_kind;
  actor_role_id = spec.actor_role_id;
  actor_name = spec.actor_name;
  notes = spec.notes;
  evidence = dict_or_empty spec.evidence;
  created_at = db.now;
}

unfoldable pub append_methodology_execution_event :
    MethodologyExecutionEventAppendSpec → Database → Store → Store
append_methodology_execution_event spec db store = record store {
  events = store.events ++ appended_event spec db ∷ [];
}

-- `_binding_insert_sql`
unfoldable pub inserted_binding :
    String → Database → ℕ → MethodologyExecutionBindingEntrySpec → MethodologyExecutionBindingRecord
inserted_binding id db n b = record {
  methodology_execution_binding_id = db.binding_id n;
  methodology_execution_id = id;
  binding_kind = b.binding_kind;
  bound_record_id = b.bound_record_id;
  bound_record_key = b.bound_record_key;
  bound_record_ref = b.bound_record_ref;
  is_primary = b.is_primary;
  notes = b.notes;
  metadata = dict_or_empty b.metadata;
  created_at = db.now;
  updated_at = db.now;
}

-- The insert statements, one for each binding.
unfoldable pub inserted_bindings :
    String
    → Database
    → ℕ
    → List MethodologyExecutionBindingEntrySpec
    → List MethodologyExecutionBindingRecord
inserted_bindings id db n [] = []
inserted_bindings id db n (b ∷ bs) = inserted_binding id db n b ∷ inserted_bindings id db (suc n) bs

abbrev pub kinds_of : List MethodologyExecutionBindingEntrySpec → List String
kinds_of bs = map (λ b. b.binding_kind) bs

-- What the delete statement leaves; `none` is the `ValueError`. Without kinds nothing is deleted.
unfoldable pub kept_bindings :
    MethodologyExecutionBindingReplaceSpec
    → List MethodologyExecutionBindingRecord
    → Option (List MethodologyExecutionBindingRecord)
kept_bindings spec bs =
    let id = spec.methodology_execution_id in
    if spec.replace_scope == "replace_all"
    then some (select (λ b. not (binding_of id b)) bs)
    else if spec.replace_scope == "replace_kind"
    then some
        (select (λ b. not (binding_of id b && member b.binding_kind (kinds_of spec.bindings))) bs)
    else none

unfoldable pub replace_methodology_execution_bindings :
    MethodologyExecutionBindingReplaceSpec → Database → Store → Option Store
replace_methodology_execution_bindings spec db store = elim (kept_bindings spec store.bindings) [
  | none ↦ none
  | some kept ↦ some (record store {
    bindings = kept ++ inserted_bindings spec.methodology_execution_id db 0 spec.bindings;
  })
]

pub record MethodologyExecutionProjectionInputRecord : Type 0 where
  pub execution : MethodologyExecutionRecord
  pub events : List MethodologyExecutionEventRecord
  pub bindings : List MethodologyExecutionBindingRecord

-- `none` is the `LookupError`. The related records are always empty.
unfoldable pub load_methodology_execution_projection_inputs :
    Store → String → Option MethodologyExecutionProjectionInputRecord
load_methodology_execution_projection_inputs store id = elim (get_methodology_execution store id) [
  | none ↦ none
  | some execution ↦ some (record {
    execution = execution;
    events = list_methodology_execution_events store id;
    bindings = list_methodology_execution_bindings store id;
  })
]
