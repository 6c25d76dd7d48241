-- ===== src/Workflow/Store/Laws.antt =====
-- What an upsert of a workflow state does to the rows that the queries find.
use mathlib.Core.Option
use paa_platform.Prelude.{String, ◌≡◌, true, arith, find-map, is_some}
use paa_platform.Workflow.Records.{WorkflowStateRecord, WorkflowStateUpsertSpec}
use paa_platform.Workflow.Store.{
  Store, has_state_id, of_work_item, get_workflow_state, get_workflow_state_for_work_item,
  updated_state, update_row, upsert_workflow_state,
}

module _ (spec : WorkflowStateUpsertSpec) (now : String) where
  has_state_id-update :
      (id : String) (r : WorkflowStateRecord)
      → has_state_id id (update_row spec now r) ≡ has_state_id id r
  unfolding updated_state
  has_state_id-update id r = ground arith

  of_work_item-update :
      (id : String) (r : WorkflowStateRecord)
      → of_work_item id (update_row spec now r) ≡ of_work_item id r
  unfolding updated_state
  of_work_item-update id r = ground arith

  module _ (id : String) (store : Store)
      (known : is_some (get_workflow_state_for_work_item store spec.work_item_id) ≡ true) where
    -- Where the work item has a row, the upsert changes rows in place.
    pub get_workflow_state-upsert :
        (k : String)
        → get_workflow_state (upsert_workflow_state spec id now store) k
          ≡ Option.map (update_row spec now) (get_workflow_state store k)
    unfolding get_workflow_state get_workflow_state_for_work_item upsert_workflow_state
    get_workflow_state-upsert k = rw known (
        find-map (has_state_id k) (update_row spec now) (has_state_id-update k)
          store.workflow_states)

    pub get_for_work_item-upsert :
        (k : String)
        → get_workflow_state_for_work_item (upsert_workflow_state spec id now store) k
          ≡ Option.map (update_row spec now) (get_workflow_state_for_work_item store k)
    unfolding get_workflow_state_for_work_item upsert_workflow_state
    get_for_work_item-upsert k = rw known (
        find-map (of_work_item k) (update_row spec now) (of_work_item-update k)
          store.workflow_states)
