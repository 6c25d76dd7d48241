-- ===== src/Workflow/Apply/Effects.antt =====
-- What `apply_workflow_transition` does to the store.
use mathlib.Core.Option
use paa_platform.Prelude.{
  ◌==◌, ◌∙◌, ap, Bool-cases, Option-cases, inl, inr, String, ◌≡◌, refl, Bool, true, Option, none,
  some, eq_iff, is_some, find-other, find,
}
use paa_platform.Workflow.Records.{WorkflowStateRecord, WorkflowStateUpsertSpec}
use paa_platform.Workflow.Models.{WorkflowLifecycleRequest}
use paa_platform.Workflow.Store.{
  Store, of_work_item, has_state_id, get_workflow_state, get_workflow_state_for_work_item,
  upsert_workflow_state, update_row,
}
use paa_platform.Workflow.Store.Laws.{get_workflow_state-upsert, get_for_work_item-upsert}
use paa_platform.Workflow.Evaluate.{require_current_state}

module _ (store : Store) (request : WorkflowLifecycleRequest) (state : WorkflowStateRecord) where
  -- A row that some search finds has a work item with a row.
  found_known :
      (p : WorkflowStateRecord → Bool)
      → find p store.workflow_states ≡ some state
      → is_some (get_workflow_state_for_work_item store state.work_item_id) ≡ true
  unfolding get_workflow_state_for_work_item
  found_known p h =
      find-other p (of_work_item state.work_item_id) store.workflow_states state h
        ((eq_iff state.work_item_id state.work_item_id).1 refl)

  -- The state that a request finds has a row for its work item.
  pub current_known :
      require_current_state store request ≡ some state
      → is_some (get_workflow_state_for_work_item store state.work_item_id) ≡ true
  unfolding require_current_state get_workflow_state get_workflow_state_for_work_item
  current_known h = go request.workflow_state_id refl
    where
      by_work_item :
          get_workflow_state_for_work_item store request.work_item_id ≡ some state
          → is_some (get_workflow_state_for_work_item store state.work_item_id) ≡ true
      by_work_item e = found_known (of_work_item request.work_item_id) e

      go :
          (o : Option String)
          → request.workflow_state_id ≡ o
          → is_some (get_workflow_state_for_work_item store state.work_item_id) ≡ true
      go none e = by_work_item (rw e at h)
      go (some id) e = elim (Bool-cases (id == "")) [
        | inl b ↦ by_work_item (rw (e, b) at h)
        | inr b ↦ elim (Option-cases (get_workflow_state store id)) [
          | inl n ↦ by_work_item (rw (e, b, n) at h)
          | inr found ↦ found_known (has_state_id id) (found.1 ∙ (rw (e, b, found.1) at h))
        ]
      ]

  module _ (spec : WorkflowStateUpsertSpec) (id now : String)
      (known : is_some (get_workflow_state_for_work_item store spec.work_item_id) ≡ true) where
    -- The state that a request finds after an upsert of a row is the one it found before, changed.
    pub require-upsert :
        require_current_state store request ≡ some state
        → require_current_state (upsert_workflow_state spec id now store) request
          ≡ some (update_row spec now state)
    unfolding require_current_state
    require-upsert h = go request.workflow_state_id refl
      where
        by_work_item :
            get_workflow_state_for_work_item store request.work_item_id ≡ some state
            → get_workflow_state_for_work_item
                (upsert_workflow_state spec id now store)
                request.work_item_id
              ≡ some (update_row spec now state)
        by_work_item e =
            get_for_work_item-upsert spec now id store known request.work_item_id
            ∙ ap (Option.map (update_row spec now)) e

        by_id :
            (k : String) (o : Option WorkflowStateRecord)
            → get_workflow_state store k ≡ o
            → get_workflow_state (upsert_workflow_state spec id now store) k
              ≡ Option.map (update_row spec now) o
        by_id k o e =
            get_workflow_state-upsert spec now id store known k
            ∙ ap (Option.map (update_row spec now)) e

        go :
            (o : Option String)
            → request.workflow_state_id ≡ o
            → require_current_state (upsert_workflow_state spec id now store) request
              ≡ some (update_row spec now state)
        go none e = rw e (by_work_item (rw e at h))
        go (some k) e = elim (Bool-cases (k == "")) [
          | inl b ↦ rw (e, b) (by_work_item (rw (e, b) at h))
          | inr b ↦ elim (Option-cases (get_workflow_state store k)) [
            | inl n ↦ rw (e, b, by_id k none n) (by_work_item (rw (e, b, n) at h))
            | inr found ↦
                let same : some found.0 ≡ some state = rw (e, b, found.1) at h in
                rw (e, b, by_id k (some found.0) found.1)
                  (ap (Option.map (update_row spec now)) same)
          ]
        ]
