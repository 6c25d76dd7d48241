-- ===== src/Workflow/Apply/Step.antt =====
-- An apply as a step of the store.
use mathlib.Core.Option.{some-injective}
use paa_platform.Prelude.{
  absurd_some, find-passes, String, ◌≡◌, ◌≢◌, ◌↔◌, ◌⊎◌, ◌∙◌, refl, ap, sym, true, false, Option,
  none, some, [], ◌∷◌, ◌++◌, inl, inr, Bool-cases, Option-cases, eq_iff, arith, is_some, if-true,
  if-false,
}
use mathlib.Core.Option
use mathlib.Core.Path.{subst}
use paa_platform.Workflow.Records.{WorkflowStateRecord}
use paa_platform.Workflow.Models.{WorkflowLifecycleRequest, WorkflowLifecycleResult}
use paa_platform.Workflow.Store.{
  Store, of_work_item, get_workflow_state_for_work_item, update_row, updated_state,
  append_workflow_transition, appended_transition, upsert_workflow_state, get_workflow_state,
}
use paa_platform.Workflow.Store.Laws.{get_for_work_item-upsert}
use paa_platform.Workflow.Evaluate.{Resolver, require_current_state, state_view_from_record}
use paa_platform.Workflow.Lifecycle.{evaluate_workflow_transition}
use paa_platform.Workflow.Lifecycle.Inversion.{gathered_state, allowed-Evaluated, evaluated-applied}
use paa_platform.Workflow.Apply.{
  Environment, state_spec, transition_spec, write_transition, applied_result, commit_transition,
  apply_workflow_transition,
}
use paa_platform.Workflow.Apply.Effects.{current_known, require-upsert}

-- The row of the work item after the write.
abbrev pub written_state :
    Environment → WorkflowLifecycleRequest → WorkflowStateRecord → WorkflowStateRecord
written_state env request state =
    updated_state (state_spec request state env.now_iso) env.db_now state

-- What an apply that goes through has done.
pub record Applied (env : Environment) (resolver : Resolver) (request : WorkflowLifecycleRequest)
    (before after : Store) (result : WorkflowLifecycleResult) : Type 0 where
  pub evaluation : WorkflowLifecycleResult
  pub evaluated : evaluate_workflow_transition resolver before request ≡ some evaluation
  pub allowed : evaluation.decision_summary.transition_allowed ≡ true
  pub state : WorkflowStateRecord
  pub was : require_current_state before request ≡ some state
  pub is : require_current_state after request ≡ some (written_state env request state)
  pub shown : result.state_view ≡ some (state_view_from_record (written_state env request state))
  pub history :
      after.workflow_transitions
      ≡ before.workflow_transitions
        ++ appended_transition
            (transition_spec request state env.now_iso)
            env.new_transition_id
            env.db_now
          ∷ []
  pub others :
      (id : String)
      → id ≢ state.work_item_id
      → get_workflow_state_for_work_item after id ≡ get_workflow_state_for_work_item before id
  pub claims : after.queue_claims ≡ before.queue_claims
  pub messages : after.queue_messages ≡ before.queue_messages

module _ (env : Environment) (request : WorkflowLifecycleRequest) (store : Store)
    (state : WorkflowStateRecord) (was : require_current_state store request ≡ some state) where
  write_known :
      is_some
        (get_workflow_state_for_work_item store (state_spec request state env.now_iso).work_item_id)
      ≡ true
  unfolding state_spec
  write_known = current_known store request state was

  update_row_self :
      update_row (state_spec request state env.now_iso) env.db_now state
      ≡ written_state env request state
  unfolding state_spec
  update_row_self = rw (eq_iff state.work_item_id state.work_item_id).1 refl

  written-current :
      require_current_state (write_transition env request state store) request
      ≡ some (written_state env request state)
  unfolding write_transition append_workflow_transition require_current_state
      get_workflow_state_for_work_item get_workflow_state
  written-current =
      require-upsert store request state (state_spec request state env.now_iso) env.new_state_id
        env.db_now write_known was
      ∙ ap some update_row_self

  update_row-other :
      (r : WorkflowStateRecord)
      → r.work_item_id ≢ state.work_item_id
      → update_row (state_spec request state env.now_iso) env.db_now r ≡ r
  unfolding state_spec
  update_row-other r other = ground (arith, eq_iff r.work_item_id state.work_item_id)

  written-others :
      (id : String)
      → id ≢ state.work_item_id
      → get_workflow_state_for_work_item (write_transition env request state store) id
        ≡ get_workflow_state_for_work_item store id
  unfolding write_transition append_workflow_transition get_workflow_state_for_work_item
  written-others id other =
      get_for_work_item-upsert (state_spec request state env.now_iso) env.db_now env.new_state_id
        store write_known id
      ∙ unchanged (get_workflow_state_for_work_item store id) refl
    where
      unchanged :
          (o : Option WorkflowStateRecord)
          → get_workflow_state_for_work_item store id ≡ o
          → Option.map (update_row (state_spec request state env.now_iso) env.db_now) o
            ≡ get_workflow_state_for_work_item store id
      unchanged none e = sym e
      unchanged (some r) e =
          let at : r.work_item_id ≡ id =
            (eq_iff r.work_item_id id).0
              (find-passes (of_work_item id) store.workflow_states r e) in
          rw (update_row-other r (λ same. other (sym at ∙ same))) (sym e)

  commit_lem :
      (evaluation : WorkflowLifecycleResult)
      → commit_transition env request evaluation store
        ≡ some (
          applied_result env request evaluation (written_state env request state),
          write_transition env request state store,
        )
  unfolding commit_transition
  commit_lem evaluation = rw (was, written-current, commit_transition) refl

  applied_lem :
      (resolver : Resolver) (evaluation : WorkflowLifecycleResult)
      → evaluate_workflow_transition resolver store request ≡ some evaluation
      → evaluation.decision_summary.transition_allowed ≡ true
      → Applied env resolver request store
          (write_transition env request state store)
          (applied_result env request evaluation (written_state env request state))
  unfolding applied_result write_transition append_workflow_transition upsert_workflow_state
  applied_lem resolver evaluation h a = record {
    evaluation = evaluation;
    evaluated = h;
    allowed = a;
    state = state;
    was = was;
    is = written-current;
    shown = refl;
    history = refl;
    others = written-others;
    claims = refl;
    messages = refl;
  }

module _ (env : Environment) (resolver : Resolver) (request : WorkflowLifecycleRequest)
    (store : Store) where
  -- An apply does what the evaluation says: where the transition is allowed it commits it, where it
  -- is refused it changes nothing and returns the evaluation.
  pub apply_lem :
      (evaluation : WorkflowLifecycleResult)
      → evaluate_workflow_transition resolver store request ≡ some evaluation
      → ((evaluation.decision_summary.transition_allowed ≡ true)
          × ((state : WorkflowStateRecord) × (require_current_state store request ≡ some state)
              × (apply_workflow_transition env resolver request store
                  ≡ some (
                    applied_result env request evaluation (written_state env request state),
                    write_transition env request state store,
                  ))))
        ⊎ ((evaluation.decision_summary.transition_allowed ≡ false)
            × (apply_workflow_transition env resolver request store ≡ some (evaluation, store)))
  unfolding apply_workflow_transition
  apply_lem evaluation h = elim (Bool-cases evaluation.decision_summary.transition_allowed) [
    | inl a ↦
        let v = allowed-Evaluated resolver store request evaluation h a in
        let was = gathered_state store request v.t v.e v.gathered in
        inl (
          a,
          (
            v.e.state,
            was,
            rw (h, apply_workflow_transition)
                (if-true _ _ a ∙ commit_lem env request store v.e.state was evaluation),
          ),
        )
    | inr b ↦ inr (b, rw (h, apply_workflow_transition) (if-false _ _ b))
  ]

  -- An apply raises exactly where the evaluation of its request does.
  pub raises_iff :
      (apply_workflow_transition env resolver request store ≡ none)
      ↔ (evaluate_workflow_transition resolver store request ≡ none)
  unfolding apply_workflow_transition
  raises_iff = (there, λ e. rw (e, apply_workflow_transition) refl)
    where
      there :
          apply_workflow_transition env resolver request store ≡ none
          → evaluate_workflow_transition resolver store request ≡ none
      there h = elim (Option-cases (evaluate_workflow_transition resolver store request)) [
        | inl n ↦ n
        | inr v ↦ elim (apply_lem v.0 v.1) [
          | inl x ↦ absurd_some (sym h ∙ x.1.2)
          | inr x ↦ absurd_some (sym h ∙ x.1)
        ]
      ]

  -- An apply that returns either changes nothing, and then its result is the evaluation and reports
  -- that nothing was applied, or it reports an applied transition: the row that the request finds is the
  -- one that its upsert writes over the old one, its record stands at the end of the history, and the
  -- rows of other work items, the claims and the messages are those of before.
  pub apply-Applied :
      (result : WorkflowLifecycleResult) (after : Store)
      → apply_workflow_transition env resolver request store ≡ some (result, after)
      → ((result.applied ≡ false)
          × (after ≡ store)
          × (evaluate_workflow_transition resolver store request ≡ some result))
        ⊎ ((result.applied ≡ true) × Applied env resolver request store after result)
  unfolding applied_result
  apply-Applied result after h =
      elim (Option-cases (evaluate_workflow_transition resolver store request)) [
        | inl n ↦ absurd_some (sym (raises_iff.1 n) ∙ h)
        | inr v ↦ elim (apply_lem v.0 v.1) [
          | inl x ↦
              let step : some (
                applied_result env request v.0 (written_state env request x.1.0),
                write_transition env request x.1.0 store,
              )
                  ≡ some (result, after) =
                sym x.1.2 ∙ h in
              inr (
                subst (λ r. (r.0.applied ≡ true) × Applied env resolver request store r.1 r.0)
                  (some-injective _ _ step)
                  (refl, applied_lem env request store x.1.0 x.1.1 resolver v.0 v.1 x.0))
          | inr x ↦
              let same : some (v.0, store) ≡ some (result, after) = sym x.1 ∙ h in
              inl (
                subst
                  (λ r.
                    (r.0.applied ≡ false)
                    × (r.1 ≡ store)
                    × (evaluate_workflow_transition resolver store request ≡ some r.0))
                  (some-injective _ _ same)
                  (evaluated-applied resolver store request v.0 v.1, refl, v.1))
        ]
      ]
