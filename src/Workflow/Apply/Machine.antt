-- ===== src/Workflow/Apply/Machine.antt =====
-- The stages that applied transitions lead through.
use mathlib.Core.Path.{subst}
use mathlib.Core.Option.{some-injective}
use paa_platform.Prelude.{
  differ, ◌||◌, ◌==◌, if◌then◌else◌, String, ◌≡◌, ◌≢◌, ◌∙◌, refl, ap, sym, Bool, true, false,
  Option, none, some, inl, inr, Bool-cases, eq_iff, absurd_some,
}
use paa_platform.Policy.Transition.Allowed.{Aligned}
use paa_platform.Workflow.Records.{WorkflowStateRecord}
use paa_platform.Workflow.Models.{WorkflowLifecycleRequest, WorkflowLifecycleResult}
use paa_platform.Workflow.Store.{Store, updated_state}
use paa_platform.Workflow.Evaluate.{
  Resolver, require_current_state, from_stage_for_transition, target_stage_for_transition,
  worker_result_transition, qa_result_transition, is_qa, resolve_execution_surface_key,
}
use paa_platform.Workflow.Lifecycle.{supported_type, evaluated_result}
use paa_platform.Workflow.Lifecycle.Allowed.{allowed-Legal, asked_from}
use paa_platform.Workflow.Lifecycle.Inversion.{
  gathered_state, allowed-Evaluated, gathered, evaluate-gathered, evaluated-applied,
}
use paa_platform.Workflow.Apply.{
  Environment, applied_type, state_spec, apply_workflow_transition, derive_next_lineage_state,
}
use paa_platform.Workflow.Apply.Step.{Applied, written_state, apply-Applied, apply_lem}

-- No transition starts from the stage that a transition leads to.
stages_disjoint : (t u : String) → from_stage_for_transition t ≢ target_stage_for_transition u
unfolding from_stage_for_transition target_stage_for_transition
stages_disjoint t u = go (is_qa t) (is_qa u)
  where
    go :
        (b c : Bool)
        → ◌≢◌ {A = String}
            (if b then "qa_execution_in_progress" else "worker_execution_in_progress")
            (if c then "techlead_qa_review_pending" else "techlead_worker_review_pending")
    go true true = differ _ _ refl
    go true false = differ _ _ refl
    go false true = differ _ _ refl
    go false false = differ _ _ refl

from-named : (t : String) → from_stage_for_transition t ≢ ""
unfolding from_stage_for_transition
from-named t = go (is_qa t)
  where
    go :
        (b : Bool)
        → ◌≢◌ {A = String}
            (if b then "qa_execution_in_progress" else "worker_execution_in_progress")
            ""
    go true = differ _ _ refl
    go false = differ _ _ refl

target-named : (t : String) → target_stage_for_transition t ≢ ""
unfolding target_stage_for_transition
target-named t = go (is_qa t)
  where
    go :
        (b : Bool)
        → ◌≢◌ {A = String}
            (if b then "techlead_qa_review_pending" else "techlead_worker_review_pending")
            ""
    go true = differ _ _ refl
    go false = differ _ _ refl

supported-applied :
    (request : WorkflowLifecycleRequest) (t : String)
    → supported_type request ≡ some t
    → applied_type request ≡ t
unfolding supported_type
supported-applied request t h = go request.requested_transition_type refl
  where
    go : (o : Option String) → request.requested_transition_type ≡ o → applied_type request ≡ t
    go none e = absurd_some (rw (e, supported_type) at h)
    go (some u) e = elim (Bool-cases (u == worker_result_transition || u == qa_result_transition)) [
      | inl y ↦
          let is : some u ≡ some t = rw (e, y, supported_type) at h in
          elim (Bool-cases (u == "")) [
            | inl b ↦
                let no : ("" == worker_result_transition || "" == qa_result_transition) ≡ true =
                  subst (λ w. (w == worker_result_transition || w == qa_result_transition) ≡ true)
                    ((eq_iff u "").0 b) y in
                cc
            | inr b ↦ rw (e, b) (some-injective _ _ is)
          ]
      | inr n ↦ absurd_some (rw (e, n, supported_type) at h)
    ]

module _ (env : Environment) (resolver : Resolver) (request : WorkflowLifecycleRequest)
    (store : Store) where
  abbrev pub Moves : Store → Type 0
  Moves after =
      (t : String) × (supported_type request ≡ some t)
      × (state : WorkflowStateRecord) × (next : WorkflowStateRecord) × (require_current_state store
            request
          ≡ some state)
      × (require_current_state after request ≡ some next)
      × Aligned (some (asked_from request t)) (some state.workflow_stage)
      × (next.workflow_stage ≡ target_stage_for_transition t)
      × (next.lineage_state ≡ derive_next_lineage_state t state)

  moves :
      {result : WorkflowLifecycleResult} {after : Store}
      → Applied env resolver request store after result
      → Moves after
  unfolding state_spec updated_state
  moves x =
      let v = allowed-Evaluated resolver store request x.evaluation x.evaluated x.allowed in
      let legal =
        (allowed-Legal request v.t v.e v.key).0
          (sym (ap (λ r. r.decision_summary.transition_allowed) v.is) ∙ x.allowed) in
      let same : v.e.state ≡ x.state =
        some-injective _ _ (sym (gathered_state store request v.t v.e v.gathered) ∙ x.was) in
      (
        v.t,
        v.supported,
        x.state,
        written_state env request x.state,
        x.was,
        x.is,
        subst (λ s. Aligned (some (asked_from request v.t)) (some s.workflow_stage)) same
            legal.from,
        ap target_stage_for_transition (supported-applied request v.t v.supported),
        ap (λ t. derive_next_lineage_state t x.state) (supported-applied request v.t v.supported),
      )

  -- An applied transition moves the work item along an edge of the lifecycle: its type is supported,
  -- the stage it is asked to start from is the current one, where that is named, the new stage is the
  -- one its type leads to, and the new stage and lineage are those of the row it finds afterwards.
  pub applied-Moves :
      (result : WorkflowLifecycleResult) (after : Store)
      → apply_workflow_transition env resolver request store ≡ some (result, after)
      → result.applied ≡ true
      → Moves after
  applied-Moves result after h a = elim (apply-Applied env resolver request store result after h) [
    | inl x ↦ let no : true ≡ false = sym a ∙ x.0 in cc
    | inr x ↦ moves x.1
  ]

  -- Where a request that names no from-stage finds the stage that a transition leads to, it is refused.
  again :
      (env' : Environment) (after : Store) (t u : String) (next : WorkflowStateRecord)
      → supported_type request ≡ some t
      → require_current_state after request ≡ some next
      → next.workflow_stage ≡ target_stage_for_transition u
      → request.requested_from_stage ≡ none
      → (key : Option String) → resolve_execution_surface_key resolver request ≡ some key
      → (again : WorkflowLifecycleResult) × (apply_workflow_transition env' resolver request after
          ≡ some (again, after))
        × (again.applied ≡ false)
  again env' after t u next supported is stage unnamed key surface =
      let g = gathered after request t next is in
      let result = evaluated_result request t g.0 key in
      let evaluated = evaluate-gathered resolver after request supported g.1 surface in
      elim (apply_lem env' resolver request after result evaluated) [
        | inl x ↦
            let legal = (allowed-Legal request t g.0 key).0 x.0 in
            absurd (illegal (ap (λ s. s.workflow_stage) g.2 ∙ stage) legal.from)
        | inr x ↦ (result, x.1, evaluated-applied resolver after request result evaluated)
      ]
    where
      illegal :
          {stage' : String}
          → stage' ≡ target_stage_for_transition u
          → Aligned (some (asked_from request t)) (some stage')
          → ⊥
      illegal e aligned =
          let from : asked_from request t ≡ from_stage_for_transition t = rw unnamed refl in
          stages_disjoint t u (
            sym from
            ∙ (aligned (λ z. from-named t (sym from ∙ z)) (λ z. target-named u (sym e ∙ z)) ∙ e))

  -- A request that names no from-stage is applied at most once: after it has been applied, applying it
  -- again returns, reports that nothing was applied, and changes nothing.
  pub repeated-refused :
      (result : WorkflowLifecycleResult) (after : Store)
      → apply_workflow_transition env resolver request store ≡ some (result, after)
      → result.applied ≡ true
      → request.requested_from_stage ≡ none
      → (env' : Environment)
      → (again : WorkflowLifecycleResult) × (apply_workflow_transition env' resolver request after
          ≡ some (again, after))
        × (again.applied ≡ false)
  unfolding state_spec updated_state
  repeated-refused result after h a unnamed env' =
      elim (apply-Applied env resolver request store result after h) [
        | inl x ↦ let no : true ≡ false = sym a ∙ x.0 in cc
        | inr x ↦
            let v =
              allowed-Evaluated resolver store request x.1.evaluation x.1.evaluated x.1.allowed in
            again env' after v.t (applied_type request) (written_state env request x.1.state)
              v.supported x.1.is refl unnamed v.key v.surface
      ]
