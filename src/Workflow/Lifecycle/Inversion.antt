-- ===== src/Workflow/Lifecycle/Inversion.antt =====
-- How an evaluation that allows a transition came about.
use paa_platform.Workflow.Records.{WorkflowStateRecord}
use mathlib.Core.Option
use paa_platform.Prelude.{
  absurd_some, ◌⊎◌, ◌≡◌, ◌∙◌, sym, ap, String, true, false, Option, none, some, inl, inr,
  Option-cases, refl,
}
use paa_platform.Workflow.Models.{WorkflowLifecycleRequest, WorkflowLifecycleResult}
use paa_platform.Workflow.Store.{Store}
use paa_platform.Workflow.Evaluate.{
  Resolver, unsupported_result, rejected_result, require_current_state,
  resolve_execution_surface_key, resolve_queue_message, resolve_transition_input,
  packet_schema_for_transition, resolve_active_claim,
}
use paa_platform.Workflow.Lifecycle.{
  Evidence, gather_evidence, supported_type, evaluated_result, evaluate_type,
  evaluate_workflow_transition,
}

pub record Evaluated (resolver : Resolver) (store : Store) (request : WorkflowLifecycleRequest)
    (result : WorkflowLifecycleResult) : Type 0 where
  pub t : String
  pub supported : supported_type request ≡ some t
  pub e : Evidence
  pub gathered : gather_evidence store request t ≡ some e
  pub key : Option String
  pub surface : resolve_execution_surface_key resolver request ≡ some key
  pub is : result ≡ evaluated_result request t e key

pub gathered_state :
    (store : Store) (request : WorkflowLifecycleRequest) (t : String) (e : Evidence)
    → gather_evidence store request t ≡ some e
    → require_current_state store request ≡ some e.state
unfolding gather_evidence
gathered_state store request t e h = elim (Option-cases (require_current_state store request)) [
  | inl n ↦ let no : none ≡ some e = rw (n, gather_evidence) at h in absurd_some no
  | inr found ↦
      let is : some _ ≡ some e = rw (found.1, gather_evidence) at h in
      found.1 ∙ ap (Option.map (λ v. v.state)) is
]

pub gathered :
    (store : Store) (request : WorkflowLifecycleRequest) (t : String) (state : WorkflowStateRecord)
    → require_current_state store request ≡ some state
    → (e : Evidence) × (gather_evidence store request t ≡ some e) × (e.state ≡ state)
unfolding gather_evidence
gathered store request t state h =
    let message = resolve_queue_message store request in
    let e : Evidence = record {
      state = state;
      message = message;
      input = resolve_transition_input store request (packet_schema_for_transition t) message;
      claim = resolve_active_claim store state message;
    } in
    (e, rw (h, gather_evidence) refl, refl)

pub evaluate-gathered :
    (resolver : Resolver) (store : Store) (request : WorkflowLifecycleRequest) {t : String}
    {e : Evidence} {key : Option String}
    → supported_type request ≡ some t
    → gather_evidence store request t ≡ some e
    → resolve_execution_surface_key resolver request ≡ some key
    → evaluate_workflow_transition resolver store request ≡ some (evaluated_result request t e key)
unfolding evaluate_workflow_transition evaluate_type evaluated_result
evaluate-gathered resolver store request s g k =
    rw (s, evaluate_workflow_transition) (rw (g, k, evaluate_type) refl)

module _ (resolver : Resolver) (store : Store) (request : WorkflowLifecycleRequest)
    (result : WorkflowLifecycleResult) where
  evaluate_type-Evaluated :
      (t : String)
      → supported_type request ≡ some t
      → evaluate_type resolver store request t ≡ some result
      → Evaluated resolver store request result
  unfolding evaluate_type
  evaluate_type-Evaluated t s h = elim (Option-cases (gather_evidence store request t)) [
    | inl n ↦ let no : none ≡ some result = rw (n, evaluate_type) at h in absurd_some no
    | inr g ↦ elim (Option-cases (resolve_execution_surface_key resolver request)) [
      | inl n ↦ let no : none ≡ some result = rw (g.1, n, evaluate_type) at h in absurd_some no
      | inr k ↦
          let is : some (evaluated_result request t g.0 k.0) ≡ some result =
            rw (g.1, k.1, evaluate_type) at h in
          record {
            t = t;
            supported = s;
            e = g.0;
            gathered = g.1;
            key = k.0;
            surface = k.1;
            is = cc;
          }
    ]
  ]

  -- An evaluation either reports an unsupported type or has read the evidence.
  pub evaluate-Evaluated :
      evaluate_workflow_transition resolver store request ≡ some result
      → (result ≡ unsupported_result request) ⊎ Evaluated resolver store request result
  unfolding evaluate_workflow_transition
  evaluate-Evaluated h = elim (Option-cases (supported_type request)) [
    | inl n ↦
        let is : some (unsupported_result request) ≡ some result =
          rw (n, evaluate_workflow_transition) at h in
        inl cc
    | inr s ↦ inr (evaluate_type-Evaluated s.0 s.1 (rw (s.1, evaluate_workflow_transition) at h))
  ]

  -- An evaluation applies nothing.
  pub evaluated-applied :
      evaluate_workflow_transition resolver store request ≡ some result → result.applied ≡ false
  unfolding unsupported_result rejected_result evaluated_result
  evaluated-applied h = elim (evaluate-Evaluated h) [
    | inl e ↦ ap (λ r. r.applied) e
    | inr v ↦ ap (λ r. r.applied) v.is
  ]

  pub allowed-Evaluated :
      evaluate_workflow_transition resolver store request ≡ some result
      → result.decision_summary.transition_allowed ≡ true
      → Evaluated resolver store request result
  unfolding unsupported_result rejected_result
  allowed-Evaluated h a = elim (evaluate-Evaluated h) [
    | inl e ↦
        let no : false ≡ true = sym (ap (λ r. r.decision_summary.transition_allowed) e) ∙ a in cc
    | inr v ↦ v
  ]
