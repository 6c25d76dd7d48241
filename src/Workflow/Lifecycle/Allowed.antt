-- ===== src/Workflow/Lifecycle/Allowed.antt =====
-- When the lifecycle service allows a transition, in terms of the request and the evidence read.
use paa_platform.Policy.Recovery.{evaluate_reset_recovery}
use paa_platform.Prelude.{
  String, ◌≡◌, ◌↔◌, ◌⊎◌, refl, true, false, not, ◌&&◌, Option, none, some, arith, eq_iff, truthy,
  opt_eq, opt_eq_iff, or_text,
}
use paa_platform.Policy.Transition.{needs_repair, stage_mismatch, evaluate_transition}
use paa_platform.Policy.Transition.Allowed.{
  Aligned, IsConsistent, stage_mismatch-Aligned, needs_repair-IsConsistent,
}
use paa_platform.Workflow.Models.{WorkflowLifecycleRequest}
use paa_platform.Workflow.Evaluate.{
  from_stage_for_transition, target_stage_for_transition, packet_schema_for_transition,
  resolve_source_schema_type,
}
use paa_platform.Workflow.Lifecycle.{
  Evidence, source_schema, wrong_target, evaluated_result, all_blocking, no_evidence, wrong_schema,
  service_blocking, transition_decision, reset_decision,
}

-- The stage that a transition is asked to start from: the one that is requested, or else the one
-- that its type names.
abbrev pub asked_from : WorkflowLifecycleRequest → String → String
asked_from request t = or_text request.requested_from_stage (from_stage_for_transition t)

-- What a transition of a supported type needs.
pub record Legal (request : WorkflowLifecycleRequest) (t : String) (e : Evidence) : Type 0 where
  pub target :
      (s : String)
      → request.requested_to_stage ≡ some s
      → (s ≡ "") ⊎ (s ≡ target_stage_for_transition t)
  pub schema : source_schema request e ≡ some (packet_schema_for_transition t)
  pub from : Aligned (some (asked_from request t)) (some e.state.workflow_stage)
  pub consistent : IsConsistent (some e.state.state_consistency)

wrong_target_lem :
    (request : WorkflowLifecycleRequest) (t : String)
    → (wrong_target request t ≡ false) ↔ (
        (s : String)
        → request.requested_to_stage ≡ some s
        → (s ≡ "") ⊎ (s ≡ target_stage_for_transition t))
unfolding wrong_target
wrong_target_lem request t = go request.requested_to_stage
  where
    go :
        (o : Option String)
        → ((truthy o && not (opt_eq o (some (target_stage_for_transition t)))) ≡ false)
          ↔ ((s : String) → o ≡ some s → (s ≡ "") ⊎ (s ≡ target_stage_for_transition t))
    go none = ((λ h s e. cc), λ h. refl)
    go (some u) = (
      (λ h s e. ground (arith, eq_iff u "", eq_iff u (target_stage_for_transition t))),
      λ h. ground (arith, h u, eq_iff u "", eq_iff u (target_stage_for_transition t)),
    )

module _ (request : WorkflowLifecycleRequest) (t : String) (e : Evidence) where
  -- The verdict as a conjunction of tests.
  verdict_lem :
      (key : Option String)
      → (evaluated_result request t e key).decision_summary.transition_allowed ≡ (
          not (wrong_target request t)
          && (not (wrong_schema request t e)
              && (not (no_evidence request e)
                  && (not
                        (stage_mismatch (some (asked_from request t)) (some e.state.workflow_stage))
                      && not (needs_repair (some e.state.state_consistency))))))
  unfolding evaluated_result all_blocking service_blocking transition_decision reset_decision
      evaluate_transition evaluate_reset_recovery
  verdict_lem key = ground arith

  wrong_schema_lem :
      (wrong_schema request t e ≡ false)
      ↔ (source_schema request e ≡ some (packet_schema_for_transition t))
  unfolding wrong_schema
  wrong_schema_lem =
      ground (arith, opt_eq_iff (source_schema request e) (some (packet_schema_for_transition t)))

  no_evidence_lem :
      source_schema request e ≡ some (packet_schema_for_transition t)
      → no_evidence request e ≡ false
  unfolding no_evidence resolve_source_schema_type
  no_evidence_lem h = ground arith

  -- A transition of a supported type is allowed exactly when it is legal: a requested to-stage is the
  -- one the type leads to, the evidence has the packet schema of the type, the stage that it is asked
  -- to start from is the current one, and the state needs no repair.
  pub allowed-Legal :
      (key : Option String)
      → ((evaluated_result request t e key).decision_summary.transition_allowed ≡ true)
        ↔ Legal request t e
  allowed-Legal key =
      let v = verdict_lem key in
      let w = wrong_target_lem request t in
      let a = stage_mismatch-Aligned (some (asked_from request t)) (some e.state.workflow_stage) in
      let c = needs_repair-IsConsistent (some e.state.state_consistency) in
      (
        λ h. record {
          target = w.0 (ground (arith, v));
          schema = wrong_schema_lem.0 (ground (arith, v));
          from = a.0 (ground (arith, v));
          consistent = c.0 (ground (arith, v));
        },
        λ l. ground (
          arith,
          v,
          w.1 l.target,
          wrong_schema_lem.1 l.schema,
          a.1 l.from,
          c.1 l.consistent,
          no_evidence_lem l.schema,
        ),
      )
