-- ===== src/Policy/Transition/Allowed.antt =====
-- When the workflow transition policy allows a transition.
use paa_platform.Prelude.{
  String, ◌≡◌, ◌≢◌, ◌↔◌, true, false, Option, none, some, arith, eq_iff, not, ◌&&◌,
}
use paa_platform.Policy.Transition.{
  WorkflowTransitionRequest, WorkflowTransitionEvaluationContext, needs_repair, stage_mismatch,
  evaluate_transition,
}

-- A stage that is named on both sides is the same stage.
abbrev pub Aligned : Option String → Option String → Type 0
Aligned none current = Unit {0}
Aligned (some s) none = Unit {0}
Aligned (some s) (some t) = s ≢ "" → t ≢ "" → s ≡ t

-- The recorded consistency of the workflow state asks for no repair.
abbrev pub IsConsistent : Option String → Type 0
IsConsistent c = (c ≢ some "manual_repair_required") × (c ≢ some "repair_required")

pub stage_mismatch-Aligned :
    (from current : Option String) → (stage_mismatch from current ≡ false) ↔ Aligned from current
unfolding stage_mismatch
stage_mismatch-Aligned none c = ground arith
stage_mismatch-Aligned (some s) none = ground arith
stage_mismatch-Aligned (some s) (some t) = ground (arith, eq_iff s t, eq_iff s "", eq_iff t "")

pub needs_repair-IsConsistent : (c : Option String) → (needs_repair c ≡ false) ↔ IsConsistent c
unfolding needs_repair
needs_repair-IsConsistent none = ground arith
needs_repair-IsConsistent (some s) =
    ground (arith, eq_iff s "manual_repair_required", eq_iff s "repair_required")

-- The decision as a function of the two tests, which stay shut in what follows.
pub allowed_lem :
    (r : WorkflowTransitionRequest) (c : WorkflowTransitionEvaluationContext)
    → (evaluate_transition r c).allowed ≡ (
        not (stage_mismatch r.requested_from_stage c.current_workflow_stage)
        && not (needs_repair c.state_consistency))
unfolding evaluate_transition
allowed_lem r c = ground arith

-- A transition is allowed exactly when a from-stage and a current stage that are both named agree,
-- and the workflow state needs no repair.
pub allowed_iff :
    (r : WorkflowTransitionRequest) (c : WorkflowTransitionEvaluationContext)
    → ((evaluate_transition r c).allowed ≡ true)
      ↔ (Aligned r.requested_from_stage c.current_workflow_stage × IsConsistent c.state_consistency)
allowed_iff r c =
    let a = stage_mismatch-Aligned r.requested_from_stage c.current_workflow_stage in
    let b = needs_repair-IsConsistent c.state_consistency in
    (
      λ h. (a.0 (ground (arith, allowed_lem r c)), b.0 (ground (arith, allowed_lem r c))),
      λ h. ground (arith, allowed_lem r c, a.1 h.0, b.1 h.1),
    )
