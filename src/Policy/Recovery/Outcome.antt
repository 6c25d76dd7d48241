-- ===== src/Policy/Recovery/Outcome.antt =====
-- What the reset recovery policy recommends.
use paa_platform.Prelude.{◌≡◌, ◌↔◌, ◌⊎◌, true, Option, none, some, String, arith, eq_iff}
use paa_platform.Policy.Transition.Allowed.{IsConsistent, needs_repair-IsConsistent}
use paa_platform.Policy.Recovery.{
  ResetRecoveryRequest, ResetRecoveryEvaluationContext, claim_lost, evaluate_reset_recovery,
}

-- The claim that the workflow waits on is gone.
abbrev pub IsLost : Option String → Type 0
IsLost status = (status ≡ some "abandoned") ⊎ (status ≡ some "expired")

pub claim_lost-IsLost : (s : Option String) → (claim_lost s ≡ true) ↔ IsLost s
unfolding claim_lost
claim_lost-IsLost none = ground arith
claim_lost-IsLost (some s) = ground (arith, eq_iff s "abandoned", eq_iff s "expired")

-- A retry is recommended exactly when one was requested, the state is consistent and the claim is
-- not lost; so a retry is never recommended beside a repair or a reset.
pub should_retry_iff :
    (r : ResetRecoveryRequest) (c : ResetRecoveryEvaluationContext)
    → ((evaluate_reset_recovery r c).should_retry ≡ true) ↔ (
        (r.retry_requested ≡ true)
        × IsConsistent c.state_consistency
        × (¬ IsLost c.active_claim_status))
unfolding evaluate_reset_recovery
should_retry_iff r c =
    let n = needs_repair-IsConsistent c.state_consistency in
    let l = claim_lost-IsLost c.active_claim_status in
    (
      λ h. (ground arith, n.0 (ground arith), λ lost. ground (arith, l.1 lost)),
      λ h. ground (arith, h.0, n.1 h.1, l.0, h.2),
    )
