-- ===== src/Policy/Recovery.antt =====
-- policies/reset_recovery: does a workflow need repair, a reset or a retry?
pub mod Outcome
use paa_platform.Prelude.{
  String, Bool, false, not, ◌&&◌, ◌||◌, Option, none, some, List, [], ◌∷◌, ◌++◌, ◌==◌, when,
  if◌then◌else◌,
}
use paa_platform.Json.{Dict, empty, entry, opt_text, Message, lit, repr, plain}
use paa_platform.Policy.Transition.{needs_repair}

pub record ResetRecoveryRequest : Type 0 where
  pub work_item_id : String
  pub workflow_stage : Option String
  pub transition_status : Option String
  pub retry_requested : Bool
  pub metadata : Option Dict

pub record ResetRecoveryEvaluationContext : Type 0 where
  pub state_consistency : Option String
  pub blocking_reason_code : Option String
  pub active_claim_status : Option String
  pub execution_surface_key : Option String
  pub metadata : Option Dict

pub record ResetRecoveryDecision : Type 0 where
  pub requires_manual_repair : Bool
  pub should_reset : Bool
  pub should_retry : Bool
  pub blocking_reasons : List Message
  pub notes : List Message
  pub metadata : Dict

-- `active_claim_status in {'abandoned', 'expired'}`
unfoldable pub claim_lost : Option String → Bool
claim_lost none = false
claim_lost (some s) = s == "abandoned" || s == "expired"

abbrev manual_reason : Option String → Message
manual_reason state =
    lit "Workflow state consistency " ∷ repr state ∷ lit " requires manual repair." ∷ []

abbrev reset_note : Option String → Message
reset_note status =
    lit "Active claim status " ∷ repr status ∷ lit " suggests reset or reassignment handling." ∷ []

unfoldable pub evaluate_reset_recovery :
    ResetRecoveryRequest → ResetRecoveryEvaluationContext → ResetRecoveryDecision
evaluate_reset_recovery request context =
    let manual = needs_repair context.state_consistency in
    let reset = claim_lost context.active_claim_status in
    let retry = request.retry_requested && not manual && not reset in
    record {
      requires_manual_repair = manual;
      should_reset = reset;
      should_retry = retry;
      blocking_reasons = when manual (manual_reason context.state_consistency);
      notes =
          when reset (reset_note context.active_claim_status)
          ++ when retry (plain "Retry is permitted for the provided reset/recovery request.");
      metadata =
          entry "workflow_stage" (opt_text request.workflow_stage)
            (entry "blocking_reason_code" (opt_text context.blocking_reason_code) empty);
    }
