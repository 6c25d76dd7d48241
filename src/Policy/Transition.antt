-- ===== src/Policy/Transition.antt =====
-- policies/workflow_transition: is a requested workflow transition legal?
pub mod Allowed
use paa_platform.Prelude.{
  String, Bool, false, not, ◌&&◌, ◌||◌, Option, none, some, List, [], ◌∷◌, ◌++◌, ◌==◌, is_empty,
  truthy, opt_eq, when, if◌then◌else◌,
}
use paa_platform.Json.{Dict, empty, entry, text, opt_text, Message, lit, repr, plain}

pub record WorkflowTransitionRequest : Type 0 where
  pub work_item_id : String
  pub transition_type : String
  pub requested_by_role : Option String
  pub requested_by_agent : Option String
  pub requested_from_stage : Option String
  pub requested_to_stage : Option String
  pub source_schema_type : Option String
  pub result_schema_type : Option String
  pub metadata : Option Dict

pub record WorkflowTransitionEvaluationContext : Type 0 where
  pub current_workflow_stage : Option String
  pub current_owner_role : Option String
  pub lineage_state : Option String
  pub state_consistency : Option String
  pub execution_surface_type : Option String
  pub execution_surface_key : Option String
  pub metadata : Option Dict

pub record WorkflowTransitionDecision : Type 0 where
  pub allowed : Bool
  pub resolved_to_stage : Option String
  pub rejection_code : Option String
  pub blocking_reasons : List Message
  pub notes : List Message
  pub metadata : Dict

-- `state_consistency in {'manual_repair_required', 'repair_required'}`
unfoldable pub needs_repair : Option String → Bool
needs_repair none = false
needs_repair (some s) = s == "manual_repair_required" || s == "repair_required"

-- Both stages are given, and they differ.
unfoldable pub stage_mismatch : Option String → Option String → Bool
stage_mismatch from current = truthy from && truthy current && not (opt_eq from current)

abbrev mismatch_reason : Option String → Option String → Message
mismatch_reason from current =
    lit "Requested from-stage "
    ∷ repr from
    ∷ lit " does not match current workflow stage "
    ∷ repr current
    ∷ lit "."
    ∷ []

abbrev repair_reason : Option String → Message
repair_reason state =
    lit "Workflow state consistency " ∷ repr state ∷ lit " requires repair before transition." ∷ []

abbrev no_stage_note : Message
no_stage_note =
    plain
      "No explicit requested_to_stage provided; caller must derive stage before applying workflow truth."

unfoldable pub evaluate_transition :
    WorkflowTransitionRequest → WorkflowTransitionEvaluationContext → WorkflowTransitionDecision
evaluate_transition request context =
    let blocking : List Message =
      when (stage_mismatch request.requested_from_stage context.current_workflow_stage)
        (mismatch_reason request.requested_from_stage context.current_workflow_stage)
      ++ when (needs_repair context.state_consistency) (repair_reason context.state_consistency) in
    record {
      allowed = is_empty blocking;
      resolved_to_stage = request.requested_to_stage;
      rejection_code = if is_empty blocking then none else some "illegal_transition";
      blocking_reasons = blocking;
      notes = when (not (truthy request.requested_to_stage)) no_stage_note;
      metadata =
          entry "transition_type" (text request.transition_type)
            (entry "current_workflow_stage" (opt_text context.current_workflow_stage) empty);
    }
