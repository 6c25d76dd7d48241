-- ===== src/Policy/Acceptance.antt =====
-- policies/acceptance: do the results of a slice meet the acceptance criteria?
pub mod Criteria
use paa_platform.Prelude.{
  String, Bool, true, false, not, ◌&&◌, Option, none, some, List, ◌++◌, opt_eq, is_empty, truthy,
  when, if◌then◌else◌, [], ◌∷◌,
}
use paa_platform.Json.{Dict, empty, entry, opt_text, Message, lit, repr, plain}

pub record AcceptanceRequest : Type 0 where
  pub work_item_id : String
  pub workflow_stage : Option String
  pub result_schema_type : Option String
  pub verification_status : Option String
  pub merge_ready : Option Bool
  pub metadata : Option Dict

pub record AcceptanceEvaluationContext : Type 0 where
  pub current_workflow_stage : Option String
  pub has_blocking_findings : Bool
  pub protected_path_checks_passed : Option Bool
  pub approved_contract_change : Option Bool
  pub metadata : Option Dict

pub record AcceptanceDecision : Type 0 where
  pub accepted : Bool
  pub terminal : Bool
  pub acceptance_code : Option String
  pub blocking_reasons : List Message
  pub notes : List Message
  pub metadata : Dict

-- `x is False`
abbrev pub is_false : Option Bool → Bool
is_false none = false
is_false (some b) = not b

-- `status and status != 'pass'`
unfoldable pub status_fails : Option String → Bool
status_fails status = truthy status && not (opt_eq status (some "pass"))

abbrev status_reason : Option String → Message
status_reason status =
    lit "Verification status " ∷ repr status ∷ lit " does not satisfy acceptance." ∷ []

unfoldable pub acceptance_blocking : AcceptanceRequest → AcceptanceEvaluationContext → List Message
acceptance_blocking request context =
    when context.has_blocking_findings (plain "Blocking findings are still open.")
    ++ (when (is_false context.protected_path_checks_passed)
          (plain "Protected-path checks have not passed.")
        ++ (when (is_false context.approved_contract_change)
              (plain "Contract or tolerance changes are not approved.")
            ++ (when (status_fails request.verification_status)
                  (status_reason request.verification_status)
                ++ when (is_false request.merge_ready)
                    (plain "The slice is not marked merge-ready."))))

unfoldable pub evaluate_acceptance :
    AcceptanceRequest → AcceptanceEvaluationContext → AcceptanceDecision
evaluate_acceptance request context =
    let blocking = acceptance_blocking request context in
    let accepted = is_empty blocking in
    record {
      accepted = accepted;
      terminal = accepted;
      acceptance_code = if accepted then some "accepted" else none;
      blocking_reasons = blocking;
      notes =
          when accepted (plain "Acceptance criteria satisfied for the provided result context.");
      metadata =
          entry "result_schema_type" (opt_text request.result_schema_type)
            (entry "workflow_stage" (opt_text request.workflow_stage) empty);
    }
