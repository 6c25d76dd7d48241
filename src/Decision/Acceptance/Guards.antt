-- ===== src/Decision/Acceptance/Guards.antt =====
-- The guards of services/techlead_acceptance_decision, and what they read from a request.
use paa_platform.Decision.Acceptance.Models.{TechLeadAcceptanceDecisionRequest}
use paa_platform.Prelude.{
  is_positive, String, Bool, false, not, ◌&&◌, ◌==◌, Option, none, some, List, [], ◌∷◌, member,
  strip, if◌then◌else◌,
}
use paa_platform.Json.{Value, Dict, get, flag, text, dict_or_empty, Message, lit, repr, plain}
use paa_platform.Decision.Recovery.{normalized, or_none}

-- `isinstance(value, str) and value`
abbrev pub some_text : Option Value → Option String
some_text (some (text s)) = or_none s
some_text _ = none

-- `isinstance(value, bool)`
abbrev pub some_flag : Option Value → Option Bool
some_flag (some (flag b)) = some b
some_flag _ = none

unfoldable pub resolve_execution_mode : TechLeadAcceptanceDecisionRequest → String
resolve_execution_mode request =
    elim (some_text (get (dict_or_empty request.metadata) "execution_mode")) [
      | some mode ↦ mode
      | none ↦ elim (some_text (get (dict_or_empty request.merge_state) "execution_mode")) [
        | some mode ↦ mode
        | none ↦ "live_delivery"
      ]
    ]

-- The loop over the keys.
unfoldable pub first_flag : Dict → List String → Option Bool
first_flag d [] = none
first_flag d (k ∷ ks) = elim (some_flag (get d k)) [ some b ↦ some b | none ↦ first_flag d ks ]

unfoldable pub resolve_merge_ready : TechLeadAcceptanceDecisionRequest → Option Bool
resolve_merge_ready request =
    first_flag (dict_or_empty request.merge_state)
      ("merge_ready" ∷ "pr_merge_ready" ∷ "ready_for_merge" ∷ [])

unfoldable pub supports_acceptance_decision : String → Option String → Bool
supports_acceptance_decision workflow_stage none =
    member (strip workflow_stage) ("techlead_qa_review_pending" ∷ [])
supports_acceptance_decision workflow_stage (some t) =
    member (strip workflow_stage) ("techlead_qa_review_pending" ∷ [])
    && member (strip t) ("pass" ∷ [])

-- `source_schema is not None and source_schema not in self._SUPPORTED_SOURCE_SCHEMAS`
abbrev pub unsupported_schema : Option String → Bool
unsupported_schema none = false
unsupported_schema (some s) = not (member s ("qa_verification_packet" ∷ []))

-- `merge_ready is False`
abbrev pub is_false : Option Bool → Bool
is_false (some b) = not b
is_false none = false

-- The arguments of a rejection.
pub record Rejection : Type 0 where
  pub reason : String
  pub details : Message
  pub blocking_reason : String
  pub note : String

abbrev pub refuse : String → Message → String → String → Option Rejection
refuse reason details blocking note =
    some (record { reason = reason; details = details; blocking_reason = blocking; note = note })

-- The guards of `derive_acceptance_decision`, in their order.
unfoldable pub rejection : TechLeadAcceptanceDecisionRequest → Option Rejection
rejection request =
    let stage = strip request.workflow_stage in
    let result_type = strip request.qa_result_type in
    if not (is_positive request.issue_number)
    then refuse "missing_issue_number"
        (plain "The acceptance decision request must include a positive issue number.")
        "missing_issue_number" "issue-number-required"
    else if stage == ""
    then refuse "missing_workflow_stage"
        (plain "The acceptance decision request must include a workflow stage.")
        "missing_workflow_stage" "workflow-stage-required"
    else if result_type == ""
    then refuse "missing_qa_result_type"
        (plain "The acceptance decision request must include a QA result type.")
        "missing_qa_result_type" "qa-result-type-required"
    else if unsupported_schema (or_none (normalized request.source_packet_schema_type))
    then refuse "unsupported_source_packet_schema"
        (lit "Source packet schema "
          ∷ repr request.source_packet_schema_type
          ∷ lit " is not supported by the current TechLeadAcceptanceDecisionService slice."
          ∷ [])
        "unsupported_source_packet_schema" "fail-closed"
    else if not (supports_acceptance_decision stage (some result_type))
    then refuse "unsupported_acceptance_decision"
        (lit "Current workflow stage "
          ∷ repr (some stage)
          ∷ lit " and QA result type "
          ∷ repr (some result_type)
          ∷ lit " are not supported in this slice."
          ∷ [])
        "unsupported_acceptance_decision" "fail-closed"
    else if resolve_execution_mode request == "proof_only"
    then none
    else if is_false (resolve_merge_ready request)
    then refuse "merge_not_ready_for_live_acceptance"
        (plain "Live-delivery acceptance requires merge-ready runtime context.") "merge_not_ready"
        "live-delivery-requires-merge-ready"
    else none
