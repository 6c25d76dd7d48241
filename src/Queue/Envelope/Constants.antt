-- ===== src/Queue/Envelope/Constants.antt =====
-- runtime/transport/packet_envelope.py: the constants of the packet envelope.
use paa_platform.Prelude.{String, List, [], ◌∷◌}
use paa_platform.Json.{Dict, empty, entry, text}

abbrev pub supported_schemas : List String
supported_schemas =
    "architect_cycle_packet" ∷ "qa_verification_packet" ∷ "slice_result_packet"
    ∷ "worker_result_packet" ∷ "delivery_review_packet" ∷ "techlead_assignment_packet"
    ∷ "techlead_decision_packet" ∷ []

abbrev pub architect_required : List String
architect_required =
    "accepted_pr" ∷ "closed_issue" ∷ "next_issue" ∷ "current_baseline" ∷ "remaining_gap"
    ∷ "next_move" ∷ "focus" ∷ "keep_stable" ∷ "governance_reminder" ∷ []

abbrev pub slice_required : List String
slice_required =
    "issue" ∷ "branch" ∷ "pr" ∷ "workflow_compliance" ∷ "result_summary" ∷ "mechanism_changed"
    ∷ "validation" ∷ "artifacts" ∷ "merge_status" ∷ "architect_decision_needed" ∷ []

abbrev pub qa_required : List String
qa_required =
    "issue" ∷ "pr" ∷ "verification_status" ∷ "verification_scope" ∷ "mechanical_checks"
    ∷ "technical_scope_checks" ∷ "protected_path_checks" ∷ "artifact_checks" ∷ "findings"
    ∷ "recommended_action" ∷ []

abbrev pub worker_result_required : List String
worker_result_required =
    "issue" ∷ "branch" ∷ "pr" ∷ "worker_role" ∷ "worker_family" ∷ "result_type"
    ∷ "workflow_compliance" ∷ "implementation_summary" ∷ "validation_summary" ∷ "artifacts"
    ∷ "merge_status" ∷ "techlead_action_recommended" ∷ "source_assignment_ref"
    ∷ "coder_run_brief_ref" ∷ "coder_run_brief" ∷ "coder_brief_resolution" ∷ []

abbrev pub delivery_review_required : List String
delivery_review_required =
    "issue" ∷ "branch" ∷ "pr" ∷ "review_type" ∷ "result_type" ∷ "scope_recommendation"
    ∷ "authority_impact" ∷ "branch_recommendation" ∷ "techlead_action_recommended"
    ∷ "review_summary" ∷ "findings" ∷ "source_assignment_ref" ∷ "coder_run_brief_ref"
    ∷ "coder_run_brief" ∷ "coder_brief_resolution" ∷ []

abbrev pub techlead_assignment_required : List String
techlead_assignment_required =
    "issue" ∷ "pr" ∷ "target_role" ∷ "assignment_type" ∷ "source_context_ref" ∷ "canonical_branch"
    ∷ "role_branch" ∷ "branch_owner_role" ∷ "lineage_state" ∷ "lineage_action" ∷ "source_branch"
    ∷ "superseded_branch" ∷ "worktree_hint" ∷ "reset_reason" ∷ "allowed_result_types"
    ∷ "assignment_summary" ∷ []

abbrev pub techlead_decision_required : List String
techlead_decision_required =
    "issue" ∷ "pr" ∷ "source_packet_ref" ∷ "decision_type" ∷ "decision_rationale" ∷ "target_role"
    ∷ "next_assignment_type" ∷ "canonical_branch" ∷ "role_branch" ∷ "branch_owner_role"
    ∷ "lineage_state" ∷ "lineage_action" ∷ "source_branch" ∷ "superseded_branch" ∷ "worktree_hint"
    ∷ "reset_reason" ∷ "work_item_status_update_intent" ∷ []

abbrev pub envelope_required : List String
envelope_required =
    "message_id" ∷ "schema_type" ∷ "schema_version" ∷ "project" ∷ "from_role" ∷ "to_role"
    ∷ "created_at" ∷ "correlation_id" ∷ "payload" ∷ []

abbrev pub authority_context_required : List String
authority_context_required =
    "manifest_path" ∷ "authority_version" ∷ "milestone_id" ∷ "phase_id" ∷ "task_id" ∷ []

abbrev pub github_context_required : List String
github_context_required = "repo" ∷ "issue_number" ∷ "pr_number" ∷ "branch" ∷ "links" ∷ []

-- The mapping of `normalize_role_name`, before the roles of the team are added.
abbrev pub role_names : Dict
role_names = entry "Python Team" (text "Python Dev") (
    entry "python-team" (text "Python Dev") (
      entry "Python Dev" (text "Python Dev") (
        entry "QA" (text "QA") (
          entry "qa" (text "QA") (
            entry "Architect" (text "Architect") (
              entry "architect" (text "Architect") (
                entry "Authority Architect" (text "Authority Architect") (
                  entry "authority-architect" (text "Authority Architect") (
                    entry "Delivery Architect" (text "Delivery Architect") (
                      entry "delivery-architect" (text "Delivery Architect") (
                        entry "Frontend Dev" (text "Frontend Dev") (
                          entry "frontend-dev" (text "Frontend Dev") (
                            entry "Backend Dev" (text "Backend Dev") (
                              entry "backend-dev" (text "Backend Dev") (
                                entry "Infra Dev" (text "Infra Dev") (
                                  entry "infra-dev" (text "Infra Dev") (
                                    entry "Docs Dev" (text "Docs Dev") (
                                      entry "docs-dev" (text "Docs Dev") (
                                        entry "TechLead" (text "TechLead") (
                                          entry "techlead" (text "TechLead")
                                            empty))))))))))))))))))))
