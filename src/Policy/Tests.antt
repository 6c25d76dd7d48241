-- ===== src/Policy/Tests.antt =====
-- The policies at concrete requests.
use paa_platform.Prelude.{refl, true, none, some, [], ◌∷◌}
use paa_platform.Policy.Transition.{WorkflowTransitionRequest, WorkflowTransitionEvaluationContext}
use paa_platform.Policy.Acceptance.{AcceptanceRequest}
use paa_platform.Policy.Recovery.{ResetRecoveryRequest, ResetRecoveryEvaluationContext}
use paa_platform.Policy.Capability.{
  DeploymentCapabilityRequest, DeploymentCapabilityContext, evaluate_capability,
  capability_findings, check_install, check_surface, check_artifact, check_attr, check_overlay,
  check_each, artifact_attr,
}
use paa_platform.Policy.Capability.Requirements.{Provides, allowed-Provides}

abbrev transition : WorkflowTransitionRequest
transition = record {
  work_item_id = "w1";
  transition_type = "worker_result_returned";
  requested_by_role = none;
  requested_by_agent = none;
  requested_from_stage = some "worker_execution_in_progress";
  requested_to_stage = some "techlead_worker_review_pending";
  source_schema_type = none;
  result_schema_type = none;
  metadata = none;
}

abbrev in_progress : WorkflowTransitionEvaluationContext
in_progress = record {
  current_workflow_stage = some "worker_execution_in_progress";
  current_owner_role = none;
  lineage_state = none;
  state_consistency = some "consistent";
  execution_surface_type = none;
  execution_surface_key = none;
  metadata = none;
}

abbrev elsewhere : WorkflowTransitionEvaluationContext
elsewhere = record in_progress { current_workflow_stage = some "done" }

abbrev verified : AcceptanceRequest
verified = record {
  work_item_id = "w1";
  workflow_stage = none;
  result_schema_type = none;
  verification_status = some "pass";
  merge_ready = some true;
  metadata = none;
}

abbrev retry : ResetRecoveryRequest
retry = record {
  work_item_id = "w1";
  workflow_stage = none;
  transition_status = none;
  retry_requested = true;
  metadata = none;
}

abbrev claimed : ResetRecoveryEvaluationContext
claimed = record {
  state_consistency = some "consistent";
  blocking_reason_code = none;
  active_claim_status = some "active";
  execution_surface_key = none;
  metadata = none;
}

abbrev asks : DeploymentCapabilityRequest
asks = record {
  execution_surface_type = "consumer_repo_runtime";
  execution_surface_key = "k";
  required_surface_types = "consumer_repo_runtime" ∷ [];
  required_artifact_refs = "docs_root" ∷ [];
  required_overlay_keys = "o1" ∷ [];
  require_active_install = true;
  metadata = none;
}

abbrev surface : DeploymentCapabilityContext
surface = record {
  install_status = some "active";
  execution_surface_type = "consumer_repo_runtime";
  execution_surface_key = "k";
  manifest_path = none;
  package_metadata_path = none;
  docs_root_path = some "docs";
  artifacts_root_path = none;
  active_overlay_keys = "o1" ∷ [];
  metadata = none;
}

allowed-Provides_example : Provides asks surface
unfolding evaluate_capability capability_findings check_install check_surface check_artifact
    check_attr check_overlay check_each artifact_attr
allowed-Provides_example = (allowed-Provides asks surface).0 refl
