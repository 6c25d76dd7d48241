-- ===== src/Progress/Service.antt =====
-- The two operations of the progress service over its repository.
pub mod Bundle
use paa_platform.Prelude.{
  String, Bool, true, false, Option, none, some, List, [], ◌∷◌, ◌++◌, is_empty, if◌then◌else◌,
}
use paa_platform.Progress.Models.{
  RealizationState, ActivityRecord, DependencyRecord, VerificationSurfaceRecord, PlanRecord,
  ProgressSummary, BundleResult,
}
use paa_platform.Progress.Summary.{build_summary}

-- The queries of `ImplementationPlanRepository` that the service makes.
pub record PlanRepository : Type 0 where
  pub get_implementation_plan : String → Option PlanRecord
  pub list_activities : String → List ActivityRecord
  pub list_dependencies : String → List DependencyRecord
  pub list_verification_surfaces : String → List VerificationSurfaceRecord

-- `none` is the `LookupError` of `_require_plan`.
unfoldable pub summarize_plan_progress : PlanRepository → String → Option ProgressSummary
summarize_plan_progress repository id = elim (repository.get_implementation_plan id) [
  | none ↦ none
  | some plan ↦ some (
      build_summary plan (repository.list_activities plan.implementation_plan_id)
        (repository.list_dependencies plan.implementation_plan_id)
        (repository.list_verification_surfaces plan.implementation_plan_id))
]

abbrev pub is_fully_realized : RealizationState → Bool
is_fully_realized RealizationState.fully_realized = true
is_fully_realized _ = false

unfoldable pub realized_bundle : ProgressSummary → BundleResult
realized_bundle summary = record {
  implementation_plan_id = summary.implementation_plan_id;
  plan_id_external = some summary.plan_id_external;
  ok = false;
  next_bundle_activity_keys = [];
  bundle_kind = "none";
  decision_reason =
      "No required incomplete activities remain for the currently authorized implementation plan.";
  blocking_reasons = [];
  unattended_safe = true;
  recommended_next_authority_action =
      some
        "Mark the component fully realized or derive a successor authority update only if design truth changes.";
  realization_state = some summary.realization_state;
}

abbrev pub no_successor : String
no_successor =
    "No executable next activity could be derived from the current dependency and verification state."

unfoldable pub blocked_bundle : ProgressSummary → BundleResult
blocked_bundle summary = record {
  implementation_plan_id = summary.implementation_plan_id;
  plan_id_external = some summary.plan_id_external;
  ok = false;
  next_bundle_activity_keys = [];
  bundle_kind = "blocked";
  decision_reason = "The next implementation slice cannot be derived from the current plan state.";
  blocking_reasons =
      summary.blocked_activity_keys
      ++ (if is_empty summary.remaining_activity_keys then [] else no_successor ∷ []);
  unattended_safe = false;
  recommended_next_authority_action =
      some
        "Resolve blocked or ambiguous predecessor state before deriving the next activity bundle.";
  realization_state = some summary.realization_state;
}

unfoldable pub single_bundle : ProgressSummary → String → BundleResult
single_bundle summary key = record {
  implementation_plan_id = summary.implementation_plan_id;
  plan_id_external = some summary.plan_id_external;
  ok = true;
  next_bundle_activity_keys = key ∷ [];
  bundle_kind = "single_activity";
  decision_reason =
      "Derived the first dependency-clear remaining activity under the current plan authority.";
  blocking_reasons = [];
  unattended_safe = true;
  recommended_next_authority_action =
      some "Execute the next implementation activity and update plan progress after verification.";
  realization_state = some summary.realization_state;
}

-- `derive_next_activity_bundle` on the summary.
unfoldable pub bundle_of : ProgressSummary → BundleResult
bundle_of summary =
    if is_fully_realized summary.realization_state
    then realized_bundle summary
    else (elim summary.next_activity_key [
      | none ↦ blocked_bundle summary
      | some key ↦ single_bundle summary key
    ])

unfoldable pub derive_next_activity_bundle : PlanRepository → String → Option BundleResult
derive_next_activity_bundle repository id = elim (summarize_plan_progress repository id) [
  | none ↦ none
  | some summary ↦ some (bundle_of summary)
]
