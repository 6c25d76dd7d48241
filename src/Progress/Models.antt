-- ===== src/Progress/Models.antt =====
-- services/implementation_plan_progress/models.py, and the records of
-- repositories/implementation_plan/models.py that the service reads.
use paa_platform.Prelude.{ℕ, ℤ, String, Bool, Option, List}
use paa_platform.Json.{Dict}

-- `ActivityProgressClassification`
pub data Classification : Type 0 where
  completed remaining blocked deferred : Classification

-- `ComponentRealizationState`
pub data RealizationState : Type 0 where
  not_started partially_realized substantially_realized fully_realized : RealizationState
  realization_blocked realization_deferred : RealizationState

-- `PlanAuthorityStateSummary`
pub data AuthorityState : Type 0 where
  draft_plan active_plan partially_realized_plan : AuthorityState
  completed_plan blocked_plan deferred_plan : AuthorityState

pub record ActivityRecord : Type 0 where
  pub implementation_plan_activity_id : String
  pub implementation_plan_id : String
  pub component_element_id : Option String
  pub component_element_realization_id : Option String
  pub assigned_role_id : Option String
  pub activity_key : String
  pub activity_title : String
  pub activity_kind : String
  pub activity_state : String
  pub sequence_order : ℤ
  pub target_path : Option String
  pub target_module : Option String
  pub planned_artifact_type_key : Option String
  pub blocking_reason : Option String
  pub metadata : Dict
  pub started_at : Option String
  pub completed_at : Option String
  pub created_at : Option String
  pub updated_at : Option String

pub record DependencyRecord : Type 0 where
  pub implementation_plan_activity_dependency_id : String
  pub implementation_plan_id : String
  pub predecessor_activity_id : String
  pub predecessor_activity_key : String
  pub successor_activity_id : String
  pub successor_activity_key : String
  pub sequencing_requirement : String
  pub dependency_strength : String
  pub notes : Option String
  pub metadata : Dict
  pub created_at : Option String

pub record VerificationSurfaceRecord : Type 0 where
  pub implementation_plan_verification_surface_id : String
  pub implementation_plan_id : String
  pub implementation_plan_activity_id : Option String
  pub verification_obligation_id : Option String
  pub surface_kind : String
  pub surface_ref : String
  pub required : Bool
  pub sequence_order : ℤ
  pub status : String
  pub metadata : Dict
  pub created_at : Option String
  pub updated_at : Option String

-- The columns of `ImplementationPlanRecord` that the service reads.
pub record PlanRecord : Type 0 where
  pub implementation_plan_id : String
  pub plan_id_external : String
  pub primary_component_id : Option String

pub record ActivityProgressDetail : Type 0 where
  pub activity_key : String
  pub activity_state : String
  pub classification : Classification
  pub sequence_order : ℤ
  pub blocking_reason : Option String
  pub required_verification_statuses : List String
  pub missing_required_verification : List String

-- A quotient of two counts.
pub record Ratio : Type 0 where
  pub numerator : ℕ
  pub denominator : ℕ

-- `ImplementationPlanProgressSummary`, without the `metadata` that repeats its fields.
pub record ProgressSummary : Type 0 where
  pub implementation_plan_id : String
  pub plan_id_external : String
  pub primary_component_id : Option String
  pub authority_state_summary : AuthorityState
  pub realization_state : RealizationState
  pub completion_ratio : Ratio
  pub completed_activity_keys : List String
  pub deferred_activity_keys : List String
  pub blocked_activity_keys : List String
  pub remaining_activity_keys : List String
  pub current_activity_key : Option String
  pub next_activity_key : Option String
  pub remaining_activity_count : ℕ
  pub deferred_activity_count : ℕ
  pub blocked_activity_count : ℕ
  pub last_completed_activity_key : Option String
  pub activity_details : List ActivityProgressDetail

-- `NextActivityBundleResult`, without its `metadata`, a copy of the summary.
pub record BundleResult : Type 0 where
  pub implementation_plan_id : String
  pub plan_id_external : Option String
  pub ok : Bool
  pub next_bundle_activity_keys : List String
  pub bundle_kind : String
  pub decision_reason : String
  pub blocking_reasons : List String
  pub unattended_safe : Bool
  pub recommended_next_authority_action : Option String
  pub realization_state : Option RealizationState
