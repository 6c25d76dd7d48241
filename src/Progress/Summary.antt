-- ===== src/Progress/Summary.antt =====
-- `_build_summary`, the derivation of the plan's two states, and the next activity bundle.
pub mod Next
pub mod Advances
pub mod Workable
pub mod Done
pub mod Reported
pub mod States
use paa_platform.Prelude.{
  ℕ, ◌*◌, length, leb, ltb, eqb, String, Bool, not, ◌&&◌, ◌||◌, Option, none, List, [], ◌∷◌, ◌++◌,
  is_empty, member, if◌then◌else◌,
}
use paa_platform.Progress.Models.{
  RealizationState, AuthorityState, ActivityRecord, DependencyRecord, VerificationSurfaceRecord,
  PlanRecord, ProgressSummary,
}
use paa_platform.Progress.Classify.{Tally, empty_tally, required_by_activity, tally_all}
use paa_platform.Progress.Next.{
  Derived, returned, raised, predecessors_by_successor, derive_next_activity_key,
}

-- `completed_count / total_count >= 0.75`. The quotient of two list lengths is a float that is at
-- least 0.75 exactly when the counts say so.
abbrev pub three_quarters : ℕ → ℕ → Bool
three_quarters done total = leb (3 * total) (4 * done)

unfoldable pub derive_realization_state : ℕ → ℕ → ℕ → ℕ → ℕ → RealizationState
derive_realization_state done remaining blocked deferred total =
    if eqb total 0 || eqb done 0
    then (if ltb 0 blocked
        then RealizationState.realization_blocked
        else if ltb 0 deferred && eqb remaining 0
        then RealizationState.realization_deferred
        else RealizationState.not_started)
    else if eqb remaining 0 && eqb blocked 0
    then RealizationState.fully_realized
    else if ltb 0 blocked && ltb 0 remaining
    then RealizationState.realization_blocked
    else if eqb remaining 0 && ltb 0 deferred
    then RealizationState.realization_deferred
    else if three_quarters done total
    then RealizationState.substantially_realized
    else RealizationState.partially_realized

-- The end of `_derive_authority_state_summary`.
abbrev pub active_or_draft : Bool → AuthorityState
active_or_draft any = if any then AuthorityState.active_plan else AuthorityState.draft_plan

unfoldable pub derive_authority_state :
    RealizationState → List String → List String → List String → AuthorityState
derive_authority_state RealizationState.fully_realized remaining blocked deferred =
    AuthorityState.completed_plan
derive_authority_state RealizationState.realization_blocked remaining blocked deferred =
    AuthorityState.blocked_plan
derive_authority_state RealizationState.realization_deferred remaining blocked deferred =
    if is_empty remaining
    then AuthorityState.deferred_plan
    else active_or_draft
        (not (is_empty remaining) || not (is_empty blocked) || not (is_empty deferred))
derive_authority_state RealizationState.partially_realized remaining blocked deferred =
    AuthorityState.partially_realized_plan
derive_authority_state RealizationState.substantially_realized remaining blocked deferred =
    AuthorityState.partially_realized_plan
derive_authority_state RealizationState.not_started remaining blocked deferred =
    active_or_draft (not (is_empty remaining) || not (is_empty blocked) || not (is_empty deferred))

-- The summary of a plan with no activities.
unfoldable pub empty_summary : PlanRecord → ProgressSummary
empty_summary plan = record {
  implementation_plan_id = plan.implementation_plan_id;
  plan_id_external = plan.plan_id_external;
  primary_component_id = plan.primary_component_id;
  authority_state_summary = AuthorityState.draft_plan;
  realization_state = RealizationState.not_started;
  completion_ratio = record { numerator = 0; denominator = 1 };
  completed_activity_keys = [];
  deferred_activity_keys = [];
  blocked_activity_keys = [];
  remaining_activity_keys = [];
  current_activity_key = none;
  next_activity_key = none;
  remaining_activity_count = 0;
  deferred_activity_count = 0;
  blocked_activity_count = 0;
  last_completed_activity_key = none;
  activity_details = [];
}

-- `next_activity_key`, `None` where a `ValueError` was caught.
abbrev pub next_of : Derived → Option String
next_of (returned key) = key
next_of (raised issue) = none

-- The list `blocked` after the `except` branch.
abbrev pub blocked_after : Derived → List String → List String
blocked_after (returned key) blocked = blocked
blocked_after (raised issue) blocked =
    if member issue blocked then blocked else blocked ++ issue ∷ []

-- From the end of the loop on.
unfoldable pub finish_summary : PlanRecord → List ActivityRecord → Tally → Derived → ProgressSummary
finish_summary plan activities t derived =
    let blocked = blocked_after derived t.blocked in
    let state =
      derive_realization_state (length t.completed) (length t.remaining) (length blocked)
        (length t.deferred) (length activities) in
    record {
      implementation_plan_id = plan.implementation_plan_id;
      plan_id_external = plan.plan_id_external;
      primary_component_id = plan.primary_component_id;
      authority_state_summary = derive_authority_state state t.remaining blocked t.deferred;
      realization_state = state;
      completion_ratio = record { numerator = length t.completed; denominator = length activities };
      completed_activity_keys = t.completed;
      deferred_activity_keys = t.deferred;
      blocked_activity_keys = blocked;
      remaining_activity_keys = t.remaining;
      current_activity_key = t.current_activity_key;
      next_activity_key = next_of derived;
      remaining_activity_count = length t.remaining;
      deferred_activity_count = length t.deferred;
      blocked_activity_count = length blocked;
      last_completed_activity_key = t.last_completed_activity_key;
      activity_details = t.details;
    }

-- The successor that the four lists of a tally allow.
unfoldable pub derived_from : List ActivityRecord → List DependencyRecord → Tally → Derived
derived_from activities dependencies t =
    derive_next_activity_key activities (predecessors_by_successor dependencies []) t.completed
      t.blocked t.remaining

unfoldable pub build_summary :
    PlanRecord
    → List ActivityRecord
    → List DependencyRecord
    → List VerificationSurfaceRecord
    → ProgressSummary
build_summary plan [] dependencies surfaces = empty_summary plan
build_summary plan (a ∷ rest) dependencies surfaces =
    let t = tally_all (required_by_activity surfaces []) (a ∷ rest) empty_tally in
    finish_summary plan (a ∷ rest) t (derived_from (a ∷ rest) dependencies t)
