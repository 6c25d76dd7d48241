-- ===== src/Progress/Classify.antt =====
-- `_classify_activity` and the loop of `_build_summary` that sorts the activities into four lists.
pub mod Partition
pub mod Completed
pub mod Members
pub mod Completing
use paa_platform.Prelude.{
  String, Bool, not, ◌&&◌, ◌||◌, Option, none, some, List, [], ◌∷◌, ◌++◌, map, ◌==◌, is_empty,
  select, if◌then◌else◌,
}
use paa_platform.Progress.Models.{
  Classification, ActivityRecord, VerificationSurfaceRecord, ActivityProgressDetail,
}
use paa_platform.Progress.Groups.{Groups, group, append_to}

-- `_classify_activity`: cancelled and superseded activities count as deferred, and a completed one
-- whose required verification is missing counts as blocked.
unfoldable pub classify_activity : String → List String → Classification
classify_activity state missing =
    if state == "cancelled" || state == "superseded"
    then Classification.deferred
    else if state == "deferred" || state == "skipped"
    then Classification.deferred
    else if state == "blocked"
    then Classification.blocked
    else if state == "completed" && is_empty missing
    then Classification.completed
    else if state == "completed" && not (is_empty missing)
    then Classification.blocked
    else Classification.remaining

-- `state in _CURRENT_ACTIVITY_STATES`
abbrev pub is_current : String → Bool
is_current state = state == "in_progress" || state == "active"

-- One surface goes to its activity, if it is required and has one.
unfoldable pub add_surface :
    Option String
    → VerificationSurfaceRecord
    → Groups VerificationSurfaceRecord
    → Groups VerificationSurfaceRecord
add_surface none s g = g
add_surface (some id) s g = if s.required then append_to id s g else g

-- `required_by_activity_id`
unfoldable pub required_by_activity :
    List VerificationSurfaceRecord
    → Groups VerificationSurfaceRecord
    → Groups VerificationSurfaceRecord
required_by_activity [] g = g
required_by_activity (s ∷ ss) g =
    required_by_activity ss (add_surface s.implementation_plan_activity_id s g)

-- `surface.status not in _REQUIRED_VERIFICATION_COMPLETE`
abbrev pub is_unverified : VerificationSurfaceRecord → Bool
is_unverified s = not (s.status == "passed" || s.status == "waived")

-- The refs of the required surfaces that are neither passed nor waived.
unfoldable pub missing_required : List VerificationSurfaceRecord → List String
missing_required surfaces = map (λ s. s.surface_ref) (select is_unverified surfaces)

unfoldable pub activity_detail :
    Groups VerificationSurfaceRecord → ActivityRecord → ActivityProgressDetail
activity_detail required a =
    let surfaces = group a.implementation_plan_activity_id required in
    let missing = missing_required surfaces in
    record {
      activity_key = a.activity_key;
      activity_state = a.activity_state;
      classification = classify_activity a.activity_state missing;
      sequence_order = a.sequence_order;
      blocking_reason = a.blocking_reason;
      required_verification_statuses = map (λ s. s.status) surfaces;
      missing_required_verification = missing;
    }

-- The variables of the loop.
pub record Tally : Type 0 where
  pub details : List ActivityProgressDetail
  pub completed : List String
  pub deferred : List String
  pub blocked : List String
  pub remaining : List String
  pub current_activity_key : Option String
  pub last_completed_activity_key : Option String

abbrev pub empty_tally : Tally
empty_tally = record {
  details = [];
  completed = [];
  deferred = [];
  blocked = [];
  remaining = [];
  current_activity_key = none;
  last_completed_activity_key = none;
}

-- The `if`/`elif` chain over the classification.
unfoldable pub file_under : Classification → String → Tally → Tally
file_under Classification.completed k t = record t {
  completed = t.completed ++ k ∷ [];
  last_completed_activity_key = some k;
}
file_under Classification.deferred k t = record t { deferred = t.deferred ++ k ∷ [] }
file_under Classification.blocked k t = record t { blocked = t.blocked ++ k ∷ [] }
file_under Classification.remaining k t = record t { remaining = t.remaining ++ k ∷ [] }

unfoldable pub tally_activity : Groups VerificationSurfaceRecord → ActivityRecord → Tally → Tally
tally_activity required a t =
    let detail = activity_detail required a in
    let filed =
      file_under detail.classification a.activity_key
        (record t { details = t.details ++ detail ∷ [] }) in
    record filed {
      current_activity_key =
          if is_current a.activity_state then some a.activity_key else filed.current_activity_key;
    }

unfoldable pub tally_all : Groups VerificationSurfaceRecord → List ActivityRecord → Tally → Tally
tally_all required [] t = t
tally_all required (a ∷ activities) t = tally_all required activities (tally_activity required a t)
