-- ===== src/Progress/Tests.antt =====
-- The progress service at a plan of three activities.
use paa_platform.Prelude.{
  ℕ, pos, String, ◌≡◌, ◌≢◌, ◌↔◌, refl, true, false, none, some, List, [], ◌∷◌, ◌++◌, Memᴰ, All,
  select,
}
use mathlib.Core.List.{Perm}
use paa_platform.Json.{empty}
use paa_platform.Progress.Models.{
  RealizationState, AuthorityState, ActivityRecord, DependencyRecord, VerificationSurfaceRecord,
  PlanRecord, ProgressSummary,
}
use paa_platform.Progress.Groups.{group, append_to, set_add, add_to}
use paa_platform.Progress.Classify.{
  empty_tally, tally_all, required_by_activity, activity_detail, tally_activity, file_under,
  classify_activity, missing_required, add_surface,
}
use paa_platform.Progress.Classify.Partition.{tally-perm}
use paa_platform.Progress.Classify.Completed.{Verified, completed-Verified}
use paa_platform.Progress.Next.{
  returned, raised, ambiguity, derive_next_activity_key, predecessors_by_successor, is_executable,
  intersects, sort_ranked, insert_ranked, ranked_before, pick_first,
}
use paa_platform.Progress.Next.Executable.{Ready}
use paa_platform.Progress.Next.First.{IsFirst, derived-IsFirst}
use paa_platform.Progress.Summary.{
  build_summary, derive_realization_state, finish_summary, derived_from,
}
use paa_platform.Progress.Summary.Next.{next-Ready}
use paa_platform.Progress.Summary.Reported.{blocked_hidden}
use paa_platform.Progress.Service.{bundle_of, blocked_bundle}
use paa_platform.Progress.Service.Bundle.{bundle-next}

abbrev activity : String → String → ℕ → ActivityRecord
activity key state order = record {
  implementation_plan_activity_id = key;
  implementation_plan_id = "p";
  component_element_id = none;
  component_element_realization_id = none;
  assigned_role_id = none;
  activity_key = key;
  activity_title = key;
  activity_kind = "code";
  activity_state = state;
  sequence_order = pos order;
  target_path = none;
  target_module = none;
  planned_artifact_type_key = none;
  blocking_reason = none;
  metadata = empty;
  started_at = none;
  completed_at = none;
  created_at = none;
  updated_at = none;
}

abbrev dependency : String → String → DependencyRecord
dependency before after = record {
  implementation_plan_activity_dependency_id = before;
  implementation_plan_id = "p";
  predecessor_activity_id = before;
  predecessor_activity_key = before;
  successor_activity_id = after;
  successor_activity_key = after;
  sequencing_requirement = "finish_to_start";
  dependency_strength = "hard";
  notes = none;
  metadata = empty;
  created_at = none;
}

abbrev check : String → String → VerificationSurfaceRecord
check id status = record {
  implementation_plan_verification_surface_id = id;
  implementation_plan_id = "p";
  implementation_plan_activity_id = some id;
  verification_obligation_id = none;
  surface_kind = "test";
  surface_ref = "tests";
  required = true;
  sequence_order = pos 1;
  status = status;
  metadata = empty;
  created_at = none;
  updated_at = none;
}

abbrev plan : PlanRecord
plan = record {
  implementation_plan_id = "p";
  plan_id_external = "P-1";
  primary_component_id = none;
}

abbrev activities : List ActivityRecord
activities = activity "a" "completed" 1 ∷ activity "b" "planned" 2 ∷ activity "c" "planned" 3 ∷ []

abbrev dependencies : List DependencyRecord
dependencies = dependency "a" "b" ∷ dependency "b" "c" ∷ []

abbrev checks : List VerificationSurfaceRecord
checks = check "a" "passed" ∷ []

abbrev summary : ProgressSummary
summary = build_summary plan activities dependencies checks

next_activity : summary.next_activity_key ≡ some "b"
unfolding build_summary finish_summary derived_from tally_all tally_activity activity_detail
    file_under classify_activity missing_required required_by_activity add_surface group append_to
    set_add add_to derive_next_activity_key predecessors_by_successor is_executable intersects
    sort_ranked insert_ranked pick_first select
next_activity = refl

next-Ready_example :
    (a : ActivityRecord) × (a.activity_key ≡ "b")
    × Memᴰ a activities
    × Ready dependencies summary.completed_activity_keys summary.blocked_activity_keys
        summary.remaining_activity_keys a
next-Ready_example = next-Ready plan activities dependencies checks "b" next_activity

bundle-next_example :
    (summary.next_activity_key ≡ some "b")
    ↔ (((bundle_of summary).ok ≡ true) × ((bundle_of summary).next_bundle_activity_keys ≡ "b" ∷ []))
bundle-next_example = bundle-next plan activities dependencies checks "b"

tally-perm_example :
    let t = tally_all (required_by_activity checks []) activities empty_tally in
    Perm (t.completed ++ (t.deferred ++ (t.blocked ++ t.remaining))) ("a" ∷ "b" ∷ "c" ∷ [])
tally-perm_example = tally-perm (required_by_activity checks []) activities

completed-Verified_example :
    ((activity "a" "completed" 1).activity_state ≡ "completed") × All (Verified "a") checks
unfolding activity_detail classify_activity missing_required required_by_activity add_surface group
    append_to select
completed-Verified_example = (completed-Verified checks (activity "a" "completed" 1)).0 refl

first_b :
    derive_next_activity_key activities
      (predecessors_by_successor dependencies [])
      ("a" ∷ [])
      []
      ("b" ∷ "c" ∷ [])
    ≡ returned (some "b")
unfolding group set_add add_to derive_next_activity_key predecessors_by_successor is_executable
    intersects sort_ranked insert_ranked pick_first select
first_b = refl

derived-IsFirst_example :
    (a : ActivityRecord) × (a.activity_key ≡ "b")
    × Memᴰ a activities
    × Ready dependencies ("a" ∷ []) [] ("b" ∷ "c" ∷ []) a
    × IsFirst a (
        select
          (is_executable (predecessors_by_successor dependencies []) ("a" ∷ []) [] ("b" ∷ "c" ∷ []))
          activities)
derived-IsFirst_example =
    derived-IsFirst dependencies activities ("a" ∷ []) [] ("b" ∷ "c" ∷ []) "b" first_b

none_left :
    derive_next_activity_key activities
      (predecessors_by_successor dependencies [])
      []
      ("a" ∷ [])
      ("b" ∷ "c" ∷ [])
    ≡ returned none
unfolding group set_add add_to derive_next_activity_key predecessors_by_successor is_executable
    intersects sort_ranked pick_first select
none_left = refl

-- Two activities of one sequence order, both free to start.
abbrev twins : List ActivityRecord
twins = activity "x" "planned" 1 ∷ activity "y" "planned" 1 ∷ []

twins_ambiguous :
    derive_next_activity_key twins (predecessors_by_successor [] []) [] [] ("x" ∷ "y" ∷ [])
    ≡ raised ambiguity
unfolding group derive_next_activity_key predecessors_by_successor is_executable intersects
    sort_ranked insert_ranked ranked_before pick_first select
twins_ambiguous = refl

-- One activity is completed, and the other is blocked or remains.
abbrev half_done : String → ProgressSummary
half_done state =
    build_summary plan (activity "a" "completed" 1 ∷ activity "b" state 2 ∷ []) [] checks

half_hidden :
    ((half_done "blocked").completed_activity_keys ≢ [])
    × ((half_done "blocked").remaining_activity_keys ≡ [])
    × ((half_done "blocked").blocked_activity_keys ≢ [])
unfolding build_summary finish_summary derived_from tally_all tally_activity activity_detail
    file_under classify_activity missing_required required_by_activity add_surface group append_to
    derive_next_activity_key is_executable sort_ranked pick_first select
half_hidden = ((λ e. cc), refl, λ e. cc)

blocked_hidden_example :
    ((half_done "blocked").realization_state ≢ RealizationState.realization_blocked)
    × ((half_done "blocked").realization_state ≢ RealizationState.fully_realized)
    × ((half_done "blocked").authority_state_summary ≢ AuthorityState.blocked_plan)
blocked_hidden_example =
    blocked_hidden plan [] checks (activity "a" "completed" 1 ∷ activity "b" "blocked" 2 ∷ [])
      half_hidden.0 half_hidden.1 half_hidden.2

half_left :
    ((half_done "planned").completed_activity_keys ≢ [])
    × ((half_done "planned").remaining_activity_keys ≢ [])
    × ((half_done "planned").blocked_activity_keys ≡ [])
unfolding build_summary finish_summary derived_from tally_all tally_activity activity_detail
    file_under classify_activity missing_required required_by_activity add_surface group append_to
    derive_next_activity_key predecessors_by_successor is_executable intersects sort_ranked
    insert_ranked pick_first select
half_left = ((λ e. cc), (λ e. cc), refl)

-- A plan whose activity `b` is blocked has no next activity.
abbrev stuck : ProgressSummary
stuck =
    build_summary plan (activity "b" "blocked" 1 ∷ activity "c" "planned" 2 ∷ [])
      (dependency "b" "c" ∷ []) []

stuck_refused : (bundle_of stuck).ok ≡ false
unfolding build_summary finish_summary derived_from tally_all tally_activity activity_detail
    file_under classify_activity group set_add add_to derive_next_activity_key
    predecessors_by_successor is_executable intersects sort_ranked pick_first select
    derive_realization_state bundle_of blocked_bundle
stuck_refused = refl
