-- ===== src/Planning/Tests.antt =====
-- The derivation of an implementation plan, at a plan of two activities.
pub mod Finished
use paa_platform.Planning.Derivation.Stored.{with_activities, put_all}
use paa_platform.Planning.Updates.Kept.{set_state-kept}
use paa_platform.Planning.Updates.{
  set_states, set_implementation_plan_activity_state, stated_activity, state_activity,
}
use paa_platform.Progress.Next.{
  derive_next_activity_key, predecessors_by_successor, is_executable, intersects, sort_ranked,
  insert_ranked, ranked_before, pick_first,
}
use paa_platform.Progress.Groups.{group, append_to, set_add, add_to}
use paa_platform.Progress.Classify.{
  tally_all, tally_activity, activity_detail, file_under, classify_activity, missing_required,
  required_by_activity, add_surface,
}
use paa_platform.Planning.Derivation.Gaps.{Distinct, keys_of, no_gaps_iff}
use paa_platform.Planning.Updates.Ordered.{next_after_predecessors}
use paa_platform.Progress.Summary.{
  build_summary, finish_summary, derived_from, derive_realization_state, derive_authority_state,
}
use paa_platform.Progress.Service.{summarize_plan_progress}
use paa_platform.Progress.Models.{ProgressSummary, ActivityRecord}
use paa_platform.Planning.Derivation.Returns.{Returns, returns_iff, OrdersFit}
use paa_platform.Planning.Derivation.Passes.{NoSelf}
use paa_platform.Planning.Derivation.Persisted.{Persisted, derive-Persisted}
use paa_platform.Planning.Derivation.{
  derive_plan, write_activities, derivation_result, persist_plan, activity_specs, dependency_in,
  persist_under, returned, write_dependencies,
}
use paa_platform.Planning.Derivation.Specs.{
  dependency_spec, detect_gaps, activity_spec_from_blueprint, dependency_specs_from_blueprints,
}
use paa_platform.Planning.Store.{
  inserted_dependency, put_activity, inserted_activity, updated_activity,
  upsert_implementation_plan_activity_dependency, get_implementation_plan_activity_by_key, put_edge,
  put_dependency,
}
use paa_platform.Planning.Store.Plans.{
  Database, Store, inserted_plan, upsert_implementation_plan, plan_refused, written_plans,
  get_implementation_plan_for_design_package, get_implementation_plan,
}
use paa_platform.Planning.Store.Listing.{
  plan_columns, plan_repository, list_implementation_plan_activities,
  list_implementation_plan_activity_dependencies, list_implementation_plan_verification_surfaces,
  join_rows, join_row, joined_row, joined_before, surface_before,
}
use paa_platform.Planning.Records.{
  ImplementationPlanActivityBlueprint, ImplementationPlanUpsertSpec,
  ImplementationPlanDerivationRequest, ImplementationPlanDerivationResult,
  ImplementationPlanActivityStateUpdateSpec,
}
use Prim.Native.Char.{Char}
use mathlib.Core.Path.{subst}
use paa_platform.Planning.Store.{upsert_implementation_plan_activity}
use paa_platform.Prelude.{
  sym, false, member, is_empty, ◌↔◌, Memᴰ, String, ◌≡◌, refl, ℕ, pos, List, [], ◌∷◌, some, none,
  true, find, select, sort_by, insert_by, map,
}

-- A key that determines what it was generated for.
key_for : String → String → String
key_for String.[] k = String.◌∷◌ (Char.char 0 tt) k
key_for (String.◌∷◌ c p) k = String.◌∷◌ (Char.char 1 tt) (String.◌∷◌ c (key_for p k))

key_for-fresh : (p k q j : String) → key_for p k ≡ key_for q j → (p ≡ q) × (k ≡ j)
unfolding key_for
key_for-fresh String.[] k String.[] j h = (refl, cc)
key_for-fresh String.[] k (String.◌∷◌ d q) j h = absurd (cc)
key_for-fresh (String.◌∷◌ c p) k String.[] j h = absurd (cc)
key_for-fresh (String.◌∷◌ c p) k (String.◌∷◌ d q) j h =
    let rest : key_for p k ≡ key_for q j = cc in
    let same : c ≡ d = cc in let (pq, kj) = key_for-fresh p k q j rest in (cc, kj)

abbrev blueprint : String → String → ℕ → List String → ImplementationPlanActivityBlueprint
blueprint key state order predecessors = record {
  activity_key = key;
  activity_title = key;
  activity_kind = "artifact_construction";
  sequence_order = pos order;
  component_element_id = none;
  component_element_key = some "parser";
  component_element_realization_id = none;
  code_artifact_target_key = some "module";
  target_path = some "a.py";
  target_module = none;
  assigned_role_id = none;
  blocking_reason = none;
  metadata = none;
  predecessor_activity_keys = predecessors;
  activity_state = state;
}

abbrev spec : ImplementationPlanUpsertSpec
spec = record {
  project_id = "project";
  design_package_id = "package";
  plan_id_external = "P-1";
  consumer_context_key = "default";
  plan_title = "Plan";
  plan_kind = "component";
  status = "draft";
  authority_state = "draft_plan";
  work_item_id = some "item";
  spec_fragment_id = none;
  implementation_target_id = some "target";
  authority_version_id = none;
  primary_component_id = none;
  schema_version = "1";
  plan = none;
  build_sequence = none;
  touch_surfaces = none;
  protected_constraints = none;
  verification_plan = none;
  provenance = none;
  metadata = none;
  created_by_role_id = none;
  created_by_agent_id = none;
  approved_at = none;
  activated_at = none;
  completed_at = none;
}

abbrev first : ImplementationPlanActivityBlueprint
first = blueprint "a" "planned" 1 []

abbrev second : ImplementationPlanActivityBlueprint
second = blueprint "b" "planned" 2 ("a" ∷ [])

abbrev request : ImplementationPlanDerivationRequest
request = record {
  plan = spec;
  activity_blueprints = first ∷ second ∷ [];
  verification_surfaces = [];
  persist = true;
  replace_existing_draft = true;
  metadata = none;
}

abbrev db : Database
db = record {
  now = "t1";
  plan_id = "plan";
  activity_id = key_for;
  dependency_id = λ id i j. "dependency";
}

abbrev tables : Store
tables = record { plans = []; activities = []; dependencies = []; surfaces = [] }

abbrev filled : Store
filled =
    with_activities "plan" db (activity_specs request)
      (record tables { plans = inserted_plan spec db ∷ [] })

abbrev after : Store
after = record filled {
  dependencies =
      inserted_dependency (dependency_in "plan" (dependency_spec second "a")) db
        (key_for "plan" "a") (key_for "plan" "b")
      ∷ [];
}

abbrev result : ImplementationPlanDerivationResult
result = derivation_result request (inserted_plan spec db) true

derived : derive_plan request db tables ≡ returned result after
unfolding derive_plan persist_plan persist_under upsert_implementation_plan plan_refused
    written_plans get_implementation_plan_for_design_package find inserted_plan write_activities
    put_all upsert_implementation_plan_activity put_activity inserted_activity
    activity_spec_from_blueprint write_dependencies dependency_specs_from_blueprints dependency_spec
    upsert_implementation_plan_activity_dependency get_implementation_plan_activity_by_key put_edge
    put_dependency key_for
derived = refl

derive-Persisted_example : Persisted request tables result after
derive-Persisted_example = derive-Persisted request db tables refl result after derived

returns_iff_example : Returns request db tables refl ↔ (
    (plan_refused request.plan tables ≡ false)
    × OrdersFit request.activity_blueprints
    × NoSelf request.activity_blueprints)
returns_iff_example = returns_iff request db tables refl key_for-fresh tt

-- The first activity is completed.
abbrev update : ImplementationPlanActivityStateUpdateSpec
update = record {
  implementation_plan_id = "plan";
  activity_key = "a";
  activity_state = "completed";
  blocking_reason = none;
  started_at = none;
  completed_at = some "t2";
  metadata = none;
}

abbrev later : Store
later = set_states ((update, "t2") ∷ []) after

abbrev summary : ProgressSummary
summary =
    build_summary (plan_columns (inserted_plan spec db))
      (list_implementation_plan_activities later "plan")
      (list_implementation_plan_activity_dependencies later "plan")
      (list_implementation_plan_verification_surfaces later "plan")

summarized : summarize_plan_progress (plan_repository later) "plan" ≡ some summary
unfolding set_states set_implementation_plan_activity_state summarize_plan_progress plan_repository
    get_implementation_plan find inserted_plan put_all
summarized = refl

next_activity : summary.next_activity_key ≡ some "b"
unfolding build_summary finish_summary derived_from tally_all tally_activity activity_detail
    file_under classify_activity missing_required required_by_activity group set_add add_to
    derive_next_activity_key predecessors_by_successor is_executable intersects sort_ranked
    insert_ranked ranked_before pick_first select list_implementation_plan_activities
    list_implementation_plan_activity_dependencies list_implementation_plan_verification_surfaces
    sort_by join_rows join_row joined_row find put_all put_activity inserted_activity
    activity_spec_from_blueprint inserted_dependency key_for set_states
    set_implementation_plan_activity_state stated_activity
next_activity = refl

next_after_predecessors_example : member "a" summary.completed_activity_keys ≡ true
unfolding derivation_result inserted_plan
next_after_predecessors_example =
    next_after_predecessors request db tables refl key_for-fresh tt result after derived
      ((update, "t2") ∷ []) summary second first summarized next_activity
      (Memᴰ.tail (Memᴰ.head refl)) (Memᴰ.head refl) refl

no_gaps_iff_example : (is_empty (detect_gaps request.activity_blueprints) ≡ true) ↔ (
    (is_empty request.activity_blueprints ≡ false) × Distinct (keys_of request.activity_blueprints))
no_gaps_iff_example = no_gaps_iff request.activity_blueprints
