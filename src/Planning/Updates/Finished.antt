-- ===== src/Planning/Updates/Finished.antt =====
-- Working off a plan completes it.
use paa_platform.Prelude.{
  ℕ, suc, ◌≤◌, ◌<◌, String, ◌≡◌, ◌≢◌, refl, sym, ap, ◌∙◌, some, none, List, [], ◌∷◌, map, All,
  arith, length, Option, Option-cases, inl, inr, absurd_some,
}
use paa_platform.Progress.Models.{
  RealizationState, ActivityRecord, DependencyRecord, VerificationSurfaceRecord, ProgressSummary,
}
use paa_platform.Progress.Classify.Completed.{Verified}
use paa_platform.Progress.Classify.Completing.{falls}
use paa_platform.Progress.Summary.Workable.{
  Workable, Workable-completed, keys-completed, remaining_keys, count-build, next-member,
  next_of_Workable, none_remaining,
}
use paa_platform.Progress.Summary.{build_summary}
use paa_platform.Progress.Summary.Done.{fully_realized_end}
use paa_platform.Progress.Service.{summarize_plan_progress}
use paa_platform.Planning.Records.{ImplementationPlanRecord}
use paa_platform.Planning.Store.Plans.{Store, get_implementation_plan}
use paa_platform.Planning.Store.Listing.{
  plan_repository, plan_columns, list_implementation_plan_activities,
  list_implementation_plan_activity_dependencies, list_implementation_plan_verification_surfaces,
}
use paa_platform.Planning.Store.Summary.{built_summary, summarized}
use paa_platform.Planning.Updates.{state_activity, set_implementation_plan_activity_state}
use paa_platform.Planning.Updates.Kept.{set_state-kept}
use paa_platform.Planning.Updates.Completion.{
  completing, complete_next, next_key, work_off, plan-set_state, surfaces-set_state,
  listed-Completes,
}

none_of_length : (l : List String) → length l ≤ 0 → l ≡ []
none_of_length [] h = refl
none_of_length (x ∷ ks) h = absurd (omega arith)

empty_unless : (l : List String) → ¬ (l ≢ []) → l ≡ []
empty_unless [] h = refl
empty_unless (x ∷ ks) h = absurd (h (λ e. cc))

keys_nonempty :
    (activities : List ActivityRecord) → activities ≢ [] → map (λ a. a.activity_key) activities ≢ []
keys_nonempty [] n e = n refl
keys_nonempty (a ∷ activities) n e = cc

module _ (id : String) (p : ImplementationPlanRecord) (ds : List DependencyRecord)
    (keys : List String) (surfaces : List VerificationSurfaceRecord)
    (verified : (i : String) → All (Verified i) surfaces) (rank : String → ℕ)
    (ordered : All (λ d. rank d.predecessor_activity_key < rank d.successor_activity_key) ds) where
  -- A store whose plan can be worked off.
  record Ahead (store : Store) : Type 0 where
    found : get_implementation_plan store id ≡ some p
    edges : list_implementation_plan_activity_dependencies store id ≡ ds
    checks : list_implementation_plan_verification_surfaces store id ≡ surfaces
    same_keys : map (λ a. a.activity_key) (list_implementation_plan_activities store id) ≡ keys
    workable : Workable surfaces verified ds (list_implementation_plan_activities store id)

  abbrev left_in : Store → List String
  left_in store = remaining_keys surfaces verified ds (list_implementation_plan_activities store id)

  completed-Ahead :
      (k at : String) (store : Store)
      → Ahead store
      → Ahead (set_implementation_plan_activity_state (completing id k at) at store)
  completed-Ahead k at store a =
      let kept = set_state-kept (completing id k at) at store in
      record {
        found = plan-set_state (completing id k at) at store id ∙ a.found;
        edges = kept.0 id ∙ a.edges;
        checks = surfaces-set_state (completing id k at) at store id ∙ a.checks;
        same_keys =
            ap (map (λ a. a.activity_key)) (kept.1 id)
            ∙ keys-completed surfaces verified ds k (state_activity (completing id k at) at)
                (list_implementation_plan_activities store id) (listed-Completes id k at store)
            ∙ a.same_keys;
        workable = rw (kept.1 id) (
            Workable-completed surfaces verified ds k (state_activity (completing id k at) at)
              (list_implementation_plan_activities store id) (listed-Completes id k at store)
              a.workable);
      }

  abbrev next_in : Store → Option String
  next_in store = (built_summary store p id).next_activity_key

  complete_next-none :
      (at : String) (store : Store)
      → Ahead store
      → next_in store ≡ none
      → complete_next id at store ≡ store
  unfolding complete_next
  complete_next-none at store a e = rw (summarized store id p a.found, next_key) (rw e)

  complete_next-some :
      (at k : String) (store : Store)
      → Ahead store
      → next_in store ≡ some k
      → complete_next id at store
        ≡ set_implementation_plan_activity_state (completing id k at) at store
  unfolding complete_next
  complete_next-some at k store a e = rw (summarized store id p a.found, next_key) (rw e)

  -- The summary over the tables, with the dependencies and surfaces that are listed.
  summary_lists :
      (store : Store)
      → Ahead store
      → built_summary store p id
        ≡ build_summary (plan_columns p) (list_implementation_plan_activities store id) ds surfaces
  summary_lists store a =
      let plan = plan_columns p in
      let acts = list_implementation_plan_activities store id in
      ap
        (λ es. build_summary plan acts es (list_implementation_plan_verification_surfaces store id))
        a.edges
      ∙ ap (build_summary plan acts ds) a.checks

  next_in_lists :
      (store : Store)
      → Ahead store
      → next_in store
        ≡ (build_summary
            (plan_columns p)
            (list_implementation_plan_activities store id)
            ds
            surfaces).next_activity_key
  next_in_lists store a = ap (λ (s : ProgressSummary). s.next_activity_key) (summary_lists store a)

  -- After one time the plan can still be worked off, and one key less remains, if any does.
  step-Ahead :
      (n : ℕ) (at : String) (store : Store)
      → Ahead store
      → length (left_in store) ≤ suc n
      → Ahead (complete_next id at store) × (length (left_in (complete_next id at store)) ≤ n)
  step-Ahead n at store a h = elim (Option-cases (next_in store)) [
    | inl e ↦
        let stays = complete_next-none at store a e in
        let empty = empty_unless (left_in store) (λ left.
          let (k, some_k) =
            next_of_Workable surfaces verified ds (plan_columns p) rank ordered
              (list_implementation_plan_activities store id) a.workable left in
          absurd_some (sym e ∙ next_in_lists store a ∙ some_k)) in
        (rw stays a, rw stays (omega (arith, ap (length {A = String}) empty)))
    | inr (k, e) ↦
        let goes = complete_next-some at k store a e in
        let acts = list_implementation_plan_activities store id in
        let inside =
          next-member surfaces verified ds (plan_columns p) acts k
            (sym (next_in_lists store a) ∙ e) in
        let less =
          falls surfaces verified k (state_activity (completing id k at) at) acts
            (listed-Completes id k at store) inside in
        (
          rw goes (completed-Ahead k at store a),
          rw goes (rw ((set_state-kept (completing id k at) at store).1 id) (omega (arith, less))),
        )
  ]

  -- With as many times as keys remain, nothing remains at the end.
  all-Ahead :
      (times : List String) (store : Store)
      → Ahead store
      → length (left_in store) ≤ length times
      → Ahead (work_off id times store) × (left_in (work_off id times store) ≡ [])
  unfolding work_off
  all-Ahead [] store a h = (a, none_of_length (left_in store) h)
  all-Ahead (at ∷ times) store a h =
      let (a', h') = step-Ahead (length times) at store a h in
      all-Ahead times (complete_next id at store) a' h'

  ends :
      (times : List String) (store : Store)
      → Ahead store
      → keys ≢ []
      → length (left_in store) ≤ length times
      → let end = work_off id times store in
        (summarize_plan_progress (plan_repository end) id ≡ some (built_summary end p id))
        × ((built_summary end p id).completed_activity_keys ≡ keys)
        × ((built_summary end p id).realization_state ≡ RealizationState.fully_realized)
  ends times store a n h =
      let end = work_off id times store in
      let (b, left) = all-Ahead times store a h in
      let acts = list_implementation_plan_activities end id in
      let lists : built_summary end p id ≡ build_summary (plan_columns p) acts ds surfaces =
        summary_lists end b in
      (
        summarized end id p b.found,
        ap (λ (s : ProgressSummary). s.completed_activity_keys) lists
            ∙ none_remaining surfaces verified ds (plan_columns p) acts b.workable left
            ∙ b.same_keys,
        ap (λ (s : ProgressSummary). s.realization_state) lists
            ∙ fully_realized_end surfaces verified ds (plan_columns p) acts b.workable left
                (λ e. n (sym b.same_keys ∙ ap (map (λ c. c.activity_key)) e)),
      )

-- A plan is finished by completing what its progress names, as often as activities remain: then its
-- summary lists every activity as completed, and it is reported as fully realized. The plan has
-- activities, no two of which share a sequence order, each of which is completed or remaining; its
-- dependencies go up in some rank of the keys and have their predecessors in the plan; and each
-- verification surface of the plan that is required of an activity has passed or was waived.
pub work_off-finished :
    (id : String) (store : Store) (p : ImplementationPlanRecord) (rank : String → ℕ)
    (verified : (i : String)
      → All (Verified i) (list_implementation_plan_verification_surfaces store id))
    → let activities = list_implementation_plan_activities store id in
      let ds = list_implementation_plan_activity_dependencies store id in
      let surfaces = list_implementation_plan_verification_surfaces store id in
      get_implementation_plan store id ≡ some p
      → activities ≢ []
      → Workable surfaces verified ds activities
      → All (λ d. rank d.predecessor_activity_key < rank d.successor_activity_key) ds
      → (times : List String) → (built_summary store p id).remaining_activity_count ≤ length times
      → (s : ProgressSummary) × (summarize_plan_progress
            (plan_repository (work_off id times store))
            id
          ≡ some s)
        × (s.completed_activity_keys ≡ map (λ a. a.activity_key) activities)
        × (s.realization_state ≡ RealizationState.fully_realized)
work_off-finished id store p rank verified found some_activity workable ordered times enough =
    let activities = list_implementation_plan_activities store id in
    let ds = list_implementation_plan_activity_dependencies store id in
    let surfaces = list_implementation_plan_verification_surfaces store id in
    let ahead : Ahead id p ds (map (λ a. a.activity_key) activities) surfaces verified rank ordered
        store =
      record {
        found = found;
        edges = refl;
        checks = refl;
        same_keys = refl;
        workable = workable;
      } in
    let end =
      ends id p ds (map (λ a. a.activity_key) activities) surfaces verified rank ordered times store
        ahead (keys_nonempty activities some_activity)
        (omega (arith, count-build (plan_columns p) activities ds surfaces, enough)) in
    (built_summary (work_off id times store) p id, end.0, end.1, end.2)
