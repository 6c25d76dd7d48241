-- ===== src/Planning/Updates/Ordered.antt =====
-- The order of a derived plan while its activities make progress.
use paa_platform.Prelude.{String, ◌≡◌, refl, ap, ◌∙◌, true, some, List, [], ◌∷◌, Memᴰ, member}
use paa_platform.Progress.Models.{ProgressSummary}
use paa_platform.Progress.Next.Executable.{precedes}
use paa_platform.Progress.Service.{summarize_plan_progress}
use paa_platform.Planning.Records.{
  ImplementationPlanActivityBlueprint, ImplementationPlanDerivationRequest,
  ImplementationPlanDerivationResult, ImplementationPlanActivityStateUpdateSpec,
}
use paa_platform.Planning.Store.Plans.{Store, Database}
use paa_platform.Planning.Store.Listing.{
  plan_repository, list_implementation_plan_activity_dependencies,
}
use paa_platform.Planning.Store.Activities.{FreshKeys, Keyed}
use paa_platform.Planning.Derivation.{returned, derive_plan}
use paa_platform.Planning.Derivation.Order.{derive-precedes, next-done}
use paa_platform.Planning.Updates.{set_states, set_implementation_plan_activity_state}
use paa_platform.Planning.Updates.Kept.{set_state-kept}

dependencies_kept :
    (us : List (ImplementationPlanActivityStateUpdateSpec × String)) (store : Store) (id : String)
    → list_implementation_plan_activity_dependencies (set_states us store) id
      ≡ list_implementation_plan_activity_dependencies store id
unfolding set_states
dependencies_kept [] store id = refl
dependencies_kept (u ∷ us) store id =
    dependencies_kept us (set_implementation_plan_activity_state u.0 u.1 store) id
    ∙ (set_state-kept u.0 u.1 store).0 id

module _ (request : ImplementationPlanDerivationRequest) (db : Database) (store : Store)
    (persist : request.persist ≡ true) (fresh : FreshKeys db)
    (keyed : Keyed db store.activities) where
  -- A plan that a persisted derivation stored keeps its order through any sequence of updates of
  -- activity states: its progress names an activity as the next one only when each activity that a
  -- blueprint of that key names as a predecessor, and that has a blueprint itself, is listed as
  -- completed. The keys that the database generates are distinct, and each activity row has the key
  -- generated for it.
  pub next_after_predecessors :
      (result : ImplementationPlanDerivationResult) (derived : Store)
      → derive_plan request db store ≡ returned result derived
      → (us : List (ImplementationPlanActivityStateUpdateSpec × String)) (s : ProgressSummary)
        (b q : ImplementationPlanActivityBlueprint)
      → summarize_plan_progress
          (plan_repository (set_states us derived))
          result.plan_record.implementation_plan_id
        ≡ some s
      → s.next_activity_key ≡ some b.activity_key
      → Memᴰ b request.activity_blueprints
      → Memᴰ q request.activity_blueprints
      → member q.activity_key b.predecessor_activity_keys ≡ true
      → member q.activity_key s.completed_activity_keys ≡ true
  next_after_predecessors result derived h us s b q summary next m n named =
      let id = result.plan_record.implementation_plan_id in
      next-done (set_states us derived) id s b.activity_key q.activity_key summary next (
        ap (precedes q.activity_key b.activity_key) (dependencies_kept us derived id)
        ∙ derive-precedes request db store persist fresh keyed result derived h b q m n named)
