-- ===== src/Planning/Derivation/Order.antt =====
-- The order of the activities: what the derivation stores of the predecessors of the blueprints, and
-- what the progress of the stored plan makes of it.
use mathlib.Core.Path.{subst, subst₂}
use paa_platform.Prelude.{String, ◌≡◌, sym, ap, ◌∙◌, true, some, Memᴰ, List, find, member}
use paa_platform.Progress.Models.{ActivityRecord, ProgressSummary}
use paa_platform.Progress.Summary.Next.{next-Ready}
use paa_platform.Progress.Next.Executable.{precedes}
use paa_platform.Progress.Service.{summarize_plan_progress}
use paa_platform.Planning.Records.{
  ImplementationPlanActivityBlueprint, ImplementationPlanDerivationRequest,
  ImplementationPlanDerivationResult,
}
use paa_platform.Planning.Store.{has_key}
use paa_platform.Planning.Store.Plans.{Store, Database}
use paa_platform.Planning.Store.Listing.{
  has_activity_id, plan_columns, plan_repository, list_implementation_plan_activity_dependencies,
  list_implementation_plan_activities, list_implementation_plan_verification_surfaces,
}
use paa_platform.Planning.Store.Summary.{summary_of}
use paa_platform.Planning.Store.Activities.{FreshKeys, Keyed, find_by_id, id_of_key}
use paa_platform.Planning.Store.Edges.{listed_edge}
use paa_platform.Planning.Derivation.{
  returned, activity_specs, dependency_specs, derivation_result, derive_plan,
}
use paa_platform.Planning.Derivation.Specs.{dependency_spec}
use paa_platform.Planning.Derivation.Stored.{put_all-Keyed, with_activities}
use paa_platform.Planning.Derivation.Edges.{written_all, spec_member}
use paa_platform.Planning.Derivation.Persisted.{Steps, derive-Steps, upsert_plan-keeps}
use paa_platform.Planning.Derivation.Returns.{row_of}

-- The row of a key is found by its id too.
by_id :
    (db : Database)
    → FreshKeys db
    → (id key : String) (rows : List ActivityRecord) (a : ActivityRecord) → Keyed db rows
    → find (has_key id key) rows ≡ some a
    → find (has_activity_id a.implementation_plan_activity_id) rows ≡ some a
by_id db fresh id key rows a keyed h =
    let own = id_of_key db id key rows a keyed h in
    subst (λ i. find (has_activity_id i) rows ≡ some a) (sym own.0)
      (find_by_id db fresh id key rows keyed ∙ h)

module _ (request : ImplementationPlanDerivationRequest) (db : Database) (store : Store)
    (persist : request.persist ≡ true) (fresh : FreshKeys db)
    (keyed : Keyed db store.activities) where
  module _ (result : ImplementationPlanDerivationResult) (store' : Store)
      (st : Steps request db store result store') where
    abbrev plan_id : String
    plan_id = st.plan.implementation_plan_id

    abbrev filled : Store
    filled = with_activities plan_id db (activity_specs request) st.planned

    filled-Keyed : Keyed db filled.activities
    filled-Keyed =
        let begin : st.planned.activities ≡ store.activities =
          ap (λ (t : Store). t.activities)
            (upsert_plan-keeps request db store st.planned st.upserted) in
        put_all-Keyed plan_id db (activity_specs request) st.planned.activities
          (subst (Keyed db) (sym begin) keyed)

    filled_row :
        (b : ImplementationPlanActivityBlueprint)
        → Memᴰ b request.activity_blueprints
        → (a : ActivityRecord) × (find (has_key plan_id b.activity_key) filled.activities ≡ some a)
    filled_row b m = row_of plan_id db b request.activity_blueprints st.planned.activities m

    steps_precede :
        (b q : ImplementationPlanActivityBlueprint)
        → Memᴰ b request.activity_blueprints
        → Memᴰ q request.activity_blueprints
        → member q.activity_key b.predecessor_activity_keys ≡ true
        → precedes q.activity_key b.activity_key
            (list_implementation_plan_activity_dependencies store' plan_id)
          ≡ true
    unfolding dependency_spec
    steps_precede b q m n named =
        let wrote = written_all plan_id db (dependency_specs request) filled store' st.wrote in
        let (a, first) = filled_row q n in
        let (c, second) = filled_row b m in
        let made =
          wrote.1 (dependency_spec b q.activity_key)
            (spec_member b q.activity_key request.activity_blueprints m named) a c first second in
        let there : (k : String) (x : ActivityRecord)
            → find (has_key plan_id k) filled.activities ≡ some x
            → find (has_activity_id x.implementation_plan_activity_id) store'.activities ≡ some x =
          λ k x h.
            ap (find (has_activity_id x.implementation_plan_activity_id)) wrote.0.activities
            ∙ by_id db fresh plan_id k filled.activities x filled-Keyed h in
        let listed =
          listed_edge store' plan_id a.implementation_plan_activity_id
            c.implementation_plan_activity_id a c (there q.activity_key a first)
            (there b.activity_key c second) made in
        subst₂
          (λ x y.
            precedes x y (list_implementation_plan_activity_dependencies store' plan_id) ≡ true)
          (id_of_key db plan_id q.activity_key filled.activities a filled-Keyed first).1
          (id_of_key db plan_id b.activity_key filled.activities c filled-Keyed second).1 listed

  -- After a persisted derivation that returned, the list of the plan's dependencies puts each
  -- blueprint that another one names among its predecessors before it.
  pub derive-precedes :
      (result : ImplementationPlanDerivationResult) (store' : Store)
      → derive_plan request db store ≡ returned result store'
      → (b q : ImplementationPlanActivityBlueprint) → Memᴰ b request.activity_blueprints
      → Memᴰ q request.activity_blueprints
      → member q.activity_key b.predecessor_activity_keys ≡ true
      → precedes q.activity_key b.activity_key (
          list_implementation_plan_activity_dependencies store'
            result.plan_record.implementation_plan_id)
        ≡ true
  unfolding derivation_result
  derive-precedes result store' h b q m n named =
      let st = derive-Steps request db store persist result store' h in
      subst
        (λ (r : ImplementationPlanDerivationResult).
          precedes q.activity_key b.activity_key (
            list_implementation_plan_activity_dependencies store'
              r.plan_record.implementation_plan_id)
          ≡ true)
        (sym st.same_result) (steps_precede result store' st b q m n named)

-- Where the list of dependencies puts a key before the next activity of a summary over the tables, the
-- summary lists it as completed.
pub next-done :
    (store : Store) (id : String) (s : ProgressSummary) (k p : String)
    → summarize_plan_progress (plan_repository store) id ≡ some s
    → s.next_activity_key ≡ some k
    → precedes p k (list_implementation_plan_activity_dependencies store id) ≡ true
    → member p s.completed_activity_keys ≡ true
next-done store id s k p summary next before =
    let (plan, built) = summary_of store id s summary in
    let dependencies = list_implementation_plan_activity_dependencies store id in
    let (a, key, mem, ready) =
      next-Ready (plan_columns plan) (list_implementation_plan_activities store id) dependencies
        (list_implementation_plan_verification_surfaces store id) k
        (ap (λ (t : ProgressSummary). t.next_activity_key) built ∙ next) in
    let done =
      ready.done_before p (subst (λ j. precedes p j dependencies ≡ true) (sym key) before) in
    subst (λ (t : ProgressSummary). member p t.completed_activity_keys ≡ true) built done
