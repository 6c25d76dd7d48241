-- ===== src/Planning/Derivation/Keeps.antt =====
-- What one write of a dependency leaves alone, and what it makes.
use mathlib.Core.Path.{subst, subst₂}
use paa_platform.Prelude.{
  String, ◌≡◌, refl, sym, ◌∙◌, true, ◌==◌, some, arith, eq_iff, find, Bool-cases, Option-cases,
  absurd_some, inl, inr,
}
use paa_platform.Progress.Models.{ActivityRecord}
use paa_platform.Planning.Records.{ImplementationPlanActivityDependencyUpsertSpec}
use paa_platform.Planning.Store.{
  has_key, get_implementation_plan_activity_by_key, put_edge,
  upsert_implementation_plan_activity_dependency, put_dependency,
}
use paa_platform.Planning.Store.Plans.{Store, Database}
use paa_platform.Planning.Store.Edges.{edge, edge-put_dependency}

-- What a write of dependencies leaves alone: all but the dependency rows, and of those none is lost.
pub record Keeps (store store' : Store) : Type 0 where
  pub plans : store'.plans ≡ store.plans
  pub activities : store'.activities ≡ store.activities
  pub surfaces : store'.surfaces ≡ store.surfaces
  pub edges :
      (id p s : String)
      → edge id p s store.dependencies ≡ true
      → edge id p s store'.dependencies ≡ true

pub Keeps-refl : (store : Store) → Keeps store store
Keeps-refl store = record {
  plans = refl;
  activities = refl;
  surfaces = refl;
  edges = λ id p s h. h;
}

pub Keeps-trans : {s t u : Store} → Keeps s t → Keeps t u → Keeps s u
Keeps-trans h k = record {
  plans = k.plans ∙ h.plans;
  activities = k.activities ∙ h.activities;
  surfaces = k.surfaces ∙ h.surfaces;
  edges = λ id p s e. k.edges id p s (h.edges id p s e);
}

module _ (spec : ImplementationPlanActivityDependencyUpsertSpec) (db : Database) where
  put_edge-Keeps :
      (store : Store) (a b : ActivityRecord) (next : Store)
      → put_edge spec db store a b ≡ some next
      → Keeps store next
        × (edge spec.implementation_plan_id a.implementation_plan_activity_id
              b.implementation_plan_activity_id next.dependencies
            ≡ true)
  unfolding put_edge
  put_edge-Keeps store a b next h =
      let i = a.implementation_plan_activity_id in
      let j = b.implementation_plan_activity_id in
      elim (Bool-cases (i == j)) [
        | inl e ↦ absurd_some (rw e at h)
        | inr e ↦
            let made = record store {
              dependencies = put_dependency spec db i j store.dependencies;
            } in
            let same : some made ≡ some next = rw e at h in
            subst
              (λ (t : Store).
                Keeps store t × (edge spec.implementation_plan_id i j t.dependencies ≡ true))
              (let q : made ≡ next = cc in q)
              (
                record {
                  plans = refl;
                  activities = refl;
                  surfaces = refl;
                  edges = λ id p s k.
                      edge-put_dependency spec db i j id p s store.dependencies ∙ ground (arith, k);
                },
                edge-put_dependency spec db i j spec.implementation_plan_id i j store.dependencies
                    ∙ ground (
                      arith,
                      eq_iff i i,
                      eq_iff j j,
                      eq_iff spec.implementation_plan_id spec.implementation_plan_id,
                    ),
              )
      ]

  -- One write keeps what is there, and makes the row between two activities that are there.
  pub upsert-Keeps :
      (store next : Store)
      → upsert_implementation_plan_activity_dependency spec db store ≡ some next
      → Keeps store next
        × ((a b : ActivityRecord)
            → find
                (has_key spec.implementation_plan_id spec.predecessor_activity_key)
                store.activities
              ≡ some a
            → find
                (has_key spec.implementation_plan_id spec.successor_activity_key)
                store.activities
              ≡ some b
            → edge spec.implementation_plan_id a.implementation_plan_activity_id
                b.implementation_plan_activity_id next.dependencies
              ≡ true)
  unfolding upsert_implementation_plan_activity_dependency get_implementation_plan_activity_by_key
  upsert-Keeps store next h =
      let id = spec.implementation_plan_id in
      let first = find (has_key id spec.predecessor_activity_key) store.activities in
      let second = find (has_key id spec.successor_activity_key) store.activities in
      elim (Option-cases first) [
        | inl e ↦
            let same : some store ≡ some next =
              rw (e, upsert_implementation_plan_activity_dependency) at h in
            (
              subst (Keeps store) (let q : store ≡ next = cc in q) (Keeps-refl store),
              λ a b f g. absurd_some (sym e ∙ f),
            )
        | inr (a, e) ↦ elim (Option-cases second) [
          | inl d ↦
              let same : some store ≡ some next =
                rw (e, d, upsert_implementation_plan_activity_dependency) at h in
              (
                subst (Keeps store) (let q : store ≡ next = cc in q) (Keeps-refl store),
                λ a b f g. absurd_some (sym d ∙ g),
              )
          | inr (b, d) ↦
              let put : put_edge spec db store a b ≡ some next =
                rw (e, d, upsert_implementation_plan_activity_dependency) at h in
              let k = put_edge-Keeps store a b next put in
              (
                k.0,
                λ a' b' f g.
                    let same_a : a ≡ a' = (let q : some a ≡ some a' = sym e ∙ f in cc) in
                    let same_b : b ≡ b' = (let q : some b ≡ some b' = sym d ∙ g in cc) in
                    subst₂
                      (λ (x : ActivityRecord) (y : ActivityRecord).
                        edge id x.implementation_plan_activity_id y.implementation_plan_activity_id
                          next.dependencies
                        ≡ true)
                      same_a same_b k.1,
              )
        ]
      ]
