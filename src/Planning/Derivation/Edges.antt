-- ===== src/Planning/Derivation/Edges.antt =====
-- What the loop over the dependencies of a derivation writes.
use paa_platform.Planning.Derivation.{write_dependencies, all, dependency_in, stopped}
use paa_platform.Planning.Derivation.Specs.{dependency_specs_from_blueprints, dependency_spec}
use mathlib.Core.Path.{subst}
use paa_platform.Prelude.{
  String, ◌≡◌, refl, sym, ap, ◌∙◌, true, false, ◌==◌, none, some, List, [], ◌∷◌, ◌++◌, map, Memᴰ,
  eq_iff, find, Bool-cases, Option-cases, absurd_some, inl, inr, member,
}
use paa_platform.Progress.Models.{ActivityRecord}
use paa_platform.Planning.Records.{
  ImplementationPlanActivityDependencyUpsertSpec, ImplementationPlanActivityBlueprint,
}
use paa_platform.Planning.Store.{
  has_key, get_implementation_plan_activity_by_key, put_edge,
  upsert_implementation_plan_activity_dependency,
}
use paa_platform.Planning.Store.Plans.{Store, Database}
use paa_platform.Planning.Store.Edges.{edge}
use paa_platform.Planning.Derivation.Keeps.{Keeps, Keeps-refl, Keeps-trans, upsert-Keeps}

-- A property of the head and of all members of the tail.
each_member :
    (P : ImplementationPlanActivityDependencyUpsertSpec → Type 0)
    (spec : ImplementationPlanActivityDependencyUpsertSpec)
    (specs : List ImplementationPlanActivityDependencyUpsertSpec)
    → P spec
    → ((s : ImplementationPlanActivityDependencyUpsertSpec) → Memᴰ s specs → P s)
    → (s : ImplementationPlanActivityDependencyUpsertSpec) → Memᴰ s (spec ∷ specs)
    → P s
each_member P spec specs here there s (Memᴰ.head e) = subst P (sym e) here
each_member P spec specs here there s (Memᴰ.tail m) = there s m

module _ (id : String) (db : Database) where
  -- The row of a specification, between two activities that are there.
  abbrev Made :
      List ActivityRecord → Store → ImplementationPlanActivityDependencyUpsertSpec → Type 0
  Made activities store spec =
      (a b : ActivityRecord)
      → find (has_key id spec.predecessor_activity_key) activities ≡ some a
      → find (has_key id spec.successor_activity_key) activities ≡ some b
      → edge id a.implementation_plan_activity_id b.implementation_plan_activity_id
          store.dependencies
        ≡ true

  -- The loop, where no write raises, keeps what is there and makes the row of each specification.
  pub written_all :
      (specs : List ImplementationPlanActivityDependencyUpsertSpec) (store store' : Store)
      → write_dependencies id db specs store ≡ all store'
      → Keeps store store'
        × ((spec : ImplementationPlanActivityDependencyUpsertSpec)
            → Memᴰ spec specs
            → Made store.activities store' spec)
  unfolding write_dependencies
  written_all [] store store' h = (
    subst (Keeps store) (let q : store ≡ store' = cc in q) (Keeps-refl store),
    λ spec m. elim m [ ],
  )
  written_all (spec ∷ specs) store store' h =
      elim (Option-cases
        (upsert_implementation_plan_activity_dependency (dependency_in id spec) db store)) [
          | inl e ↦
              let no : stopped store ≡ all store' = rw (e, write_dependencies) at h in absurd (cc)
          | inr (next, e) ↦
              let rest : write_dependencies id db specs next ≡ all store' =
                rw (e, write_dependencies) at h in
              let one = upsert-Keeps (dependency_in id spec) db store next e in
              let others = written_all specs next store' rest in
              (
                Keeps-trans one.0 others.0,
                each_member (Made store.activities store') spec specs
                    (λ a b f g.
                      others.0.edges id a.implementation_plan_activity_id
                        b.implementation_plan_activity_id (one.1 a b f g))
                    (λ s m. subst (λ rows. Made rows store' s) one.0.activities (others.1 s m)),
              )
        ]

  self_refused :
      (store : Store) (spec : ImplementationPlanActivityDependencyUpsertSpec) (a : ActivityRecord)
      → spec.predecessor_activity_key ≡ spec.successor_activity_key
      → find (has_key id spec.successor_activity_key) store.activities ≡ some a
      → upsert_implementation_plan_activity_dependency (dependency_in id spec) db store ≡ none
  unfolding upsert_implementation_plan_activity_dependency get_implementation_plan_activity_by_key
      put_edge
  self_refused store spec a same there =
      let first : find (has_key id spec.predecessor_activity_key) store.activities ≡ some a =
        subst (λ k. find (has_key id k) store.activities ≡ some a) (sym same) there in
      let i = a.implementation_plan_activity_id in
      rw (first, there, upsert_implementation_plan_activity_dependency) (rw ((eq_iff i i).1 refl))

  -- A write that did not raise was of another specification.
  later :
      (x : ImplementationPlanActivityDependencyUpsertSpec)
      (specs : List ImplementationPlanActivityDependencyUpsertSpec) (store next : Store)
      (spec : ImplementationPlanActivityDependencyUpsertSpec) (a : ActivityRecord)
      → upsert_implementation_plan_activity_dependency (dependency_in id x) db store ≡ some next
      → spec.predecessor_activity_key ≡ spec.successor_activity_key
      → find (has_key id spec.successor_activity_key) store.activities ≡ some a
      → Memᴰ spec (x ∷ specs)
      → Memᴰ spec specs
  later x specs store next spec a e same there (Memᴰ.head q) = absurd_some (
      sym (self_refused store spec a same there)
      ∙ subst
          (λ y.
            upsert_implementation_plan_activity_dependency (dependency_in id y) db store
            ≡ some next)
          (sym q) e)
  later x specs store next spec a e same there (Memᴰ.tail m) = m

  -- A specification that puts an activity before itself violates the CHECK: the loop stops, and the
  -- activities stay as they were written.
  pub self_stops :
      (specs : List ImplementationPlanActivityDependencyUpsertSpec) (store : Store)
      (spec : ImplementationPlanActivityDependencyUpsertSpec) (a : ActivityRecord)
      → Memᴰ spec specs
      → spec.predecessor_activity_key ≡ spec.successor_activity_key
      → find (has_key id spec.successor_activity_key) store.activities ≡ some a
      → (s : Store) × (write_dependencies id db specs store ≡ stopped s)
        × (s.activities ≡ store.activities)
  unfolding write_dependencies
  self_stops [] store spec a m same there = elim m [ ]
  self_stops (x ∷ specs) store spec a m same there =
      elim (Option-cases
        (upsert_implementation_plan_activity_dependency (dependency_in id x) db store)) [
          | inl e ↦ (store, rw (e, write_dependencies), refl)
          | inr (next, e) ↦
              let one = upsert-Keeps (dependency_in id x) db store next e in
              let m' : Memᴰ spec specs = later x specs store next spec a e same there m in
              let (s, stops, kept) = self_stops specs next spec a m' same (
                subst (λ rows. find (has_key id spec.successor_activity_key) rows ≡ some a)
                  (sym one.0.activities) there) in
              (s, rw (e, write_dependencies) stops, kept ∙ one.0.activities)
        ]

-- The specification of each predecessor of each blueprint is among those of the derivation.
module _ {A : Type 0} {x : A} where
  Memᴰ-left : (xs ys : List A) → Memᴰ x xs → Memᴰ x (xs ++ ys)
  Memᴰ-left [] ys m = elim m [ ]
  Memᴰ-left (y ∷ xs) ys (Memᴰ.head e) = Memᴰ.head e
  Memᴰ-left (y ∷ xs) ys (Memᴰ.tail m) = Memᴰ.tail (Memᴰ-left xs ys m)

  Memᴰ-right : (xs ys : List A) → Memᴰ x ys → Memᴰ x (xs ++ ys)
  Memᴰ-right [] ys m = m
  Memᴰ-right (y ∷ xs) ys m = Memᴰ.tail (Memᴰ-right xs ys m)

mapped_member :
    (f : String → ImplementationPlanActivityDependencyUpsertSpec) (p : String) (ps : List String)
    → member p ps ≡ true
    → Memᴰ (f p) (map f ps)
mapped_member f p [] h = absurd (let no : false ≡ true = h in cc)
mapped_member f p (q ∷ ps) h = elim (Bool-cases (p == q)) [
  | inl e ↦ Memᴰ.head (ap f ((eq_iff p q).0 e))
  | inr e ↦ Memᴰ.tail (mapped_member f p ps (rw e at h))
]

pub spec_member :
    (b : ImplementationPlanActivityBlueprint) (p : String)
    (bs : List ImplementationPlanActivityBlueprint)
    → Memᴰ b bs
    → member p b.predecessor_activity_keys ≡ true
    → Memᴰ (dependency_spec b p) (dependency_specs_from_blueprints bs)
unfolding dependency_specs_from_blueprints
spec_member b p [] m h = elim m [ ]
spec_member b p (c ∷ bs) (Memᴰ.head e) h =
    Memᴰ-left (map (dependency_spec c) c.predecessor_activity_keys)
      (dependency_specs_from_blueprints bs)
      (subst (λ x. Memᴰ (dependency_spec b p) (map (dependency_spec x) x.predecessor_activity_keys))
        e (mapped_member (dependency_spec b) p b.predecessor_activity_keys h))
spec_member b p (c ∷ bs) (Memᴰ.tail m) h =
    Memᴰ-right (map (dependency_spec c) c.predecessor_activity_keys)
      (dependency_specs_from_blueprints bs) (spec_member b p bs m h)
