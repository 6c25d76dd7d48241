-- ===== src/Planning/Derivation/Passes.antt =====
-- Dependencies between different activities are written without an error.
use mathlib.Core.Path.{subst}
use paa_platform.Prelude.{
  String, ◌≡◌, ◌≢◌, refl, sym, ap, ◌∙◌, true, false, ◌==◌, some, List, [], ◌∷◌, ◌++◌, map, Memᴰ,
  arith, eq_iff, find, member, Bool-cases, Option-cases, inl, inr, ◌⊎◌,
}
use paa_platform.Planning.Records.{
  ImplementationPlanActivityBlueprint, ImplementationPlanActivityDependencyUpsertSpec,
}
use paa_platform.Planning.Store.{
  has_key, put_edge, put_dependency, get_implementation_plan_activity_by_key,
  upsert_implementation_plan_activity_dependency,
}
use paa_platform.Planning.Store.Plans.{Store, Database}
use paa_platform.Planning.Store.Activities.{FreshKeys, Keyed, id_of_key}
use paa_platform.Planning.Derivation.{all, dependency_in, write_dependencies}
use paa_platform.Planning.Derivation.Specs.{dependency_specs_from_blueprints, dependency_spec}
use paa_platform.Planning.Derivation.Keeps.{upsert-Keeps}

-- No activity is its own predecessor.
abbrev pub NoSelf : List ImplementationPlanActivityBlueprint → Type 0
NoSelf bs =
    (b : ImplementationPlanActivityBlueprint)
    → Memᴰ b bs
    → member b.activity_key b.predecessor_activity_keys ≡ false

-- Between different activities no CHECK is violated.
module _ (db : Database) (fresh : FreshKeys db) (id : String) where
  upsert_passes :
      (spec : ImplementationPlanActivityDependencyUpsertSpec) (store : Store)
      → Keyed db store.activities
      → spec.predecessor_activity_key ≢ spec.successor_activity_key
      → (next : Store) × (upsert_implementation_plan_activity_dependency
            (dependency_in id spec)
            db
            store
          ≡ some next)
  unfolding upsert_implementation_plan_activity_dependency get_implementation_plan_activity_by_key
      put_edge
  upsert_passes spec store keyed differ =
      let p = spec.predecessor_activity_key in
      let s = spec.successor_activity_key in
      elim (Option-cases (find (has_key id p) store.activities)) [
        | inl e ↦ (store, rw (e, upsert_implementation_plan_activity_dependency))
        | inr (a, e) ↦ elim (Option-cases (find (has_key id s) store.activities)) [
          | inl d ↦ (store, rw (e, d, upsert_implementation_plan_activity_dependency))
          | inr (b, d) ↦
              let first = id_of_key db id p store.activities a keyed e in
              let second = id_of_key db id s store.activities b keyed d in
              elim (Bool-cases
                (a.implementation_plan_activity_id == b.implementation_plan_activity_id)) [
                  | inl q ↦
                      let same : a.implementation_plan_activity_id
                          ≡ b.implementation_plan_activity_id =
                        (eq_iff a.implementation_plan_activity_id
                            b.implementation_plan_activity_id).0
                          q in
                      absurd (differ (fresh id p id s (sym first.0 ∙ same ∙ second.0)).1)
                  | inr q ↦ (
                    record store {
                      dependencies =
                          put_dependency (dependency_in id spec) db
                            a.implementation_plan_activity_id b.implementation_plan_activity_id
                            store.dependencies;
                    },
                    rw (e, d, upsert_implementation_plan_activity_dependency) (rw q refl),
                  )
                ]
        ]
      ]

  pub all_pass :
      (specs : List ImplementationPlanActivityDependencyUpsertSpec) (store : Store)
      → Keyed db store.activities
      → ((spec : ImplementationPlanActivityDependencyUpsertSpec)
          → Memᴰ spec specs
          → spec.predecessor_activity_key ≢ spec.successor_activity_key)
      → (store' : Store) × (write_dependencies id db specs store ≡ all store')
  unfolding write_dependencies
  all_pass [] store keyed differ = (store, refl)
  all_pass (spec ∷ specs) store keyed differ =
      let (next, e) = upsert_passes spec store keyed (differ spec (Memᴰ.head refl)) in
      let one = upsert-Keeps (dependency_in id spec) db store next e in
      let (store', rest) =
        all_pass specs next (subst (Keyed db) (sym one.0.activities) keyed)
          (λ s m. differ s (Memᴰ.tail m)) in
      (store', rw (e, write_dependencies) rest)

Memᴰ-split : {A : Type 0} {x : A} (xs ys : List A) → Memᴰ x (xs ++ ys) → Memᴰ x xs ⊎ Memᴰ x ys
Memᴰ-split [] ys m = inr m
Memᴰ-split (y ∷ xs) ys (Memᴰ.head e) = inl (Memᴰ.head e)
Memᴰ-split (y ∷ xs) ys (Memᴰ.tail m) = elim (Memᴰ-split xs ys m) [
  | inl n ↦ inl (Memᴰ.tail n)
  | inr n ↦ inr n
]

-- Where a specification of the derivation comes from.
record Origin (bs : List ImplementationPlanActivityBlueprint)
    (spec : ImplementationPlanActivityDependencyUpsertSpec) : Type 0 where
  blueprint : ImplementationPlanActivityBlueprint
  key : String
  among : Memᴰ blueprint bs
  named : member key blueprint.predecessor_activity_keys ≡ true
  same : spec ≡ dependency_spec blueprint key

spec_of_map :
    (b : ImplementationPlanActivityBlueprint) (ps : List String)
    (spec : ImplementationPlanActivityDependencyUpsertSpec)
    → Memᴰ spec (map (dependency_spec b) ps)
    → (p : String) × (member p ps ≡ true) × (spec ≡ dependency_spec b p)
spec_of_map b [] spec m = elim m [ ]
spec_of_map b (p ∷ ps) spec (Memᴰ.head e) = (p, ground (arith, eq_iff p p), e)
spec_of_map b (p ∷ ps) spec (Memᴰ.tail m) =
    let (q, h, e) = spec_of_map b ps spec m in (q, ground (arith, h), e)

spec-Origin :
    (bs : List ImplementationPlanActivityBlueprint)
    (spec : ImplementationPlanActivityDependencyUpsertSpec)
    → Memᴰ spec (dependency_specs_from_blueprints bs)
    → Origin bs spec
unfolding dependency_specs_from_blueprints
spec-Origin [] spec m = elim m [ ]
spec-Origin (b ∷ bs) spec m =
    elim (Memᴰ-split (map (dependency_spec b) b.predecessor_activity_keys)
      (dependency_specs_from_blueprints bs) m) [
        | inl n ↦
            let (p, h, e) = spec_of_map b b.predecessor_activity_keys spec n in
            record { blueprint = b; key = p; among = Memᴰ.head refl; named = h; same = e }
        | inr n ↦
            let o = spec-Origin bs spec n in
            record {
              blueprint = o.blueprint;
              key = o.key;
              among = Memᴰ.tail o.among;
              named = o.named;
              same = o.same;
            }
      ]

-- Without an activity that is its own predecessor every specification is between two keys.
pub NoSelf-differ :
    (bs : List ImplementationPlanActivityBlueprint)
    → NoSelf bs
    → (spec : ImplementationPlanActivityDependencyUpsertSpec)
    → Memᴰ spec (dependency_specs_from_blueprints bs)
    → spec.predecessor_activity_key ≢ spec.successor_activity_key
unfolding dependency_spec
NoSelf-differ bs none_self spec m e =
    let o = spec-Origin bs spec m in
    let p : spec.predecessor_activity_key ≡ o.key =
      ap (λ (x : ImplementationPlanActivityDependencyUpsertSpec). x.predecessor_activity_key)
        o.same in
    let q : spec.successor_activity_key ≡ o.blueprint.activity_key =
      ap (λ (x : ImplementationPlanActivityDependencyUpsertSpec). x.successor_activity_key)
        o.same in
    let own : member o.blueprint.activity_key o.blueprint.predecessor_activity_keys ≡ true =
      subst (λ k. member k o.blueprint.predecessor_activity_keys ≡ true) (sym p ∙ e ∙ q) o.named in
    let no : true ≡ false = sym own ∙ none_self o.blueprint o.among in cc
