-- ===== src/Planning/Derivation/Returns.antt =====
-- When a persisted derivation returns.
use mathlib.Core.Path.{subst}
use paa_platform.Prelude.{
  String, ◌≡◌, ◌↔◌, refl, sym, ap, ◌∙◌, true, false, ◌==◌, none, some, List, [], ◌∷◌, ◌++◌, map,
  Memᴰ, eq_iff, find, find-map, member, Bool-cases, Option-cases, absurd_some, inl, inr, if-true,
  Bool, ℤ, All, pos, ◌<◌, arith, negsuc,
}
use mathlib.Core.Option
use paa_platform.Progress.Models.{ActivityRecord}
use paa_platform.Planning.Records.{
  ImplementationPlanRecord, ImplementationPlanUpsertSpec, ImplementationPlanActivityBlueprint,
  ImplementationPlanDerivationRequest, ImplementationPlanDerivationResult,
}
use paa_platform.Planning.Store.{has_key, fits_integer}
use paa_platform.Planning.Store.Plans.{
  Store, Database, for_package, written_plans, update_plan, updated_plan, inserted_plan,
  plan_refused, upsert_implementation_plan, get_implementation_plan_for_design_package,
}
use paa_platform.Planning.Store.Activities.{FreshKeys, Keyed}
use paa_platform.Planning.Derivation.{
  returned, all, stopped, activity_specs, dependency_specs, derivation_result, write_activities,
  write_dependencies, persist_under, persist_plan, derive_plan,
}
use paa_platform.Planning.Derivation.Specs.{dependency_spec, activity_spec_from_blueprint}
use paa_platform.Planning.Derivation.Stored.{
  latest, After, put_all, put_all-Keyed, put_all-After, with_activities, Fitting,
  write_activities-all,
}
use paa_platform.Planning.Derivation.Edges.{self_stops, spec_member}
use paa_platform.Planning.Derivation.Persisted.{derive-Steps}
use paa_platform.Planning.Derivation.Passes.{NoSelf, all_pass, NoSelf-differ}

find-last :
    {A : Type 0} (p : A → Bool) (xs : List A) (y : A)
    → find p xs ≡ none
    → p y ≡ true
    → find p (xs ++ y ∷ []) ≡ some y
unfolding find
find-last p [] y h k = rw k
find-last p (x ∷ xs) y h k = elim (Bool-cases (p x)) [
  | inl e ↦ absurd_some (sym (rw e at h))
  | inr e ↦ rw e (find-last p xs y (rw e at h) k)
]

-- The plan of the specification is found after it was written.
module _ (spec : ImplementationPlanUpsertSpec) (db : Database) where
  abbrev own : ImplementationPlanRecord → Bool
  own = for_package spec.design_package_id spec.consumer_context_key

  own-update : (p : ImplementationPlanRecord) → own (update_plan spec db.now p) ≡ own p
  unfolding updated_plan
  own-update p = elim (Bool-cases (own p)) [ inl e ↦ rw e e | inr e ↦ rw e e ]

  own-inserted : own (inserted_plan spec db) ≡ true
  unfolding inserted_plan
  own-inserted =
      let d = spec.design_package_id in
      let c = spec.consumer_context_key in
      let p : (d == d) ≡ true = (eq_iff d d).1 refl in
      let q : (c == c) ≡ true = (eq_iff c c).1 refl in rw (p, q)

  plan_found :
      (plans : List ImplementationPlanRecord)
      → (plan : ImplementationPlanRecord) × (find own (written_plans spec db plans) ≡ some plan)
  unfolding written_plans
  plan_found plans = elim (Option-cases (find own plans)) [
    | inl e ↦ (
      inserted_plan spec db,
      rw (e, written_plans) (find-last own plans (inserted_plan spec db) e own-inserted),
    )
    | inr (p, e) ↦ (
      update_plan spec db.now p,
      rw (e, written_plans)
          (find-map own (update_plan spec db.now) own-update plans
            ∙ ap (Option.map (update_plan spec db.now)) e),
    )
  ]

latest_member :
    (b : ImplementationPlanActivityBlueprint) (bs : List ImplementationPlanActivityBlueprint)
    → Memᴰ b bs
    → (c : ImplementationPlanActivityBlueprint) × (latest b.activity_key bs ≡ some c)
unfolding latest
latest_member b [] m = elim m [ ]
latest_member b (x ∷ bs) (Memᴰ.head e) = elim (Option-cases (latest b.activity_key bs)) [
  | inr (c, l) ↦ (c, rw (l, latest))
  | inl l ↦
      let same : (x.activity_key == b.activity_key) ≡ true =
        (eq_iff x.activity_key b.activity_key).1
          (sym (ap (λ (y : ImplementationPlanActivityBlueprint). y.activity_key) e)) in
      (x, rw (l, latest) (rw same))
]
latest_member b (x ∷ bs) (Memᴰ.tail m) = let (c, l) = latest_member b bs m in (c, rw (l, latest))

-- The row of a blueprint is there after the loop over the activities.
pub row_of :
    (id : String) (db : Database) (b : ImplementationPlanActivityBlueprint)
    (bs : List ImplementationPlanActivityBlueprint) (rows : List ActivityRecord)
    → Memᴰ b bs
    → (a : ActivityRecord) × (find
          (has_key id b.activity_key)
          (put_all id db (map activity_spec_from_blueprint bs) rows)
        ≡ some a)
row_of id db b bs rows m =
    let (c, l) = latest_member b bs m in
    let after : After id b.activity_key rows
        (put_all id db (map activity_spec_from_blueprint bs) rows) (some c) =
      subst
        (After id b.activity_key rows (put_all id db (map activity_spec_from_blueprint bs) rows)) l
        (put_all-After id db b.activity_key bs rows) in
    (after.0, after.1)

-- An order that an INTEGER column holds: from -2147483648 to 2147483647.
abbrev pub InRange : ℤ → Type 0
InRange (pos n) = n < 2147483648
InRange (negsuc n) = n < 2147483648

fits_iff : (z : ℤ) → (fits_integer z ≡ true) ↔ InRange z
fits_iff (pos n) = ((λ h. ground (arith, h)), λ h. ground (arith, h))
fits_iff (negsuc n) = ((λ h. ground (arith, h)), λ h. ground (arith, h))

abbrev pub OrdersFit : List ImplementationPlanActivityBlueprint → Type 0
OrdersFit = All (λ b. InRange b.sequence_order)

Fitting-OrdersFit :
    (bs : List ImplementationPlanActivityBlueprint)
    → Fitting (map activity_spec_from_blueprint bs) ↔ OrdersFit bs
unfolding activity_spec_from_blueprint
Fitting-OrdersFit [] = ((λ h. tt), λ h. tt)
Fitting-OrdersFit (b ∷ bs) =
    let one = fits_iff b.sequence_order in
    let rest = Fitting-OrdersFit bs in
    ((λ h. (one.0 h.0, rest.0 h.1)), λ h. (one.1 h.0, rest.1 h.1))

module _ (request : ImplementationPlanDerivationRequest) (db : Database) (store : Store)
    (persist : request.persist ≡ true) where
  -- The call returns.
  abbrev pub Returns : Type 0
  Returns =
      (result : ImplementationPlanDerivationResult) × (store' : Store) × (derive_plan request db
          store
        ≡ returned result store')

  returns-NoSelf : Returns → NoSelf request.activity_blueprints
  unfolding dependency_spec
  returns-NoSelf (result, store', h) b m =
      let st = derive-Steps request db store persist result store' h in
      let k = b.activity_key in
      let id = st.plan.implementation_plan_id in
      elim (Bool-cases (member k b.predecessor_activity_keys)) [
        | inr e ↦ e
        | inl e ↦
            let (a, there) = row_of id db b request.activity_blueprints st.planned.activities m in
            let (s, stops, kept) =
              self_stops id db (dependency_specs request)
                (with_activities id db (activity_specs request) st.planned) (dependency_spec b k) a
                (spec_member b k request.activity_blueprints m e) refl there in
            let no : all store' ≡ stopped s = sym st.wrote ∙ stops in absurd (cc)
      ]

  returns-accepted : Returns → plan_refused request.plan store ≡ false
  unfolding upsert_implementation_plan
  returns-accepted (result, store', h) =
      let st = derive-Steps request db store persist result store' h in
      elim (Bool-cases (plan_refused request.plan store)) [
        | inr e ↦ e
        | inl e ↦ absurd_some (rw e at st.upserted)
      ]

  persisted_plan :
      (planned : Store) (plan : ImplementationPlanRecord) (store' : Store)
      → upsert_implementation_plan request.plan db store ≡ some planned
      → get_implementation_plan_for_design_package planned request.plan.design_package_id
          request.plan.consumer_context_key
        ≡ some plan
      → write_activities plan.implementation_plan_id db (activity_specs request) planned
        ≡ all (with_activities plan.implementation_plan_id db (activity_specs request) planned)
      → write_dependencies plan.implementation_plan_id db
          (dependency_specs request)
          (with_activities plan.implementation_plan_id db (activity_specs request) planned)
        ≡ all store'
      → persist_plan request db store ≡ returned (derivation_result request plan true) store'
  unfolding persist_plan persist_under
  persisted_plan planned plan store' upserted found filled wrote =
      rw (upserted, found, persist_plan) (rw (filled, persist_under) (rw wrote))

  returns_when :
      FreshKeys db
      → Keyed db store.activities
      → plan_refused request.plan store ≡ false
      → OrdersFit request.activity_blueprints
      → NoSelf request.activity_blueprints
      → Returns
  unfolding derive_plan upsert_implementation_plan get_implementation_plan_for_design_package
  returns_when fresh keyed accepted fit none_self =
      let planned = record store { plans = written_plans request.plan db store.plans } in
      let (plan, found) = plan_found request.plan db store.plans in
      let id = plan.implementation_plan_id in
      let filled = with_activities id db (activity_specs request) planned in
      let (store', wrote) =
        all_pass db fresh id (dependency_specs request) filled
          (put_all-Keyed id db (activity_specs request) store.activities keyed)
          (NoSelf-differ request.activity_blueprints none_self) in
      (
        derivation_result request plan true,
        store',
        if-true (persist_plan request db store) _ persist
            ∙ persisted_plan planned plan store' (rw (accepted, upsert_implementation_plan)) found
                (write_activities-all id db (activity_specs request) planned
                  ((Fitting-OrdersFit request.activity_blueprints).1 fit))
                wrote,
      )

  returns-OrdersFit : Returns → OrdersFit request.activity_blueprints
  returns-OrdersFit (result, store', h) =
      (Fitting-OrdersFit request.activity_blueprints).0
        (derive-Steps request db store persist result store' h).fitting

  -- A persisted derivation returns if and only if the row of the plan has a work item and a target and
  -- no other plan holds its external id, each activity has a sequence order that an INTEGER column holds,
  -- and no activity is its own predecessor. The keys that the database generates are distinct, and each
  -- activity row has the key generated for it. The casts are not looked at: ids are texts that `::uuid`
  -- accepts and kinds, states and statuses are those of their enums, and foreign keys hold.
  pub returns_iff :
      FreshKeys db
      → Keyed db store.activities
      → Returns ↔ (
          (plan_refused request.plan store ≡ false)
          × OrdersFit request.activity_blueprints
          × NoSelf request.activity_blueprints)
  returns_iff fresh keyed = (
    (λ r. (returns-accepted r, returns-OrdersFit r, returns-NoSelf r)),
    λ h. returns_when fresh keyed h.0 h.1 h.2,
  )
