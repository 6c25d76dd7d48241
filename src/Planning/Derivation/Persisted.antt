-- ===== src/Planning/Derivation/Persisted.antt =====
-- What a persisted derivation leaves behind, and when it raises.
use mathlib.Core.Path.{subst}
use paa_platform.Prelude.{
  String, ◌≡◌, ◌≢◌, refl, sym, ap, ◌∙◌, true, false, ◌==◌, some, arith, eq_iff, find, Bool-cases,
  Option-cases, inl, inr, ◌⊎◌, if-true,
}
use paa_platform.Planning.Records.{
  ImplementationPlanRecord, ImplementationPlanDerivationRequest, ImplementationPlanDerivationResult,
}
use paa_platform.Planning.Store.{has_key}
use paa_platform.Planning.Store.Plans.{
  Store, Database, for_package, written_plans, upsert_implementation_plan,
  get_implementation_plan_for_design_package,
}
use paa_platform.Planning.Store.Edges.{edge}
use paa_platform.Planning.Derivation.{
  returned, raised, Written, all, stopped, activity_specs, dependency_specs, derivation_result,
  write_activities, write_dependencies, persist_under, persist_plan, derive_plan,
}
use paa_platform.Planning.Derivation.Stored.{
  latest, put_all, with_activities, Fitting, write_activities-all, write_activities-Fitting, After,
  put_all-After, put_all-other,
}
use paa_platform.Planning.Derivation.Edges.{written_all}
use paa_platform.Planning.Derivation.Keeps.{Keeps}

-- The tables after a persisted derivation that returned `result`. The verification surfaces of the
-- request are in the result and are not written.
pub record Persisted (request : ImplementationPlanDerivationRequest) (store : Store)
    (result : ImplementationPlanDerivationResult) (store' : Store) : Type 0 where
  pub found :
      get_implementation_plan_for_design_package store' request.plan.design_package_id
        request.plan.consumer_context_key
      ≡ some result.plan_record
  pub flagged : result.persisted ≡ true
  pub activities :
      (k : String)
      → After result.plan_record.implementation_plan_id k store.activities store'.activities
          (latest k request.activity_blueprints)
  pub others :
      (p k : String)
      → p ≢ result.plan_record.implementation_plan_id
      → find (has_key p k) store'.activities ≡ find (has_key p k) store.activities
  pub edges :
      (id p s : String)
      → edge id p s store.dependencies ≡ true
      → edge id p s store'.dependencies ≡ true
  pub surfaces : store'.surfaces ≡ store.surfaces

-- How far a persisted derivation that returned has come.
pub record Steps (request : ImplementationPlanDerivationRequest) (db : Database) (store : Store)
    (result : ImplementationPlanDerivationResult) (store' : Store) : Type 0 where
  pub plan : ImplementationPlanRecord
  pub planned : Store
  pub upserted : upsert_implementation_plan request.plan db store ≡ some planned
  pub found :
      get_implementation_plan_for_design_package planned request.plan.design_package_id
        request.plan.consumer_context_key
      ≡ some plan
  pub same_result : result ≡ derivation_result request plan true
  pub wrote :
      write_dependencies plan.implementation_plan_id db
        (dependency_specs request)
        (with_activities plan.implementation_plan_id db (activity_specs request) planned)
      ≡ all store'
  pub fitting : Fitting (activity_specs request)

-- The upsert of the plan leaves the other tables alone.
pub upsert_plan-keeps :
    (request : ImplementationPlanDerivationRequest) (db : Database) (store planned : Store)
    → upsert_implementation_plan request.plan db store ≡ some planned
    → planned ≡ record store { plans = written_plans request.plan db store.plans }
unfolding upsert_implementation_plan
upsert_plan-keeps request db store planned h = ground (arith, h)

written_cases : (w : Written) → ((s : Store) × (w ≡ all s)) ⊎ ((s : Store) × (w ≡ stopped s))
written_cases (all s) = inl (s, refl)
written_cases (stopped s) = inr (s, refl)

module _ (request : ImplementationPlanDerivationRequest) (plan : ImplementationPlanRecord)
    (db : Database) (planned : Store) where
  abbrev id : String
  id = plan.implementation_plan_id

  abbrev between : Store
  between = with_activities id db (activity_specs request) planned

  persist_under-all :
      (result : ImplementationPlanDerivationResult) (store' : Store)
      → persist_under request plan db planned ≡ returned result store'
      → (result ≡ derivation_result request plan true)
        × (write_dependencies id db (dependency_specs request) between ≡ all store')
        × Fitting (activity_specs request)
  unfolding persist_under
  persist_under-all result store' h =
      elim (written_cases (write_activities id db (activity_specs request) planned)) [
        | inr (s, e) ↦
            let no : raised s ≡ returned result store' = rw (e, persist_under) at h in absurd (cc)
        | inl (s, e) ↦
            let fitting = write_activities-Fitting id db (activity_specs request) planned s e in
            let filled = write_activities-all id db (activity_specs request) planned fitting in
            elim (written_cases (write_dependencies id db (dependency_specs request) between)) [
              | inr (t, d) ↦
                  let ran : persist_under request plan db planned ≡ raised t =
                    rw (filled, persist_under) (rw d refl) in
                  let no : raised t ≡ returned result store' = sym ran ∙ h in absurd (cc)
              | inl (t, d) ↦
                  let ran : persist_under request plan db planned
                      ≡ returned (derivation_result request plan true) t =
                    rw (filled, persist_under) (rw d refl) in
                  let q : returned (derivation_result request plan true) t
                      ≡ returned result store' =
                    sym ran ∙ h in
                  (cc, d ∙ (let r : t ≡ store' = cc in ap all r), fitting)
            ]
      ]

module _ (request : ImplementationPlanDerivationRequest) (db : Database) (store : Store)
    (persist : request.persist ≡ true) where
  pub derive-Steps :
      (result : ImplementationPlanDerivationResult) (store' : Store)
      → derive_plan request db store ≡ returned result store'
      → Steps request db store result store'
  unfolding derive_plan persist_plan
  derive-Steps result store' h =
      let k : persist_plan request db store ≡ returned result store' =
        sym (if-true (persist_plan request db store) _ persist) ∙ h in
      elim (Option-cases (upsert_implementation_plan request.plan db store)) [
        | inl e ↦
            let no : raised store ≡ returned result store' = rw (e, persist_plan) at k in
            absurd (cc)
        | inr (planned, e) ↦
            elim (Option-cases (
              get_implementation_plan_for_design_package planned request.plan.design_package_id
                request.plan.consumer_context_key)) [
                  | inl d ↦
                      let no : raised planned ≡ returned result store' =
                        rw (e, d, persist_plan) at k in
                      absurd (cc)
                  | inr (plan, d) ↦
                      let under : persist_under request plan db planned ≡ returned result store' =
                        rw (e, d, persist_plan) at k in
                      let w = persist_under-all request plan db planned result store' under in
                      record {
                        plan = plan;
                        planned = planned;
                        upserted = e;
                        found = d;
                        same_result = w.0;
                        wrote = w.1;
                        fitting = w.2;
                      }
                ]
      ]

  module _ (result : ImplementationPlanDerivationResult) (store' : Store)
      (st : Steps request db store result store') where
    abbrev plan_id : String
    plan_id = st.plan.implementation_plan_id

    abbrev filled : Store
    filled = with_activities plan_id db (activity_specs request) st.planned

    -- The store between the two loops: the plan is written, and the activities are.
    filled_lem : filled ≡ record store {
      plans = st.planned.plans;
      activities = put_all plan_id db (activity_specs request) store.activities;
    }
    filled_lem =
        let begin = upsert_plan-keeps request db store st.planned st.upserted in
        ap
          (λ (t : Store). record t {
            plans = st.planned.plans;
            activities = put_all plan_id db (activity_specs request) t.activities;
          })
          begin

    kept : Keeps filled store'
    kept = (written_all plan_id db (dependency_specs request) filled store' st.wrote).0

    pub activities_after :
        store'.activities ≡ put_all plan_id db (activity_specs request) store.activities
    activities_after = kept.activities ∙ ap (λ (t : Store). t.activities) filled_lem

    found_after :
        get_implementation_plan_for_design_package store' request.plan.design_package_id
          request.plan.consumer_context_key
        ≡ some st.plan
    unfolding get_implementation_plan_for_design_package
    found_after =
        ap (find (for_package request.plan.design_package_id request.plan.consumer_context_key))
          (kept.plans ∙ ap (λ (t : Store). t.plans) filled_lem)
        ∙ st.found

    other_rows :
        (p k : String)
        → p ≢ plan_id
        → find (has_key p k) store'.activities ≡ find (has_key p k) store.activities
    other_rows p k n =
        let apart : (plan_id == p) ≡ false = elim (Bool-cases (plan_id == p)) [
          | inl e ↦ absurd (n (sym ((eq_iff plan_id p).0 e)))
          | inr e ↦ e
        ] in
        ap (find (has_key p k)) activities_after
        ∙ put_all-other plan_id db p k request.activity_blueprints store.activities apart

    steps-Persisted : Persisted request store (derivation_result request st.plan true) store'
    unfolding derivation_result
    steps-Persisted = record {
      found = found_after;
      flagged = refl;
      activities = λ k.
          subst
            (λ rows. After plan_id k store.activities rows (latest k request.activity_blueprints))
            (sym activities_after)
            (put_all-After plan_id db k request.activity_blueprints store.activities);
      others = other_rows;
      edges = λ id p s e.
          kept.edges id p s
            (subst (λ (t : Store). edge id p s t.dependencies ≡ true) (sym filled_lem) e);
      surfaces = kept.surfaces ∙ ap (λ (t : Store). t.surfaces) filled_lem;
    }

  -- A persisted derivation that returns leaves the plan that it reports, found under its design package
  -- and context. For each key, the last blueprint of that key is recorded in the row of the plan, with the
  -- state of the blueprint whatever the state was before; a row without blueprint stays as it was, as do the
  -- rows of other plans. No dependency goes, and no verification surface is written.
  pub derive-Persisted :
      (result : ImplementationPlanDerivationResult) (store' : Store)
      → derive_plan request db store ≡ returned result store'
      → Persisted request store result store'
  derive-Persisted result store' h =
      let st = derive-Steps result store' h in
      subst (λ r. Persisted request store r store') (sym st.same_result)
        (steps-Persisted result store' st)
