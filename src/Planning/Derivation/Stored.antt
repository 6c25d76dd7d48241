-- ===== src/Planning/Derivation/Stored.antt =====
-- What a persisted derivation leaves in the activity table.
use mathlib.Core.Path.{subst}
use paa_platform.Prelude.{
  All, String, ◌≡◌, refl, true, ◌==◌, Option, none, some, List, [], ◌∷◌, arith, eq_iff, find,
  find-passes, if◌then◌else◌, ◌&&◌, map, false, Option-cases, ◌∙◌, if-true, if-false, inr, inl,
  Bool-cases,
}
use paa_platform.Progress.Models.{ActivityRecord}
use paa_platform.Planning.Records.{
  ImplementationPlanActivityBlueprint, ImplementationPlanActivityUpsertSpec,
}
use paa_platform.Planning.Store.{
  fits_integer, has_key, put_activity, inserted_activity, updated_activity,
  upsert_implementation_plan_activity,
}
use paa_platform.Planning.Store.Plans.{Store, Database}
use paa_platform.Planning.Store.Activities.{
  stored_activity, Keyed, put_activity-Keyed, find-put_activity,
}
use paa_platform.Planning.Derivation.{all, stopped, activity_in, write_activities}
use paa_platform.Planning.Derivation.Specs.{activity_spec_from_blueprint, blueprint_metadata}

-- The blueprint that is written last under a key.
unfoldable pub latest :
    String → List ImplementationPlanActivityBlueprint → Option ImplementationPlanActivityBlueprint
latest k [] = none
latest k (b ∷ bs) = elim (latest k bs) [
  | some c ↦ some c
  | none ↦ if b.activity_key == k then some b else none
]

-- The row has what the blueprint says, its state included, and no times of an earlier run.
pub record Recorded (id : String) (b : ImplementationPlanActivityBlueprint) (a : ActivityRecord)
    : Type 0 where
  pub plan : a.implementation_plan_id ≡ id
  pub key : a.activity_key ≡ b.activity_key
  pub title : a.activity_title ≡ b.activity_title
  pub kind : a.activity_kind ≡ b.activity_kind
  pub state : a.activity_state ≡ b.activity_state
  pub order : a.sequence_order ≡ b.sequence_order
  pub path : a.target_path ≡ b.target_path
  pub in_module : a.target_module ≡ b.target_module
  pub artifact : a.planned_artifact_type_key ≡ b.code_artifact_target_key
  pub blocking : a.blocking_reason ≡ b.blocking_reason
  pub metadata : a.metadata ≡ blueprint_metadata b
  pub started : a.started_at ≡ none
  pub completed : a.completed_at ≡ none

-- The activity rows after the loop.
unfoldable pub put_all :
    String
    → Database
    → List ImplementationPlanActivityUpsertSpec
    → List ActivityRecord
    → List ActivityRecord
put_all id db [] rows = rows
put_all id db (spec ∷ specs) rows = put_all id db specs (put_activity (activity_in id spec) db rows)

-- The tables after the loop, where it does not stop.
abbrev pub with_activities :
    String → Database → List ImplementationPlanActivityUpsertSpec → Store → Store
with_activities id db specs store = record store {
  activities = put_all id db specs store.activities;
}

abbrev pub Fitting : List ImplementationPlanActivityUpsertSpec → Type 0
Fitting = All (λ spec. fits_integer spec.sequence_order ≡ true)

pub write_activities-all :
    (id : String) (db : Database) (specs : List ImplementationPlanActivityUpsertSpec)
    (store : Store)
    → Fitting specs
    → write_activities id db specs store ≡ all (with_activities id db specs store)
unfolding write_activities put_all upsert_implementation_plan_activity
write_activities-all id db [] store h = refl
write_activities-all id db (spec ∷ specs) store h =
    let next = record store {
      activities = put_activity (activity_in id spec) db store.activities;
    } in
    rw (h.0, write_activities, upsert_implementation_plan_activity)
      (write_activities-all id db specs next h.1)

-- A loop that does not stop has written all activities, and their orders fit.
pub write_activities-Fitting :
    (id : String) (db : Database) (specs : List ImplementationPlanActivityUpsertSpec)
    (store s : Store)
    → write_activities id db specs store ≡ all s
    → Fitting specs
unfolding write_activities upsert_implementation_plan_activity
write_activities-Fitting id db [] store s h = tt
write_activities-Fitting id db (spec ∷ specs) store s h =
    elim (Bool-cases (fits_integer spec.sequence_order)) [
      | inl e ↦ (
        e,
        write_activities-Fitting id db specs _ s
            (rw (e, write_activities, upsert_implementation_plan_activity) at h),
      )
      | inr e ↦
          let no : stopped store ≡ all s =
            rw (e, write_activities, upsert_implementation_plan_activity) at h in
          absurd (cc)
    ]

pub put_all-Keyed :
    (id : String) (db : Database) (specs : List ImplementationPlanActivityUpsertSpec)
    (rows : List ActivityRecord)
    → Keyed db rows
    → Keyed db (put_all id db specs rows)
unfolding put_all
put_all-Keyed id db [] rows h = h
put_all-Keyed id db (spec ∷ specs) rows h =
    put_all-Keyed id db specs (put_activity (activity_in id spec) db rows)
      (put_activity-Keyed db (activity_in id spec) rows h)

-- The rows of a plan after the loop, key by key: the last blueprint of a key is recorded, and the row of
-- a key without blueprint is as it was.
abbrev pub After :
    String
    → String
    → List ActivityRecord
    → List ActivityRecord
    → Option ImplementationPlanActivityBlueprint
    → Type 0
After id k rows rows' none = find (has_key id k) rows' ≡ find (has_key id k) rows
After id k rows rows' (some b) =
    (a : ActivityRecord) × (find (has_key id k) rows' ≡ some a) × Recorded id b a

module _ (id : String) (db : Database) where
  abbrev spec_of : ImplementationPlanActivityBlueprint → ImplementationPlanActivityUpsertSpec
  spec_of b = activity_in id (activity_spec_from_blueprint b)

  -- What is written for a blueprint records it, in a new row or over an old one.
  stored-Recorded :
      (b : ImplementationPlanActivityBlueprint) (old : Option ActivityRecord)
      → ((a : ActivityRecord)
          → old ≡ some a
          → (a.implementation_plan_id ≡ id) × (a.activity_key ≡ b.activity_key))
      → Recorded id b (stored_activity (spec_of b) db old)
  unfolding inserted_activity updated_activity activity_spec_from_blueprint
  stored-Recorded b none own = record {
    plan = refl;
    key = refl;
    title = refl;
    kind = refl;
    state = refl;
    order = refl;
    path = refl;
    in_module = refl;
    artifact = refl;
    blocking = refl;
    metadata = refl;
    started = refl;
    completed = refl;
  }
  stored-Recorded b (some a) own = record {
    plan = (own a refl).0;
    key = (own a refl).1;
    title = refl;
    kind = refl;
    state = refl;
    order = refl;
    path = refl;
    in_module = refl;
    artifact = refl;
    blocking = refl;
    metadata = refl;
    started = refl;
    completed = refl;
  }

  -- A row that a key finds has that key.
  found_key :
      (p k : String) (rows : List ActivityRecord) (a : ActivityRecord)
      → find (has_key p k) rows ≡ some a
      → (a.implementation_plan_id ≡ p) × (a.activity_key ≡ k)
  found_key p k rows a h =
      let passes : has_key p k a ≡ true = find-passes (has_key p k) rows a h in
      (ground (arith, eq_iff a.implementation_plan_id p), ground (arith, eq_iff a.activity_key k))

  put-at :
      (b : ImplementationPlanActivityBlueprint) (rows : List ActivityRecord)
      → (a : ActivityRecord) × (find (has_key id b.activity_key) (put_activity (spec_of b) db rows)
          ≡ some a)
        × Recorded id b a
  unfolding activity_spec_from_blueprint
  put-at b rows =
      let old = find (has_key id b.activity_key) rows in
      let own : (id == id && b.activity_key == b.activity_key) ≡ true =
        ground (arith, eq_iff id id, eq_iff b.activity_key b.activity_key) in
      (
        stored_activity (spec_of b) db old,
        find-put_activity (spec_of b) db id b.activity_key rows
            ∙ if-true _ (find (has_key id b.activity_key) rows) own,
        stored-Recorded b old (found_key id b.activity_key rows),
      )

  put-beside :
      (b : ImplementationPlanActivityBlueprint) (p k : String) (rows : List ActivityRecord)
      → (id == p && b.activity_key == k) ≡ false
      → find (has_key p k) (put_activity (spec_of b) db rows) ≡ find (has_key p k) rows
  unfolding activity_spec_from_blueprint
  put-beside b p k rows h =
      find-put_activity (spec_of b) db p k rows ∙ if-false _ (find (has_key p k) rows) h

  pub put_all-After :
      (k : String) (bs : List ImplementationPlanActivityBlueprint) (rows : List ActivityRecord)
      → After id k rows (put_all id db (map activity_spec_from_blueprint bs) rows) (latest k bs)
  unfolding put_all latest
  put_all-After k [] rows = refl
  put_all-After k (b ∷ bs) rows =
      let first = put_activity (spec_of b) db rows in
      let last_rows = put_all id db (map activity_spec_from_blueprint bs) first in
      let ih = put_all-After k bs first in
      elim (Option-cases (latest k bs)) [
        | inr (c, e) ↦
            let later : After id k first last_rows (some c) =
              subst (After id k first last_rows) e ih in
            rw (e, latest) later
        | inl e ↦
            let kept : After id k first last_rows none = subst (After id k first last_rows) e ih in
            elim (Bool-cases (b.activity_key == k)) [
              | inl m ↦
                  let same : b.activity_key ≡ k = (eq_iff b.activity_key k).0 m in
                  let (a, found, recorded) = put-at b rows in
                  let there : find (has_key id k) first ≡ some a =
                    subst (λ x. find (has_key id x) first ≡ some a) same found in
                  rw (e, latest) (rw m (a, kept ∙ there, recorded))
              | inr m ↦
                  let beside : (id == id && b.activity_key == k) ≡ false = ground arith in
                  rw (e, latest) (rw m (kept ∙ put-beside b id k rows beside))
            ]
      ]

  -- The rows of another plan are as they were.
  pub put_all-other :
      (p k : String) (bs : List ImplementationPlanActivityBlueprint) (rows : List ActivityRecord)
      → (id == p) ≡ false
      → find (has_key p k) (put_all id db (map activity_spec_from_blueprint bs) rows)
        ≡ find (has_key p k) rows
  unfolding put_all
  put_all-other p k [] rows h = refl
  put_all-other p k (b ∷ bs) rows h =
      put_all-other p k bs (put_activity (spec_of b) db rows) h
      ∙ put-beside b p k rows (ground (arith, h))
