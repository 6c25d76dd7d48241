-- ===== src/Planning/Store/Activities.antt =====
-- The rows of the activities: what an upsert does to them, and their generated ids.
use mathlib.Core.Path.{ap₂, subst}
use paa_platform.Prelude.{
  String, ◌≡◌, refl, ◌∙◌, Bool, false, ◌&&◌, ◌==◌, Option, none, some, absurd_some, List, [], ◌∷◌,
  arith, eq_iff, find, All, Bool-cases, inl, inr, if◌then◌else◌,
}
use paa_platform.Progress.Models.{ActivityRecord}
use paa_platform.Planning.Records.{ImplementationPlanActivityUpsertSpec}
use paa_platform.Planning.Store.{has_key, inserted_activity, updated_activity, put_activity}
use paa_platform.Planning.Store.Plans.{Database}
use paa_platform.Planning.Store.Listing.{has_activity_id}

-- The row that an upsert leaves under its key.
abbrev pub stored_activity :
    ImplementationPlanActivityUpsertSpec → Database → Option ActivityRecord → ActivityRecord
stored_activity spec db none = inserted_activity spec db
stored_activity spec db (some a) = updated_activity spec db.now a

module _ (spec : ImplementationPlanActivityUpsertSpec) (db : Database) where
  abbrev at_spec : ActivityRecord → Bool
  at_spec = has_key spec.implementation_plan_id spec.activity_key

  -- An upsert changes the row of its key alone.
  pub find-put_activity :
      (id key : String) (rows : List ActivityRecord)
      → find (has_key id key) (put_activity spec db rows) ≡ (
          if spec.implementation_plan_id == id && spec.activity_key == key
          then some (stored_activity spec db (find at_spec rows))
          else find (has_key id key) rows)
  unfolding find put_activity inserted_activity updated_activity
  find-put_activity id key [] = refl
  find-put_activity id key (a ∷ rows) =
      let plan = eq_iff a.implementation_plan_id spec.implementation_plan_id in
      let k = eq_iff a.activity_key spec.activity_key in
      elim (Bool-cases (at_spec a)) [
        | inl e ↦
            let p : a.implementation_plan_id ≡ spec.implementation_plan_id = ground (arith, plan) in
            let q : a.activity_key ≡ spec.activity_key = ground (arith, k) in
            elim (Bool-cases (spec.implementation_plan_id == id && spec.activity_key == key)) [
              | inl d ↦ rw (e, p, q, d)
              | inr d ↦ rw (e, p, q, d)
            ]
        | inr e ↦ elim (Bool-cases (has_key id key a)) [
          | inl h ↦
              let other : (spec.implementation_plan_id == id && spec.activity_key == key) ≡ false =
                ground (
                  arith,
                  plan,
                  k,
                  eq_iff a.implementation_plan_id id,
                  eq_iff a.activity_key key,
                  eq_iff spec.implementation_plan_id id,
                  eq_iff spec.activity_key key,
                ) in
              rw (e, other) (rw h)
          | inr h ↦ rw e (rw h (find-put_activity id key rows))
        ]
      ]

-- Generated keys are distinct.
abbrev pub FreshKeys : Database → Type 0
FreshKeys db = (p k q j : String) → db.activity_id p k ≡ db.activity_id q j → (p ≡ q) × (k ≡ j)

-- Each row has the key that was generated for it.
abbrev pub Keyed : Database → List ActivityRecord → Type 0
Keyed db = All (λ a.
    a.implementation_plan_activity_id ≡ db.activity_id a.implementation_plan_id a.activity_key)

module _ (db : Database) where
  pub put_activity-Keyed :
      (spec : ImplementationPlanActivityUpsertSpec) (rows : List ActivityRecord)
      → Keyed db rows
      → Keyed db (put_activity spec db rows)
  unfolding put_activity inserted_activity updated_activity
  put_activity-Keyed spec [] h = (refl, tt)
  put_activity-Keyed spec (a ∷ rows) h =
      elim (Bool-cases (has_key spec.implementation_plan_id spec.activity_key a)) [
        | inl e ↦ rw e (h.0, h.1)
        | inr e ↦ rw e (h.0, put_activity-Keyed spec rows h.1)
      ]

  -- The row of a key is found by its generated id.
  pub find_by_id :
      FreshKeys db
      → (id key : String) (rows : List ActivityRecord) → Keyed db rows
      → find (has_activity_id (db.activity_id id key)) rows ≡ find (has_key id key) rows
  unfolding find
  find_by_id fresh id key [] h = refl
  find_by_id fresh id key (a ∷ rows) h =
      let same : (a.implementation_plan_activity_id == db.activity_id id key) ≡ has_key id key a =
        ground (
          arith,
          h.0,
          fresh a.implementation_plan_id a.activity_key id key,
          eq_iff a.implementation_plan_activity_id (db.activity_id id key),
          eq_iff a.implementation_plan_id id,
          eq_iff a.activity_key key,
        ) in
      rw (same, find_by_id fresh id key rows h.1)

  -- The id of the row of a key.
  pub id_of_key :
      (id key : String) (rows : List ActivityRecord) (a : ActivityRecord)
      → Keyed db rows
      → find (has_key id key) rows ≡ some a
      → (a.implementation_plan_activity_id ≡ db.activity_id id key) × (a.activity_key ≡ key)
  unfolding find
  id_of_key id key [] a h e = absurd_some e
  id_of_key id key (b ∷ rows) a h e = elim (Bool-cases (has_key id key b)) [
    | inl m ↦
        let here : some b ≡ some a = rw m at e in
        let plan : b.implementation_plan_id ≡ id =
          ground (arith, eq_iff b.implementation_plan_id id) in
        let k : b.activity_key ≡ key = ground (arith, eq_iff b.activity_key key) in
        let same : b ≡ a = cc in
        let own : b.implementation_plan_activity_id ≡ db.activity_id id key =
          h.0 ∙ ap₂ db.activity_id plan k in
        subst
          (λ x.
            (x.implementation_plan_activity_id ≡ db.activity_id id key) × (x.activity_key ≡ key))
          same (own, k)
    | inr m ↦ id_of_key id key rows a h.1 (rw m at e)
  ]
