-- ===== src/Planning/Updates/Kept.antt =====
-- What an update of an activity's state leaves alone: the order of the plan.
use mathlib.Core.Path.{ap₂}
use mathlib.Core.Option
use paa_platform.Prelude.{
  String, ◌≡◌, refl, ap, ◌∙◌, none, some, List, [], ◌∷◌, ◌++◌, map, find, find-map, select,
  select-map, sort_by-map, sort_by, Bool-cases, Option-cases, inl, inr, ◌==◌, if-true, if-false,
  find-passes,
}
use paa_platform.Progress.Models.{ActivityRecord}
use paa_platform.Progress.Next.{ranked_before}
use paa_platform.Planning.Records.{ImplementationPlanActivityStateUpdateSpec}
use paa_platform.Planning.Store.{of_plan, has_key, get_implementation_plan_activity_by_key}
use paa_platform.Planning.Store.Plans.{Store, DependencyRow}
use paa_platform.Planning.Store.Listing.{
  has_activity_id, joined_row, join_row, join_rows, list_implementation_plan_activities,
  list_implementation_plan_activity_dependencies, joined_before,
}
use paa_platform.Planning.Updates.{
  stated_activity, state_activity, set_implementation_plan_activity_state,
}

module _ (spec : ImplementationPlanActivityStateUpdateSpec) (now : String) where
  abbrev set : ActivityRecord → ActivityRecord
  set = state_activity spec now

  -- What the update does not see of a row.
  kept_by :
      {B : Type 0} (g : ActivityRecord → B)
      → ((a : ActivityRecord) → g (stated_activity spec now a) ≡ g a)
      → (a : ActivityRecord) → g (set a) ≡ g a
  kept_by g same a = elim (Bool-cases (has_key spec.implementation_plan_id spec.activity_key a)) [
    | inl e ↦ ap g (if-true _ _ e) ∙ same a
    | inr e ↦ ap g (if-false _ _ e)
  ]

  same_key : (a : ActivityRecord) → (set a).activity_key ≡ a.activity_key
  unfolding stated_activity
  same_key = kept_by (λ a. a.activity_key) (λ a. refl)

  same_order : (a : ActivityRecord) → (set a).sequence_order ≡ a.sequence_order
  unfolding stated_activity
  same_order = kept_by (λ a. a.sequence_order) (λ a. refl)

  same_plan : (id : String) (a : ActivityRecord) → of_plan id (set a) ≡ of_plan id a
  unfolding stated_activity
  same_plan id = kept_by (of_plan id) (λ a. refl)

  same_id : (id : String) (a : ActivityRecord) → has_activity_id id (set a) ≡ has_activity_id id a
  unfolding stated_activity
  same_id id = kept_by (has_activity_id id) (λ a. refl)

  same_rank : (a b : ActivityRecord) → ranked_before (set a) (set b) ≡ ranked_before a b
  unfolding ranked_before
  same_rank a b = rw (same_order a, same_order b, same_key a, same_key b)

  joined_same :
      (row : DependencyRow) (a b : ActivityRecord)
      → joined_row row (set a) (set b) ≡ joined_row row a b
  unfolding joined_row
  joined_same row a b = rw (same_order a, same_order b, same_key a, same_key b)

  moved :
      (id : String) (activities : List ActivityRecord)
      → find (has_activity_id id) (map set activities)
        ≡ Option.map set (find (has_activity_id id) activities)
  moved id activities = find-map (has_activity_id id) set (same_id id) activities

  join_row-set :
      (activities : List ActivityRecord) (row : DependencyRow)
      → join_row (map set activities) row ≡ join_row activities row
  unfolding join_row
  join_row-set activities row =
      let p = row.predecessor_activity_id in
      let q = row.successor_activity_id in
      elim (Option-cases (find (has_activity_id p) activities)) [
        | inl e ↦
            let e' : find (has_activity_id p) (map set activities) ≡ none =
              moved p activities ∙ ap (Option.map set) e in
            rw (e', e, join_row)
        | inr (a, e) ↦
            let e' : find (has_activity_id p) (map set activities) ≡ some (set a) =
              moved p activities ∙ ap (Option.map set) e in
            elim (Option-cases (find (has_activity_id q) activities)) [
              | inl d ↦
                  let d' : find (has_activity_id q) (map set activities) ≡ none =
                    moved q activities ∙ ap (Option.map set) d in
                  rw (e', e, join_row) (rw (d', d))
              | inr (b, d) ↦
                  let d' : find (has_activity_id q) (map set activities) ≡ some (set b) =
                    moved q activities ∙ ap (Option.map set) d in
                  rw (e', e, join_row) (rw (d', d) (ap (λ j. j ∷ []) (joined_same row a b)))
            ]
      ]

  join_rows-set :
      (id : String) (activities : List ActivityRecord) (rows : List DependencyRow)
      → join_rows id (map set activities) rows ≡ join_rows id activities rows
  unfolding join_rows
  join_rows-set id activities [] = refl
  join_rows-set id activities (row ∷ rows) = elim (Bool-cases (row.implementation_plan_id == id)) [
    | inl e ↦
        rw e (ap₂ (λ x y. x ++ y) (join_row-set activities row) (join_rows-set id activities rows))
    | inr e ↦ rw e (join_rows-set id activities rows)
  ]

  -- An update of the state of an activity leaves the order of every plan as it was: the list of its
  -- dependencies does not change, and the list of its activities has the same activities at the same
  -- places, where the row of the key has the new state and any other row is as before. Where the row is
  -- there, it is found under its key with the state, the blocking reason and the completion time of the
  -- update.
  pub set_state-kept :
      (store : Store)
      → let store' = set_implementation_plan_activity_state spec now store in
        ((id : String)
          → list_implementation_plan_activity_dependencies store' id
            ≡ list_implementation_plan_activity_dependencies store id)
        × ((id : String)
            → list_implementation_plan_activities store' id
              ≡ map set (list_implementation_plan_activities store id))
        × ((a : ActivityRecord)
            → get_implementation_plan_activity_by_key store spec.implementation_plan_id
                spec.activity_key
              ≡ some a
            → (b : ActivityRecord) × (get_implementation_plan_activity_by_key store'
                  spec.implementation_plan_id spec.activity_key
                ≡ some b)
              × (b.activity_state ≡ spec.activity_state)
              × (b.blocking_reason ≡ spec.blocking_reason)
              × (b.completed_at ≡ spec.completed_at))
  unfolding set_implementation_plan_activity_state list_implementation_plan_activity_dependencies
      list_implementation_plan_activities get_implementation_plan_activity_by_key stated_activity
  set_state-kept store = (
    (λ id.
        ap (λ js. map (λ j. j.dependency) (sort_by joined_before js))
          (join_rows-set id store.activities store.dependencies)),
    (λ id.
        ap (sort_by ranked_before) (select-map set (of_plan id) (same_plan id) store.activities)
        ∙ sort_by-map set ranked_before same_rank (select (of_plan id) store.activities)),
    λ a found.
        let passes =
          find-passes (has_key spec.implementation_plan_id spec.activity_key) store.activities a
            found in
        (
          stated_activity spec now a,
          find-map (has_key spec.implementation_plan_id spec.activity_key) set
                (kept_by (has_key spec.implementation_plan_id spec.activity_key) (λ x. refl))
                store.activities
              ∙ ap (Option.map set) found
              ∙ ap some (if-true _ _ passes),
          refl,
          refl,
          refl,
        ),
  )
