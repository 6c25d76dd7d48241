-- ===== src/Planning/Store/Edges.antt =====
-- The dependency rows and what the list of dependencies shows of them.
use paa_platform.Prelude.{
  String, ◌≡◌, refl, ◌∙◌, Bool, true, false, ◌&&◌, ◌||◌, ◌==◌, some, List, [], ◌∷◌, map, arith,
  eq_iff, find, any, any-sort_by, any-append, sort_by, Bool-cases, inl, inr,
}
use paa_platform.Progress.Models.{ActivityRecord}
use paa_platform.Progress.Next.Executable.{precedes}
use paa_platform.Planning.Records.{ImplementationPlanActivityDependencyUpsertSpec}
use paa_platform.Planning.Store.{has_edge, inserted_dependency, updated_dependency, put_dependency}
use paa_platform.Planning.Store.Plans.{Store, Database, DependencyRow}
use paa_platform.Planning.Store.Listing.{
  has_activity_id, Joined, joined_row, join_row, join_rows, joined_before,
  list_implementation_plan_activity_dependencies,
}

-- There is a row from one activity to another.
abbrev pub edge : String → String → String → List DependencyRow → Bool
edge id predecessor successor rows = any (has_edge id predecessor successor) rows

pub edge-put_dependency :
    (spec : ImplementationPlanActivityDependencyUpsertSpec) (db : Database) (i j id p s : String)
    (rows : List DependencyRow)
    → edge id p s (put_dependency spec db i j rows)
      ≡ ((spec.implementation_plan_id == id && (i == p && j == s)) || edge id p s rows)
unfolding any put_dependency inserted_dependency updated_dependency
edge-put_dependency spec db i j id p s [] = refl
edge-put_dependency spec db i j id p s (row ∷ rows) =
    elim (Bool-cases (has_edge spec.implementation_plan_id i j row)) [
      | inl e ↦ rw e (
          ground (
            arith,
            eq_iff row.implementation_plan_id spec.implementation_plan_id,
            eq_iff row.predecessor_activity_id i,
            eq_iff row.successor_activity_id j,
          ))
      | inr e ↦ rw e (ground (arith, edge-put_dependency spec db i j id p s rows))
    ]

-- What the list says of a joined row.
abbrev says : String → String → Joined → Bool
says p k j = j.dependency.successor_activity_key == k && j.dependency.predecessor_activity_key == p

precedes-map :
    (p k : String) (js : List Joined)
    → precedes p k (map (λ j. j.dependency) js) ≡ any (says p k) js
unfolding precedes any
precedes-map p k [] = refl
precedes-map p k (j ∷ js) = ground (arith, precedes-map p k js)

module _ (id i s : String) (activities : List ActivityRecord) (a b : ActivityRecord)
    (first : find (has_activity_id i) activities ≡ some a)
    (second : find (has_activity_id s) activities ≡ some b) where
  joined :
      (row : DependencyRow)
      → has_edge id i s row ≡ true
      → any (says a.activity_key b.activity_key) (join_row activities row) ≡ true
  unfolding join_row joined_row any
  joined row h =
      let p : row.predecessor_activity_id ≡ i =
        ground (arith, eq_iff row.predecessor_activity_id i) in
      let q : row.successor_activity_id ≡ s = ground (arith, eq_iff row.successor_activity_id s) in
      let found : find (has_activity_id row.predecessor_activity_id) activities ≡ some a =
        rw p first in
      let other : find (has_activity_id row.successor_activity_id) activities ≡ some b =
        rw q second in
      rw (found, join_row)
        (rw (other) (
          ground
            (arith, eq_iff a.activity_key a.activity_key, eq_iff b.activity_key b.activity_key)))

  join_rows-edge :
      (rows : List DependencyRow)
      → edge id i s rows ≡ true
      → any (says a.activity_key b.activity_key) (join_rows id activities rows) ≡ true
  unfolding join_rows any
  join_rows-edge [] h = absurd (let no : false ≡ true = h in cc)
  join_rows-edge (row ∷ rows) h = elim (Bool-cases (has_edge id i s row)) [
    | inl e ↦
        let own : (row.implementation_plan_id == id) ≡ true = ground arith in
        rw own (
          any-append (says a.activity_key b.activity_key) (join_row activities row)
            (join_rows id activities rows)
          ∙ ground (arith, joined row e))
    | inr e ↦
        let rest = join_rows-edge rows (rw e at h) in
        elim (Bool-cases (row.implementation_plan_id == id)) [
          | inl o ↦ rw o (
              any-append (says a.activity_key b.activity_key) (join_row activities row)
                (join_rows id activities rows)
              ∙ ground (arith, rest))
          | inr o ↦ rw o rest
        ]
  ]

-- A row between two activities that are there is listed with their keys.
pub listed_edge :
    (store : Store) (id i s : String) (a b : ActivityRecord)
    → find (has_activity_id i) store.activities ≡ some a
    → find (has_activity_id s) store.activities ≡ some b
    → edge id i s store.dependencies ≡ true
    → precedes a.activity_key b.activity_key
        (list_implementation_plan_activity_dependencies store id)
      ≡ true
unfolding list_implementation_plan_activity_dependencies
listed_edge store id i s a b first second h =
    let js = join_rows id store.activities store.dependencies in
    precedes-map a.activity_key b.activity_key (sort_by joined_before js)
    ∙ any-sort_by (says a.activity_key b.activity_key) joined_before js
    ∙ join_rows-edge id i s store.activities a b first second store.dependencies h
