-- ===== src/Planning/Store/Listing.antt =====
-- The lists of repositories/implementation_plan/postgres.py, and the repository that they make for the
-- progress service. Texts are ordered by their code points.
use Prim.Native.String.{compare}
use text.Mathlib.Text.{is_le}
use paa_platform.Prelude.{
  ℤ, ltb_ℤ, eqb_ℤ, String, Bool, not, ◌&&◌, ◌||◌, ◌==◌, Option, none, some, List, [], ◌∷◌, ◌++◌,
  map, find, select, sort_by, if◌then◌else◌,
}
use paa_platform.Progress.Models.{
  ActivityRecord, DependencyRecord, VerificationSurfaceRecord, PlanRecord,
}
use paa_platform.Progress.Next.{ranked_before}
use paa_platform.Progress.Service.{PlanRepository}
use paa_platform.Planning.Records.{ImplementationPlanRecord}
use paa_platform.Planning.Store.{of_plan}
use paa_platform.Planning.Store.Plans.{Store, DependencyRow, get_implementation_plan}

-- `ORDER BY sequence_order, activity_key` is the order of the progress service's own sort.
unfoldable pub list_implementation_plan_activities : Store → String → List ActivityRecord
list_implementation_plan_activities store id =
    sort_by ranked_before (select (of_plan id) store.activities)

-- A row of the join, with what it is sorted by.
pub record Joined : Type 0 where
  pub predecessor_order : ℤ
  pub successor_order : ℤ
  pub dependency : DependencyRecord

abbrev pub has_activity_id : String → ActivityRecord → Bool
has_activity_id id a = a.implementation_plan_activity_id == id

unfoldable pub joined_row : DependencyRow → ActivityRecord → ActivityRecord → Joined
joined_row row predecessor successor = record {
  predecessor_order = predecessor.sequence_order;
  successor_order = successor.sequence_order;
  dependency = record {
    implementation_plan_activity_dependency_id = row.implementation_plan_activity_dependency_id;
    implementation_plan_id = row.implementation_plan_id;
    predecessor_activity_id = row.predecessor_activity_id;
    predecessor_activity_key = predecessor.activity_key;
    successor_activity_id = row.successor_activity_id;
    successor_activity_key = successor.activity_key;
    sequencing_requirement = row.sequencing_requirement;
    dependency_strength = row.dependency_strength;
    notes = row.notes;
    metadata = row.metadata;
    created_at = row.created_at;
  };
}

-- The two joins of one row with the activities: an inner join drops a row without partner.
unfoldable pub join_row : List ActivityRecord → DependencyRow → List Joined
join_row activities row = elim (find (has_activity_id row.predecessor_activity_id) activities) [
  | none ↦ []
  | some predecessor ↦ elim (find (has_activity_id row.successor_activity_id) activities) [
    | none ↦ []
    | some successor ↦ joined_row row predecessor successor ∷ []
  ]
]

-- `WHERE ipad.implementation_plan_id = …`
unfoldable pub join_rows : String → List ActivityRecord → List DependencyRow → List Joined
join_rows id activities [] = []
join_rows id activities (row ∷ rows) =
    let rest = join_rows id activities rows in
    if row.implementation_plan_id == id then join_row activities row ++ rest else rest

-- `ORDER BY pred.sequence_order, succ.sequence_order, pred.activity_key, succ.activity_key`
unfoldable pub joined_before : Joined → Joined → Bool
joined_before a b =
    let p = a.dependency.predecessor_activity_key in
    let q = b.dependency.predecessor_activity_key in
    ltb_ℤ a.predecessor_order b.predecessor_order
    || (eqb_ℤ a.predecessor_order b.predecessor_order
        && (ltb_ℤ a.successor_order b.successor_order
            || (eqb_ℤ a.successor_order b.successor_order
                && ((is_le (compare p q) && not (p == q))
                    || (p == q
                        && is_le (
                            compare a.dependency.successor_activity_key
                              b.dependency.successor_activity_key))))))

unfoldable pub list_implementation_plan_activity_dependencies :
    Store → String → List DependencyRecord
list_implementation_plan_activity_dependencies store id =
    map (λ j. j.dependency)
      (sort_by joined_before (join_rows id store.activities store.dependencies))

abbrev pub surface_of_plan : String → VerificationSurfaceRecord → Bool
surface_of_plan id s = s.implementation_plan_id == id

-- `ORDER BY sequence_order, surface_kind, surface_ref`
unfoldable pub surface_before : VerificationSurfaceRecord → VerificationSurfaceRecord → Bool
surface_before a b =
    ltb_ℤ a.sequence_order b.sequence_order
    || (eqb_ℤ a.sequence_order b.sequence_order
        && ((is_le (compare a.surface_kind b.surface_kind)
              && not (a.surface_kind == b.surface_kind))
            || (a.surface_kind == b.surface_kind && is_le (compare a.surface_ref b.surface_ref))))

unfoldable pub list_implementation_plan_verification_surfaces :
    Store → String → List VerificationSurfaceRecord
list_implementation_plan_verification_surfaces store id =
    sort_by surface_before (select (surface_of_plan id) store.surfaces)

-- The columns of a plan that the progress service reads.
abbrev pub plan_columns : ImplementationPlanRecord → PlanRecord
plan_columns p = record {
  implementation_plan_id = p.implementation_plan_id;
  plan_id_external = p.plan_id_external;
  primary_component_id = p.primary_component_id;
}

abbrev pub opt_columns : Option ImplementationPlanRecord → Option PlanRecord
opt_columns none = none
opt_columns (some p) = some (plan_columns p)

-- The repository as the progress service sees it.
unfoldable pub plan_repository : Store → PlanRepository
plan_repository store = record {
  get_implementation_plan = λ id. opt_columns (get_implementation_plan store id);
  list_activities = list_implementation_plan_activities store;
  list_dependencies = list_implementation_plan_activity_dependencies store;
  list_verification_surfaces = list_implementation_plan_verification_surfaces store;
}
