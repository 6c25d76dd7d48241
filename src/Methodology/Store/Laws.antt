-- ===== src/Methodology/Store/Laws.antt =====
-- What the writes of the methodology tables do to the queries.
use paa_platform.Prelude.{
  ℕ, suc, String, ◌≡◌, not, ◌==◌, some, List, [], ◌∷◌, ◌++◌, select, find, arith, eq_iff,
  Bool-cases, inl, inr, if◌then◌else◌, find-select, select-append, ◌&&◌, member,
}
use paa_platform.Methodology.Records.{
  MethodologyExecutionUpsertSpec, MethodologyExecutionEventAppendSpec,
  MethodologyExecutionBindingEntrySpec, MethodologyExecutionBindingRecord,
}
use paa_platform.Methodology.Store.{
  Store, Database, has_execution_id, get_methodology_execution, upserted, created_or_now,
  upsert_methodology_execution, event_of, list_methodology_execution_events, appended_event,
  append_methodology_execution_event, binding_of, inserted_binding, inserted_bindings,
}

module _ (spec : MethodologyExecutionUpsertSpec) (db : Database) (store : Store) where
  -- The upserted execution is found with the columns of the specification, and any other as before.
  pub get-upsert :
      (id : String)
      → get_methodology_execution (upsert_methodology_execution spec db store) id ≡ (
          if spec.methodology_execution_id == id
          then some (
              upserted spec
                (created_or_now
                  (get_methodology_execution store spec.methodology_execution_id)
                  db.now)
                db.now)
          else get_methodology_execution store id)
  unfolding get_methodology_execution upsert_methodology_execution upserted find
  get-upsert id = elim (Bool-cases (spec.methodology_execution_id == id)) [
    | inl e ↦ rw e
    | inr e ↦ rw e (
        find-select (has_execution_id id)
          (λ r. not (has_execution_id spec.methodology_execution_id r))
          (λ r h. ground (
            arith,
            eq_iff r.methodology_execution_id id,
            eq_iff r.methodology_execution_id spec.methodology_execution_id,
            eq_iff spec.methodology_execution_id id,
          ))
          store.executions)
  ]

-- An appended event stands last among those of its execution.
pub events-append :
    (spec : MethodologyExecutionEventAppendSpec) (db : Database) (store : Store) (id : String)
    → list_methodology_execution_events (append_methodology_execution_event spec db store) id
      ≡ list_methodology_execution_events store id
        ++ (if spec.methodology_execution_id == id then appended_event spec db ∷ [] else [])
unfolding list_methodology_execution_events append_methodology_execution_event appended_event select
events-append spec db store id =
    rw (select-append (event_of id) store.events (appended_event spec db ∷ []))

-- The bindings that are inserted are all those of the execution.
pub inserted_of :
    (id j : String) (db : Database) (n : ℕ) (bs : List MethodologyExecutionBindingEntrySpec)
    → select (binding_of j) (inserted_bindings id db n bs)
      ≡ (if id == j then inserted_bindings id db n bs else [])
unfolding select inserted_bindings inserted_binding
inserted_of id j db n [] = ground arith
inserted_of id j db n (b ∷ bs) = elim (Bool-cases (id == j)) [
  | inl e ↦ rw (e, inserted_of id j db (suc n) bs, e)
  | inr e ↦ rw (e, inserted_of id j db (suc n) bs, e)
]

-- Of the bindings that a replacement by kind leaves, those of the execution have another kind, and
-- those of other executions are all there.
pub select-kinds :
    (id j : String) (kinds : List String) (bs : List MethodologyExecutionBindingRecord)
    → select (binding_of j) (select (λ b. not (binding_of id b && member b.binding_kind kinds)) bs)
      ≡ (if id == j
          then select (λ b. not (member b.binding_kind kinds)) (select (binding_of j) bs)
          else select (binding_of j) bs)
unfolding select
select-kinds id j kinds [] = ground arith
select-kinds id j kinds (b ∷ bs) = ground (
  arith,
  select-kinds id j kinds bs,
  eq_iff id j,
  eq_iff b.methodology_execution_id id,
  eq_iff b.methodology_execution_id j,
)
