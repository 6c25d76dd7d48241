-- ===== src/Methodology/State/Moved.antt =====
-- What an applied transition does to the tables.
use mathlib.Core.List.{append-nil}
use mathlib.Core.Path.{ap₂}
use paa_platform.Prelude.{
  String, ◌≡◌, refl, ◌∙◌, true, not, ◌&&◌, ◌==◌, none, some, List, [], ◌∷◌, ◌++◌, arith, eq_iff,
  member, select, is_empty, Bool-cases, inl, inr, if◌then◌else◌, select-append, if-true, select-all,
}
use paa_platform.Json.{dict_or_empty}
use paa_platform.Methodology.Records.{
  MethodologyExecutionRecord, MethodologyExecutionEventRecord, MethodologyExecutionBindingRecord,
  MethodologyExecutionStateRequest, MethodologyExecutionBindingEntrySpec,
}
use paa_platform.Methodology.Store.{
  Store, Database, get_methodology_execution, created_or_now, upserted, appended_event,
  upsert_methodology_execution, append_methodology_execution_event,
  list_methodology_execution_events, binding_of, kinds_of, kept_bindings, inserted_bindings,
  replace_methodology_execution_bindings,
}
use paa_platform.Methodology.Store.Laws.{get-upsert, events-append, inserted_of, select-kinds}
use paa_platform.Methodology.State.{
  returned, transition_of, upsert_spec, event_spec, write_transition, replace_spec, write_bindings,
  read_back, commit_transition, applied_result,
}

-- The row of an execution that was moved: all other columns are kept.
abbrev pub moved : MethodologyExecutionRecord → String → String → MethodologyExecutionRecord
moved r created_at now = record r {
  lane = "component_realization";
  stage = "slice_execution";
  step = "derive_next_activity_bundle";
  status = "ready";
  current_owner_role = "System";
  next_action_key = some "derive-next-activity-bundle";
  blocked_reason = none;
  created_at = created_at;
  updated_at = now;
}

-- The event that records the move.
abbrev pub move_event :
    MethodologyExecutionStateRequest
    → MethodologyExecutionRecord
    → Database
    → MethodologyExecutionEventRecord
move_event request r db = record {
  methodology_execution_event_id = db.event_id;
  methodology_execution_id = r.methodology_execution_id;
  from_lane = some r.lane;
  to_lane = "component_realization";
  from_stage = some r.stage;
  to_stage = "slice_execution";
  from_step = some r.step;
  to_step = "derive_next_activity_bundle";
  from_status = some r.status;
  to_status = "ready";
  transition_kind = "automated_progression";
  actor_role_id = request.actor_role_id;
  actor_name = request.actor_name;
  notes = request.notes;
  evidence = dict_or_empty request.evidence;
  created_at = db.now;
}

-- The bindings of one execution, in the order of their creation.
abbrev pub bindings_of : Store → String → List MethodologyExecutionBindingRecord
bindings_of store id = select (binding_of id) store.bindings

-- The tables after a move: the row of the execution, its events and its bindings have changed, and
-- nothing of any other execution.
pub record Moved (request : MethodologyExecutionStateRequest) (r : MethodologyExecutionRecord)
    (db : Database) (store store' : Store) : Type 0 where
  pub row :
      (id : String)
      → get_methodology_execution store' id ≡ (
          if r.methodology_execution_id == id
          then some (
              moved r
                (created_or_now (get_methodology_execution store r.methodology_execution_id) db.now)
                db.now)
          else get_methodology_execution store id)
  pub events :
      (id : String)
      → list_methodology_execution_events store' id
        ≡ list_methodology_execution_events store id
          ++ (if r.methodology_execution_id == id then move_event request r db ∷ [] else [])
  pub bindings :
      (id : String)
      → bindings_of store' id ≡ (
          if r.methodology_execution_id == id
          then select
              (λ b. not (member b.binding_kind (kinds_of request.binding_entries)))
              (bindings_of store id)
            ++ inserted_bindings id db 0 request.binding_entries
          else bindings_of store id)

-- The bindings after `write_bindings`: without entries nothing is written.
unfoldable pub bound_list :
    String
    → Database
    → List MethodologyExecutionBindingEntrySpec
    → List MethodologyExecutionBindingRecord
    → List MethodologyExecutionBindingRecord
bound_list id db entries bs =
    if is_empty entries
    then bs
    else select (λ b. not (binding_of id b && member b.binding_kind (kinds_of entries))) bs
      ++ inserted_bindings id db 0 entries

joined :
    (id j : String) (db : Database) (es : List MethodologyExecutionBindingEntrySpec)
    (bs : List MethodologyExecutionBindingRecord)
    → (if id == j then select (λ b. not (member b.binding_kind (kinds_of es))) bs else bs)
        ++ (if id == j then inserted_bindings id db 0 es else [])
      ≡ (if id == j
          then select (λ b. not (member b.binding_kind (kinds_of es))) bs
            ++ inserted_bindings j db 0 es
          else bs)
joined id j db es bs = elim (Bool-cases (id == j)) [
  | inl e ↦ let same : id ≡ j = (eq_iff id j).0 e in rw (e, ← same)
  | inr e ↦ rw (e, append-nil)
]

select-bound_cons :
    (id j : String) (db : Database) (e : MethodologyExecutionBindingEntrySpec)
    (es : List MethodologyExecutionBindingEntrySpec) (bs : List MethodologyExecutionBindingRecord)
    → select (binding_of j) (bound_list id db (e ∷ es) bs) ≡ (
        if id == j
        then select
            (λ b. not (member b.binding_kind (kinds_of (e ∷ es))))
            (select (binding_of j) bs)
          ++ inserted_bindings j db 0 (e ∷ es)
        else select (binding_of j) bs)
unfolding bound_list
select-bound_cons id j db e es bs =
    let kinds = kinds_of (e ∷ es) in
    select-append (binding_of j)
      (select (λ b. not (binding_of id b && member b.binding_kind kinds)) bs)
      (inserted_bindings id db 0 (e ∷ es))
    ∙ ap₂ (λ xs ys. xs ++ ys) (select-kinds id j kinds bs) (inserted_of id j db 0 (e ∷ es))
    ∙ joined id j db (e ∷ es) (select (binding_of j) bs)

select-bound_list :
    (id j : String) (db : Database) (entries : List MethodologyExecutionBindingEntrySpec)
    (bs : List MethodologyExecutionBindingRecord)
    → select (binding_of j) (bound_list id db entries bs) ≡ (
        if id == j
        then select (λ b. not (member b.binding_kind (kinds_of entries))) (select (binding_of j) bs)
          ++ inserted_bindings j db 0 entries
        else select (binding_of j) bs)
unfolding bound_list inserted_bindings
select-bound_list id j db (e ∷ es) bs = select-bound_cons id j db e es bs
select-bound_list id j db [] bs =
    rw
      (
        select-all {A = MethodologyExecutionBindingRecord} (λ b. true) (λ b. refl)
            (select (binding_of j) bs),
        append-nil,
      )
      (ground arith)

module _ (request : MethodologyExecutionStateRequest) (r : MethodologyExecutionRecord)
    (db : Database) (store : Store) where
  get-write :
      (id : String)
      → get_methodology_execution (write_transition request r db store) id ≡ (
          if r.methodology_execution_id == id
          then some (
              moved r
                (created_or_now (get_methodology_execution store r.methodology_execution_id) db.now)
                db.now)
          else get_methodology_execution store id)
  unfolding write_transition append_methodology_execution_event get_methodology_execution
      upsert_spec transition_of upserted
  get-write id = get-upsert (upsert_spec r (transition_of r)) db store id

  events-write :
      (id : String)
      → list_methodology_execution_events (write_transition request r db store) id
        ≡ list_methodology_execution_events store id
          ++ (if r.methodology_execution_id == id then move_event request r db ∷ [] else [])
  unfolding write_transition upsert_methodology_execution list_methodology_execution_events
      event_spec transition_of appended_event
  events-write id =
      events-append (event_spec request r (transition_of r)) db
        (upsert_methodology_execution (upsert_spec r (transition_of r)) db store) id

  -- The store after the bindings were written, on both branches.
  unfoldable pub bound : Store
  bound = record (write_transition request r db store) {
    bindings = bound_list r.methodology_execution_id db request.binding_entries store.bindings;
  }

  write_bindings-bound :
      write_bindings request r db (write_transition request r db store) ≡ some bound
  unfolding write_bindings bound replace_methodology_execution_bindings kept_bindings replace_spec
      write_transition upsert_methodology_execution append_methodology_execution_event bound_list
  write_bindings-bound = elim (Bool-cases (is_empty request.binding_entries)) [
    | inl e ↦ rw e
    | inr e ↦ rw e
  ]

  bound-Moved : Moved request r db store bound
  unfolding bound get_methodology_execution list_methodology_execution_events
  bound-Moved = record {
    row = get-write;
    events = events-write;
    bindings = λ id.
        select-bound_list r.methodology_execution_id id db request.binding_entries store.bindings;
  }

  -- The row that is read back.
  abbrev pub updated : MethodologyExecutionRecord
  updated =
      moved r (created_or_now (get_methodology_execution store r.methodology_execution_id) db.now)
        db.now

  -- A commit always returns, with the row that it wrote.
  pub commit-Moved :
      (commit_transition request r db store
        ≡ returned (applied_result bound request r updated) bound)
      × Moved request r db store bound
  unfolding commit_transition read_back
  commit-Moved =
      let read : get_methodology_execution bound r.methodology_execution_id ≡ some updated =
        bound-Moved.row r.methodology_execution_id
        ∙ if-true (some updated) (get_methodology_execution store r.methodology_execution_id)
            ((eq_iff r.methodology_execution_id r.methodology_execution_id).1 refl) in
      (rw (write_bindings-bound, commit_transition) (rw (read, read_back)), bound-Moved)
