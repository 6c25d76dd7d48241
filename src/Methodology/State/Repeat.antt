-- ===== src/Methodology/State/Repeat.antt =====
-- A second application of the same request.
use paa_platform.Prelude.{
  String, ◌≡◌, refl, sym, ◌∙◌, true, false, ◌==◌, some, eq_iff, opt_eq, opt_eq_iff, find-passes,
  if-true, named,
}
use paa_platform.Methodology.Records.{
  MethodologyExecutionRecord, MethodologyExecutionStateRequest, MethodologyExecutionStateResult,
}
use paa_platform.Methodology.Store.{Store, Database, get_methodology_execution, has_execution_id}
use paa_platform.Methodology.State.{
  returned, at_source, supported_transition_key, apply_to, apply_transition, blocked_result,
  unsupported_state_details,
}
use paa_platform.Methodology.State.Current.{resolve_record, summary_from_record}
use paa_platform.Methodology.State.Apply.{apply-Ends, ok_inversion}

-- A request that names its execution resolves to it.
pub resolve_named :
    (store : Store) (request : MethodologyExecutionStateRequest) (id : String)
    → named request.methodology_execution_id ≡ some id
    → resolve_record store request ≡ get_methodology_execution store id
unfolding resolve_record
resolve_named store request id h = rw (h, resolve_record)

pub get_id :
    (store : Store) (id : String) (r : MethodologyExecutionRecord)
    → get_methodology_execution store id ≡ some r
    → r.methodology_execution_id ≡ id
unfolding get_methodology_execution
get_id store id r h =
    (eq_iff r.methodology_execution_id id).0
      (find-passes (has_execution_id id) store.executions r h)

module _ (request : MethodologyExecutionStateRequest) (id : String)
    (name : named request.methodology_execution_id ≡ some id) where
  refused_at :
      (db : Database) (store : Store) (r : MethodologyExecutionRecord)
      → get_methodology_execution store id ≡ some r
      → request.transition_key ≡ some "component-progress-reconciled"
      → at_source r ≡ false
      → (again : MethodologyExecutionStateResult) × (apply_transition request db store
          ≡ returned again store)
        × (again.ok ≡ false)
        × (again.reason ≡ some "unsupported_current_state")
  unfolding blocked_result apply_transition apply_to
  refused_at db store r h key no_source =
      let found : resolve_record store request ≡ some r = resolve_named store request id name ∙ h in
      let k : opt_eq request.transition_key (some supported_transition_key) ≡ true =
        (opt_eq_iff request.transition_key (some supported_transition_key)).1 key in
      (
        blocked_result request (some (summary_from_record store r)) "unsupported_current_state"
            (unsupported_state_details r),
        rw (found, apply_transition) (rw (k, apply_to) (rw no_source)),
        refl,
        refl,
      )

  -- A request that names its execution is applied at most once: applied again, at whatever time, it
  -- returns and is refused for the state of the execution, and nothing changes.
  pub repeated_transition-refused :
      (db db' : Database) (store store' : Store) (result : MethodologyExecutionStateResult)
      → apply_transition request db store ≡ returned result store'
      → result.ok ≡ true
      → (again : MethodologyExecutionStateResult) × (apply_transition request db' store'
          ≡ returned again store')
        × (again.ok ≡ false)
        × (again.reason ≡ some "unsupported_current_state")
  repeated_transition-refused db db' store store' result e h =
      let (r, m, mv) =
        ok_inversion request db store result store' (apply-Ends request db store) e h in
      let there : get_methodology_execution store id ≡ some r =
        sym (resolve_named store request id name) ∙ m.resolved in
      let same : (r.methodology_execution_id == id) ≡ true =
        (eq_iff r.methodology_execution_id id).1 (get_id store id r there) in
      refused_at db' store' _ (mv.row id ∙ if-true _ (get_methodology_execution store id) same)
        m.key (unfold at_source in refl)
