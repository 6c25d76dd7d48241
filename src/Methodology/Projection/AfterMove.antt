-- ===== src/Methodology/Projection/AfterMove.antt =====
-- What the projections say after an applied transition.
use paa_platform.Prelude.{
  String, ◌≡◌, refl, sym, ◌∙◌, ap, true, ◌==◌, none, some, [], ◌∷◌, ◌++◌, eq_iff, last, last-append,
  if-true, if◌then◌else◌, named,
}
use paa_platform.Methodology.Records.{
  MethodologyExecutionRecord, MethodologyExecutionStateRequest, MethodologyExecutionStateResult,
}
use paa_platform.Methodology.Store.{
  Store, Database, get_methodology_execution, list_methodology_execution_events,
  load_methodology_execution_projection_inputs, list_methodology_execution_bindings,
}
use paa_platform.Methodology.State.{returned, apply_transition}
use paa_platform.Methodology.State.Moved.{move_event}
use paa_platform.Methodology.State.Apply.{apply-Ends, ok_inversion}
use paa_platform.Methodology.State.Repeat.{resolve_named, get_id}
use paa_platform.Methodology.Projection.{
  next_action_projection_from_input, explain_projection_from_input, get_next_action_projection,
  explain_current_methodology_execution, transition_context,
}
use paa_platform.Methodology.Projection.Models.{
  MethodologyExecutionNextActionProjection, MethodologyExecutionExplainProjection,
}

module _ (store : Store) (id : String) (r : MethodologyExecutionRecord)
    (found : get_methodology_execution store id ≡ some r) where
  next_projection :
      get_next_action_projection store id
      ≡ some (
          next_action_projection_from_input (record {
            execution = r;
            events = list_methodology_execution_events store id;
            bindings = list_methodology_execution_bindings store id;
          }))
  unfolding get_next_action_projection load_methodology_execution_projection_inputs
  next_projection =
      rw (found, load_methodology_execution_projection_inputs, get_next_action_projection)

  explain_projection :
      explain_current_methodology_execution store id
      ≡ some (
          explain_projection_from_input (record {
            execution = r;
            events = list_methodology_execution_events store id;
            bindings = list_methodology_execution_bindings store id;
          }))
  unfolding explain_current_methodology_execution load_methodology_execution_projection_inputs
  explain_projection =
      rw
        (found, load_methodology_execution_projection_inputs, explain_current_methodology_execution)

module _ (request : MethodologyExecutionStateRequest) (id : String)
    (name : named request.methodology_execution_id ≡ some id) where
  -- After a request that names its execution was applied, the next-action projection of that execution
  -- recommends to derive the next activity bundle, with the system as the owner and no blocked reason,
  -- and the explanation gives the step that was reached and the automated progression that led there.
  pub projected_after_move :
      (db : Database) (store store' : Store) (result : MethodologyExecutionStateResult)
      → apply_transition request db store ≡ returned result store'
      → result.ok ≡ true
      → (next : MethodologyExecutionNextActionProjection)
        × (explain : MethodologyExecutionExplainProjection) × (get_next_action_projection store' id
            ≡ some next)
        × (explain_current_methodology_execution store' id ≡ some explain)
        × (next.recommended_next_action_key ≡ some "derive-next-activity-bundle")
        × (next.recommended_owner_role ≡ some "System")
        × (next.blocked_reason ≡ none)
        × (explain.step ≡ "derive_next_activity_bundle")
        × (explain.transition_context ≡ some "automated_progression")
  unfolding next_action_projection_from_input explain_projection_from_input
  projected_after_move db store store' result e h =
      let (r, m, mv) =
        ok_inversion request db store result store' (apply-Ends request db store) e h in
      let there : get_methodology_execution store id ≡ some r =
        sym (resolve_named store request id name) ∙ m.resolved in
      let same : (r.methodology_execution_id == id) ≡ true =
        (eq_iff r.methodology_execution_id id).1 (get_id store id r there) in
      let row = mv.row id ∙ if-true _ (get_methodology_execution store id) same in
      let events : last (list_methodology_execution_events store' id)
          ≡ some (move_event request r db) =
        ap last (
          mv.events id
          ∙ ap
              (λ b.
                list_methodology_execution_events store id
                ++ (if b then move_event request r db ∷ [] else []))
              same)
        ∙ last-append (list_methodology_execution_events store id) (move_event request r db) in
      (
        _,
        _,
        next_projection store' id _ row,
        explain_projection store' id _ row,
        refl,
        refl,
        refl,
        refl,
        ap transition_context events,
      )
