-- ===== src/Methodology/State/History.antt =====
-- The events of an execution explain where it stands.
use mathlib.Core.Path.{subst, subst₂}
use paa_platform.Prelude.{
  String, ◌≡◌, refl, sym, ◌∙◌, ap, Bool, some, List, [], ◌∷◌, ◌++◌, ◌==◌, last, last-append,
  Bool-cases, inl, inr, if◌then◌else◌, if-true, if-false,
}
use mathlib.Core.List.{append-nil}
use paa_platform.Methodology.Records.{
  MethodologyExecutionRecord, MethodologyExecutionEventRecord, MethodologyExecutionStateRequest,
}
use paa_platform.Methodology.Store.{
  Store, Database, get_methodology_execution, list_methodology_execution_events, created_or_now,
}
use paa_platform.Methodology.State.{Outcome, apply_transition}
use paa_platform.Methodology.State.Moved.{Moved, moved, move_event}
use paa_platform.Methodology.State.Apply.{Ends, moves, refuses, apply-Ends, store_of}

-- An event leads to the place where an execution stands.
pub record LeadsTo (e : MethodologyExecutionEventRecord) (r : MethodologyExecutionRecord)
    : Type 0 where
  pub lane : e.to_lane ≡ r.lane
  pub stage : e.to_stage ≡ r.stage
  pub step : e.to_step ≡ r.step
  pub status : e.to_status ≡ r.status

-- The last event of each execution that has events leads to where it stands.
abbrev pub Explained : Store → Type 0
Explained store =
    (id : String) (r : MethodologyExecutionRecord) (e : MethodologyExecutionEventRecord)
    → get_methodology_execution store id ≡ some r
    → last (list_methodology_execution_events store id) ≡ some e
    → LeadsTo e r

module _ (request : MethodologyExecutionStateRequest) (db : Database) (store : Store)
    (before : Explained store) where
  abbrev moved_row : MethodologyExecutionRecord → MethodologyExecutionRecord
  moved_row r =
      moved r (created_or_now (get_methodology_execution store r.methodology_execution_id) db.now)
        db.now

  abbrev with_event :
      MethodologyExecutionRecord → String → Bool → List MethodologyExecutionEventRecord
  with_event r id b =
      list_methodology_execution_events store id ++ (if b then move_event request r db ∷ [] else [])

  Moved-Explained :
      (r : MethodologyExecutionRecord) (store' : Store)
      → Moved request r db store store'
      → Explained store'
  Moved-Explained r store' mv id r' e hr he = elim (Bool-cases (r.methodology_execution_id == id)) [
    | inl s ↦
        let row : some (moved_row r) ≡ some r' =
          sym (mv.row id ∙ if-true (some (moved_row r)) (get_methodology_execution store id) s)
          ∙ hr in
        let event : some (move_event request r db) ≡ some e =
          sym (
            ap last (mv.events id ∙ ap (with_event r id) s)
            ∙ last-append (list_methodology_execution_events store id) (move_event request r db))
          ∙ he in
        let same_row : moved_row r ≡ r' = cc in
        let same_event : move_event request r db ≡ e = cc in
        subst₂ LeadsTo same_event same_row
          (record { lane = refl; stage = refl; step = refl; status = refl })
    | inr s ↦
        before id r' e (sym (mv.row id ∙ if-false _ (get_methodology_execution store id) s) ∙ hr) (
          sym (
            ap last (
              mv.events id
              ∙ ap (with_event r id) s
              ∙ append-nil (list_methodology_execution_events store id)))
          ∙ he)
  ]

  Ends-Explained : {o : Outcome} → Ends request db store o → Explained (store_of o)
  Ends-Explained (moves r result store' m k mv) = Moved-Explained r store' mv
  Ends-Explained (refuses result store' n f) = subst Explained (sym f.unchanged) before

  -- Whatever a call of the service does, it keeps the events in step with the executions: where the last
  -- event of each execution led to its place before, it does so after.
  pub apply-Explained : Explained (store_of (apply_transition request db store))
  apply-Explained = Ends-Explained (apply-Ends request db store)
