-- ===== src/Methodology/State/Apply.antt =====
-- When a transition is applied.
use paa_platform.Json.{Message}
use mathlib.Core.Path.{subst}
use paa_platform.Prelude.{
  String, ◌≡◌, ◌↔◌, refl, sym, ◌∙◌, true, false, some, none, arith, eq_iff, opt_eq, opt_eq_iff,
  Bool-cases, Option-cases, inl, inr, absurd_some, Bool, ap, Option,
}
use paa_platform.Methodology.Records.{
  MethodologyExecutionRecord, MethodologyExecutionStateRequest, MethodologyExecutionStateResult,
  MethodologyExecutionStateSummary,
}
use paa_platform.Methodology.Store.{Store, Database}
use paa_platform.Methodology.State.{
  Outcome, returned, raised, at_source, supported_transition_key, blocked_result, apply_to,
  apply_transition, applied_result,
}
use paa_platform.Methodology.State.Current.{resolve_record}
use paa_platform.Methodology.State.Moved.{Moved, commit-Moved}

-- Where the one supported transition starts, and where it ends.
pub record AtSource (r : MethodologyExecutionRecord) : Type 0 where
  pub lane : r.lane ≡ "component_realization"
  pub stage : r.stage ≡ "slice_execution"
  pub step : r.step ≡ "reconcile_component_plan_progress"
  pub status : r.status ≡ "active"

pub at_source_iff : (r : MethodologyExecutionRecord) → (at_source r ≡ true) ↔ AtSource r
unfolding at_source
at_source_iff r =
    let lane = eq_iff r.lane "component_realization" in
    let stage = eq_iff r.stage "slice_execution" in
    let step = eq_iff r.step "reconcile_component_plan_progress" in
    let status = eq_iff r.status "active" in
    (
      λ h. record {
        lane = ground (arith, lane);
        stage = ground (arith, stage);
        step = ground (arith, step);
        status = ground (arith, status);
      },
      λ a. ground (arith, lane, stage, step, status, a.lane, a.stage, a.step, a.status),
    )

-- What an application needs: an execution that the request resolves to and that stands at the source,
-- and the key of the supported transition.
pub record Movable (store : Store) (request : MethodologyExecutionStateRequest)
    (r : MethodologyExecutionRecord) : Type 0 where
  pub resolved : resolve_record store request ≡ some r
  pub key : request.transition_key ≡ some "component-progress-reconciled"
  pub source : AtSource r

-- A refusal changes nothing and gives its one reason.
pub record Refused (store : Store) (result : MethodologyExecutionStateResult) (store' : Store)
    : Type 0 where
  pub not_ok : result.ok ≡ false
  pub reason : String
  pub given : result.reason ≡ some reason
  pub no_transition : result.transition ≡ none
  pub unchanged : store' ≡ store

-- How a call of `apply_transition` can end.
pub data Ends (request : MethodologyExecutionStateRequest) (db : Database) (store : Store)
    : Outcome → Type 0 where
  moves :
      (r : MethodologyExecutionRecord) (result : MethodologyExecutionStateResult) (store' : Store)
      → Movable store request r
      → result.ok ≡ true
      → Moved request r db store store'
      → Ends request db store (returned result store')
  refuses :
      (result : MethodologyExecutionStateResult) (store' : Store)
      → ((r : MethodologyExecutionRecord) → ¬ (Movable store request r))
      → Refused store result store'
      → Ends request db store (returned result store')

module _ (request : MethodologyExecutionStateRequest) (db : Database) (store : Store) where
  refusal :
      (current : Option MethodologyExecutionStateSummary) (reason : String) (details : Message)
      → ((r : MethodologyExecutionRecord) → ¬ Movable store request r)
      → Ends request db store (returned (blocked_result request current reason details) store)
  unfolding blocked_result
  refusal current reason details none_moves = refuses _ store none_moves (record {
    not_ok = refl;
    reason = reason;
    given = refl;
    no_transition = refl;
    unchanged = refl;
  })

  other_key :
      opt_eq request.transition_key (some supported_transition_key) ≡ false
      → (r : MethodologyExecutionRecord) → ¬ Movable store request r
  other_key k r m =
      let same : opt_eq request.transition_key (some supported_transition_key) ≡ true =
        (opt_eq_iff request.transition_key (some supported_transition_key)).1 m.key in
      cc

  module _ (r : MethodologyExecutionRecord) (found : resolve_record store request ≡ some r) where
    other_state :
        at_source r ≡ false → (r' : MethodologyExecutionRecord) → ¬ Movable store request r'
    other_state s r' m =
        let same : r' ≡ r = cc (m.resolved, found) in
        let there : at_source r ≡ true =
          subst (λ x. at_source x ≡ true) same ((at_source_iff r').1 m.source) in
        cc

    apply_to-Ends : Ends request db store (apply_to request r db store)
    unfolding apply_to applied_result
    apply_to-Ends =
        elim (Bool-cases (opt_eq request.transition_key (some supported_transition_key))) [
          | inr k ↦ rw (k, apply_to) (refusal _ "unsupported_transition_key" _ (other_key k))
          | inl k ↦ elim (Bool-cases (at_source r)) [
            | inr s ↦
                rw (k, apply_to) (rw s (refusal _ "unsupported_current_state" _ (other_state s)))
            | inl s ↦
                let c = commit-Moved request r db store in
                let key = (opt_eq_iff request.transition_key (some supported_transition_key)).0 k in
                rw (k, apply_to)
                  (rw s (
                    subst (Ends request db store) (sym c.0) (
                      moves r _ _
                        (record { resolved = found; key = key; source = (at_source_iff r).0 s })
                        refl c.1)))
          ]
        ]

  -- An application always returns, its ids being texts that the casts to uuid accept. Either the
  -- request is refused with one reason and nothing changes, and then no execution that it resolves to
  -- stands at the source of the transition or the key is another; or the one it resolves to does, and
  -- it is moved: its row stands at the target with its other columns kept, the event stands last among
  -- its events, the bindings of the kinds that the request names are replaced by those of the request,
  -- and no other execution is touched.
  pub apply-Ends : Ends request db store (apply_transition request db store)
  unfolding apply_transition
  apply-Ends = elim (Option-cases (resolve_record store request)) [
    | inl n ↦
        rw (n, apply_transition)
          (refusal _ "missing_methodology_execution" _ (λ r m. absurd_some (sym n ∙ m.resolved)))
    | inr (r, e) ↦ rw (e, apply_transition) (apply_to-Ends r e)
  ]

-- The outcome's result and store.
abbrev pub store_of : Outcome → Store
store_of (returned result store) = store
store_of (raised store) = store

ok_of : Outcome → Bool
ok_of (returned result store) = result.ok
ok_of (raised store) = false

-- A call that ends well has moved an execution.
pub ok_inversion :
    (request : MethodologyExecutionStateRequest) (db : Database) (store : Store) {o : Outcome}
    (result : MethodologyExecutionStateResult) (store' : Store)
    → Ends request db store o
    → o ≡ returned result store'
    → result.ok ≡ true
    → (r : MethodologyExecutionRecord) × Movable store request r × Moved request r db store store'
unfolding ok_of
ok_inversion request db store result store' (moves r res st m k mv) e h =
    let same : st ≡ store' = ap store_of e in (r, m, subst (Moved request r db store) same mv)
ok_inversion request db store result store' (refuses res st m f) e h =
    let same : res.ok ≡ result.ok = ap ok_of e in
    absurd (let no : false ≡ true = sym f.not_ok ∙ same ∙ h in cc)
