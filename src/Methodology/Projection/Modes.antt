-- ===== src/Methodology/Projection/Modes.antt =====
-- Which projections a request gets.
pub mod Inputs
use paa_platform.Methodology.Projection.Modes.Inputs.{Identified, input_cases}
use mathlib.Core.Option.{some-injective}
use paa_platform.Prelude.{
  String, ◌≡◌, ◌⊎◌, refl, sym, ap, ◌∙◌, Bool, true, false, ◌==◌, Option, none, some, List, [], ◌∷◌,
  is_some, Memᴰ, Bool-cases, Option-cases, absurd_some, inl, inr, find, find-passes, named, eq_iff,
  opt_eq_iff, arith, ◌↔◌,
}
use paa_platform.Methodology.Records.{MethodologyExecutionRecord}
use paa_platform.Methodology.Store.{
  Store, MethodologyExecutionProjectionInputRecord, has_execution_id, has_primary_ref,
  get_methodology_execution, find_methodology_execution_by_primary_ref,
  load_methodology_execution_projection_inputs, list_methodology_execution_events,
  list_methodology_execution_bindings,
}
use paa_platform.Methodology.Projection.{
  mode_supported, projected_id, resolve_projection_input, blocked_projection, projection_result,
  get_projection, status_projection_from_input, next_action_projection_from_input,
  explain_projection_from_input,
}
use paa_platform.Methodology.Projection.Models.{
  MethodologyExecutionProjectionRequest, MethodologyExecutionProjectionResult,
  MethodologyExecutionStatusProjection, MethodologyExecutionNextActionProjection,
  MethodologyExecutionExplainProjection,
}

module _ (store : Store) (request : MethodologyExecutionProjectionRequest) where
  abbrev pub result : MethodologyExecutionProjectionResult
  result = get_projection store request

  -- The one projection that a mode asks for, with what it says of the execution.
  abbrev pub IsStatus : MethodologyExecutionRecord → Type 0
  IsStatus r =
      (p : MethodologyExecutionStatusProjection) × (request.projection_mode ≡ some "status")
      × (result.status_projection ≡ some p)
      × (result.next_action_projection ≡ none)
      × (result.explain_projection ≡ none)
      × (p.methodology_execution_id ≡ r.methodology_execution_id)
      × (p.stage ≡ r.stage)
      × (p.step ≡ r.step)
      × (p.status ≡ r.status)
      × (p.next_action_key ≡ r.next_action_key)

  abbrev pub IsNext : MethodologyExecutionRecord → Type 0
  IsNext r =
      (p : MethodologyExecutionNextActionProjection) × (request.projection_mode ≡ some "next")
      × (result.status_projection ≡ none)
      × (result.next_action_projection ≡ some p)
      × (result.explain_projection ≡ none)
      × (p.methodology_execution_id ≡ r.methodology_execution_id)
      × (p.recommended_next_action_key ≡ r.next_action_key)
      × (p.recommended_owner_role ≡ some r.current_owner_role)

  abbrev pub IsExplain : MethodologyExecutionRecord → Type 0
  IsExplain r =
      (p : MethodologyExecutionExplainProjection) × (request.projection_mode ≡ some "explain")
      × (result.status_projection ≡ none)
      × (result.next_action_projection ≡ none)
      × (result.explain_projection ≡ some p)
      × (p.methodology_execution_id ≡ r.methodology_execution_id)
      × (p.stage ≡ r.stage)
      × (p.step ≡ r.step)
      × (p.status ≡ r.status)

  abbrev pub IsMode : Option String → Type 0
  IsMode mode = (mode ≡ some "status") ⊎ ((mode ≡ some "next") ⊎ (mode ≡ some "explain"))

  pub record Answered : Type 0 where
    pub execution : MethodologyExecutionRecord
    pub identified : Identified store request execution
    pub is_ok : result.ok ≡ true
    pub no_reason : result.reason ≡ none
    pub shows : IsStatus execution ⊎ (IsNext execution ⊎ IsExplain execution)

  pub record Blocked : Type 0 where
    pub because :
        (IsMode request.projection_mode → ⊥)
        ⊎ ((r : MethodologyExecutionRecord) → Identified store request r → ⊥)
    pub not_ok : result.ok ≡ false
    pub reason : is_some result.reason ≡ true
    pub no_status : result.status_projection ≡ none
    pub no_next : result.next_action_projection ≡ none
    pub no_explain : result.explain_projection ≡ none

  IsMode-cases :
      (mode : Option String)
      → ((mode_supported mode ≡ true) × IsMode mode)
        ⊎ ((mode_supported mode ≡ false) × (IsMode mode → ⊥))
  IsMode-cases none = inr (
    refl,
    λ h. elim h [
      | inl a ↦ absurd_some a
      | inr (inl a) ↦ absurd_some a
      | inr (inr a) ↦ absurd_some a
    ],
  )
  IsMode-cases (some mode) = elim (Bool-cases (mode_supported (some mode))) [
    | inl e ↦ inl (
      e,
      elim (Bool-cases (mode == "status")) [
        | inl a ↦ inl (ap some ((eq_iff mode "status").0 a))
        | inr a ↦ elim (Bool-cases (mode == "next")) [
          | inl b ↦ inr (inl (ap some ((eq_iff mode "next").0 b)))
          | inr b ↦ inr (inr (ap some ((eq_iff mode "explain").0 (ground (arith, e, a, b)))))
        ]
      ],
    )
    | inr e ↦ inr (
      e,
      λ h. elim h [
        | inl a ↦
            let m = (eq_iff mode "status").1 (some-injective _ _ a) in
            let no : true ≡ false = ground (arith, e, m) in absurd (cc)
        | inr (inl a) ↦
            let m = (eq_iff mode "next").1 (some-injective _ _ a) in
            let no : true ≡ false = ground (arith, e, m) in absurd (cc)
        | inr (inr a) ↦
            let m = (eq_iff mode "explain").1 (some-injective _ _ a) in
            let no : true ≡ false = ground (arith, e, m) in absurd (cc)
      ],
    )
  ]

  shown_for :
      (input : MethodologyExecutionProjectionInputRecord)
      → mode_supported request.projection_mode ≡ true
      → resolve_projection_input store request ≡ some input
      → IsMode request.projection_mode
      → IsStatus input.execution ⊎ (IsNext input.execution ⊎ IsExplain input.execution)
  unfolding get_projection projection_result status_projection_from_input
      next_action_projection_from_input explain_projection_from_input
  shown_for input m e (inl a) = inl (
    status_projection_from_input input,
    a,
    rw (m, e, get_projection) (rw a refl),
    rw (m, e, get_projection) (rw a refl),
    rw (m, e, get_projection) (rw a refl),
    refl,
    refl,
    refl,
    refl,
    refl,
  )
  shown_for input m e (inr (inl a)) = inr (
      inl (
        next_action_projection_from_input input,
        a,
        rw (m, e, get_projection) (rw a refl),
        rw (m, e, get_projection) (rw a refl),
        rw (m, e, get_projection) (rw a refl),
        refl,
        refl,
        refl,
      ))
  shown_for input m e (inr (inr a)) = inr (
      inr (
        explain_projection_from_input input,
        a,
        rw (m, e, get_projection) (rw a refl),
        rw (m, e, get_projection) (rw a refl),
        rw (m, e, get_projection) (rw a refl),
        refl,
        refl,
        refl,
        refl,
      ))

  -- Either the request has one of the three modes and identifies an execution of the store, by its id or,
  -- where it has none, by project, work item and component; then the result is ok and holds one
  -- projection, the one of the mode, which tells the columns of that execution. Or one of the two is not
  -- so, and the result is not ok, holds no projection and gives a reason. Ids are texts that the casts to
  -- uuid accept.
  pub answered-or-blocked : Answered ⊎ Blocked
  unfolding get_projection blocked_projection projection_result
  answered-or-blocked = elim (IsMode-cases request.projection_mode) [
    | inr (m, never) ↦ inr (record {
      because = inl never;
      not_ok = rw (m, get_projection) refl;
      reason = rw (m, get_projection) refl;
      no_status = rw (m, get_projection) refl;
      no_next = rw (m, get_projection) refl;
      no_explain = rw (m, get_projection) refl;
    })
    | inl (m, is) ↦ elim (input_cases store request) [
      | inr (n, never) ↦ inr (record {
        because = inr never;
        not_ok = rw (m, n, get_projection) refl;
        reason = rw (m, n, get_projection) refl;
        no_status = rw (m, n, get_projection) refl;
        no_next = rw (m, n, get_projection) refl;
        no_explain = rw (m, n, get_projection) refl;
      })
      | inl (input, e, identified) ↦ inl (record {
        execution = input.execution;
        identified = identified;
        is_ok = rw (m, e, get_projection) refl;
        no_reason = rw (m, e, get_projection) refl;
        shows = shown_for input m e is;
      })
    ]
  ]
