-- ===== src/Decision/Acceptance/Allowed.antt =====
-- When an acceptance is allowed.
use paa_platform.Prelude.{
  String, ◌≡◌, ◌≢◌, ◌↔◌, ◌⊎◌, refl, sym, ◌∙◌, Bool, true, false, ◌&&◌, ◌==◌, Option, none, some, [],
  ◌∷◌, inl, inr, Option-cases, if◌then◌else◌, Bool-cases, absurd_some, strip, strip-strip,
  is_positive, arith, eq_iff,
}
use paa_platform.Decision.Recovery.{normalized, or_none}
use paa_platform.Decision.Acceptance.{
  build_supported_result, build_rejected_result, derive_prepare_merge, derive_proof_only_closeout,
  derive_acceptance_decision,
}
use paa_platform.Decision.Acceptance.Guards.{
  rejection, is_false, unsupported_schema, supports_acceptance_decision, resolve_execution_mode,
  resolve_merge_ready,
}
use paa_platform.Decision.Acceptance.Models.{
  TechLeadAcceptanceDecisionRequest, TechLeadAcceptanceDecisionResult,
}

-- What a request needs to be accepted. A live delivery must not be known as not ready to merge.
pub record Acceptable (request : TechLeadAcceptanceDecisionRequest) : Type 0 where
  pub issue : is_positive request.issue_number ≡ true
  pub stage : strip request.workflow_stage ≡ "techlead_qa_review_pending"
  pub passed : strip request.qa_result_type ≡ "pass"
  pub schema :
      (normalized request.source_packet_schema_type ≡ "")
      ⊎ (normalized request.source_packet_schema_type ≡ "qa_verification_packet")
  pub mergeable :
      (resolve_execution_mode request ≡ "proof_only") ⊎ (resolve_merge_ready request ≢ some false)

supports_lem :
    (stage t : String)
    → supports_acceptance_decision (strip stage) (some (strip t))
      ≡ (strip stage == "techlead_qa_review_pending" && strip t == "pass")
unfolding supports_acceptance_decision
supports_lem stage t = rw (strip-strip stage, strip-strip t) (ground arith)

schema_lem :
    (s : String)
    → (unsupported_schema (or_none s) ≡ false) ↔ ((s ≡ "") ⊎ (s ≡ "qa_verification_packet"))
schema_lem s =
    let blank = eq_iff s "" in
    let packet = eq_iff s "qa_verification_packet" in
    elim (Bool-cases (s == "")) [
      | inl e ↦ rw e ((λ h. inl (blank.0 e)), λ h. refl)
      | inr e ↦ rw e ((λ h. ground (arith, packet)), λ h. ground (arith, blank, packet))
    ]

is_false_lem : (o : Option Bool) → (is_false o ≡ false) ↔ (o ≢ some false)
is_false_lem none = ((λ h k. absurd_some k), λ h. refl)
is_false_lem (some true) = ((λ h k. (let no : true ≡ false = cc in cc)), λ h. refl)
is_false_lem (some false) = ((λ h k. (let no : true ≡ false = h in cc)), λ h. absurd (h refl))

rejection-Acceptable :
    (request : TechLeadAcceptanceDecisionRequest) → (rejection request ≡ none) ↔ Acceptable request
unfolding rejection
rejection-Acceptable request =
    let v = supports_lem request.workflow_stage request.qa_result_type in
    let stage = eq_iff (strip request.workflow_stage) "techlead_qa_review_pending" in
    let passed = eq_iff (strip request.qa_result_type) "pass" in
    let schema = schema_lem (normalized request.source_packet_schema_type) in
    let mode = eq_iff (resolve_execution_mode request) "proof_only" in
    let ready = is_false_lem (resolve_merge_ready request) in
    (
      λ h. record {
        issue = ground arith;
        stage = ground (arith, v, stage);
        passed = ground (arith, v, passed);
        schema = ground (arith, schema);
        mergeable = ground (arith, mode, ready);
      },
      λ a.
          let stage_named : (strip request.workflow_stage == "") ≡ false = rw a.stage in
          let type_named : (strip request.qa_result_type == "") ≡ false = rw a.passed in
          let fits : unsupported_schema (or_none (normalized request.source_packet_schema_type))
              ≡ false =
            schema.1 a.schema in
          ground (
            arith, v, fits, stage_named, type_named, stage, passed, mode, ready, a.issue, a.stage,
            a.passed, a.mergeable,
          ),
    )

-- What a request is answered with.
pub record Decided (request : TechLeadAcceptanceDecisionRequest)
    (result : TechLeadAcceptanceDecisionResult) : Type 0 where
  pub accepted : (result.ok ≡ true) ↔ Acceptable request
  pub allowed : result.summary.acceptance_allowed ≡ result.ok
  pub closed :
      result.summary.closeout_allowed
      ≡ (result.ok && resolve_execution_mode request == "proof_only")
  pub decision : result.summary.recommended_next_decision ≡ (
      if result.ok
      then some (
          if resolve_execution_mode request == "proof_only" then "close_slice" else "prepare_merge")
      else none)
  pub actions :
      result.recommended_actions
      ≡ (elim result.summary.recommended_next_decision [ none ↦ none | some d ↦ some (d ∷ []) ])

module _ (now : String) (request : TechLeadAcceptanceDecisionRequest) where
  supported-Decided :
      rejection request ≡ none → Decided request (derive_acceptance_decision now request)
  unfolding derive_acceptance_decision derive_prepare_merge derive_proof_only_closeout
      build_supported_result
  supported-Decided e =
      let a = (rejection-Acceptable request).0 e in
      elim (Bool-cases (resolve_execution_mode request == "proof_only")) [
        | inl m ↦
            rw (e, derive_acceptance_decision)
              (rw m (record {
                accepted = ((λ h. a), λ b. refl);
                allowed = refl;
                closed = rw m;
                decision = rw m;
                actions = refl;
              }))
        | inr m ↦
            rw (e, derive_acceptance_decision)
              (rw m (record {
                accepted = ((λ h. a), λ b. refl);
                allowed = refl;
                closed = rw m;
                decision = rw m;
                actions = refl;
              }))
      ]

  -- An acceptance is allowed exactly for a positive issue number, the stage of the QA review, a
  -- passing result, no source schema but the one of the QA packet, and a live delivery that is not
  -- known as not ready to merge. The slice is closed at once in proof-only mode and goes on to the
  -- merge in any other; a request that is not acceptable gets no decision.
  pub derive-Decided : Decided request (derive_acceptance_decision now request)
  unfolding derive_acceptance_decision build_rejected_result
  derive-Decided = elim (Option-cases (rejection request)) [
    | inl e ↦ supported-Decided e
    | inr (r, e) ↦
        rw (e, derive_acceptance_decision)
          (record {
            accepted = (
              (λ h. absurd (let no : false ≡ true = h in cc)),
              λ a. absurd_some (sym ((rejection-Acceptable request).1 a) ∙ e),
            );
            allowed = refl;
            closed = refl;
            decision = refl;
            actions = refl;
          })
  ]
