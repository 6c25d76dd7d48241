-- ===== src/Decision/Review/Routed.antt =====
-- Which worker results are routed, and where to.
use mathlib.Core.Path.{subst}
use paa_platform.Prelude.{
  String, ◌≡◌, ◌≢◌, ◌↔◌, ◌⊎◌, refl, sym, ◌∙◌, true, false, ◌&&◌, ◌==◌, none, some, List, [], ◌∷◌,
  inl, inr, Option-cases, Bool-cases, absurd_some, strip, strip-strip, is_positive, member, arith,
  eq_iff,
}
use paa_platform.Decision.Review.{
  Recommendation, supported_stages, supported_result_types, recommendation_by_result_type,
  rejection, supports_worker_review_routing, supported_summary, build_supported_result,
  build_rejected_result, derive_worker_review_routing,
}
use paa_platform.Decision.Review.Models.{
  TechLeadWorkerReviewRoutingRequest, TechLeadWorkerReviewRoutingResult,
}

-- What a request needs to be routed.
pub record Routable (request : TechLeadWorkerReviewRoutingRequest) : Type 0 where
  pub issue : is_positive request.issue_number ≡ true
  pub stage : member (strip request.workflow_stage) supported_stages ≡ true
  pub role : strip request.worker_role ≢ ""
  pub result_type : member (strip request.worker_result_type) supported_result_types ≡ true

supports_lem :
    (stage t : String)
    → supports_worker_review_routing (strip stage) (some (strip t))
      ≡ (member (strip stage) supported_stages && member (strip t) supported_result_types)
unfolding supports_worker_review_routing
supports_lem stage t = rw (strip-strip stage, strip-strip t)

-- A text of a list without the empty text is not empty.
named_text :
    (x : String) (names : List String)
    → member "" names ≡ false
    → member x names ≡ true
    → (x == "") ≡ false
named_text x names n h = elim (Bool-cases (x == "")) [
  | inr e ↦ e
  | inl e ↦
      let same : x ≡ "" = (eq_iff x "").0 e in
      let no : true ≡ false = sym h ∙ subst (λ s. member s names ≡ false) (sym same) n in
      absurd (cc)
]

rejection-Routable :
    (request : TechLeadWorkerReviewRoutingRequest) → (rejection request ≡ none) ↔ Routable request
unfolding rejection
rejection-Routable request =
    let v = supports_lem request.workflow_stage request.worker_result_type in
    let no_role = eq_iff (strip request.worker_role) "" in
    (
      λ h. record {
        issue = ground arith;
        stage = ground (arith, v);
        role = ground (arith, no_role);
        result_type = ground (arith, v);
      },
      λ a.
          let stage_named =
            named_text (strip request.workflow_stage) supported_stages refl a.stage in
          let type_named =
            named_text (strip request.worker_result_type) supported_result_types refl
              a.result_type in
          ground
            (arith, v, a.issue, a.stage, a.result_type, stage_named, type_named, a.role, no_role),
    )

-- The types that pass the guards are those that the table of recommendations has.
recommended :
    (t : String)
    → member t supported_result_types ≡ true
    → (r : Recommendation) × (recommendation_by_result_type t ≡ some r)
      × (r.qa_assignment_allowed ≡ (t == "implemented_ready_for_qa"))
unfolding recommendation_by_result_type
recommended t h = elim (Bool-cases (t == "implemented_ready_for_qa")) [
  | inl a ↦ rw a (_, refl, refl)
  | inr a ↦ rw a (elim (Bool-cases (t == "blocked")) [
    | inl b ↦ rw b (_, refl, refl)
    | inr b ↦ rw b (elim (Bool-cases (t == "needs_clarification")) [
      | inl c ↦ rw c (_, refl, refl)
      | inr c ↦ rw c (elim (Bool-cases (t == "cannot_complete_without_scope_change")) [
        | inl d ↦ rw d (_, refl, refl)
        | inr d ↦ rw d (elim (Bool-cases (t == "superseded_by_branch_reset")) [
          | inl e ↦ rw e (_, refl, refl)
          | inr e ↦ absurd (ground arith)
        ])
      ])
    ])
  ])
]

-- What a request is answered with.
pub record Answered (request : TechLeadWorkerReviewRoutingRequest)
    (result : TechLeadWorkerReviewRoutingResult) : Type 0 where
  pub routed : (result.ok ≡ true) ↔ Routable request
  pub supported : result.summary.decision_supported ≡ result.ok
  pub unattended : result.unattended_safe ≡ some result.ok
  pub to_qa :
      result.summary.qa_assignment_allowed
      ≡ (result.ok && strip request.worker_result_type == "implemented_ready_for_qa")
  pub blocked :
      (result.ok ≡ true)
      ⊎ ((reason : String) × (result.reason ≡ some reason)
          × (result.summary.blocking_reasons ≡ reason ∷ []))

module _ (now : String) (request : TechLeadWorkerReviewRoutingRequest) where
  -- The routing always returns: the table of recommendations has each result type that passes the
  -- guards. It routes a worker result exactly for a positive issue number, a worker role, and a stage
  -- and a result type that are supported, up to white space around them. Only the type
  -- `implemented_ready_for_qa` goes on to QA, and what is not routed is blocked for one reason and is
  -- not safe to run unattended.
  pub derive-Answered :
      (result : TechLeadWorkerReviewRoutingResult) × (derive_worker_review_routing now request
        ≡ some result)
      × Answered request result
  unfolding derive_worker_review_routing build_rejected_result build_supported_result
      supported_summary
  derive-Answered =
      let r = rejection-Routable request in
      elim (Option-cases (rejection request)) [
        | inr (b, e) ↦ (
          build_rejected_result now request b,
          rw (e, derive_worker_review_routing),
          record {
            routed = (
              (λ h. absurd (let no : false ≡ true = h in cc)),
              λ a. absurd_some (sym (r.1 a) ∙ e),
            );
            supported = refl;
            unattended = refl;
            to_qa = refl;
            blocked = inr (b.reason, refl, refl);
          },
        )
        | inl e ↦
            let a = r.0 e in
            let (rec, found, allowed) =
              recommended (strip request.worker_result_type) a.result_type in
            (
              build_supported_result request (supported_summary request rec),
              rw (e, derive_worker_review_routing) (rw found),
              record {
                routed = ((λ h. a), λ b. refl);
                supported = refl;
                unattended = refl;
                to_qa = allowed;
                blocked = inl refl;
              },
            )
      ]
