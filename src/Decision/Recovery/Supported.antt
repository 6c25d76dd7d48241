-- ===== src/Decision/Recovery/Supported.antt =====
-- Which requests get a reset-recovery decision.
use mathlib.Core.Path.{subst}
use paa_platform.Prelude.{
  member, Bool-cases, String, ◌≡◌, ◌≢◌, ◌↔◌, ◌⊎◌, refl, ap, sym, ◌∙◌, true, false, ◌||◌, ◌==◌,
  Option, none, some, List, [], ◌∷◌, inl, inr, Option-cases, absurd_some, strip, strip-strip,
  is_positive, arith, eq_iff,
}
use paa_platform.Decision.Recovery.{
  normalized, or_none, stripped_member, supports_reset_recovery_decision, rejection,
  supported_result, rejected_result, derive_reset_recovery_decision,
}
use paa_platform.Decision.Recovery.Models.{TechLeadResetRecoveryDecisionRequest}

-- A signal that asks for a reset: the stage, the lineage or the type of an escalation.
abbrev pub Signal : TechLeadResetRecoveryDecisionRequest → Type 0
Signal request =
    (strip request.workflow_stage ≡ "dev_reset_required")
    ⊎ ((strip request.lineage_state ≡ "reset_required")
        ⊎ ((normalized request.reset_escalation_type ≡ "reset_branch_required")
            ⊎ (normalized request.reset_escalation_type ≡ "reset_branch_recommended")))

-- What a request needs for a decision.
pub record Resettable (request : TechLeadResetRecoveryDecisionRequest) : Type 0 where
  pub issue : is_positive request.issue_number ≡ true
  pub stage : strip request.workflow_stage ≢ ""
  pub named : (strip request.lineage_state ≢ "") ⊎ (normalized request.reset_escalation_type ≢ "")
  pub signal : Signal request

stripped_lem :
    (x : String) (names : List String)
    → member "" names ≡ false
    → stripped_member (or_none (strip x)) names ≡ member (strip x) names
stripped_lem x names n = elim (Bool-cases (strip x == "")) [
  | inl e ↦
      let same : strip x ≡ "" = (eq_iff (strip x) "").0 e in
      rw e (sym (subst (λ s. member s names ≡ false) (sym same) n))
  | inr e ↦ rw e (ap (λ s. member s names) (strip-strip x))
]

supports_lem :
    (stage lineage escalation : String)
    → supports_reset_recovery_decision
        (strip stage)
        (or_none (strip lineage))
        (or_none (strip escalation))
      ≡ (strip stage == "dev_reset_required"
          || (strip lineage == "reset_required"
              || (strip escalation == "reset_branch_required"
                  || strip escalation == "reset_branch_recommended")))
unfolding supports_reset_recovery_decision
supports_lem stage lineage escalation =
    rw
      (
        strip-strip stage,
        stripped_lem lineage ("reset_required" ∷ []) refl,
        stripped_lem escalation ("reset_branch_required" ∷ "reset_branch_recommended" ∷ []) refl,
      )
      (ground arith)

supported_at :
    (stage lineage : String) (e : Option String)
    → supports_reset_recovery_decision
        (strip stage)
        (or_none (strip lineage))
        (or_none (normalized e))
      ≡ (strip stage == "dev_reset_required"
          || (strip lineage == "reset_required"
              || (normalized e == "reset_branch_required"
                  || normalized e == "reset_branch_recommended")))
supported_at stage lineage none = supports_lem stage lineage ""
supported_at stage lineage (some s) = supports_lem stage lineage s

rejection-Resettable :
    (request : TechLeadResetRecoveryDecisionRequest)
    → (rejection request ≡ none) ↔ Resettable request
unfolding rejection
rejection-Resettable request =
    let v =
      supported_at request.workflow_stage request.lineage_state request.reset_escalation_type in
    let stage = eq_iff (strip request.workflow_stage) "dev_reset_required" in
    let lineage = eq_iff (strip request.lineage_state) "reset_required" in
    let required = eq_iff (normalized request.reset_escalation_type) "reset_branch_required" in
    let recommended =
      eq_iff (normalized request.reset_escalation_type) "reset_branch_recommended" in
    (
      λ h. record {
        issue = ground arith;
        stage = ground (arith, eq_iff (strip request.workflow_stage) "");
        named = ground (
          arith,
          eq_iff (strip request.lineage_state) "",
          eq_iff (normalized request.reset_escalation_type) "",
        );
        signal = ground (arith, v, stage, lineage, required, recommended);
      },
      λ a. ground (
        arith,
        v,
        stage,
        lineage,
        required,
        recommended,
        a.issue,
        a.stage,
        a.named,
        a.signal,
        eq_iff (strip request.workflow_stage) "",
        eq_iff (strip request.lineage_state) "",
        eq_iff (normalized request.reset_escalation_type) "",
      ),
    )

module _ (now : String) (request : TechLeadResetRecoveryDecisionRequest) where
  -- A decision is derived exactly for a request with a positive issue number, a stage, a lineage state
  -- or an escalation type, and a signal that asks for a reset, all up to white space around them; then
  -- it allows the reset of the branch, and otherwise it allows nothing and blocks for one reason.
  pub derived_iff :
      let result = derive_reset_recovery_decision now request in
      ((result.ok ≡ true) ↔ Resettable request)
      × (result.summary.decision_supported ≡ result.ok)
      × (result.summary.reset_allowed ≡ result.ok)
      × ((result.ok ≡ true)
          ⊎ ((reason : String) × (result.reason ≡ some reason)
              × (result.summary.blocking_reasons ≡ reason ∷ [])))
  unfolding derive_reset_recovery_decision supported_result rejected_result
  derived_iff =
      let r = rejection-Resettable request in
      elim (Option-cases (rejection request)) [
        | inl n ↦
            rw (n, derive_reset_recovery_decision) (((λ h. r.0 n), λ a. refl), refl, refl, inl refl)
        | inr b ↦
            rw (b.1, derive_reset_recovery_decision)
              (
                (
                  (λ h. absurd (let no : false ≡ true = h in cc)),
                  λ a. absurd_some (sym (r.1 a) ∙ b.1),
                ),
                refl,
                refl,
                inr (b.0.reason, refl, refl),
              )
      ]
