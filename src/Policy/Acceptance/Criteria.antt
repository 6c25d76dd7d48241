-- ===== src/Policy/Acceptance/Criteria.antt =====
-- The acceptance policy against its criteria.
use paa_platform.Prelude.{
  String, ◌≡◌, ◌≢◌, ◌↔◌, ◌⊎◌, Bool, true, false, Option, none, some, arith, eq_iff, ℕ,
  if◌then◌else◌,
}
use paa_platform.Policy.Acceptance.{
  AcceptanceRequest, AcceptanceEvaluationContext, is_false, status_fails, acceptance_blocking,
  evaluate_acceptance,
}

-- What a result has to meet. A check that has not been run (`None`) does not stand in the way.
pub record Meets (r : AcceptanceRequest) (c : AcceptanceEvaluationContext) : Type 0 where
  pub no_findings : c.has_blocking_findings ≡ false
  pub paths_protected : c.protected_path_checks_passed ≢ some false
  pub contract_approved : c.approved_contract_change ≢ some false
  pub verified : (s : String) → r.verification_status ≡ some s → (s ≡ "") ⊎ (s ≡ "pass")
  pub mergeable : r.merge_ready ≢ some false

is_false_lem : (o : Option Bool) → (is_false o ≡ false) ↔ (o ≢ some false)
is_false_lem none = ground arith
is_false_lem (some b) = ground arith

status_fails_lem :
    (o : Option String)
    → (status_fails o ≡ false) ↔ ((s : String) → o ≡ some s → (s ≡ "") ⊎ (s ≡ "pass"))
unfolding status_fails
status_fails_lem none = ((λ h s e. cc), λ h. cc)
status_fails_lem (some t) = (
  (λ h s e. ground (arith, eq_iff t "", eq_iff t "pass")),
  λ h. ground (arith, h t, eq_iff t "", eq_iff t "pass"),
)

-- A result is accepted exactly when it meets the criteria.
pub accepted-Meets :
    (r : AcceptanceRequest) (c : AcceptanceEvaluationContext)
    → ((evaluate_acceptance r c).accepted ≡ true) ↔ Meets r c
unfolding evaluate_acceptance acceptance_blocking
accepted-Meets r c =
    let p = is_false_lem c.protected_path_checks_passed in
    let a = is_false_lem c.approved_contract_change in
    let v = status_fails_lem r.verification_status in
    let m = is_false_lem r.merge_ready in
    (
      λ h. record {
        no_findings = ground arith;
        paths_protected = p.0 (ground arith);
        contract_approved = a.0 (ground arith);
        verified = v.0 (ground arith);
        mergeable = m.0 (ground arith);
      },
      λ h. ground (
        arith,
        h.no_findings,
        p.1 h.paths_protected,
        a.1 h.contract_approved,
        v.1 h.verified,
        m.1 h.mergeable,
      ),
    )

abbrev pub one_if : Bool → ℕ
one_if b = if b then 1 else 0
