-- ===== src/Policy/Capability/Requirements.antt =====
-- The capability policy against its requirements, check by check.
use paa_platform.Prelude.{
  String, ◌≡◌, ◌↔◌, Bool, true, false, not, ◌&&◌, Option, none, some, List, [], ◌∷◌, ◌++◌, arith,
  length, length-append, ◌+◌, ℕ, if◌then◌else◌, is_empty, truthy, opt_eq, member, All, Bool-cases,
  Option-cases, inl, inr, refl, opt_eq_iff, ◌⊎◌,
}
use paa_platform.Json.{Message, plain}
use paa_platform.Policy.Capability.{
  DeploymentCapabilityRequest, DeploymentCapabilityContext, Findings, artifact_attr, check_install,
  check_surface, check_artifact, check_overlay, check_each, add_satisfied, add_missing, check_attr,
  capability_findings, evaluate_capability, no_findings,
}

-- What each check asks for, as a test of its own.
abbrev pub install_ok : DeploymentCapabilityRequest → DeploymentCapabilityContext → Bool
install_ok r c = if r.require_active_install then opt_eq c.install_status (some "active") else true

abbrev pub surface_ok : DeploymentCapabilityRequest → DeploymentCapabilityContext → Bool
surface_ok r c =
    if is_empty r.required_surface_types
    then true
    else member c.execution_surface_type r.required_surface_types

abbrev pub attr_ok :
    DeploymentCapabilityContext → Option (DeploymentCapabilityContext → Option String) → Bool
attr_ok c none = false
attr_ok c (some attr) = truthy (attr c)

abbrev pub artifact_ok : DeploymentCapabilityContext → String → Bool
artifact_ok c key = attr_ok c (artifact_attr key)

-- Nothing asked for is absent.
pub record Provides (r : DeploymentCapabilityRequest) (c : DeploymentCapabilityContext)
    : Type 0 where
  pub install : r.require_active_install ≡ true → c.install_status ≡ some "active"
  pub surface :
      (r.required_surface_types ≡ [])
      ⊎ (member c.execution_surface_type r.required_surface_types ≡ true)
  pub artifacts : All (λ k. artifact_ok c k ≡ true) r.required_artifact_refs
  pub overlays : All (λ k. member k c.active_overlay_keys ≡ true) r.required_overlay_keys

abbrev pub one_if : Bool → ℕ
one_if b = if b then 1 else 0

-- The effect of one check on the findings: where it is asked for, it adds to one side or the other.
record Checked (asked passed : Bool) (f g : Findings) : Type 0 where
  missing : length g.missing ≡ length f.missing + one_if (asked && not passed)
  blocking : length g.blocking ≡ length f.blocking + one_if (asked && not passed)
  satisfied : length g.satisfied ≡ length f.satisfied + one_if (asked && passed)

module _ {ℓ} {A : Type ℓ} where
  length-snoc : (xs : List A) (x : A) → length (xs ++ x ∷ []) ≡ length xs + 1
  length-snoc xs x = length-append xs (x ∷ [])

  length-zero : (xs : List A) → (is_empty xs ≡ true) ↔ (length xs ≡ 0)
  length-zero [] = ground arith
  length-zero (x ∷ xs) = ground arith

module _ (m b s : Message) (f : Findings) where
  Checked-passed : Checked true true f (add_satisfied s f)
  Checked-passed = record {
    missing = omega arith;
    blocking = omega arith;
    satisfied = length-snoc f.satisfied s;
  }

  Checked-failed : Checked true false f (add_missing m b f)
  Checked-failed = record {
    missing = length-snoc f.missing m;
    blocking = length-snoc f.blocking b;
    satisfied = omega arith;
  }

Checked-skipped : (passed : Bool) (f : Findings) → Checked false passed f f
Checked-skipped passed f = omega arith

-- Both outcomes of a check that is asked for.
Checked-if :
    (t : Bool) (m b s : Message) (f : Findings)
    → Checked true t f (if t then add_satisfied s f else add_missing m b f)
Checked-if true m b s f = Checked-passed m b s f
Checked-if false m b s f = Checked-failed m b s f

module _ (r : DeploymentCapabilityRequest) (c : DeploymentCapabilityContext) where
  check_install-Checked :
      (f : Findings) → Checked r.require_active_install (install_ok r c) f (check_install r c f)
  unfolding check_install
  check_install-Checked f = elim (Bool-cases r.require_active_install) [
    | inl e ↦ rw e (Checked-if _ _ _ _ f)
    | inr e ↦ rw e (Checked-skipped _ f)
  ]

  check_surface-Checked :
      (f : Findings)
      → Checked (not (is_empty r.required_surface_types)) (surface_ok r c) f (check_surface r c f)
  unfolding check_surface
  check_surface-Checked f = elim (Bool-cases (is_empty r.required_surface_types)) [
    | inl e ↦ rw e (Checked-skipped _ f)
    | inr e ↦ rw e (Checked-if _ _ _ _ f)
  ]

module _ (c : DeploymentCapabilityContext) (key : String) (f : Findings) where
  check_artifact-Checked : Checked true (artifact_ok c key) f (check_artifact c key f)
  unfolding check_artifact check_attr
  check_artifact-Checked = elim (Option-cases (artifact_attr key)) [
    | inl e ↦ rw e (Checked-failed _ _ (plain "") f)
    | inr (attr, e) ↦ rw e (Checked-if _ _ _ _ f)
  ]

  check_overlay-Checked : Checked true (member key c.active_overlay_keys) f (check_overlay c key f)
  unfolding check_overlay
  check_overlay-Checked = Checked-if _ _ _ _ f

-- How many of the keys fail their test.
failures : (String → Bool) → List String → ℕ
failures test [] = 0
failures test (k ∷ ks) = one_if (not (test k)) + failures test ks

failures-zero :
    (test : String → Bool) (ks : List String) → (failures test ks ≡ 0) ↔ All (λ k. test k ≡ true) ks
unfolding failures
failures-zero test [] = ((λ h. tt), λ h. refl)
failures-zero test (k ∷ ks) =
    let rest = failures-zero test ks in
    ((λ h. (ground arith, rest.0 (ground arith))), λ h. ground (arith, h.0, rest.1 h.1))

-- A loop of checks, each of them asked for.
record Counted (failed : ℕ) (asked : ℕ) (f g : Findings) : Type 0 where
  missing : length g.missing ≡ length f.missing + failed
  blocking : length g.blocking ≡ length f.blocking + failed
  settled : length g.missing + length g.satisfied ≡ length f.missing + length f.satisfied + asked

Counted-check_each :
    (test : String → Bool) (check : String → Findings → Findings)
    → ((k : String) (f : Findings) → Checked true (test k) f (check k f))
    → (ks : List String) (f : Findings)
    → Counted (failures test ks) (length ks) f (check_each check ks f)
unfolding check_each failures
Counted-check_each test check each [] f = omega arith
Counted-check_each test check each (k ∷ ks) f =
    ground (arith, each k f, Counted-check_each test check each ks (check k f))

-- All four checks together, from empty findings.
module _ (r : DeploymentCapabilityRequest) (c : DeploymentCapabilityContext) where
  abbrev failed_checks : ℕ
  failed_checks =
      one_if (r.require_active_install && not (install_ok r c))
      + one_if (not (is_empty r.required_surface_types) && not (surface_ok r c))
      + failures (artifact_ok c) r.required_artifact_refs
      + failures (λ k. member k c.active_overlay_keys) r.required_overlay_keys

  -- How many checks a request asks for.
  abbrev pub asked_checks : ℕ
  asked_checks =
      one_if r.require_active_install
      + one_if (not (is_empty r.required_surface_types))
      + length r.required_artifact_refs
      + length r.required_overlay_keys

  capability_findings-Counted :
      Counted failed_checks asked_checks no_findings (capability_findings r c)
  unfolding capability_findings
  capability_findings-Counted =
      let f1 = check_install r c no_findings in
      let f2 = check_surface r c f1 in
      let f3 = check_each (check_artifact c) r.required_artifact_refs f2 in
      ground (
        arith,
        check_install-Checked r c no_findings,
        check_surface-Checked r c f1,
        Counted-check_each (artifact_ok c) (check_artifact c) (check_artifact-Checked c)
            r.required_artifact_refs f2,
        Counted-check_each (λ k. member k c.active_overlay_keys) (check_overlay c)
            (check_overlay-Checked c) r.required_overlay_keys f3,
      )

  -- A capability request is allowed exactly when the surface provides all that it asks for: an active
  -- install and a surface type in the list where these are asked for, every artifact key, which must
  -- be a known one whose path is set, and every overlay key among the active ones.
  pub allowed-Provides : ((evaluate_capability r c).allowed ≡ true) ↔ Provides r c
  unfolding evaluate_capability
  allowed-Provides =
      let z = length-zero (capability_findings r c).blocking in
      let a = failures-zero (artifact_ok c) r.required_artifact_refs in
      let o = failures-zero (λ k. member k c.active_overlay_keys) r.required_overlay_keys in
      (
        λ h. record {
          install = λ asked. ground (
            arith,
            capability_findings-Counted,
            z.0 h,
            opt_eq_iff c.install_status (some "active"),
          );
          surface = ground (arith, capability_findings-Counted, z.0 h);
          artifacts = a.0 (omega (arith, capability_findings-Counted, z.0 h));
          overlays = o.0 (omega (arith, capability_findings-Counted, z.0 h));
        },
        λ h. z.1 (
            ground (
              arith,
              capability_findings-Counted,
              h.install,
              h.surface,
              opt_eq_iff c.install_status (some "active"),
              a.1 h.artifacts,
              o.1 h.overlays,
            )),
      )
