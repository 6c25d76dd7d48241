-- ===== src/Policy/Capability.antt =====
-- policies/deployment_capability: does an execution surface have what a request needs?
pub mod Requirements
use paa_platform.Prelude.{
  String, Bool, not, Option, none, some, List, [], ◌∷◌, ◌++◌, ◌==◌, is_empty, is_some, truthy,
  opt_eq, member, when, if◌then◌else◌,
}
use paa_platform.Json.{Dict, empty, entry, dict, dict_or_empty, Message, lit, shown, repr, plain}

pub record DeploymentCapabilityRequest : Type 0 where
  pub execution_surface_type : String
  pub execution_surface_key : String
  pub required_surface_types : List String
  pub required_artifact_refs : List String
  pub required_overlay_keys : List String
  pub require_active_install : Bool
  pub metadata : Option Dict

pub record DeploymentCapabilityContext : Type 0 where
  pub install_status : Option String
  pub execution_surface_type : String
  pub execution_surface_key : String
  pub manifest_path : Option String
  pub package_metadata_path : Option String
  pub docs_root_path : Option String
  pub artifacts_root_path : Option String
  pub active_overlay_keys : List String
  pub metadata : Option Dict

pub record DeploymentCapabilityDecision : Type 0 where
  pub allowed : Bool
  pub missing_capabilities : List Message
  pub blocking_reasons : List Message
  pub satisfied_capabilities : List Message
  pub notes : List Message
  pub metadata : Dict

-- `_ARTIFACT_ATTR_BY_KEY.get(key)`, as the field that the attribute name stands for.
unfoldable pub artifact_attr : String → Option (DeploymentCapabilityContext → Option String)
artifact_attr key =
    if key == "installed_manifest"
    then some (λ c. c.manifest_path)
    else if key == "package_metadata"
    then some (λ c. c.package_metadata_path)
    else if key == "docs_root"
    then some (λ c. c.docs_root_path)
    else if key == "artifacts_root"
    then some (λ c. c.artifacts_root_path)
    else none

-- The three lists that the evaluation appends to.
pub record Findings : Type 0 where
  pub missing : List Message
  pub blocking : List Message
  pub satisfied : List Message

abbrev pub no_findings : Findings
no_findings = record { missing = []; blocking = []; satisfied = [] }

abbrev pub add_missing : Message → Message → Findings → Findings
add_missing m b f = record f { missing = f.missing ++ m ∷ []; blocking = f.blocking ++ b ∷ [] }

abbrev pub add_satisfied : Message → Findings → Findings
add_satisfied s f = record f { satisfied = f.satisfied ++ s ∷ [] }

unfoldable pub check_install :
    DeploymentCapabilityRequest → DeploymentCapabilityContext → Findings → Findings
check_install request context f =
    if request.require_active_install
    then (if opt_eq context.install_status (some "active")
        then add_satisfied (plain "active_install") f
        else add_missing (plain "active_install")
            (lit "Execution surface "
              ∷ shown context.execution_surface_key
              ∷ lit " does not have an active install."
              ∷ [])
            f)
    else f

unfoldable pub check_surface :
    DeploymentCapabilityRequest → DeploymentCapabilityContext → Findings → Findings
check_surface request context f =
    if is_empty request.required_surface_types
    then f
    else if member context.execution_surface_type request.required_surface_types
    then add_satisfied (lit "surface_type:" ∷ shown context.execution_surface_type ∷ []) f
    else add_missing (plain "execution_surface_type")
        (lit "Execution surface type "
          ∷ repr (some context.execution_surface_type)
          ∷ lit " is not allowed for this capability request."
          ∷ [])
        f

-- What the artifact loop does with the attribute that it looked up.
unfoldable pub check_attr :
    Option (DeploymentCapabilityContext → Option String)
    → DeploymentCapabilityContext
    → String
    → Findings
    → Findings
check_attr none context key f =
    add_missing (lit "unknown_artifact:" ∷ shown key ∷ [])
      (lit "Unknown deployment capability artifact requirement " ∷ repr (some key) ∷ lit "." ∷ []) f
check_attr (some attr) context key f =
    if truthy (attr context)
    then add_satisfied (lit "artifact:" ∷ shown key ∷ []) f
    else add_missing (lit "artifact:" ∷ shown key ∷ [])
        (lit "Missing required artifact surface "
          ∷ repr (some key)
          ∷ lit " for execution surface "
          ∷ shown context.execution_surface_key
          ∷ lit "."
          ∷ [])
        f

-- One turn of the loop over `required_artifact_refs`.
unfoldable pub check_artifact : DeploymentCapabilityContext → String → Findings → Findings
check_artifact context key f = check_attr (artifact_attr key) context key f

-- One turn of the loop over `required_overlay_keys`.
unfoldable pub check_overlay : DeploymentCapabilityContext → String → Findings → Findings
check_overlay context key f =
    if member key context.active_overlay_keys
    then add_satisfied (lit "overlay:" ∷ shown key ∷ []) f
    else add_missing (lit "overlay:" ∷ shown key ∷ [])
        (lit "Missing required active overlay "
          ∷ repr (some key)
          ∷ lit " for execution surface "
          ∷ shown context.execution_surface_key
          ∷ lit "."
          ∷ [])
        f

-- `for key in keys: …` over the findings.
unfoldable pub check_each : (String → Findings → Findings) → List String → Findings → Findings
check_each check [] f = f
check_each check (k ∷ ks) f = check_each check ks (check k f)

unfoldable pub capability_findings :
    DeploymentCapabilityRequest → DeploymentCapabilityContext → Findings
capability_findings request context =
    check_each (check_overlay context) request.required_overlay_keys (
      check_each (check_artifact context) request.required_artifact_refs
        (check_surface request context (check_install request context no_findings)))

unfoldable pub evaluate_capability :
    DeploymentCapabilityRequest → DeploymentCapabilityContext → DeploymentCapabilityDecision
evaluate_capability request context =
    let f = capability_findings request context in
    record {
      allowed = is_empty f.blocking;
      missing_capabilities = f.missing;
      blocking_reasons = f.blocking;
      satisfied_capabilities = f.satisfied;
      notes = when (is_empty f.blocking) (
          lit "Execution surface "
          ∷ shown context.execution_surface_key
          ∷ lit " satisfies the requested deployment capability set."
          ∷ []);
      metadata =
          entry "request_metadata" (dict (dict_or_empty request.metadata))
            (entry "context_metadata" (dict (dict_or_empty context.metadata)) empty);
    }
