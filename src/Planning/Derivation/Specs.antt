-- ===== src/Planning/Derivation/Specs.antt =====
-- What services/implementation_plan_derivation makes of the blueprints: specifications, warnings and gaps.
use Prim.Native.String
use paa_platform.Prelude.{
  String, ◌&&◌, ◌==◌, Option, none, some, List, [], ◌∷◌, ◌++◌, map, is_none, is_empty, member, when,
  if◌then◌else◌,
}
use paa_platform.Json.{
  Dict, empty, entry, text, opt_text, set_default, dict_or_empty, Message, lit, shown, plain,
}
use paa_platform.Planning.Records.{
  ImplementationPlanActivityUpsertSpec, ImplementationPlanActivityDependencyUpsertSpec,
  ImplementationPlanActivityBlueprint,
}

abbrev pub zero_id : String
zero_id = "00000000-0000-0000-0000-000000000000"

-- `if value: metadata.setdefault(key, value)`
abbrev pub default_named : String → Option String → Dict → Dict
default_named key none d = d
default_named key (some s) d = if s == "" then d else set_default d key (text s)

unfoldable pub blueprint_metadata : ImplementationPlanActivityBlueprint → Dict
blueprint_metadata blueprint =
    default_named "code_artifact_target_key" blueprint.code_artifact_target_key (
      default_named "component_element_key" blueprint.component_element_key
        (dict_or_empty blueprint.metadata))

unfoldable pub activity_spec_from_blueprint :
    ImplementationPlanActivityBlueprint → ImplementationPlanActivityUpsertSpec
activity_spec_from_blueprint blueprint = record {
  implementation_plan_id = zero_id;
  activity_key = blueprint.activity_key;
  activity_title = blueprint.activity_title;
  activity_kind = blueprint.activity_kind;
  activity_state = blueprint.activity_state;
  sequence_order = blueprint.sequence_order;
  component_element_id = blueprint.component_element_id;
  component_element_realization_id = blueprint.component_element_realization_id;
  assigned_role_id = blueprint.assigned_role_id;
  target_path = blueprint.target_path;
  target_module = blueprint.target_module;
  planned_artifact_type_key = blueprint.code_artifact_target_key;
  blocking_reason = blueprint.blocking_reason;
  metadata = some (blueprint_metadata blueprint);
  started_at = none;
  completed_at = none;
}

-- One predecessor key of a blueprint.
unfoldable pub dependency_spec :
    ImplementationPlanActivityBlueprint → String → ImplementationPlanActivityDependencyUpsertSpec
dependency_spec blueprint predecessor_key = record {
  implementation_plan_id = zero_id;
  predecessor_activity_key = predecessor_key;
  successor_activity_key = blueprint.activity_key;
  sequencing_requirement = "must_precede";
  dependency_strength = "hard";
  notes = some (String.◌++◌ blueprint.activity_key (String.◌++◌ " follows " predecessor_key));
  metadata = some (
      entry "source" (text "DefaultImplementationPlanDerivationService")
        (entry "successor_artifact_target" (opt_text blueprint.code_artifact_target_key) empty));
}

unfoldable pub dependency_specs_from_blueprints :
    List ImplementationPlanActivityBlueprint → List ImplementationPlanActivityDependencyUpsertSpec
dependency_specs_from_blueprints [] = []
dependency_specs_from_blueprints (b ∷ bs) =
    map (dependency_spec b) b.predecessor_activity_keys ++ dependency_specs_from_blueprints bs

abbrev pub about : String → String → Message
about key rest = lit "Activity " ∷ shown key ∷ lit rest ∷ []

-- The warnings of one blueprint.
unfoldable pub warnings_of : ImplementationPlanActivityBlueprint → List Message
warnings_of b =
    when (is_none b.component_element_id)
      (about b.activity_key " has no component_element_id binding.")
    ++ when (is_none b.code_artifact_target_key)
        (about b.activity_key " has no code artifact target binding.")
    ++ when (is_none b.target_path && is_none b.target_module)
        (about b.activity_key " has no target surface hint.")

unfoldable pub detect_warnings : List ImplementationPlanActivityBlueprint → List Message
detect_warnings [] = []
detect_warnings (b ∷ bs) = warnings_of b ++ detect_warnings bs

-- The gaps of the loop, with the keys seen so far.
unfoldable pub duplicate_gaps :
    List String → List ImplementationPlanActivityBlueprint → List Message
duplicate_gaps seen [] = []
duplicate_gaps seen (b ∷ bs) =
    when (member b.activity_key seen)
      (lit "Duplicate activity key detected: " ∷ shown b.activity_key ∷ [])
    ++ duplicate_gaps (b.activity_key ∷ seen) bs

unfoldable pub detect_gaps : List ImplementationPlanActivityBlueprint → List Message
detect_gaps bs =
    when (is_empty bs) (plain "No implementation-plan activities were supplied for derivation.")
    ++ duplicate_gaps [] bs
