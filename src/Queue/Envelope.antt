-- ===== src/Queue/Envelope.antt =====
-- runtime/transport/packet_envelope.py: `validate_envelope` and the role routes. The active roles of the
-- team, which runtime/support/team_worker_roles.py reads from a file, are a parameter.
pub mod Constants
pub mod Valid
use Prim.Native.String.{compare}
use package.text.Mathlib.Text.{is_le}
use paa_platform.Prelude.{
  String, Bool, true, false, not, ◌&&◌, ◌||◌, ◌==◌, Option, none, some, List, [], ◌∷◌, ◌++◌,
  is_empty, is_some, member, when, if◌then◌else◌,
}
use paa_platform.Json.{
  Value, null, flag, number, text, tuple, dict, Dict, get, put, Message, lit, shown, str, plain,
}
use paa_platform.Queue.Packet.{get_or_null, as_dict}
use paa_platform.Queue.Envelope.Constants.{
  supported_schemas, architect_required, slice_required, qa_required, worker_result_required,
  delivery_review_required, techlead_assignment_required, techlead_decision_required,
  envelope_required, authority_context_required, github_context_required, role_names,
}

-- What is read of a `TeamWorkerRole`.
pub record Role : Type 0 where
  pub key : String
  pub display_name : String

-- A route from a role to a role; a set of routes is its sorted list.
pub record Route : Type 0 where
  pub from_role : String
  pub to_role : String

abbrev pub same_route : Route → Route → Bool
same_route a b = a.from_role == b.from_role && a.to_role == b.to_role

abbrev pub route_before : Route → Route → Bool
route_before a b =
    if a.from_role == b.from_role
    then is_le (compare a.to_role b.to_role)
    else is_le (compare a.from_role b.from_role)

-- `routes.add(route)`
unfoldable pub add_route : Route → List Route → List Route
add_route r [] = r ∷ []
add_route r (x ∷ xs) =
    let later = add_route r xs in
    if same_route r x then x ∷ xs else if route_before r x then r ∷ x ∷ xs else x ∷ later

abbrev pub route : String → String → Route
route from to = record { from_role = from; to_role = to }

unfoldable pub team_worker_result_route_pairs : List Role → List Route
team_worker_result_route_pairs [] = add_route (route "Dev" "TechLead") []
team_worker_result_route_pairs (r ∷ roles) =
    add_route (route r.display_name "TechLead") (team_worker_result_route_pairs roles)

unfoldable pub techlead_assignment_route_pairs : List Role → List Route
techlead_assignment_route_pairs [] =
    add_route (route "TechLead" "Delivery Architect")
      (add_route (route "TechLead" "QA") (add_route (route "TechLead" "Dev") []))
techlead_assignment_route_pairs (r ∷ roles) =
    add_route (route "TechLead" r.display_name) (techlead_assignment_route_pairs roles)

-- `message.get('schema_type')` where it is a text.
abbrev pub as_text : Value → Option String
as_text (text s) = some s
as_text null = none
as_text (flag b) = none
as_text (number n) = none
as_text (tuple vs) = none
as_text (dict d) = none

-- The routes of a schema; the empty list is also the `None` of a schema without a policy, since both
-- count as false.
unfoldable pub route_policy_for_schema : List Role → Option String → List Route
route_policy_for_schema roles none = []
route_policy_for_schema roles (some t) =
    if t == "worker_result_packet"
    then team_worker_result_route_pairs roles
    else if t == "techlead_assignment_packet"
    then techlead_assignment_route_pairs roles
    else if t == "architect_cycle_packet"
    then route "Architect" "Python Dev" ∷ []
    else if t == "slice_result_packet"
    then route "Python Dev" "TechLead" ∷ []
    else if t == "qa_verification_packet"
    then route "QA" "TechLead" ∷ []
    else if t == "delivery_review_packet"
    then route "Delivery Architect" "TechLead" ∷ []
    else if t == "techlead_decision_packet"
    then route "TechLead" "Authority Architect" ∷ route "TechLead" "TechLead" ∷ []
    else []

-- `PAYLOAD_REQUIRED_BY_SCHEMA.get(schema_type, [])`
unfoldable pub payload_required : Option String → List String
payload_required none = []
payload_required (some t) =
    if t == "architect_cycle_packet"
    then architect_required
    else if t == "slice_result_packet"
    then slice_required
    else if t == "worker_result_packet"
    then worker_result_required
    else if t == "qa_verification_packet"
    then qa_required
    else if t == "delivery_review_packet"
    then delivery_review_required
    else if t == "techlead_assignment_packet"
    then techlead_assignment_required
    else if t == "techlead_decision_packet"
    then techlead_decision_required
    else []

unfoldable pub role_mapping : List Role → Dict → Dict
role_mapping [] d = d
role_mapping (r ∷ roles) d =
    role_mapping roles
      (put (put d r.key (text r.display_name)) r.display_name (text r.display_name))

-- `normalize_role_name` of a text, `None` or another value that a dict can be asked for.
unfoldable pub normalize_role_name : List Role → Value → Value
normalize_role_name roles raw = elim (as_text raw) [
  | none ↦ raw
  | some s ↦ elim (get (role_mapping roles role_names) s) [ none ↦ text s | some name ↦ name ]
]

-- A list or a dict cannot be looked up in a set or a dict: `TypeError`.
abbrev pub hashable : Value → Bool
hashable (text s) = true
hashable null = true
hashable (flag b) = true
hashable (number n) = true
hashable (tuple vs) = false
hashable (dict d) = false

abbrev pub has : Dict → String → Bool
has d field = is_some (get d field)

-- One error for each field of the list that the dict lacks.
unfoldable pub missing_fields : String → List String → Dict → List Message
missing_fields prefix [] d = []
missing_fields prefix (f ∷ fs) d =
    when (not (has d f)) (lit prefix ∷ shown f ∷ []) ++ missing_fields prefix fs d

-- The checks of a context that has to be a dict with certain fields.
unfoldable pub object_errors : String → String → List String → Value → List Message
object_errors complaint prefix fields v = elim (as_dict v) [
  | none ↦ plain complaint ∷ []
  | some d ↦ missing_fields prefix fields d
]

abbrev pub text_is : Value → String → Bool
text_is v s = elim (as_text v) [ none ↦ false | some t ↦ t == s ]

unfoldable pub routed : Value → Value → List Route → Bool
routed from to [] = false
routed from to (r ∷ rs) = (text_is from r.from_role && text_is to r.to_role) || routed from to rs

abbrev pub route_options : List Route → Message
route_options [] = []
route_options (r ∷ []) = shown r.from_role ∷ lit " -> " ∷ shown r.to_role ∷ []
route_options (r ∷ (q ∷ rs)) =
    shown r.from_role ∷ lit " -> " ∷ shown r.to_role ∷ lit ", " ∷ route_options (q ∷ rs)

abbrev pub route_error : Value → List Route → Value → Value → Message
route_error schema routes from to =
    lit "invalid route for " ∷ str schema ∷ lit ": expected one of [" ∷ route_options routes
    ++ lit "], got " ∷ str from ∷ lit " -> " ∷ str to ∷ []

-- `schema_type in SUPPORTED_SCHEMA_TYPES`
abbrev pub schema_supported : Value → Bool
schema_supported v = elim (as_text v) [ none ↦ false | some t ↦ member t supported_schemas ]

-- The fields that have to be there before anything else is looked at.
unfoldable pub top_level_errors : Bool → Dict → List Message
top_level_errors require_authority message =
    missing_fields "missing top-level field: " envelope_required message
    ++ (when (not (has message "github_context")) (plain "missing top-level field: github_context")
        ++ when (require_authority && not (has message "authority_context"))
            (plain "missing top-level field: authority_context"))

-- The errors before the route is looked at.
unfoldable pub content_errors : Bool → Dict → List Message
content_errors require_authority message =
    let schema = get_or_null message "schema_type" in
    when (not (schema_supported schema)) (lit "unsupported schema_type: " ∷ str schema ∷ [])
    ++ ((if require_authority
          then object_errors "authority_context must be an object"
              "missing authority_context field: " authority_context_required
              (get_or_null message "authority_context")
          else [])
        ++ (object_errors "github_context must be an object" "missing github_context field: "
              github_context_required (get_or_null message "github_context")
            ++ object_errors "payload must be an object" "missing payload field: "
                (payload_required (as_text schema)) (get_or_null message "payload")))

-- `none` is a `TypeError`.
unfoldable pub route_errors : List Role → Dict → Option (List Message)
route_errors roles message =
    let schema = get_or_null message "schema_type" in
    let routes = route_policy_for_schema roles (as_text schema) in
    let from = get_or_null message "from_role" in
    let to = get_or_null message "to_role" in
    if is_empty routes
    then some []
    else if not (hashable from && hashable to)
    then none
    else some (
        when (not (routed (normalize_role_name roles from) (normalize_role_name roles to) routes)) (
          route_error schema routes (normalize_role_name roles from)
            (normalize_role_name roles to)))

unfoldable pub validate_envelope : List Role → Bool → Dict → Option (List Message)
validate_envelope roles require_authority message =
    let early = top_level_errors require_authority message in
    if not (is_empty early)
    then some early
    else if not (hashable (get_or_null message "schema_type"))
    then none
    else (elim (route_errors roles message) [
      | none ↦ none
      | some errors ↦ some (content_errors require_authority message ++ errors)
    ])
