-- ===== src/Queue/Envelope/Valid.antt =====
-- What an envelope without errors is.
use mathlib.Core.Path.{subst}
use mathlib.Core.Option.{some-injective}
use paa_platform.Prelude.{
  if◌then◌else◌, ◌⊎◌, String, ◌≡◌, ◌↔◌, refl, sym, ◌∙◌, Bool, true, false, not, ◌&&◌, some, List,
  [], ◌∷◌, ◌++◌, inl, inr, Option-cases, is_empty, is_empty-append, All, when, arith, absurd_some,
  Option, Bool-cases, none,
}
use paa_platform.Json.{
  Message, str, null, flag, number, text, tuple, dict, lit, shown, plain, Value, Dict,
}
use paa_platform.Queue.Packet.{get_or_null, as_dict}
use paa_platform.Queue.Envelope.Constants.{
  envelope_required, authority_context_required, github_context_required,
}
use paa_platform.Queue.Envelope.{
  Role, Route, has, as_text, schema_supported, hashable, missing_fields, object_errors,
  payload_required, route_policy_for_schema, normalize_role_name, routed, top_level_errors,
  route_errors, content_errors, validate_envelope,
}

-- A dict has the fields of a list.
abbrev pub HasFields : List String → Dict → Type 0
HasFields fields d = All (λ f. has d f ≡ true) fields

-- A value is a dict with the fields of a list.
abbrev pub ObjectWith : List String → Value → Type 0
ObjectWith fields v = (d : Dict) × (as_dict v ≡ some d) × HasFields fields d

missing_fields-HasFields :
    (prefix : String) (fields : List String) (d : Dict)
    → (is_empty (missing_fields prefix fields d) ≡ true) ↔ HasFields fields d
unfolding missing_fields
missing_fields-HasFields prefix [] d = ((λ h. tt), λ h. refl)
missing_fields-HasFields prefix (f ∷ fs) d = ground (
  arith,
  missing_fields-HasFields prefix fs d,
  is_empty-append (when (not (has d f)) (lit prefix ∷ shown f ∷ [])) (missing_fields prefix fs d),
)

object_errors-ObjectWith :
    (complaint prefix : String) (fields : List String) (v : Value)
    → (is_empty (object_errors complaint prefix fields v) ≡ true) ↔ ObjectWith fields v
unfolding object_errors
object_errors-ObjectWith complaint prefix fields v = elim (Option-cases (as_dict v)) [
  | inl n ↦ (
    (λ h. let no : false ≡ true = rw (n, object_errors) at h in cc),
    λ o. absurd_some (sym n ∙ o.1),
  )
  | inr d ↦
      let m = missing_fields-HasFields prefix fields d.0 in
      (
        (λ h. (d.0, d.1, m.0 (rw (d.1, object_errors) at h))),
        λ o.
            rw (d.1, object_errors)
              (m.1 (subst (HasFields fields) (some-injective _ _ (sym o.1 ∙ d.1)) o.2)),
      )
]

-- The way the parts of `validate_envelope` are put together.
combine :
    (early : List Message) (b : Bool) (content : List Message) (o : Option (List Message))
    → ((if not (is_empty early)
          then some early
          else if not b
          then none
          else (elim o [ none ↦ none | some errors ↦ some (content ++ errors) ]))
        ≡ some [])
      ↔ ((is_empty early ≡ true) × (b ≡ true) × (o ≡ some []) × (is_empty content ≡ true))
combine (e ∷ es) b content o = ground arith
combine [] false content o = ground arith
combine [] true content none = ground arith
combine [] true [] (some errors) = ground arith
combine [] true (c ∷ cs) (some errors) = ground arith

supported-hashable : (v : Value) → schema_supported v ≡ true → hashable v ≡ true
supported-hashable null h = refl
supported-hashable (flag b) h = refl
supported-hashable (number n) h = refl
supported-hashable (text s) h = refl
supported-hashable (tuple vs) h = let no : false ≡ true = h in cc
supported-hashable (dict d) h = let no : false ≡ true = h in cc

module _ (roles : List Role) (require_authority : Bool) (message : Dict) where
  abbrev pub schema : Value
  schema = get_or_null message "schema_type"

  abbrev pub routes : List Route
  routes = route_policy_for_schema roles (as_text schema)

  -- The sender and the receiver are on a route of the schema, where it has routes.
  abbrev pub OnRoute : Type 0
  OnRoute =
      (is_empty routes ≡ true)
      ⊎ ((hashable (get_or_null message "from_role") ≡ true)
          × (hashable (get_or_null message "to_role") ≡ true)
          × (routed (normalize_role_name roles (get_or_null message "from_role"))
                (normalize_role_name roles (get_or_null message "to_role")) routes
              ≡ true))

  pub record Valid : Type 0 where
    pub fields : HasFields envelope_required message
    pub github_given : has message "github_context" ≡ true
    pub authority_given : require_authority ≡ true → has message "authority_context" ≡ true
    pub supported : schema_supported schema ≡ true
    pub authority :
        require_authority ≡ true
        → ObjectWith authority_context_required (get_or_null message "authority_context")
    pub github : ObjectWith github_context_required (get_or_null message "github_context")
    pub payload : ObjectWith (payload_required (as_text schema)) (get_or_null message "payload")
    pub on_route : OnRoute

  top_lem : (is_empty (top_level_errors require_authority message) ≡ true) ↔ (
      HasFields envelope_required message
      × (has message "github_context" ≡ true)
      × (require_authority ≡ true → has message "authority_context" ≡ true))
  unfolding top_level_errors
  top_lem =
      let gone =
        when (not (has message "github_context"))
          (plain "missing top-level field: github_context") in
      let last =
        when (require_authority && not (has message "authority_context"))
          (plain "missing top-level field: authority_context") in
      let m = missing_fields-HasFields "missing top-level field: " envelope_required message in
      let a =
        is_empty-append (missing_fields "missing top-level field: " envelope_required message)
          (gone ++ last) in
      let b = is_empty-append gone last in
      (
        (λ h. (m.0 (ground arith), ground arith, ground arith)),
        λ v. ground (arith, m.1 v.0, v.1, v.2),
      )

  route_lem : (route_errors roles message ≡ some []) ↔ OnRoute
  unfolding route_errors
  route_lem = ground arith

  content_lem : (is_empty (content_errors require_authority message) ≡ true) ↔ (
      (schema_supported schema ≡ true)
      × (require_authority ≡ true
          → ObjectWith authority_context_required (get_or_null message "authority_context"))
      × ObjectWith github_context_required (get_or_null message "github_context")
      × ObjectWith (payload_required (as_text schema)) (get_or_null message "payload"))
  unfolding content_errors
  content_lem =
      let head =
        when (not (schema_supported schema)) (lit "unsupported schema_type: " ∷ str schema ∷ []) in
      let authority =
        object_errors "authority_context must be an object" "missing authority_context field: "
          authority_context_required (get_or_null message "authority_context") in
      let github =
        object_errors "github_context must be an object" "missing github_context field: "
          github_context_required (get_or_null message "github_context") in
      let payload =
        object_errors "payload must be an object" "missing payload field: "
          (payload_required (as_text schema)) (get_or_null message "payload") in
      let asked = if require_authority then authority else [] in
      let a = is_empty-append head (asked ++ (github ++ payload)) in
      let b = is_empty-append asked (github ++ payload) in
      let c = is_empty-append github payload in
      let au =
        object_errors-ObjectWith "authority_context must be an object"
          "missing authority_context field: " authority_context_required
          (get_or_null message "authority_context") in
      let gi =
        object_errors-ObjectWith "github_context must be an object" "missing github_context field: "
          github_context_required (get_or_null message "github_context") in
      let pa =
        object_errors-ObjectWith "payload must be an object" "missing payload field: "
          (payload_required (as_text schema)) (get_or_null message "payload") in
      (
        (λ h. (ground arith, (λ r. au.0 (ground arith)), gi.0 (ground arith), pa.0 (ground arith))),
        λ v. elim (Bool-cases require_authority) [
          | inl r ↦ ground (arith, v.0, au.1 (v.1 r), gi.1 v.2, pa.1 v.3)
          | inr r ↦ ground (arith, v.0, gi.1 v.2, pa.1 v.3)
        ],
      )

  -- An envelope is found to be without errors exactly when it is valid: it has the required fields,
  -- its schema type is a supported one, its contexts and its payload are objects with the fields that
  -- they need, the authority context only where it is asked for, and its sender and receiver, as role
  -- names, are on a route of the schema, where the schema has routes.
  pub validate-Valid : (validate_envelope roles require_authority message ≡ some []) ↔ Valid
  unfolding validate_envelope
  validate-Valid =
      let both =
        combine (top_level_errors require_authority message) (hashable schema)
          (content_errors require_authority message) (route_errors roles message) in
      (
        (λ h.
            let parts = both.0 h in
            let top = top_lem.0 parts.0 in
            let content = content_lem.0 parts.3 in
            record {
              fields = top.0;
              github_given = top.1;
              authority_given = top.2;
              supported = content.0;
              authority = content.1;
              github = content.2;
              payload = content.3;
              on_route = route_lem.0 parts.2;
            }),
        λ v. both.1 (
          top_lem.1 (v.fields, v.github_given, v.authority_given),
          supported-hashable schema v.supported,
          route_lem.1 v.on_route,
          content_lem.1 (v.supported, v.authority, v.github, v.payload),
        ),
      )
