-- ===== src/Decision/Actions.antt =====
-- The recommended actions of the decision services.
use paa_platform.Prelude.{String, Option, none, some, List, [], ◌∷◌, ◌==◌, if◌then◌else◌}

-- `(decision,) if decision else None`
abbrev pub actions_of : Option String → Option (List String)
actions_of none = none
actions_of (some d) = if d == "" then none else some (d ∷ [])
