-- ===== src/Methodology/Projection/Texts.antt =====
-- The texts of runtime/workflow/methodology_execution_projection.
use paa_platform.Prelude.{String, none, some, List, [], ◌∷◌, ◌++◌, named}
use paa_platform.Json.{Message, lit, shown}
use paa_platform.Methodology.Records.{MethodologyExecutionRecord}
use paa_platform.Methodology.State.Current.{labelled}

-- `{record.lane}/{record.stage}/{record.step}`
abbrev pub place : MethodologyExecutionRecord → Message → Message
place r rest = shown r.lane ∷ lit "/" ∷ shown r.stage ∷ lit "/" ∷ shown r.step ∷ rest

-- The common shape of the two texts: blocked, with a next action, or neither.
abbrev pub by_state :
    MethodologyExecutionRecord → (String → Message) → (String → Message) → Message → Message
by_state r blocked next otherwise = elim (named r.blocked_reason) [
  | some reason ↦ blocked reason
  | none ↦ elim (named r.next_action_key) [ some key ↦ next key | none ↦ otherwise ]
]

unfoldable pub status_summary_text : MethodologyExecutionRecord → Message
status_summary_text r =
    by_state r
      (λ reason.
        lit "Methodology execution is blocked in "
        ∷ place r (lit ": " ∷ shown reason ∷ lit "." ∷ []))
      (λ key.
        lit "Methodology execution is "
        ∷ shown r.status
        ∷ lit " in "
        ∷ place r (lit " and is ready for " ∷ shown key ∷ lit "." ∷ []))
      (lit "Methodology execution is " ∷ shown r.status ∷ lit " in " ∷ place r (lit "." ∷ []))

unfoldable pub prerequisite_summary : MethodologyExecutionRecord → List Message
prerequisite_summary r =
    ((lit "current-step:" ∷ shown r.step ∷ []) ∷ (lit "current-status:" ∷ shown r.status ∷ []) ∷ [])
    ++ labelled "implementation-plan:" r.implementation_plan_id
    ++ labelled "blocked:" r.blocked_reason

unfoldable pub explanation_summary : MethodologyExecutionRecord → Message
explanation_summary r =
    by_state r
      (λ reason.
        lit "The current methodology pointer is blocked during "
        ∷ shown r.step
        ∷ lit " because "
        ∷ shown reason
        ∷ lit "."
        ∷ [])
      (λ key.
        lit "The current methodology pointer is in "
        ∷ place r (
            lit " with status "
            ∷ shown r.status
            ∷ lit ", so the next recommended action is "
            ∷ shown key
            ∷ lit "."
            ∷ []))
      (lit "The current methodology pointer is in "
        ∷ place r (lit " with status " ∷ shown r.status ∷ lit "." ∷ []))
