-- ===== src/Queue/Runtime.antt =====
-- `run_once` of the TechLead runtime loop (runtime/hosts/techlead.py), over the services that it is
-- built from. Those services return; the claim lifecycle may raise. Logging is left out.
mod Tests
pub mod Run
pub mod Settled
pub mod Repeat
use paa_platform.Prelude.{
  String, Bool, true, false, not, ◌&&◌, ◌==◌, Option, none, some, List, [], ◌∷◌, ◌++◌, member,
  opt_eq, if◌then◌else◌, named,
}
use paa_platform.Json.{
  Value, null, flag, number, text, tuple, dict, Items, nil, cons, Dict, empty, entry, opt_text,
  truth, dict_or_empty, Message, lit, str, str_of,
}
use paa_platform.Queue.Models.{QueueClaimRuntimeResult, Adapters}
use paa_platform.Queue.Packet.{get_or_null, named_text}
use paa_platform.Queue.Host.Outside.{Outcome, returned, raised}
use paa_platform.Queue.Retry.{Loop, claim_with_retry}
use paa_platform.Queue.Controller.{handle_packet}
use paa_platform.Queue.Controller.Models.{
  QueuePacketRuntimeRequest, QueuePacketRuntimeResult, WorkerResult, Services,
}

-- runtime/packets/reference_resolution/models.py
pub record PacketReferenceResolutionRequest : Type 0 where
  pub packet_message_id : Option String
  pub packet_path : Option String
  pub packet_reference : Option String
  pub queue_name : Option String
  pub packet_schema_type : Option String
  pub actor_name : Option String
  pub host_name : Option String
  pub metadata : Option Dict

pub record PacketReferenceResolutionSummary : Type 0 where
  pub resolution_source : Option String
  pub packet_message_id : Option String
  pub packet_schema_type : Option String
  pub queue_name : Option String
  pub packet_reference : Option String
  pub resolved_packet_path : Option String
  pub resolution_supported : Bool
  pub blocking_reasons : List String
  pub notes : List String

pub record PacketReferenceResolutionResult : Type 0 where
  pub request : PacketReferenceResolutionRequest
  pub resolution_summary : PacketReferenceResolutionSummary
  pub normalized_packet_payload : Option Dict
  pub ok : Bool
  pub reason : Option String
  pub details : Option Message
  pub metadata : Option Dict

-- `_WorkflowTransitionAdapterProtocol` and `_QueueClaimLifecycleAdapterProtocol`, over a state.
pub record Transitions (S : Type 0) : Type 0 where
  pub apply_return_transition : Option String → Option String → String → S → Dict × S
  pub record_assignment_emitted : Option String → String → Option String → Dict → S → Dict × S

pub record Lifecycle (S : Type 0) : Type 0 where
  pub acknowledge_claim : String → S → Outcome S
  pub requeue_claim : String → S → Outcome S

-- The fields of the host; `write` is `str` of a value.
pub record Runtime (S : Type 0) : Type 0 where
  pub adapters : Adapters S
  pub loop : Loop
  pub resolve_packet_reference :
      PacketReferenceResolutionRequest → S → PacketReferenceResolutionResult × S
  pub services : Services S
  pub publisher : Option (WorkerResult → Option String → Option String → S → Option Dict × S)
  pub transitions : Option (Transitions S)
  pub lifecycle : Option (Lifecycle S)
  pub write : Value → String

pub record TechLeadRuntimeLoopResult : Type 0 where
  pub queue_name : String
  pub intake_mode : String
  pub ok : Bool
  pub skipped : Bool
  pub packet_message_id : Option String
  pub claim_id : Option String
  pub packet_reference : Option String
  pub packet_path : Option String
  pub target_worker_host : Option String
  pub emitted_assignment : Option Dict
  pub reason : Option String
  pub details : Option Message
  pub metadata : Option Dict

-- A call gives a value, or fails; either way it leaves a state.
pub data Call (A S : Type 0) : Type 0 where
  gave : A → S → Call A S
  failed : S → Call A S

-- `claim_result.claim_summary.claim_id if claim_result.claim_summary else None`
abbrev pub claim_id_in : (Value → String) → QueueClaimRuntimeResult → Option String
claim_id_in write claim = elim claim.claim_summary [
  | none ↦ none
  | some s ↦ elim s.claim_id [ none ↦ none | some v ↦ some (str_of write v) ]
]

abbrev pub or_else : Option String → Option String → Option String
or_else none o = o
or_else (some s) o = some s

-- The envelope of the claim, its claim summary and its preview are asked in this order.
unfoldable pub resolved_packet_message_id : QueueClaimRuntimeResult → Option String
resolved_packet_message_id claim =
    or_else
      (named_text
        (get_or_null (dict_or_empty claim.normalized_packet_envelope) "packet_message_id"))
      (or_else (elim claim.claim_summary [ none ↦ none | some s ↦ named s.packet_message_id ])
        (elim claim.preview_summary [ none ↦ none | some s ↦ named s.packet_message_id ]))

unfoldable pub resolved_packet_reference : QueueClaimRuntimeResult → Option String
resolved_packet_reference claim =
    or_else
      (named_text (get_or_null (dict_or_empty claim.normalized_packet_envelope) "packet_reference"))
      (or_else (elim claim.claim_summary [ none ↦ none | some s ↦ named s.packet_reference ])
        (elim claim.preview_summary [ none ↦ none | some s ↦ named s.packet_reference ]))

-- A claim summary has no schema type.
unfoldable pub resolved_packet_schema_type : QueueClaimRuntimeResult → Option String
resolved_packet_schema_type claim =
    or_else
      (named_text
        (get_or_null (dict_or_empty claim.normalized_packet_envelope) "packet_schema_type"))
      (elim claim.preview_summary [ none ↦ none | some s ↦ named s.packet_schema_type ])

-- `s or 'worker_result_packet'`
abbrev pub schema_or_default : Option String → String
schema_or_default o = elim (named o) [ none ↦ "worker_result_packet" | some s ↦ s ]

abbrev pub opt_dict : Option Dict → Value
opt_dict none = null
opt_dict (some d) = dict d

-- `result is None or bool(result.get('ok'))`
abbrev pub opt_ok : Option Dict → Bool
opt_ok none = true
opt_ok (some d) = truth (get_or_null d "ok")

-- What the work on a claimed packet came to.
pub record Work : Type 0 where
  pub runtime_result : QueuePacketRuntimeResult
  pub workflow_transition : Option Dict
  pub emitted_assignment : Option Dict
  pub assignment_transition : Option Dict

unfoldable pub lifecycle_success : Work → Bool
lifecycle_success w =
    w.runtime_result.ok
    && (opt_ok w.workflow_transition
        && (opt_ok w.emitted_assignment && opt_ok w.assignment_transition))

unfoldable pub final_ok : Work → Bool
final_ok w = w.runtime_result.ok && (opt_ok w.workflow_transition && opt_ok w.assignment_transition)

-- `str(result.get('reason') or default)`
abbrev pub reason_in : (Value → String) → String → Option Dict → String
reason_in write default o =
    let reason = get_or_null (dict_or_empty o) "reason" in
    if truth reason then str_of write reason else default

unfoldable pub final_reason : (Value → String) → Work → Option String
final_reason write w =
    if not (opt_ok w.workflow_transition)
    then some (reason_in write "workflow_transition_failed" w.workflow_transition)
    else if not (opt_ok w.assignment_transition)
    then some (reason_in write "assignment_transition_failed" w.assignment_transition)
    else w.runtime_result.reason

-- `', '.join(str(item) for item in items)`
unfoldable pub joined : Items → Message
joined nil = []
joined (cons v nil) = str v ∷ []
joined (cons v (cons w vs)) = str v ∷ lit ", " ∷ joined (cons w vs)

-- The blocking reasons, which the adapters give as a tuple or not at all.
abbrev pub as_items : Value → Items
as_items (tuple vs) = vs
as_items _ = nil

-- The joined text is empty without items, and for one item with an empty text.
abbrev pub joins_to_nothing : (Value → String) → Items → Bool
joins_to_nothing write nil = true
joins_to_nothing write (cons v nil) = str_of write v == ""
joins_to_nothing write (cons v (cons w vs)) = false

abbrev pub reasons_or : (Value → String) → Option Message → Option Dict → Option Message
reasons_or write details o =
    let items = as_items (get_or_null (dict_or_empty o) "blocking_reasons") in
    if joins_to_nothing write items then details else some (joined items)

unfoldable pub final_details : (Value → String) → Work → Option Message
final_details write w =
    if not (opt_ok w.workflow_transition)
    then reasons_or write w.runtime_result.details w.workflow_transition
    else if not (opt_ok w.assignment_transition)
    then reasons_or write w.runtime_result.details w.assignment_transition
    else w.runtime_result.details
