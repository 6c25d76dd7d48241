-- ===== src/Queue/Controller.antt =====
-- `DefaultQueuePacketRuntimeController` (runtime/orchestration/queue_packet_runtime_controller). The
-- worker service and the packet reader are parameters; logging is left out.
pub mod Models
pub mod Dispatch
use paa_platform.Queue.Controller.Models.{
  QueuePacketDispatchSummary, QueuePacketRuntimeRequest, QueuePacketRuntimeResult, Services,
  TechLeadWorkerRequest, WorkerResult,
}
use paa_platform.Prelude.{
  String, Bool, true, false, not, ◌==◌, Option, none, some, List, [], ◌∷◌, ◌++◌, member, strip,
  truthy, if◌then◌else◌,
}
use paa_platform.Json.{Value, Dict, empty, entry, text, Message, lit, repr, plain}
use paa_platform.Queue.Packet.{get_or_null, named_text, as_dict}

unfoldable pub supports_packet_schema_type : String → Bool
supports_packet_schema_type t =
    member (strip t)
      ("worker_result_packet" ∷ "qa_verification_packet" ∷ "techlead_decision_packet" ∷ [])

-- `payload if isinstance(payload, dict) else {'packet_payload': payload}`
abbrev pub as_payload : Value → Dict
as_payload v = elim (as_dict v) [ none ↦ entry "packet_payload" v empty | some d ↦ d ]

abbrev named_path : Option String → Option String
named_path none = none
named_path (some p) = if p == "" then none else some p

-- `request.packet_path and self.queue_packet_reader is not None`
abbrev read_from :
    {S : Type 0} → Option String → Option (String → S → Value × S) → S → Option Dict × S
read_from none reader s = (none, s)
read_from (some path) none s = (none, s)
read_from (some path) (some read) s = let got = read path s in (some (as_payload got.0), got.1)

unfoldable pub resolve_packet_payload :
    {S : Type 0} → Services S → QueuePacketRuntimeRequest → S → Option Dict × S
resolve_packet_payload services request s = elim request.packet_payload [
  | some payload ↦ (some payload, s)
  | none ↦ read_from (named_path request.packet_path) services.read_packet s
]

unfoldable pub resolve_methodology_execution_id : Dict → Option String
resolve_methodology_execution_id payload =
    named_text (get_or_null payload "methodology_execution_id")

abbrev controller_metadata : QueuePacketRuntimeRequest → Dict
controller_metadata request =
    entry "service_component" (text "QueuePacketRuntimeController")
      (entry "queue_name" (text request.queue_name) empty)

-- The arguments of `_build_blocked_result`.
pub record Refusal : Type 0 where
  pub reason : String
  pub details : Message
  pub handler_key : String
  pub target_worker_host : Option String
  pub notes : List String

unfoldable pub build_blocked_result : QueuePacketRuntimeRequest → Refusal → QueuePacketRuntimeResult
build_blocked_result request b = record {
  request = request;
  dispatch_summary = record {
    handler_key = b.handler_key;
    packet_schema_type = request.packet_schema_type;
    target_worker_host = b.target_worker_host;
    dispatch_supported = false;
    queue_side_effect_required = false;
    ack_required = false;
    blocking_reasons = b.reason ∷ [];
    notes = b.notes;
  };
  selected_worker_result = none;
  normalized_queue_side_effect_summary = none;
  ok = false;
  reason = some b.reason;
  details = some b.details;
  dry_run = request.runtime_mode == "dry_run";
  metadata = some (controller_metadata request);
}

-- The guards before the payload is looked for.
unfoldable pub refusal : QueuePacketRuntimeRequest → Option Refusal
refusal request =
    let schema = strip request.packet_schema_type in
    if not (request.runtime_mode == "dry_run")
    then some (record {
      reason = "unsupported_runtime_mode";
      details = plain "Live queue packet handling is not supported in the first controller slice.";
      handler_key = "runtime-mode-check";
      target_worker_host = none;
      notes = "fail-closed" ∷ "dry-run-only" ∷ [];
    })
    else if not (supports_packet_schema_type schema)
    then some (record {
      reason = "unsupported_packet_schema_type";
      details =
          lit "Packet schema type "
          ∷ repr (some schema)
          ∷ lit " is not supported by the first queue runtime-controller slice."
          ∷ [];
      handler_key = "packet-classification";
      target_worker_host = none;
      notes = "fail-closed" ∷ [];
    })
    else none

abbrev pub missing_payload : Refusal
missing_payload = record {
  reason = "missing_packet_payload";
  details =
      plain
        "The supported dry-run controller slice requires packet payload or a readable packet path.";
  handler_key = "packet-payload-resolution";
  target_worker_host = some "TechLeadWorkerService";
  notes = "fail-closed" ∷ "packet-payload-required" ∷ [];
}

unfoldable pub worker_request : QueuePacketRuntimeRequest → Dict → TechLeadWorkerRequest
worker_request request payload = record {
  packet_schema_type = strip request.packet_schema_type;
  packet_message_id = request.packet_message_id;
  packet_path = request.packet_path;
  packet_payload = some payload;
  methodology_execution_id = resolve_methodology_execution_id payload;
  project_id = none;
  work_item_id = none;
  component_id = none;
  runtime_mode = request.runtime_mode;
  actor_name = request.actor_name;
  host_name = request.host_name;
  metadata = request.metadata;
}

unfoldable pub build_dispatch_summary : String → WorkerResult → QueuePacketDispatchSummary
build_dispatch_summary schema result = record {
  handler_key = "techlead-worker-dispatch";
  packet_schema_type = schema;
  target_worker_host = some "TechLeadWorkerService";
  dispatch_supported = result.ok;
  queue_side_effect_required = false;
  ack_required = false;
  blocking_reasons = result.blocking_reasons;
  notes = "dry-run-only" ∷ "techlead-worker-dispatch" ∷ result.notes;
}

unfoldable pub build_queue_side_effect_summary : WorkerResult → String
build_queue_side_effect_summary result =
    if result.ok
    then "Dry run only: no queue send or ack side effects executed."
    else "Dry run only: queue side effects suppressed because dispatch did not succeed."

unfoldable pub dispatched_result :
    QueuePacketRuntimeRequest → WorkerResult → QueuePacketRuntimeResult
dispatched_result request result = record {
  request = request;
  dispatch_summary = build_dispatch_summary (strip request.packet_schema_type) result;
  selected_worker_result = some result;
  normalized_queue_side_effect_summary = some (build_queue_side_effect_summary result);
  ok = result.ok;
  reason = result.reason;
  details = result.details;
  dry_run = true;
  metadata = some (
      entry "service_component" (text "QueuePacketRuntimeController") (
        entry "selected_worker_host" (text "TechLeadWorkerService")
          (entry "queue_name" (text request.queue_name) empty)));
}

-- From the payload on.
unfoldable pub dispatch :
    {S : Type 0}
    → Services S
    → QueuePacketRuntimeRequest
    → Option Dict
    → S
    → QueuePacketRuntimeResult × S
dispatch services request none s = (build_blocked_result request missing_payload, s)
dispatch services request (some payload) s =
    let handled = services.handle_packet (worker_request request payload) s in
    (dispatched_result request handled.0, handled.1)

unfoldable pub handle_packet :
    {S : Type 0} → Services S → QueuePacketRuntimeRequest → S → QueuePacketRuntimeResult × S
handle_packet services request s = elim (refusal request) [
  | some b ↦ (build_blocked_result request b, s)
  | none ↦
      let resolved = resolve_packet_payload services request s in
      dispatch services request resolved.0 resolved.1
]
