-- ===== src/Queue/Runtime/Run.antt =====
-- The steps of `run_once` and `_finalize_claim` (runtime/hosts/techlead.py), composed in their order.
use paa_platform.Prelude.{
  String, Bool, false, ◌&&◌, ◌==◌, Option, none, some, [], ◌∷◌, member, opt_eq, if◌then◌else◌,
  named,
}
use paa_platform.Json.{Dict, empty, entry, text, opt_text}
use paa_platform.Queue.Models.{QueueClaimRuntimeResult}
use paa_platform.Queue.Host.Outside.{Outcome, returned, raised}
use paa_platform.Queue.Retry.{claim_with_retry}
use paa_platform.Queue.Controller.{handle_packet}
use paa_platform.Queue.Controller.Models.{
  QueuePacketRuntimeRequest, QueuePacketRuntimeResult, WorkerResult,
}
use paa_platform.Queue.Runtime.{
  PacketReferenceResolutionRequest, PacketReferenceResolutionResult, Lifecycle, Runtime,
  TechLeadRuntimeLoopResult, Call, gave, failed, claim_id_in, resolved_packet_message_id,
  resolved_packet_reference, resolved_packet_schema_type, schema_or_default, opt_dict, opt_ok, Work,
  lifecycle_success, final_ok, final_reason, final_details,
}

-- The claim that is to be settled, if any.
abbrev pub claim_to_settle : String → Option String → Option String
claim_to_settle mode claim_id = if mode == "claim_next" then named claim_id else none

abbrev pub called : {S : Type 0} → Outcome S → Call (Option Dict) S
called (returned d s) = gave (some d) s
called (raised s) = failed s

abbrev pub settle_with :
    {S : Type 0} → Option (Lifecycle S) → String → Bool → S → Call (Option Dict) S
settle_with none id success s = gave none s
settle_with (some l) id success s =
    called (if success then l.acknowledge_claim id s else l.requeue_claim id s)

module _ {S : Type 0} (rt : Runtime S) where
  unfoldable pub finalize_claim : String → Option String → Bool → S → Call (Option Dict) S
  finalize_claim mode claim_id success s = elim (claim_to_settle mode claim_id) [
    | none ↦ gave none s
    | some id ↦ settle_with rt.lifecycle id success s
  ]

  -- A claim that is not ok ends the run.
  unfoldable pub unclaimed_result : String → QueueClaimRuntimeResult → TechLeadRuntimeLoopResult
  unclaimed_result mode claim = record {
    queue_name = rt.loop.queue_name;
    intake_mode = mode;
    ok = false;
    skipped = opt_eq claim.reason (some "missing_queue_packet");
    packet_message_id = elim claim.preview_summary [ none ↦ none | some s ↦ s.packet_message_id ];
    claim_id = claim_id_in rt.write claim;
    packet_reference = none;
    packet_path = none;
    target_worker_host = none;
    emitted_assignment = none;
    reason = claim.reason;
    details = claim.details;
    metadata = claim.metadata;
  }

  abbrev pub schema_of : QueueClaimRuntimeResult → String
  schema_of claim = schema_or_default (resolved_packet_schema_type claim)

  unfoldable pub resolution_request : QueueClaimRuntimeResult → PacketReferenceResolutionRequest
  resolution_request claim = record {
    packet_message_id = resolved_packet_message_id claim;
    packet_path = none;
    packet_reference = resolved_packet_reference claim;
    queue_name = some rt.loop.queue_name;
    packet_schema_type = some (schema_of claim);
    actor_name = rt.loop.actor_name;
    host_name = rt.loop.host_name;
    metadata = some (entry "claim_id" (opt_text (claim_id_in rt.write claim)) empty);
  }

  unfoldable pub unresolved_result :
      String
      → QueueClaimRuntimeResult
      → PacketReferenceResolutionResult
      → Option Dict
      → TechLeadRuntimeLoopResult
  unresolved_result mode claim resolution settled = record {
    queue_name = rt.loop.queue_name;
    intake_mode = mode;
    ok = false;
    skipped = false;
    packet_message_id = resolution.resolution_summary.packet_message_id;
    claim_id = claim_id_in rt.write claim;
    packet_reference = resolution.resolution_summary.packet_reference;
    packet_path = resolution.resolution_summary.resolved_packet_path;
    target_worker_host = none;
    emitted_assignment = none;
    reason = resolution.reason;
    details = resolution.details;
    metadata = some (
        entry "resolution" (opt_dict resolution.metadata)
          (entry "claim_lifecycle" (opt_dict settled) empty));
  }

  unfoldable pub packet_request :
      String → QueueClaimRuntimeResult → PacketReferenceResolutionResult → QueuePacketRuntimeRequest
  packet_request mode claim resolution = record {
    queue_name = rt.loop.queue_name;
    packet_schema_type = schema_or_default resolution.resolution_summary.packet_schema_type;
    packet_message_id = resolution.resolution_summary.packet_message_id;
    packet_path = resolution.resolution_summary.resolved_packet_path;
    packet_payload = resolution.normalized_packet_payload;
    runtime_mode = "dry_run";
    actor_name = rt.loop.actor_name;
    host_name = rt.loop.host_name;
    metadata = some (
        entry "claim_id" (opt_text (claim_id_in rt.write claim))
          (entry "intake_mode" (text mode) empty));
  }

  unfoldable pub return_transition :
      QueueClaimRuntimeResult
      → PacketReferenceResolutionResult
      → QueuePacketRuntimeResult
      → S
      → Option Dict × S
  return_transition claim resolution result s = elim rt.transitions [
    | none ↦ (none, s)
    | some t ↦
        let applied =
          t.apply_return_transition resolution.resolution_summary.resolved_packet_path
            resolution.resolution_summary.packet_message_id (schema_of claim) s in
        if result.ok
          && member (schema_of claim) ("worker_result_packet" ∷ "qa_verification_packet" ∷ [])
        then (some applied.0, applied.1)
        else (none, s)
  ]

  abbrev pub publish_for :
      PacketReferenceResolutionResult → Option WorkerResult → S → Option Dict × S
  publish_for resolution none s = (none, s)
  publish_for resolution (some worker) s = elim rt.publisher [
    | none ↦ (none, s)
    | some publish ↦
        publish worker resolution.resolution_summary.packet_message_id
          resolution.resolution_summary.resolved_packet_path s
  ]

  unfoldable pub emit_assignment :
      Bool
      → String
      → PacketReferenceResolutionResult
      → QueuePacketRuntimeResult
      → Option Dict
      → S
      → Option Dict × S
  emit_assignment emit mode resolution result workflow s =
      if emit && (mode == "claim_next" && (result.ok && opt_ok workflow))
      then publish_for resolution result.selected_worker_result s
      else (none, s)

  unfoldable pub record_emitted :
      QueueClaimRuntimeResult → PacketReferenceResolutionResult → Option Dict → S → Option Dict × S
  record_emitted claim resolution none s = (none, s)
  record_emitted claim resolution (some emitted) s = elim rt.transitions [
    | none ↦ (none, s)
    | some t ↦
        let recorded =
          t.record_assignment_emitted resolution.resolution_summary.packet_message_id
            (schema_of claim) (claim_id_in rt.write claim) emitted s in
        if opt_ok (some emitted) then (some recorded.0, recorded.1) else (none, s)
  ]

  -- From the controller to the recorded assignment.
  unfoldable pub work_on :
      String → Bool → QueueClaimRuntimeResult → PacketReferenceResolutionResult → S → Work × S
  work_on mode emit claim resolution s =
      let handled = handle_packet rt.services (packet_request mode claim resolution) s in
      let moved = return_transition claim resolution handled.0 handled.1 in
      let emitted = emit_assignment emit mode resolution handled.0 moved.0 moved.1 in
      let noted = record_emitted claim resolution emitted.0 emitted.1 in
      (
        record {
          runtime_result = handled.0;
          workflow_transition = moved.0;
          emitted_assignment = emitted.0;
          assignment_transition = noted.0;
        },
        noted.1,
      )

  unfoldable pub worked_result :
      String
      → QueueClaimRuntimeResult
      → PacketReferenceResolutionResult
      → Work
      → Option Dict
      → TechLeadRuntimeLoopResult
  worked_result mode claim resolution w settled = record {
    queue_name = rt.loop.queue_name;
    intake_mode = mode;
    ok = final_ok w;
    skipped = false;
    packet_message_id = w.runtime_result.request.packet_message_id;
    claim_id = claim_id_in rt.write claim;
    packet_reference = resolution.resolution_summary.packet_reference;
    packet_path = resolution.resolution_summary.resolved_packet_path;
    target_worker_host = w.runtime_result.dispatch_summary.target_worker_host;
    emitted_assignment = w.emitted_assignment;
    reason = final_reason rt.write w;
    details = final_details rt.write w;
    metadata = some (
        entry "claim" (opt_dict claim.metadata) (
          entry "resolution" (opt_dict resolution.metadata) (
            entry "dispatch" (opt_dict w.runtime_result.metadata) (
              entry "workflow_transition" (opt_dict w.workflow_transition) (
                entry "assignment_transition" (opt_dict w.assignment_transition)
                  (entry "claim_lifecycle" (opt_dict settled) empty))))));
  }

  -- The end of a run: the claim is settled, and the result tells what the lifecycle answered.
  unfoldable pub finish :
      String
      → QueueClaimRuntimeResult
      → Bool
      → (Option Dict → TechLeadRuntimeLoopResult)
      → S
      → Call TechLeadRuntimeLoopResult S
  finish mode claim success result s =
      elim (finalize_claim mode (claim_id_in rt.write claim) success s) [
        | gave settled t ↦ gave (result settled) t
        | failed t ↦ failed t
      ]

  unfoldable pub run_claimed :
      String → Bool → QueueClaimRuntimeResult → S → Call TechLeadRuntimeLoopResult S
  run_claimed mode emit claim s =
      let resolved = rt.resolve_packet_reference (resolution_request claim) s in
      let worked = work_on mode emit claim resolved.0 resolved.1 in
      if resolved.0.ok
      then finish mode claim (lifecycle_success worked.0)
          (worked_result mode claim resolved.0 worked.0) worked.1
      else finish mode claim false (unresolved_result mode claim resolved.0) resolved.1

  -- `failed` where the claim is still `None`.
  unfoldable pub run_once : String → Bool → S → Call TechLeadRuntimeLoopResult S
  run_once mode emit s = elim (claim_with_retry rt.adapters rt.loop mode s) [
    | none ↦ failed s
    | some got ↦
        if got.0.ok
        then run_claimed mode emit got.0 got.1
        else gave (unclaimed_result mode got.0) got.1
  ]
