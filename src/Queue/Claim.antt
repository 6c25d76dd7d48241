-- ===== src/Queue/Claim.antt =====
-- `DefaultQueueClaimRuntimeService` (runtime/orchestration/queue_claim_runtime/default.py). The state
-- behind the adapters is passed along; logging is left out.
pub mod Guards
pub mod Intake
use paa_platform.Queue.Claim.Guards.{
  Block, build_blocked_result, constructor_queue_names, early_block, joined, supported_schema_types,
  supports_intake_mode,
}
use mathlib.Core.Option
use paa_platform.Prelude.{
  String, Bool, true, false, not, ◌&&◌, ◌||◌, ◌==◌, Option, none, some, truthy, ◌++◌, List, [], ◌∷◌,
  member, opt_eq, strip, if◌then◌else◌,
}
use paa_platform.Json.{
  Value, null, flag, number, text, tuple, dict, Dict, empty, entry, get, update, opt_text,
  dict_or_empty, truth, Message, lit, shown, repr, plain, put,
}
use paa_platform.Queue.Packet.{
  as_dict, get_either, get_or_null, is_null, named_text, normalized_envelope, normalized_payload,
  opt_member, packet_message_id, packet_reference, packet_schema_type, validation_ok,
}
use paa_platform.Queue.Models.{
  QueueClaimRuntimeRequest, QueuePacketPreviewSummary, QueuePacketClaimSummary,
  QueueClaimRuntimeResult, Adapters,
}

abbrev pub missing_packet : Block
missing_packet = record {
  reason = "missing_queue_packet";
  details = plain "No queue packet is available for the requested preview or claim.";
  preview_supported = true;
  claim_supported = true;
  notes = "fail-closed" ∷ "queue-empty" ∷ [];
  metadata = empty;
}

-- The guards on the packet that was loaded; `envelope` is what the validator says of it.
unfoldable pub packet_block : String → Value → Value → Option Block
packet_block mode packet envelope =
    if is_null packet
    then some missing_packet
    else if not (validation_ok envelope)
    then some (record {
      reason = "invalid_packet_envelope";
      details = plain "The queue packet envelope failed validation for the supported slice.";
      preview_supported = mode == "preview";
      claim_supported = mode == "claim_next";
      notes = "fail-closed" ∷ "validation-blocked" ∷ [];
      metadata = entry "validation_result" envelope empty;
    })
    else if not (opt_member (packet_schema_type packet) supported_schema_types)
    then some (record {
      reason = "unsupported_packet_schema_type";
      details =
          lit "Packet schema type "
          ∷ repr (packet_schema_type packet)
          ∷ lit " is not supported by the first queue-claim slice."
          ∷ [];
      preview_supported = mode == "preview";
      claim_supported = mode == "claim_next";
      notes = "fail-closed" ∷ [];
      metadata = entry "packet_schema_type" (opt_text (packet_schema_type packet)) empty;
    })
    else none

abbrev success_metadata : String → Dict
success_metadata mode =
    entry "service_component" (text "QueueClaimRuntimeService")
      (entry "intake_mode" (text mode) empty)

unfoldable pub claim_record : QueueClaimRuntimeRequest → Value → Dict
claim_record request packet = entry "queue_name" (text request.queue_name) (
    entry "claimant_name" (opt_text request.claimant_name) (
      entry "packet_message_id" (opt_text (packet_message_id packet)) (
        entry "packet_schema_type" (opt_text (packet_schema_type packet))
          (entry "packet_reference" (opt_text (packet_reference packet)) empty))))

-- `claim_result.get('claim_id') if isinstance(claim_result, dict) else None`, `None` as absence.
unfoldable pub claim_id_of : Value → Option Value
claim_id_of result = elim (as_dict result) [
  | none ↦ none
  | some d ↦ if is_null (get_or_null d "claim_id") then none else some (get_or_null d "claim_id")
]

-- The result for a packet that passes all guards; `claim` is what the ledger said, in claim mode.
unfoldable pub intake_result :
    QueueClaimRuntimeRequest → String → Value → Option Value → QueueClaimRuntimeResult
intake_result request mode packet claim = record {
  request = request;
  preview_summary = some (record {
    queue_name = request.queue_name;
    packet_message_id = packet_message_id packet;
    packet_schema_type = packet_schema_type packet;
    packet_reference = packet_reference packet;
    preview_supported = true;
    claim_supported = true;
    blocking_reasons = [];
    notes = (if mode == "preview" then "preview" else "claimed-preview") ∷ [];
  });
  claim_summary =
      Option.map
        (λ result. record {
          queue_name = request.queue_name;
          claim_id = claim_id_of result;
          claimant_name = request.claimant_name;
          packet_message_id = packet_message_id packet;
          packet_reference = packet_reference packet;
          claim_supported = true;
          blocking_reasons = [];
          notes = "claimed" ∷ [];
        })
        claim;
  normalized_packet_envelope = normalized_envelope packet;
  normalized_packet_payload = normalized_payload packet;
  ok = true;
  reason = none;
  details = none;
  metadata = some (elim claim [
    | none ↦ success_metadata mode
    | some result ↦ put (success_metadata mode) "claim_result" result
  ]);
}

module _ {S : Type 0} (adapters : Adapters S) where
  unfoldable pub load_packet : QueueClaimRuntimeRequest → String → S → Value × S
  load_packet request mode s =
      if mode == "preview"
      then adapters.preview_queue request.queue_name s
      else adapters.claim_next_packet request.queue_name request.claimant_name s

  -- Without a claim-state adapter, the ledger says `{'claim_id': None}`.
  unfoldable pub write_claim : Dict → S → Value × S
  write_claim claim s = elim adapters.record_claim [
    | none ↦ (dict (entry "claim_id" null empty), s)
    | some write ↦ write claim s
  ]

  -- What follows the guards on the packet.
  unfoldable pub finish_intake :
      QueueClaimRuntimeRequest → String → Value → S → QueueClaimRuntimeResult × S
  finish_intake request mode packet s =
      if mode == "claim_next"
      then (let claimed = write_claim (claim_record request packet) s in
          (intake_result request mode packet (some claimed.0), claimed.1))
      else (intake_result request mode packet none, s)

  unfoldable pub assemble_queue_intake : QueueClaimRuntimeRequest → S → QueueClaimRuntimeResult × S
  assemble_queue_intake request s =
      let mode = strip request.intake_mode in
      elim (early_block adapters.supported_queue_names request) [
        | some b ↦ (build_blocked_result request b, s)
        | none ↦
            let loaded = load_packet request mode s in
            elim (packet_block mode loaded.0 (adapters.validate_packet_envelope loaded.0)) [
              | some b ↦ (build_blocked_result request b, loaded.1)
              | none ↦ finish_intake request mode loaded.0 loaded.1
            ]
      ]
