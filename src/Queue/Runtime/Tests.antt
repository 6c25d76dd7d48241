-- ===== src/Queue/Runtime/Tests.antt =====
-- A run of the TechLead runtime loop whose publisher refuses to emit the next assignment.
use paa_platform.Queue.Packet.{normalized_envelope}
use paa_platform.Queue.Runtime.{resolved_packet_message_id}
use paa_platform.Queue.Controller.{
  handle_packet, refusal, supports_packet_schema_type, resolve_packet_payload, dispatch,
  dispatched_result, worker_request,
}
use paa_platform.Queue.Runtime.Repeat.Counted.{Broken, Finished, Broken, Finished}
use paa_platform.Queue.Packet.{validation_ok, packet_schema_type}
use paa_platform.Prelude.{ℕ, suc, ◌≡◌, refl, true, false, none, some, [], ◌∷◌, strip}
use paa_platform.Json.{Value, flag, text, dict, empty, entry, get}
use paa_platform.Queue.Models.{Adapters, QueueClaimRuntimeResult}
use paa_platform.Queue.Claim.{
  assemble_queue_intake, packet_block, load_packet, finish_intake, intake_result, write_claim,
  claim_id_of,
}
use paa_platform.Queue.Claim.Guards.{early_block, supports_intake_mode}
use paa_platform.Queue.Host.Outside.{returned}
use paa_platform.Queue.Retry.{claim_with_retry, attempt_request, attempts_from, attempts_for}
use paa_platform.Queue.Controller.Models.{Services}
use paa_platform.Queue.Runtime.{
  Runtime, Lifecycle, claim_id_in, gave, lifecycle_success, final_ok, handle_packet,
  resolved_packet_schema_type, TechLeadRuntimeLoopResult,
}
use paa_platform.Queue.Runtime.Run.{
  run_once, claim_to_settle, run_claimed, finish, finalize_claim, work_on, return_transition,
  emit_assignment, record_emitted, packet_request, resolution_request, worked_result,
}
use paa_platform.Queue.Runtime.Settled.{Settled, run_once-Settled, unsettled}

abbrev packet : Value
packet = dict (
    entry "packet_message_id" (text "m1")
      (entry "packet_schema_type" (text "worker_result_packet") empty))

abbrev adapters : Adapters ℕ
adapters = record {
  preview_queue = λ queue n. (packet, n);
  claim_next_packet = λ queue claimant n. (packet, n);
  validate_packet_envelope = λ p. flag true;
  record_claim = some (λ claim n. (dict (entry "claim_id" (text "c1") empty), n));
  supported_queue_names = "q" ∷ [];
}

abbrev services : Services ℕ
services = record {
  handle_packet = λ request n.
      (record { ok = true; reason = none; details = none; blocking_reasons = []; notes = [] }, n);
  read_packet = none;
}

-- The state counts the requeues.
abbrev lifecycle : Lifecycle ℕ
lifecycle = record {
  acknowledge_claim = λ id n. returned empty n;
  requeue_claim = λ id n. returned empty (suc n);
}

abbrev rt : Runtime ℕ
rt = record {
  adapters = adapters;
  loop = record { queue_name = "q"; actor_name = some "techlead"; host_name = none };
  resolve_packet_reference = λ request n. (
    record {
      request = request;
      resolution_summary = record {
        resolution_source = none;
        packet_message_id = request.packet_message_id;
        packet_schema_type = request.packet_schema_type;
        queue_name = request.queue_name;
        packet_reference = none;
        resolved_packet_path = none;
        resolution_supported = true;
        blocking_reasons = [];
        notes = [];
      };
      normalized_packet_payload = some empty;
      ok = true;
      reason = none;
      details = none;
      metadata = none;
    },
    n,
  );
  services = services;
  publisher = some (λ worker id path n. (some (entry "ok" (flag false) empty), n));
  transitions = none;
  lifecycle = some lifecycle;
  write = λ v. "";
}

abbrev claim : QueueClaimRuntimeResult
claim = (assemble_queue_intake adapters (attempt_request rt.loop "claim_next" 1) 0).0

claimed : claim_with_retry adapters rt.loop "claim_next" 0 ≡ some (claim, 0)
unfolding claim_with_retry attempts_from attempts_for assemble_queue_intake early_block
    attempt_request supports_intake_mode strip packet_block load_packet validation_ok
    packet_schema_type get finish_intake intake_result write_claim
claimed = refl

claim_ok : claim.ok ≡ true
unfolding attempts_for assemble_queue_intake early_block attempt_request supports_intake_mode strip
    packet_block load_packet validation_ok packet_schema_type get finish_intake intake_result
    write_claim
claim_ok = refl

open_claim : claim_to_settle "claim_next" (claim_id_in rt.write claim) ≡ some "c1"
unfolding attempts_for assemble_queue_intake early_block attempt_request supports_intake_mode strip
    packet_block load_packet validation_ok packet_schema_type get finish_intake intake_result
    write_claim claim_id_of
open_claim = refl

run_once-Settled_example :
    Settled rt lifecycle "claim_next" "c1" true claim 0
      (run_once rt "claim_next" true 0)
      (run_once (unsettled rt) "claim_next" true 0)
run_once-Settled_example =
    run_once-Settled rt lifecycle refl "claim_next" "c1" true claim open_claim 0 0 claimed claim_ok

-- The publisher's answer is not ok: the claim is requeued, and the result is ok.
ok_and_requeued :
    (r : TechLeadRuntimeLoopResult) × (run_once rt "claim_next" true 0 ≡ gave r 1) × (r.ok ≡ true)
unfolding run_once run_claimed finish finalize_claim work_on return_transition emit_assignment
    record_emitted packet_request resolution_request worked_result lifecycle_success final_ok
    handle_packet refusal supports_packet_schema_type resolve_packet_payload dispatch
    dispatched_result worker_request claim_with_retry attempts_from attempts_for
    assemble_queue_intake early_block attempt_request supports_intake_mode strip packet_block
    load_packet validation_ok packet_schema_type get finish_intake intake_result write_claim
    claim_id_of resolved_packet_schema_type normalized_envelope resolved_packet_message_id
ok_and_requeued = (_, refl, refl)
