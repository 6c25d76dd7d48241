-- ===== src/Queue/Tests.antt =====
-- The queue services at small concrete queues, ledgers and worlds.
mod Host
mod Listing
use paa_platform.Queue.Envelope.Valid.{Valid, validate-Valid}
use paa_platform.Queue.Envelope.{
  validate_envelope, top_level_errors, missing_fields, content_errors, object_errors, route_errors,
  route_policy_for_schema, payload_required, normalize_role_name, role_mapping, routed,
}
use paa_platform.Queue.Retry.Attempts.{Attempts, retry-Attempts}
use paa_platform.Queue.Retry.{Loop, claim_with_retry}
use paa_platform.Prelude.{
  ℕ, suc, String, ◌≡◌, ◌⊎◌, refl, true, false, none, some, List, [], ◌∷◌, ◌++◌, strip, differ, find,
  member,
}
use paa_platform.Json.{Value, null, flag, text, dict, Dict, empty, entry, get, put}
use paa_platform.Queue.Models.{QueueClaimRuntimeRequest, Adapters, QueueClaimRuntimeResult}
use paa_platform.Queue.Claim.{
  assemble_queue_intake, load_packet, write_claim, claim_record, packet_block, finish_intake,
  intake_result,
}
use paa_platform.Queue.Claim.Guards.{early_block, supports_intake_mode}
use paa_platform.Queue.Packet.{validation_ok, packet_schema_type}
use paa_platform.Queue.Claim.Intake.{loaded, ok_iff, intake-accounted, Accounted}
use paa_platform.Queue.Claim.Intake.Conditions.{Admissible, Acceptable}
use paa_platform.Queue.Ledger
use paa_platform.Queue.Ledger.{Ledger, load_claim, update_claim, save_json}
use paa_platform.Queue.Ledger.Roots.{load-record}
use paa_platform.Queue.Host.{acknowledge_claim, requeue_claim, missing_envelope}
use paa_platform.Queue.Host.Outside.{Broker, World, Setting, returned, raised}
use paa_platform.Queue.Host.Claims.{
  recorded_world, acknowledged, requeue-recorded, acknowledge-recorded, sent, requeued,
  requeue-raises,
}
use paa_platform.Queue.Controller.{
  supports_packet_schema_type, resolve_packet_payload, worker_request, dispatched_result,
}
use paa_platform.Queue.Controller.Models.{
  QueuePacketRuntimeRequest, QueuePacketRuntimeResult, Services, WorkerResult,
  TechLeadWorkerRequest,
}
use paa_platform.Queue.Controller
use paa_platform.Queue.Controller.Dispatch.{handled-or-refused, Handled, Refused}

-- A queue of packets and the claims that were written.
record Shelf : Type 0 where
  packets : List Value
  claims : List Dict

abbrev front : List Value → Value
front [] = null
front (p ∷ ps) = p

abbrev rest : List Value → List Value
rest [] = []
rest (p ∷ ps) = ps

abbrev adapters : Adapters Shelf
adapters = record {
  preview_queue = λ queue s. (front s.packets, s);
  claim_next_packet = λ queue claimant s. (front s.packets, record s { packets = rest s.packets });
  validate_packet_envelope = λ packet. flag true;
  record_claim = some (λ claim s. (dict empty, record s { claims = claim ∷ s.claims }));
  supported_queue_names = "q" ∷ [];
}

abbrev packet : Value
packet = dict (
    entry "packet_message_id" (text "m1")
      (entry "packet_schema_type" (text "worker_result_packet") empty))

abbrev shelf : Shelf
shelf = record { packets = packet ∷ []; claims = [] }

abbrev claim_request : QueueClaimRuntimeRequest
claim_request = record {
  queue_name = "q";
  intake_mode = " claim_next ";
  packet_message_id = none;
  packet_schema_type = none;
  claimant_name = some "techlead";
  host_name = none;
  metadata = none;
}

intake_ok : (assemble_queue_intake adapters claim_request shelf).0.ok ≡ true
unfolding assemble_queue_intake early_block supports_intake_mode strip load_packet packet_block
    validation_ok packet_schema_type get finish_intake intake_result
intake_ok = refl

ok_iff_example :
    Admissible ("q" ∷ []) claim_request
    × Acceptable adapters (loaded adapters claim_request shelf).0
ok_iff_example = (ok_iff adapters claim_request shelf).0 intake_ok

intake-accounted_example : Accounted adapters claim_request shelf
intake-accounted_example = intake-accounted adapters claim_request shelf

abbrev one_claim : Ledger
one_claim = record { root = "root"; claim_id = "c1"; claim = empty } ∷ []

found : load_claim ("root" ∷ []) "c1" one_claim ≡ some ("root", empty)
unfolding load_claim find
found = refl

abbrev services : Services ℕ
services = record {
  handle_packet = λ r n. (
    record { ok = true; reason = none; details = none; blocking_reasons = []; notes = [] },
    suc n,
  );
  read_packet = none;
}

abbrev dry_run : QueuePacketRuntimeRequest
dry_run = record {
  queue_name = "q";
  packet_schema_type = "worker_result_packet";
  packet_message_id = none;
  packet_path = none;
  packet_payload = some empty;
  runtime_mode = "dry_run";
  actor_name = none;
  host_name = none;
  metadata = none;
}

handled-or-refused_example : Handled services dry_run 0 ⊎ Refused services dry_run 0
handled-or-refused_example = handled-or-refused services dry_run 0

abbrev loop : Loop
loop = record { queue_name = "q"; actor_name = some "techlead"; host_name = none }

abbrev empty_shelf : Shelf
empty_shelf = record { packets = []; claims = [] }

retry-Attempts_example :
    (r : QueueClaimRuntimeResult) × (t : Shelf) × (claim_with_retry adapters loop "claim_next"
        empty_shelf
      ≡ some (r, t))
    × Attempts adapters loop "claim_next" 3 1 empty_shelf r t
retry-Attempts_example = retry-Attempts adapters loop "claim_next" empty_shelf

-- A packet of the QA role to the TechLead.
abbrev pub qa_packet : Dict
qa_packet = entry "message_id" (text "m1") (
    entry "schema_type" (text "qa_verification_packet") (
      entry "schema_version" null (
        entry "project" null (
          entry "from_role" (text "qa") (
            entry "to_role" (text "techlead") (
              entry "created_at" null (
                entry "correlation_id" null (
                  entry "payload"
                    (dict (
                      entry "issue" null (
                        entry "pr" null (
                          entry "verification_status" null (
                            entry "verification_scope" null (
                              entry "mechanical_checks" null (
                                entry "technical_scope_checks" null (
                                  entry "protected_path_checks" null (
                                    entry "artifact_checks" null (
                                      entry "findings" null
                                        (entry "recommended_action" null empty)))))))))))
                    (entry "github_context"
                      (dict (
                        entry "repo" null (
                          entry "issue_number" null (
                            entry "pr_number" null
                              (entry "branch" null (entry "links" null empty))))))
                      empty)))))))))

pub qa_packet_ok : validate_envelope [] false qa_packet ≡ some []
unfolding validate_envelope top_level_errors missing_fields content_errors object_errors
    route_errors route_policy_for_schema payload_required normalize_role_name role_mapping get put
    routed
qa_packet_ok = refl

validate-Valid_example : Valid [] false qa_packet
validate-Valid_example = (validate-Valid [] false qa_packet).0 qa_packet_ok
