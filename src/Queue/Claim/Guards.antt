-- ===== src/Queue/Claim/Guards.antt =====
-- The guards of the intake that come before the queue is touched, and the result that they lead to.
use paa_platform.Prelude.{
  String, Bool, true, false, not, ◌&&◌, ◌==◌, Option, none, some, truthy, ◌++◌, List, [], ◌∷◌,
  member, strip, if◌then◌else◌,
}
use paa_platform.Json.{text, Dict, empty, entry, update, Message, lit, shown, repr, plain}
use paa_platform.Queue.Models.{QueueClaimRuntimeRequest, QueueClaimRuntimeResult}

abbrev pub supported_schema_types : List String
supported_schema_types =
    "worker_result_packet" ∷ "techlead_assignment_packet" ∷ "techlead_decision_packet"
    ∷ "qa_verification_packet" ∷ []

unfoldable pub supports_intake_mode : String → Bool
supports_intake_mode mode = member (strip mode) ("preview" ∷ "claim_next" ∷ [])

-- `supported_queue_names or ('fractal-core-architecture',)` of the constructor.
unfoldable pub constructor_queue_names : Option (List String) → List String
constructor_queue_names none = "fractal-core-architecture" ∷ []
constructor_queue_names (some []) = "fractal-core-architecture" ∷ []
constructor_queue_names (some (n ∷ ns)) = n ∷ ns

-- `", ".join(names)` as pieces.
abbrev pub joined : List String → Message
joined [] = []
joined (n ∷ []) = shown n ∷ []
joined (n ∷ (m ∷ ns)) = shown n ∷ (lit ", " ∷ joined (m ∷ ns))

-- What the arguments of `_build_blocked_result` say.
pub record Block : Type 0 where
  pub reason : String
  pub details : Message
  pub preview_supported : Bool
  pub claim_supported : Bool
  pub notes : List String
  pub metadata : Dict

unfoldable pub build_blocked_result : QueueClaimRuntimeRequest → Block → QueueClaimRuntimeResult
build_blocked_result request b = record {
  request = request;
  preview_summary = some (record {
    queue_name = request.queue_name;
    packet_message_id = request.packet_message_id;
    packet_schema_type = request.packet_schema_type;
    packet_reference = none;
    preview_supported = b.preview_supported;
    claim_supported = b.claim_supported;
    blocking_reasons = b.reason ∷ [];
    notes = b.notes;
  });
  claim_summary =
      if strip request.intake_mode == "claim_next"
      then some (record {
        queue_name = request.queue_name;
        claim_id = none;
        claimant_name = request.claimant_name;
        packet_message_id = request.packet_message_id;
        packet_reference = none;
        claim_supported = b.claim_supported;
        blocking_reasons = b.reason ∷ [];
        notes = b.notes;
      })
      else none;
  normalized_packet_envelope = none;
  normalized_packet_payload = none;
  ok = false;
  reason = some b.reason;
  details = some b.details;
  metadata =
      some (update (entry "service_component" (text "QueueClaimRuntimeService") empty) b.metadata);
}

-- The guards that come before the queue is touched.
unfoldable pub early_block : List String → QueueClaimRuntimeRequest → Option Block
early_block queue_names request =
    let mode = strip request.intake_mode in
    if not (member request.queue_name queue_names)
    then some (record {
      reason = "unsupported_queue_name";
      details =
          lit "Queue "
            ∷ repr (some request.queue_name)
            ∷ lit " is not supported in the first queue-claim slice. Supported queues: "
            ∷ joined queue_names
          ++ lit "." ∷ [];
      preview_supported = false;
      claim_supported = false;
      notes = "fail-closed" ∷ [];
      metadata = empty;
    })
    else if not (supports_intake_mode mode)
    then some (record {
      reason = "unsupported_intake_mode";
      details =
          lit "Intake mode "
          ∷ repr (some mode)
          ∷ lit " is not supported in the first queue-claim slice."
          ∷ [];
      preview_supported = false;
      claim_supported = false;
      notes = "fail-closed" ∷ [];
      metadata = empty;
    })
    else if mode == "claim_next" && not (truthy request.claimant_name)
    then some (record {
      reason = "missing_claimant_name";
      details = plain "Claim-next intake requires claimant_name in the first queue-claim slice.";
      preview_supported = true;
      claim_supported = false;
      notes = "fail-closed" ∷ "claimant-required" ∷ [];
      metadata = empty;
    })
    else none
