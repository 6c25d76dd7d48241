-- ===== src/Queue/Claim/Intake/Conditions.antt =====
-- What an intake asks of its request and of the packet, and what its claim says.
use paa_platform.Prelude.{
  not-both, strip-strip, ◌==◌, ◌||◌, String, ◌≡◌, ◌↔◌, ◌⊎◌, refl, true, false, none, List, member,
  truthy, strip, arith, eq_iff, Option, some,
}
use paa_platform.Json.{Value, Dict, get, text, opt_text}
use paa_platform.Queue.Models.{QueueClaimRuntimeRequest, Adapters}
use paa_platform.Queue.Claim.{packet_block, claim_record, packet_message_id, packet_reference}
use paa_platform.Queue.Claim.Guards.{supported_schema_types, supports_intake_mode, early_block}
use paa_platform.Queue.Packet.{
  validation_ok, packet_schema_type, is_null, opt_member, packet_message_id, packet_reference,
}

-- What a request has to be before the queue is touched.
pub record Admissible (queue_names : List String) (request : QueueClaimRuntimeRequest)
    : Type 0 where
  pub queue : member request.queue_name queue_names ≡ true
  pub mode :
      (strip request.intake_mode ≡ "preview")
      ⊎ ((strip request.intake_mode ≡ "claim_next") × (truthy request.claimant_name ≡ true))

-- What a packet has to be to be taken in.
pub record Acceptable {S : Type 0} (adapters : Adapters S) (packet : Value) : Type 0 where
  pub present : is_null packet ≡ false
  pub valid : validation_ok (adapters.validate_packet_envelope packet) ≡ true
  pub schema : opt_member (packet_schema_type packet) supported_schema_types ≡ true

pub supports_lem :
    (m : String)
    → supports_intake_mode (strip m) ≡ (strip m == "preview" || strip m == "claim_next")
unfolding supports_intake_mode
supports_lem m = rw (strip-strip m) (ground arith)

pub early_block-Admissible :
    (queue_names : List String) (request : QueueClaimRuntimeRequest)
    → (early_block queue_names request ≡ none) ↔ Admissible queue_names request
unfolding early_block
early_block-Admissible queue_names request =
    let s = supports_lem request.intake_mode in
    let p = eq_iff (strip request.intake_mode) "preview" in
    let c = eq_iff (strip request.intake_mode) "claim_next" in
    (
      λ h. record { queue = ground (arith, s); mode = ground (arith, s, p, c) },
      λ a. ground (
        arith,
        s,
        p,
        c,
        a.queue,
        a.mode,
        not-both (strip request.intake_mode) "preview" "claim_next" refl,
      ),
    )

pub packet_block-Acceptable :
    {S : Type 0} (adapters : Adapters S) (mode : String) (packet : Value)
    → (packet_block mode packet (adapters.validate_packet_envelope packet) ≡ none)
      ↔ Acceptable adapters packet
unfolding packet_block
packet_block-Acceptable adapters mode packet = (
  λ h. record { present = ground arith; valid = ground arith; schema = ground arith },
  λ a. ground (arith, a.present, a.valid, a.schema),
)

-- What a claim says of the request and the packet that was taken.
pub record Describes (request : QueueClaimRuntimeRequest) (packet : Value) (claim : Dict)
    : Type 0 where
  pub queue : get claim "queue_name" ≡ some (text request.queue_name)
  pub claimant : get claim "claimant_name" ≡ some (opt_text request.claimant_name)
  pub message : get claim "packet_message_id" ≡ some (opt_text (packet_message_id packet))
  pub schema : get claim "packet_schema_type" ≡ some (opt_text (packet_schema_type packet))
  pub reference : get claim "packet_reference" ≡ some (opt_text (packet_reference packet))

pub claim_record-Describes :
    (request : QueueClaimRuntimeRequest) (packet : Value)
    → Describes request packet (claim_record request packet)
unfolding claim_record get
claim_record-Describes request packet = record {
  queue = refl;
  claimant = refl;
  message = refl;
  schema = refl;
  reference = refl;
}

-- The state after a claim was handed to the claim-state adapter, where there is one.
abbrev pub recorded : {S : Type 0} → Option (Dict → S → Value × S) → Dict → S → S
recorded none claim t = t
recorded (some write) claim t = (write claim t).1
