-- ===== src/Queue/Models.antt =====
-- runtime/orchestration/queue_claim_runtime/models.py and contracts.py
use paa_platform.Prelude.{String, Bool, Option, List}
use paa_platform.Json.{Value, Dict, Message}

pub record QueueClaimRuntimeRequest : Type 0 where
  pub queue_name : String
  pub intake_mode : String
  pub packet_message_id : Option String
  pub packet_schema_type : Option String
  pub claimant_name : Option String
  pub host_name : Option String
  pub metadata : Option Dict

pub record QueuePacketPreviewSummary : Type 0 where
  pub queue_name : String
  pub packet_message_id : Option String
  pub packet_schema_type : Option String
  pub packet_reference : Option String
  pub preview_supported : Bool
  pub claim_supported : Bool
  pub blocking_reasons : List String
  pub notes : List String

-- `claim_id` is the value whose `str` the source stores.
pub record QueuePacketClaimSummary : Type 0 where
  pub queue_name : String
  pub claim_id : Option Value
  pub claimant_name : Option String
  pub packet_message_id : Option String
  pub packet_reference : Option String
  pub claim_supported : Bool
  pub blocking_reasons : List String
  pub notes : List String

pub record QueueClaimRuntimeResult : Type 0 where
  pub request : QueueClaimRuntimeRequest
  pub preview_summary : Option QueuePacketPreviewSummary
  pub claim_summary : Option QueuePacketClaimSummary
  pub normalized_packet_envelope : Option Dict
  pub normalized_packet_payload : Option Dict
  pub ok : Bool
  pub reason : Option String
  pub details : Option Message
  pub metadata : Option Dict

-- The adapters that a service is built from, over a state `S` of the world behind them: the queue
-- transport, the packet envelope validator and the optional claim-state adapter.
pub record Adapters (S : Type 0) : Type 0 where
  pub preview_queue : String → S → Value × S
  pub claim_next_packet : String → Option String → S → Value × S
  pub validate_packet_envelope : Value → Value
  pub record_claim : Option (Dict → S → Value × S)
  pub supported_queue_names : List String
