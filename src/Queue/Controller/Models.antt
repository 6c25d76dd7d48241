-- ===== src/Queue/Controller/Models.antt =====
-- The records of runtime/orchestration/queue_packet_runtime_controller and the services behind it.
use paa_platform.Prelude.{String, Bool, Option, List}
use paa_platform.Json.{Value, Dict, Message}

pub record QueuePacketRuntimeRequest : Type 0 where
  pub queue_name : String
  pub packet_schema_type : String
  pub packet_message_id : Option String
  pub packet_path : Option String
  pub packet_payload : Option Dict
  pub runtime_mode : String
  pub actor_name : Option String
  pub host_name : Option String
  pub metadata : Option Dict

pub record QueuePacketDispatchSummary : Type 0 where
  pub handler_key : String
  pub packet_schema_type : String
  pub target_worker_host : Option String
  pub dispatch_supported : Bool
  pub queue_side_effect_required : Bool
  pub ack_required : Bool
  pub blocking_reasons : List String
  pub notes : List String

pub record TechLeadWorkerRequest : Type 0 where
  pub packet_schema_type : String
  pub packet_message_id : Option String
  pub packet_path : Option String
  pub packet_payload : Option Dict
  pub methodology_execution_id : Option String
  pub project_id : Option String
  pub work_item_id : Option String
  pub component_id : Option String
  pub runtime_mode : String
  pub actor_name : Option String
  pub host_name : Option String
  pub metadata : Option Dict

-- What the controller reads of a `TechLeadWorkerResult`; the last two fields are those of its dispatch
-- summary.
pub record WorkerResult : Type 0 where
  pub ok : Bool
  pub reason : Option String
  pub details : Option Message
  pub blocking_reasons : List String
  pub notes : List String

pub record QueuePacketRuntimeResult : Type 0 where
  pub request : QueuePacketRuntimeRequest
  pub dispatch_summary : QueuePacketDispatchSummary
  pub selected_worker_result : Option WorkerResult
  pub normalized_queue_side_effect_summary : Option String
  pub ok : Bool
  pub reason : Option String
  pub details : Option Message
  pub dry_run : Bool
  pub metadata : Option Dict

-- The services behind a controller, over a state `S` of theirs.
pub record Services (S : Type 0) : Type 0 where
  pub handle_packet : TechLeadWorkerRequest → S → WorkerResult × S
  pub read_packet : Option (String → S → Value × S)
