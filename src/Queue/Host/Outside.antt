-- ===== src/Queue/Host/Outside.antt =====
-- The broker, the settings of a process and the message table, as the host's adapters see them.
use paa_platform.Prelude.{String, Bool, ◌==◌, Option, none, some, List, [], ◌∷◌, if◌then◌else◌}
use paa_platform.Json.{Value, Dict}
use paa_platform.Queue.Ledger.{Ledger}

-- The broker's management interface, over a broker state `B`, and `json.loads`. The flag of
-- `get_messages` tells whether the messages go back to the queue (`ack_requeue_true`).
pub record Broker (B : Type 0) : Type 0 where
  pub get_messages : String → Bool → B → List Dict × B
  pub publish : String → Value → Dict → B → Value × B
  pub loads : String → Value

-- A call returns a dict, or raises; either way it leaves a state.
pub data Outcome (W : Type 0) : Type 0 where
  returned : Dict → W → Outcome W
  raised : W → Outcome W

-- A row of the message table with the status of its handoff, as far as the queue adapters write it.
pub record MessageStatus : Type 0 where
  pub message_id_external : String
  pub queue_status : String
  pub handoff_status : String
  pub claimed_at : Option String
  pub acknowledged_at : Option String

pub record World (B : Type 0) : Type 0 where
  pub broker : B
  pub ledger : Ledger
  pub messages : List MessageStatus

-- What a process brings along: the root and the source of its ledger repository, the state roots that
-- it searches, its exchange, and, for one call, the fresh claim id and the clock.
pub record Setting : Type 0 where
  pub root : String
  pub source : String
  pub roots : List String
  pub exchange : String
  pub new_id : String
  pub now : String

abbrev pub stamp : String → String → MessageStatus → MessageStatus
stamp field now m =
    if field == "claimed_at"
    then record m { claimed_at = some now }
    else if field == "acknowledged_at"
    then record m { acknowledged_at = some now }
    else m

-- The first row with the external id gets the new status.
unfoldable pub set_status :
    String → String → String → String → String → List MessageStatus → List MessageStatus
set_status id queue_status handoff_status field now [] = []
set_status id queue_status handoff_status field now (m ∷ ms) =
    let rest = set_status id queue_status handoff_status field now ms in
    if m.message_id_external == id
    then stamp field now (record m { queue_status = queue_status; handoff_status = handoff_status })
      ∷ ms
    else m ∷ rest

-- `update_queue_message_status_by_external`; `none` is a database error. The statement assigns the
-- timestamp field and `updated_at`, and PostgreSQL refuses a statement that assigns a column twice.
unfoldable pub update_queue_message_status_by_external :
    String → String → String → String → String → List MessageStatus → Option (List MessageStatus)
update_queue_message_status_by_external id queue_status handoff_status field now ms =
    if field == "updated_at"
    then none
    else some (set_status id queue_status handoff_status field now ms)
