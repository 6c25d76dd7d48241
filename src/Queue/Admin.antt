-- ===== src/Queue/Admin.antt =====
-- The claims of the queue admin service (runtime/transport/queue_admin.py): claim_next, ack and
-- requeue over the broker, the ledger of the repository and the message table.
mod Tests
pub mod Claimed
use paa_platform.Prelude.{
  ℕ, String, Bool, true, false, ◌==◌, Option, none, some, List, [], ◌∷◌, map, is_empty,
  if◌then◌else◌,
}
use paa_platform.Json.{
  Value, null, flag, number, text, tuple, dict, Dict, empty, entry, put, truth, texts, Message,
  plain, str_of,
}
use paa_platform.Queue.Packet.{get_or_null, as_dict}
use paa_platform.Queue.Envelope.{Role, validate_envelope}
use paa_platform.Queue.Ledger
use paa_platform.Queue.Ledger.{load_claim, update_claim}
use paa_platform.Queue.Host.{done_claim, routed, envelope_or_empty}
use paa_platform.Queue.Host.Outside.{World, update_queue_message_status_by_external}

-- What the service has around it: the broker's management interface, `json.loads`, where `none` is its
-- exception, `str` of a value and of an error, the active roles, the state root of the repository and
-- those that the process searches, the exchange, and, for one call, the fresh claim id and the clock.
pub record Environment (B : Type 0) : Type 0 where
  pub get_messages : String → B → List Dict × B
  pub publish : String → String → Dict → B → Value × B
  pub loads : String → Option Value
  pub write : Value → String
  pub write_error : Message → String
  pub roles : List Role
  pub root : String
  pub roots : List String
  pub exchange : String
  pub new_id : String
  pub now : String

-- A call answers with a dict and an exit code, or raises; either way it leaves a state.
pub data Answer (B : Type 0) : Type 0 where
  answered : Dict → ℕ → World B → Answer B
  raised : World B → Answer B

-- `json.loads(payload) if isinstance(payload, str) else payload`
abbrev pub parsed_payload : (String → Option Value) → Value → Option Value
parsed_payload loads (text s) = loads s
parsed_payload loads null = some null
parsed_payload loads (flag b) = some (flag b)
parsed_payload loads (number n) = some (number n)
parsed_payload loads (tuple vs) = some (tuple vs)
parsed_payload loads (dict d) = some (dict d)

-- `if message_id:` with `str(message_id)`
abbrev pub named_id : (Value → String) → Value → Option String
named_id write v = if truth v then some (str_of write v) else none

-- `message.get('message_id') if isinstance(message, dict) else None`
abbrev pub id_in : Option Dict → Value
id_in none = null
id_in (some d) = get_or_null d "message_id"

-- The record of a claim; `rest` comes between its status and its envelope.
abbrev pub claim_record : String → String → String → String → (Dict → Dict) → Dict → Dict
claim_record queue now claimed_by status rest envelope = entry "queue" (text queue) (
    entry "claimed_at" (text now) (
      entry "claimed_by" (text claimed_by)
        (entry "status" (text status) (rest (entry "original_envelope" (dict envelope) empty)))))

-- `claim['requeue_result'] = deepcopy(result)`
abbrev pub requeued_claim : String → Value → Dict → Dict
requeued_claim now result claim =
    put (put (put claim "status" (text "requeued")) "requeued_at" (text now)) "requeue_result"
      result

abbrev pub missing_envelope : String → Dict → Dict
missing_envelope id claim = entry "ok" (flag false) (
    entry "claim_id" (text id) (
      entry "status" (text "invalid") (
        entry "queue" (get_or_null claim "queue") (
          entry "state_dir" (get_or_null claim "state_dir")
            (entry "reason" (text "missing_original_envelope") empty)))))

module _ {B : Type 0} (env : Environment B) where
  -- The status update that ends a call, where there is a message id to go by.
  unfoldable pub then_status :
      Option String → String → String → String → Dict → ℕ → World B → Answer B
  then_status none queue_status handoff_status field result code w = answered result code w
  then_status (some id) queue_status handoff_status field result code w =
      elim (update_queue_message_status_by_external id queue_status handoff_status field env.now
        w.messages) [
          | none ↦ raised w
          | some ms ↦ answered result code (record w { messages = ms })
        ]

  abbrev pub invalid_record : String → String → List Message → Dict → Dict
  invalid_record queue claimed_by errors envelope =
      claim_record queue env.now claimed_by "invalid"
        (entry "validation_errors" (tuple (texts (map env.write_error errors)))) envelope

  abbrev pub claimed_record : String → String → Dict → Dict
  claimed_record queue claimed_by envelope =
      claim_record queue env.now claimed_by "claimed" (λ d. d) envelope

  abbrev pub invalid_answer : List Message → Dict → Dict
  invalid_answer errors recorded = entry "ok" (flag false) (
      entry "claimed" (flag true) (
        entry "claim_id" (get_or_null recorded "claim_id") (
          entry "errors" (tuple (texts (map env.write_error errors)))
            (entry "state_dir" (text env.root) empty))))

  -- A packet that is not valid is recorded all the same.
  unfoldable pub claim_invalid : String → String → List Message → Dict → World B → Answer B
  claim_invalid queue claimed_by errors envelope w =
      let recorded =
        Ledger.record_claim env.root "explicit-root" env.new_id
          (invalid_record queue claimed_by errors envelope) w.ledger in
      answered (invalid_answer errors recorded.0) 1 (record w { ledger = recorded.1 })

  abbrev pub claimed_answer : String → Dict → Dict → Dict
  claimed_answer queue recorded envelope = entry "ok" (flag true) (
      entry "claimed" (flag true) (
        entry "claim_id" (get_or_null recorded "claim_id") (
          entry "queue" (text queue) (
            entry "message_id" (get_or_null envelope "message_id") (
              entry "schema_type" (get_or_null envelope "schema_type") (
                entry "correlation_id" (get_or_null envelope "correlation_id") (
                  entry "state_dir" (text env.root)
                    (entry "state_dir_source" (text "repo-runtime") empty))))))))

  unfoldable pub claim_valid : String → String → Dict → World B → Answer B
  claim_valid queue claimed_by envelope w =
      let recorded =
        Ledger.record_claim env.root "explicit-root" env.new_id
          (claimed_record queue claimed_by envelope) w.ledger in
      then_status (named_id env.write (get_or_null envelope "message_id")) "claimed" "claimed"
        "claimed_at" (claimed_answer queue recorded.0 envelope) 0 (record w { ledger = recorded.1 })

  -- From the parsed payload on. `none` of the validation is its exception.
  unfoldable pub claim_parsed : String → String → Value → World B → Answer B
  claim_parsed queue claimed_by parsed w = elim (as_dict parsed) [
    | none ↦
        claim_invalid queue claimed_by
          (plain "queue message payload must decode to an object envelope" ∷ []) empty w
    | some envelope ↦ elim (validate_envelope env.roles false envelope) [
      | none ↦ raised w
      | some errors ↦
          if is_empty errors
          then claim_valid queue claimed_by envelope w
          else claim_invalid queue claimed_by errors envelope w
    ]
  ]

  abbrev pub claim_first : String → String → List Dict → World B → Answer B
  claim_first queue claimed_by [] w =
      answered
        (entry "ok" (flag true) (entry "queue" (text queue) (entry "claimed" (flag false) empty))) 0
        w
  claim_first queue claimed_by (m ∷ ms) w =
      elim (parsed_payload env.loads (get_or_null m "payload")) [
        | none ↦ raised w
        | some parsed ↦ claim_parsed queue claimed_by parsed w
      ]

  -- The messages do not go back to the queue (`ack_requeue_false`).
  unfoldable pub claim_next : String → String → World B → Answer B
  claim_next queue claimed_by w =
      let got = env.get_messages queue w.broker in
      claim_first queue claimed_by got.0 (record w { broker = got.1 })

  abbrev pub ack_answer : String → Dict → Dict
  ack_answer id claim = entry "ok" (flag true) (
      entry "claim_id" (text id) (
        entry "status" (get_or_null claim "status")
          (entry "state_dir" (get_or_null claim "state_dir") empty)))

  unfoldable pub ack : String → World B → Answer B
  ack id w = elim (load_claim env.roots id w.ledger) [
    | none ↦ raised w
    | some found ↦
        let claim = done_claim env.now found.1 in
        then_status (named_id env.write (id_in (envelope_or_empty claim))) "acknowledged"
          "completed" "acknowledged_at" (ack_answer id claim) 0
          (record w { ledger = update_claim found.0 id claim w.ledger })
  ]

  -- The part of `requeue` that follows the publication.
  unfoldable pub finish_requeue : String → String → Dict → Dict → Value → World B → Answer B
  finish_requeue root id claim envelope result w =
      let claim' = requeued_claim env.now result claim in
      then_status (named_id env.write (get_or_null envelope "message_id")) "requeued" "requeued"
        "updated_at"
        (entry "ok" (flag (routed result)) (
          entry "claim_id" (text id) (
            entry "status" (get_or_null claim' "status") (
              entry "queue" (get_or_null claim' "queue")
                (entry "state_dir" (get_or_null claim' "state_dir") empty)))))
        (if routed result then 0 else 1)
        (record w { ledger = update_claim root id claim' w.ledger })

  -- `str(claim.get('queue') or '')`
  abbrev pub queue_of : Dict → String
  queue_of claim =
      let queue = get_or_null claim "queue" in if truth queue then str_of env.write queue else ""

  unfoldable pub requeue : String → World B → Answer B
  requeue id w = elim (load_claim env.roots id w.ledger) [
    | none ↦ raised w
    | some found ↦ elim (as_dict (get_or_null found.1 "original_envelope")) [
      | none ↦ answered (missing_envelope id found.1) 1 w
      | some envelope ↦
          let sent = env.publish env.exchange (queue_of found.1) envelope w.broker in
          finish_requeue found.0 id found.1 envelope sent.0 (record w { broker = sent.1 })
    ]
  ]
