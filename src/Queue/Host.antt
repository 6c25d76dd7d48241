-- ===== src/Queue/Host.antt =====
-- The adapters that the TechLead host puts behind the intake service
-- (runtime/hosts/techlead.py), over the broker, the claim ledger and the message table.
pub mod Outside
pub mod Claims
use paa_platform.Queue.Host.Outside.{
  Broker, MessageStatus, Outcome, Setting, World, raised, returned, set_status, stamp,
  update_queue_message_status_by_external,
}
use mathlib.Core.Option
use paa_platform.Prelude.{
  String, Bool, true, false, ◌==◌, Option, none, some, List, [], ◌∷◌, if◌then◌else◌, not,
}
use paa_platform.Json.{
  Value, null, flag, number, text, tuple, dict, Dict, empty, entry, get, put, truth, dict_or_empty,
}
use paa_platform.Queue.Models.{Adapters}
use paa_platform.Queue.Packet.{get_or_null, as_dict, named_text, is_null}
use paa_platform.Queue.Ledger
use paa_platform.Queue.Ledger.{Ledger, load_claim, update_claim}

-- `x if isinstance(x, dict) else None`, as a value.
abbrev pub dict_or_null : Value → Value
dict_or_null (dict d) = dict d
dict_or_null null = null
dict_or_null (flag b) = null
dict_or_null (number n) = null
dict_or_null (text s) = null
dict_or_null (tuple vs) = null

-- `json.loads(payload) if isinstance(payload, str) else payload`
abbrev pub parsed_by : (String → Value) → Value → Value
parsed_by loads (text s) = loads s
parsed_by loads null = null
parsed_by loads (flag b) = flag b
parsed_by loads (number n) = number n
parsed_by loads (tuple vs) = tuple vs
parsed_by loads (dict d) = dict d

-- The record that `_QueueClaimStateAdapter.record_claim` hands to the ledger.
unfoldable pub ledger_record : String → Dict → Dict
ledger_record now claim_record = entry "queue" (get_or_null claim_record "queue_name") (
    entry "claimed_at" (text now) (
      entry "claimed_by" (get_or_null claim_record "claimant_name") (
        entry "status" (text "claimed") (
          entry "packet_message_id" (get_or_null claim_record "packet_message_id") (
            entry "packet_schema_type" (get_or_null claim_record "packet_schema_type")
              (entry "packet_reference" (get_or_null claim_record "packet_reference") empty))))))

abbrev pub done_claim : String → Dict → Dict
done_claim now claim = put (put claim "status" (text "done")) "acked_at" (text now)

-- `claim['requeue_result'] = result if isinstance(result, dict) else {}`
abbrev pub requeued_claim : String → Value → Dict → Dict
requeued_claim now result claim =
    put (put (put claim "status" (text "requeued")) "requeued_at" (text now)) "requeue_result"
      (dict (dict_or_empty (as_dict result)))

-- `bool(result.get('routed')) if isinstance(result, dict) else False`
abbrev pub routed : Value → Bool
routed result = elim (as_dict result) [ none ↦ false | some d ↦ truth (get_or_null d "routed") ]

-- `(claim.get('original_envelope') or {})` as a dict; `none` where `.get` on it would raise.
abbrev pub envelope_or_empty : Dict → Option Dict
envelope_or_empty claim =
    if truth (get_or_null claim "original_envelope")
    then as_dict (get_or_null claim "original_envelope")
    else some empty

abbrev pub missing_envelope : String → Dict
missing_envelope id = entry "ok" (flag false) (
    entry "claim_id" (text id)
      (entry "status" (text "invalid") (entry "reason" (text "missing_original_envelope") empty)))

module _ {B : Type 0} (broker : Broker B) where
  -- `_normalize_broker_message`, with `null` for the source's `None`.
  unfoldable pub normalize_broker_message : Dict → Value
  normalize_broker_message message =
      let parsed = parsed_by broker.loads (get_or_null message "payload") in
      elim (as_dict parsed) [
        | none ↦ null
        | some d ↦ dict (
            entry "packet_message_id" (get_or_null d "message_id") (
              entry "packet_schema_type" (get_or_null d "schema_type") (
                entry "packet_reference" (get_or_null d "message_id") (
                  entry "packet_payload" (dict_or_null (get_or_null d "payload")) (
                    entry "message_id" (get_or_null d "message_id") (
                      entry "schema_type" (get_or_null d "schema_type")
                        (entry "original_envelope" (dict d) empty)))))))
      ]

  abbrev pub first_message : List Dict → Value
  first_message [] = null
  first_message (m ∷ ms) = normalize_broker_message m

  unfoldable pub preview_queue : String → World B → Value × World B
  preview_queue queue w =
      let got = broker.get_messages queue true w.broker in
      (first_message got.0, record w { broker = got.1 })

  -- The messages do not go back to the queue.
  unfoldable pub claim_next_packet : String → Option String → World B → Value × World B
  claim_next_packet queue claimant w =
      let got = broker.get_messages queue false w.broker in
      (first_message got.0, record w { broker = got.1 })

-- The message row is only looked for where the packet has a message id; the timestamp field is
-- `claimed_at`, so that the statement runs.
abbrev pub claimed_messages : String → Dict → List MessageStatus → List MessageStatus
claimed_messages now claim_record ms =
    elim (named_text (get_or_null claim_record "packet_message_id")) [
      | none ↦ ms
      | some id ↦ set_status id "claimed" "claimed" "claimed_at" now ms
    ]

module _ {B : Type 0} (setting : Setting) where
  unfoldable pub record_claim : Dict → World B → Value × World B
  record_claim claim_record w =
      let recorded =
        Ledger.record_claim setting.root setting.source setting.new_id
          (ledger_record setting.now claim_record) w.ledger in
      (
        dict (entry "claim_id" (get_or_null recorded.0 "claim_id") empty),
        record w {
          ledger = recorded.1;
          messages = claimed_messages setting.now claim_record w.messages;
        },
      )

  -- The status update that follows a change of the ledger, where there is a message id to go by.
  unfoldable pub then_status :
      Option String → String → String → String → Dict → World B → Outcome (World B)
  then_status none queue_status handoff_status field result w = returned result w
  then_status (some id) queue_status handoff_status field result w =
      elim (update_queue_message_status_by_external id queue_status handoff_status field setting.now
        w.messages) [ none ↦ raised w | some ms ↦ returned result (record w { messages = ms }) ]

  unfoldable pub acknowledge_claim : String → World B → Outcome (World B)
  acknowledge_claim id w = elim (load_claim setting.roots id w.ledger) [
    | none ↦ raised w
    | some found ↦
        let claim = done_claim setting.now found.1 in
        let w' = record w { ledger = update_claim found.0 id claim w.ledger } in
        elim (envelope_or_empty claim) [
          | none ↦ raised w'
          | some envelope ↦
              then_status (named_text (get_or_null envelope "message_id")) "acknowledged"
                "completed" "acknowledged_at"
                (entry "ok" (flag true)
                  (entry "claim_id" (text id) (entry "status" (get_or_null claim "status") empty)))
                w'
        ]
  ]

  -- The part of `requeue_claim` that follows the publication.
  unfoldable pub finish_requeue :
      String → String → Dict → Dict → Value → World B → Outcome (World B)
  finish_requeue root id claim envelope result w =
      let claim' = requeued_claim setting.now result claim in
      then_status (named_text (get_or_null envelope "message_id")) "requeued" "requeued"
        "updated_at"
        (entry "ok" (flag (routed result))
          (entry "claim_id" (text id) (entry "status" (get_or_null claim' "status") empty)))
        (record w { ledger = update_claim root id claim' w.ledger })

  unfoldable pub requeue_claim : Broker B → String → World B → Outcome (World B)
  requeue_claim broker id w = elim (load_claim setting.roots id w.ledger) [
    | none ↦ raised w
    | some found ↦ elim (as_dict (get_or_null found.1 "original_envelope")) [
      | none ↦ returned (missing_envelope id) w
      | some envelope ↦ elim (get found.1 "queue") [
        | none ↦ raised w
        | some queue ↦
            let sent = broker.publish setting.exchange queue envelope w.broker in
            finish_requeue found.0 id found.1 envelope sent.0 (record w { broker = sent.1 })
      ]
    ]
  ]

-- The passthrough validator of the host: any packet that is there is valid.
unfoldable pub passthrough_validator : Value → Value
passthrough_validator packet = dict (entry "ok" (flag (not (is_null packet))) empty)

-- The adapters as the host puts them together.
unfoldable pub host_adapters : {B : Type 0} → Broker B → Setting → List String → Adapters (World B)
host_adapters broker setting queue_names = record {
  preview_queue = preview_queue broker;
  claim_next_packet = claim_next_packet broker;
  validate_packet_envelope = passthrough_validator;
  record_claim = some (record_claim setting);
  supported_queue_names = queue_names;
}
