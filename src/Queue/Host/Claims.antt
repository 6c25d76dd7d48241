-- ===== src/Queue/Host/Claims.antt =====
-- The life of a claim that the host adapter has recorded.
use mathlib.Core.Path.{subst}
use paa_platform.Prelude.{
  ◌∙◌, arith, eq_iff, String, ◌≡◌, refl, sym, true, none, some, List, ◌∷◌, ◌++◌, ◌≢◌,
}
use paa_platform.Json.{
  null, text, flag, Dict, empty, entry, get, put, update, Value, get-put, dict, dict_or_empty,
}
use paa_platform.Queue.Packet.{get_or_null, as_dict, named_text}
use paa_platform.Queue.Ledger.{Ledger, load_claim, update_claim, stored_record}
use paa_platform.Queue.Ledger
use paa_platform.Queue.Ledger.Roots.{load-record, load-update}
use paa_platform.Queue.Host.{
  ledger_record, record_claim, acknowledge_claim, requeue_claim, missing_envelope, done_claim,
  then_status, requeued_claim, finish_requeue,
}
use paa_platform.Queue.Host.Outside.{
  Broker, World, Setting, returned, update_queue_message_status_by_external, raised,
}

module _ {B : Type 0} (setting : Setting) (claim_record : Dict) (w : World B)
    (before after : List String) (searched : setting.roots ≡ before ++ setting.root ∷ after)
    (new : load_claim before setting.new_id w.ledger ≡ none) where
  abbrev pub recorded : Dict
  recorded =
      stored_record setting.root setting.source setting.new_id
        (ledger_record setting.now claim_record)

  abbrev pub recorded_world : World B
  recorded_world = (record_claim setting claim_record w).1

  load-recorded :
      load_claim setting.roots setting.new_id recorded_world.ledger ≡ some (setting.root, recorded)
  unfolding record_claim Ledger.record_claim
  load-recorded =
      subst
        (λ roots.
          load_claim roots setting.new_id recorded_world.ledger ≡ some (setting.root, recorded))
        (sym searched)
        ((load-record setting.root setting.source setting.new_id
            (ledger_record setting.now claim_record) w.ledger).0
          before after new)

  recorded-envelope : get_or_null recorded "original_envelope" ≡ null
  unfolding stored_record ledger_record get put update
  recorded-envelope = refl

  -- Where the root of the host's ledger is searched and no root before it holds a file of the new id, a
  -- claim that the host adapter recorded is not requeued: the request returns the reason
  -- `missing_original_envelope`, nothing is published, and nothing changes.
  pub requeue-recorded :
      (broker : Broker B)
      → requeue_claim setting broker setting.new_id recorded_world
        ≡ returned (missing_envelope setting.new_id) recorded_world
  unfolding requeue_claim
  requeue-recorded broker = rw (load-recorded, requeue_claim) (rw recorded-envelope refl)

  -- The claim as an acknowledgement leaves it.
  abbrev pub acknowledged : Dict
  acknowledged = done_claim setting.now recorded

  acknowledged-status : get acknowledged "status" ≡ some (text "done")
  unfolding stored_record ledger_record get put update
  acknowledged-status = refl

  acknowledge_lem :
      acknowledge_claim setting setting.new_id recorded_world
      ≡ returned
          (entry "ok"
            (flag true)
            (entry "claim_id" (text setting.new_id) (entry "status" (text "done") empty)))
          (record recorded_world {
            ledger = update_claim setting.root setting.new_id acknowledged recorded_world.ledger;
          })
  unfolding acknowledge_claim then_status stored_record ledger_record get put update
  acknowledge_lem = rw (load-recorded, acknowledge_claim) refl

  -- Where the root of the host's ledger is searched and no root before it holds a file of the new id, a
  -- claim that the host adapter recorded can be acknowledged: the request returns `ok`, the claim is
  -- found with the status `done` afterwards, and no row of the message table has changed.
  pub acknowledge-recorded :
      (done : World B) × (acknowledge_claim setting setting.new_id recorded_world
        ≡ returned
            (entry "ok"
              (flag true)
              (entry "claim_id" (text setting.new_id) (entry "status" (text "done") empty)))
            done)
      × (load_claim setting.roots setting.new_id done.ledger ≡ some (setting.root, acknowledged))
      × (get acknowledged "status" ≡ some (text "done"))
      × (done.messages ≡ recorded_world.messages)
      × (done.broker ≡ recorded_world.broker)
  acknowledge-recorded = (
    record recorded_world {
      ledger = update_claim setting.root setting.new_id acknowledged recorded_world.ledger;
    },
    acknowledge_lem,
    load-update setting.root setting.source setting.new_id claim_record recorded_world.ledger
        setting.roots setting.root recorded acknowledged load-recorded,
    acknowledged-status,
    refl,
    refl,
  )

module _ {B : Type 0} (setting : Setting) (broker : Broker B) (w : World B) (id root m : String)
    (claim envelope : Dict) (queue : Value) where
  abbrev pub sent : Value × B
  sent = broker.publish setting.exchange queue envelope w.broker

  abbrev pub requeued : Dict
  requeued = requeued_claim setting.now sent.0 claim

  requeued-status : get requeued "status" ≡ some (text "requeued")
  requeued-status =
      get-put (put (put claim "status" (text "requeued")) "requeued_at" (text setting.now))
        "requeue_result" "status" (dict (dict_or_empty (as_dict sent.0)))
      ∙ (get-put (put claim "status" (text "requeued")) "requeued_at" "status" (text setting.now)
          ∙ get-put claim "status" "status" (text "requeued"))

  named-id :
      get envelope "message_id" ≡ some (text m)
      → m ≢ ""
      → named_text (get_or_null envelope "message_id") ≡ some m
  named-id named full = rw (named, named_text, get_or_null) (ground (arith, full, eq_iff m ""))

  finish-raises :
      named_text (get_or_null envelope "message_id") ≡ some m
      → finish_requeue setting root id claim envelope sent.0 (record w { broker = sent.1 })
        ≡ raised (record w { broker = sent.1; ledger = update_claim root id requeued w.ledger })
  unfolding finish_requeue then_status update_queue_message_status_by_external
  finish-raises h = rw (h, finish_requeue) refl

  -- A requeue of a claim that is found, with a queue and an envelope that has a message id, publishes the envelope, marks the
  -- claim as requeued and then raises: the status update names the column `updated_at` twice. The
  -- message table is as it was.
  pub requeue-raises :
      load_claim setting.roots id w.ledger ≡ some (root, claim)
      → get claim "original_envelope" ≡ some (dict envelope)
      → get claim "queue" ≡ some queue
      → get envelope "message_id" ≡ some (text m)
      → m ≢ ""
      → (left : World B) × (requeue_claim setting broker id w ≡ raised left)
        × (left.broker ≡ sent.1)
        × (load_claim setting.roots id left.ledger ≡ some (root, requeued))
        × (get requeued "status" ≡ some (text "requeued"))
        × (left.messages ≡ w.messages)
  unfolding requeue_claim
  requeue-raises found has queued named full = (
    record w { broker = sent.1; ledger = update_claim root id requeued w.ledger },
    rw (found, requeue_claim) (rw has (rw queued (finish-raises (named-id named full)))),
    refl,
    load-update root setting.source id claim w.ledger setting.roots root claim requeued found,
    requeued-status,
    refl,
  )
