-- ===== src/Queue/Admin/Claimed/Returned.antt =====
-- What acknowledging and requeueing do to a claim that the queue admin service made.
use paa_platform.Prelude.{
  String, ◌≡◌, ◌≢◌, refl, sym, ap, ◌∙◌, false, ◌==◌, none, some, List, [], ◌∷◌, ◌++◌, Bool-cases,
  inl, inr, eq_iff,
}
use paa_platform.Json.{Value, text, dict, Dict, get, put, update}
use paa_platform.Queue.Packet.{get_or_null}
use paa_platform.Queue.Envelope.{validate_envelope}
use paa_platform.Queue.Ledger.{load_claim, update_claim, stored_record}
use paa_platform.Queue.Ledger.Roots.{load-update}
use paa_platform.Queue.Host.{done_claim, envelope_or_empty}
use paa_platform.Queue.Host.Outside.{World, set_status, update_queue_message_status_by_external}
use paa_platform.Queue.Admin.{
  Environment, answered, raised, parsed_payload, named_id, requeued_claim, claimed_record,
  claimed_answer, then_status, claim_next, ack, finish_requeue, requeue, ack_answer, queue_of,
  id_in,
}
use paa_platform.Queue.Admin.Claimed.{status_after, then_status_lem, envelope_lem}
use paa_platform.Queue.Admin.Claimed

module _ {B : Type 0} (env : Environment B) (queue claimed_by : String) (w : World B)
    (m envelope : Dict) (ms : List Dict) (rest : B)
    (got : env.get_messages queue w.broker ≡ (m ∷ ms, rest))
    (parsed : parsed_payload env.loads (get_or_null m "payload") ≡ some (dict envelope))
    (before after : List String) (searched : env.roots ≡ before ++ env.root ∷ after)
    (new : load_claim before env.new_id w.ledger ≡ none) (id : String)
    (valid : validate_envelope env.roles false envelope ≡ some [])
    (named : get envelope "message_id" ≡ some (text id)) (full : id ≢ "") where
  -- The claim, its world and its place in the ledger.
  abbrev stored : Dict → Dict
  stored =
      Claimed.stored env queue claimed_by w m envelope ms rest got parsed before after searched new

  abbrev claimed_world : World B
  claimed_world =
      Claimed.claimed_world env queue claimed_by w m envelope ms rest got parsed before after
        searched new

  found :
      load_claim env.roots env.new_id claimed_world.ledger
      ≡ some (env.root, stored (claimed_record env queue claimed_by envelope))
  found =
      Claimed.load-stored env queue claimed_by w m envelope ms rest got parsed before after searched
        new (claimed_record env queue claimed_by envelope)

  abbrev claim : Dict
  claim = stored (claimed_record env queue claimed_by envelope)

  id_lem : named_id env.write (get_or_null envelope "message_id") ≡ some id
  id_lem =
      let not_empty : (id == "") ≡ false = elim (Bool-cases (id == "")) [
        | inl e ↦ absurd (full ((eq_iff id "").0 e))
        | inr e ↦ e
      ] in
      rw (named, named_id, get_or_null) (rw not_empty)

  abbrev pub done : Dict
  done = done_claim env.now claim

  abbrev pub done_world : World B
  done_world = record claimed_world {
    ledger = update_claim env.root env.new_id done claimed_world.ledger;
    messages =
        set_status id "acknowledged" "completed" "acknowledged_at" env.now claimed_world.messages;
  }

  done-envelope : envelope_or_empty done ≡ some envelope
  unfolding stored_record get put update
  done-envelope = envelope_lem envelope

  ack_lem :
      ack env env.new_id claimed_world ≡ answered (ack_answer env env.new_id done) 0 done_world
  unfolding ack
  ack_lem =
      let updated = record claimed_world {
        ledger = update_claim env.root env.new_id done claimed_world.ledger;
      } in
      let first : ack env env.new_id claimed_world
          ≡ then_status env (named_id env.write (id_in (envelope_or_empty done))) "acknowledged"
              "completed" "acknowledged_at" (ack_answer env env.new_id done) 0 updated =
        rw (found, ack) refl in
      first
      ∙ ap
          (λ o.
            then_status env o "acknowledged" "completed" "acknowledged_at"
              (ack_answer env env.new_id done) 0 updated)
          (ap (λ e. named_id env.write (id_in e)) done-envelope ∙ id_lem)
      ∙ then_status_lem env (some id) "acknowledged" "completed" "acknowledged_at"
          (ack_answer env env.new_id done) 0 updated refl

  done-status : get done "status" ≡ some (text "done")
  unfolding stored_record get put update
  done-status = refl

  -- A valid packet with a message id that was claimed can be acknowledged under its claim id: both
  -- calls answer with exit code 0, the claim then has the status `done`, and the row of the message
  -- was first set to `claimed` and then to `acknowledged`, where there is one.
  pub ack-claimed :
      (claim_result ack_result : Dict) × (claimed kept : World B) × (claim_next env queue claimed_by
          w
        ≡ answered claim_result 0 claimed)
      × (ack env env.new_id claimed ≡ answered ack_result 0 kept)
      × (load_claim env.roots env.new_id kept.ledger ≡ some (env.root, done))
      × (get done "status" ≡ some (text "done"))
      × (claimed.messages ≡ set_status id "claimed" "claimed" "claimed_at" env.now w.messages)
      × (kept.messages
          ≡ set_status id "acknowledged" "completed" "acknowledged_at" env.now claimed.messages)
      × (kept.broker ≡ rest)
  ack-claimed = (
    claimed_answer env queue claim envelope,
    ack_answer env env.new_id done,
    claimed_world,
    done_world,
    Claimed.claimed_lem env queue claimed_by w m envelope ms rest got parsed before after searched
        new valid,
    ack_lem,
    load-update env.root "explicit-root" env.new_id claim claimed_world.ledger env.roots env.root
        claim done found,
    done-status,
    ap (λ o. status_after o "claimed" "claimed" "claimed_at" env.now w.messages) id_lem,
    refl,
    refl,
  )

  abbrev pub sent : Value × B
  sent = env.publish env.exchange queue envelope rest

  abbrev pub requeued : Dict
  requeued = requeued_claim env.now sent.0 claim

  abbrev left : World B
  left = record claimed_world {
    broker = sent.1;
    ledger = update_claim env.root env.new_id requeued claimed_world.ledger;
  }

  finish_lem :
      finish_requeue env env.root env.new_id claim envelope sent.0
        (record claimed_world { broker = sent.1 })
      ≡ raised left
  unfolding finish_requeue then_status update_queue_message_status_by_external
  finish_lem = rw (id_lem, finish_requeue) refl

  claim-queue : queue_of env claim ≡ queue
  unfolding stored_record get put update
  claim-queue = elim (Bool-cases (queue == "")) [
    | inl e ↦ rw e (sym ((eq_iff queue "").0 e))
    | inr e ↦ rw e
  ]

  requeue_lem : requeue env env.new_id claimed_world ≡ raised left
  unfolding requeue stored_record get put update
  requeue_lem =
      let first : requeue env env.new_id claimed_world ≡ (
          let out = env.publish env.exchange (queue_of env claim) envelope rest in
          finish_requeue env env.root env.new_id claim envelope out.0
            (record claimed_world { broker = out.1 })) =
        rw (found, requeue) refl in
      first
      ∙ ap
          (λ q.
            let out = env.publish env.exchange q envelope rest in
            finish_requeue env env.root env.new_id claim envelope out.0
              (record claimed_world { broker = out.1 }))
          claim-queue
      ∙ finish_lem

  requeued-status : get requeued "status" ≡ some (text "requeued")
  unfolding stored_record get put update
  requeued-status = refl

  -- A requeue of such a claim publishes the envelope that was claimed on the queue that it was taken
  -- from, marks the claim as requeued, and then raises: the row of the message keeps the status
  -- `claimed`.
  pub requeue-claimed :
      (claim_result : Dict) × (claimed kept : World B) × (claim_next env queue claimed_by w
        ≡ answered claim_result 0 claimed)
      × (requeue env env.new_id claimed ≡ raised kept)
      × (kept.broker ≡ (env.publish env.exchange queue envelope rest).1)
      × (load_claim env.roots env.new_id kept.ledger ≡ some (env.root, requeued))
      × (get requeued "status" ≡ some (text "requeued"))
      × (kept.messages ≡ set_status id "claimed" "claimed" "claimed_at" env.now w.messages)
  requeue-claimed = (
    claimed_answer env queue claim envelope,
    claimed_world,
    left,
    Claimed.claimed_lem env queue claimed_by w m envelope ms rest got parsed before after searched
        new valid,
    requeue_lem,
    refl,
    load-update env.root "explicit-root" env.new_id claim claimed_world.ledger env.roots env.root
        claim requeued found,
    requeued-status,
    ap (λ o. status_after o "claimed" "claimed" "claimed_at" env.now w.messages) id_lem,
  )
