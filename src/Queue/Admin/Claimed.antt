-- ===== src/Queue/Admin/Claimed.antt =====
-- What becomes of a packet that the queue admin service takes off a queue.
pub mod Returned
use mathlib.Core.Path.{subst}
use paa_platform.Prelude.{
  ℕ, String, ◌≡◌, ◌≢◌, refl, sym, ap, ◌∙◌, false, ◌==◌, Option, none, some, List, [], ◌∷◌, ◌++◌,
  is_empty, if◌then◌else◌, Bool-cases, inl, inr, eq_iff,
}
use paa_platform.Json.{Value, text, dict, Dict, get, put, update, Message, truth, empty, entry}
use paa_platform.Queue.Packet.{get_or_null, as_dict}
use paa_platform.Queue.Envelope.{validate_envelope}
use paa_platform.Queue.Ledger
use paa_platform.Queue.Ledger.{load_claim, update_claim, stored_record}
use paa_platform.Queue.Ledger.Roots.{load-record, load-update}
use paa_platform.Queue.Host.{done_claim, envelope_or_empty}
use paa_platform.Queue.Host.Outside.{
  World, MessageStatus, set_status, update_queue_message_status_by_external,
}
use paa_platform.Queue.Admin.{
  Environment, answered, raised, parsed_payload, named_id, requeued_claim, claimed_record,
  invalid_record, claimed_answer, then_status, claim_invalid, claim_valid, claim_parsed,
  claim_first, claim_next, ack, finish_requeue, requeue, invalid_answer, ack_answer, queue_of,
  id_in,
}

-- The message rows after a status update, where there is an id to go by.
abbrev pub status_after :
    Option String → String → String → String → String → List MessageStatus → List MessageStatus
status_after none queue_status handoff_status field now ms = ms
status_after (some id) queue_status handoff_status field now ms =
    set_status id queue_status handoff_status field now ms

pub then_status_lem :
    {B : Type 0} (env : Environment B) (o : Option String) (q h field : String) (result : Dict)
    (code : ℕ) (w : World B)
    → (field == "updated_at") ≡ false
    → then_status env o q h field result code w
      ≡ answered result code (record w { messages = status_after o q h field env.now w.messages })
unfolding then_status update_queue_message_status_by_external
then_status_lem env none q h field result code w e = refl
then_status_lem env (some id) q h field result code w e = rw (e, then_status)

-- The envelope of a claim is found, an empty one too.
pub envelope_lem : (d : Dict) → (if truth (dict d) then as_dict (dict d) else some empty) ≡ some d
envelope_lem empty = refl
envelope_lem (entry k v d) = refl

module _ {B : Type 0} (env : Environment B) (queue claimed_by : String) (w : World B)
    (m envelope : Dict) (ms : List Dict) (rest : B)
    (got : env.get_messages queue w.broker ≡ (m ∷ ms, rest))
    (parsed : parsed_payload env.loads (get_or_null m "payload") ≡ some (dict envelope))
    (before after : List String) (searched : env.roots ≡ before ++ env.root ∷ after)
    (new : load_claim before env.new_id w.ledger ≡ none) where
  abbrev taken : World B
  taken = record w { broker = rest }

  -- The claim as the ledger has it.
  abbrev pub stored : Dict → Dict
  stored r = stored_record env.root "explicit-root" env.new_id r

  abbrev ledger_with : Dict → Ledger.Ledger
  ledger_with r = (Ledger.record_claim env.root "explicit-root" env.new_id r w.ledger).1

  pub load-stored :
      (r : Dict) → load_claim env.roots env.new_id (ledger_with r) ≡ some (env.root, stored r)
  unfolding Ledger.record_claim
  load-stored r =
      subst (λ roots. load_claim roots env.new_id (ledger_with r) ≡ some (env.root, stored r))
        (sym searched)
        ((load-record env.root "explicit-root" env.new_id r w.ledger).0 before after new)

  taken_lem :
      claim_next env queue claimed_by w ≡ claim_parsed env queue claimed_by (dict envelope) taken
  unfolding claim_next
  taken_lem = rw (got, claim_next) (rw (parsed, claim_first))

  -- What is kept of a packet whose validation gives `errors`.
  abbrev pub record_for : List Message → Dict
  record_for errors =
      if is_empty errors
      then claimed_record env queue claimed_by envelope
      else invalid_record env queue claimed_by errors envelope

  abbrev pub status_for : List Message → String
  status_for errors = if is_empty errors then "claimed" else "invalid"

  fields_kept :
      (errors : List Message)
      → (get (stored (record_for errors)) "original_envelope" ≡ some (dict envelope))
        × (get (stored (record_for errors)) "status" ≡ some (text (status_for errors)))
        × (get (stored (record_for errors)) "queue" ≡ some (text queue))
  unfolding stored_record get put update
  fields_kept [] = (refl, refl, refl)
  fields_kept (e ∷ errors) = (refl, refl, refl)

  abbrev pub claimed_world : World B
  claimed_world = record w {
    broker = rest;
    ledger = ledger_with (claimed_record env queue claimed_by envelope);
    messages =
        status_after (named_id env.write (get_or_null envelope "message_id")) "claimed" "claimed"
          "claimed_at" env.now w.messages;
  }

  pub claimed_lem :
      validate_envelope env.roles false envelope ≡ some []
      → claim_next env queue claimed_by w
        ≡ answered
            (claimed_answer env queue
              (stored (claimed_record env queue claimed_by envelope))
              envelope)
            0
            claimed_world
  unfolding claim_parsed claim_valid Ledger.record_claim
  claimed_lem valid =
      taken_lem
      ∙ rw (valid, claim_parsed)
          (then_status_lem env (named_id env.write (get_or_null envelope "message_id")) "claimed"
            "claimed" "claimed_at"
            (claimed_answer env queue (stored (claimed_record env queue claimed_by envelope))
              envelope)
            0 (record taken { ledger = ledger_with (claimed_record env queue claimed_by envelope) })
            refl)

  invalid_lem :
      (errors : List Message)
      → validate_envelope env.roles false envelope ≡ some errors
      → is_empty errors ≡ false
      → claim_next env queue claimed_by w
        ≡ answered
            (invalid_answer env errors
              (stored (invalid_record env queue claimed_by errors envelope)))
            1
            (record taken {
              ledger = ledger_with (invalid_record env queue claimed_by errors envelope);
            })
  unfolding claim_parsed claim_invalid Ledger.record_claim
  invalid_lem errors validated some_error =
      taken_lem ∙ rw (validated, claim_parsed) (rw some_error refl)

  -- A packet that is taken off the queue, decodes to an object and goes through the validation is kept
  -- in the ledger: the call answers, and the claim is found under its id with the whole envelope, the
  -- queue and the status `claimed` or, where the validation has errors, `invalid`, which the exit code
  -- tells. The root of the repository is among those that are searched, and no root before it has a file
  -- of the new id.
  pub claim_next-kept :
      (errors : List Message)
      → validate_envelope env.roles false envelope ≡ some errors
      → (result : Dict) × (kept : World B) × (claim_next env queue claimed_by w
          ≡ answered result (if is_empty errors then 0 else 1) kept)
        × (load_claim env.roots env.new_id kept.ledger
            ≡ some (env.root, stored (record_for errors)))
        × (get (stored (record_for errors)) "original_envelope" ≡ some (dict envelope))
        × (get (stored (record_for errors)) "status" ≡ some (text (status_for errors)))
        × (get (stored (record_for errors)) "queue" ≡ some (text queue))
        × (kept.broker ≡ rest)
  claim_next-kept [] validated =
      let (a, b, c) = fields_kept [] in
      (
        claimed_answer env queue (stored (claimed_record env queue claimed_by envelope)) envelope,
        claimed_world,
        claimed_lem validated,
        load-stored (claimed_record env queue claimed_by envelope),
        a,
        b,
        c,
        refl,
      )
  claim_next-kept (e ∷ errors) validated =
      let (a, b, c) = fields_kept (e ∷ errors) in
      let r = invalid_record env queue claimed_by (e ∷ errors) envelope in
      (
        invalid_answer env (e ∷ errors) (stored r),
        record taken { ledger = ledger_with r },
        invalid_lem (e ∷ errors) validated refl,
        load-stored r,
        a,
        b,
        c,
        refl,
      )
