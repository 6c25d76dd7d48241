-- ===== src/Queue/Admin/Tests.antt =====
-- The queue admin service at a broker that counts what is published.
use paa_platform.Queue.Packet.{get_or_null}
use paa_platform.Prelude.{
  ℕ, ◌+◌, String, ◌≡◌, refl, none, some, [], ◌∷◌, true, false, ◌≢◌, find, ◌==◌, eq_iff, sym, ◌∙◌,
}
use paa_platform.Json.{flag, text, dict, Dict, empty, entry, get, Value}
use paa_platform.Queue.Tests.{qa_packet, qa_packet_ok}
use paa_platform.Queue.Ledger.{load_claim, stored_record}
use paa_platform.Queue.Host.{done_claim}
use paa_platform.Queue.Host.Outside.{World, set_status}
use paa_platform.Queue.Admin.{
  Environment, answered, raised, claim_next, ack, requeue, parsed_payload, requeued_claim,
  claimed_record,
}
use paa_platform.Queue.Admin.Claimed.{claim_next-kept}
use paa_platform.Queue.Admin.Claimed.Returned.{ack-claimed, requeue-claimed}

abbrev message : Dict
message = entry "payload" (text "the packet") empty

abbrev env : Environment ℕ
env = record {
  get_messages = λ queue n. (message ∷ [], n);
  publish = λ exchange queue d n. (dict (entry "routed" (flag true) empty), n + 1);
  loads = λ s. some (dict qa_packet);
  write = λ v. "";
  write_error = λ m. "";
  roles = [];
  root = "repo";
  roots = "home" ∷ "repo" ∷ [];
  exchange = "paa";
  new_id = "c1";
  now = "t1";
}

abbrev world : World ℕ
world = record {
  broker = 0;
  ledger = [];
  messages =
      record {
        message_id_external = "m1";
        queue_status = "published";
        handoff_status = "published";
        claimed_at = none;
        acknowledged_at = none;
      }
      ∷ [];
}

not_in_home : load_claim ("home" ∷ []) "c1" [] ≡ none
unfolding load_claim find
not_in_home = refl

message_named : get qa_packet "message_id" ≡ some (text "m1")
unfolding get
message_named = refl

has_payload : parsed_payload env.loads (get_or_null message "payload") ≡ some (dict qa_packet)
unfolding get
has_payload = refl

m1_named : (id : String) → id ≡ "m1" → id ≢ ""
m1_named id e h =
    let same : (id == "") ≡ true = (eq_iff id "").1 h in
    let other : (id == "") ≡ false = rw e in let no : true ≡ false = sym same ∙ other in cc

abbrev claim : Dict
claim = stored_record "repo" "explicit-root" "c1" (claimed_record env "queue" "paa" qa_packet)

claim_next-kept_example :
    (result : Dict) × (kept : World ℕ) × (claim_next env "queue" "paa" world
      ≡ answered result 0 kept)
    × (load_claim env.roots "c1" kept.ledger ≡ some ("repo", claim))
    × (get claim "original_envelope" ≡ some (dict qa_packet))
    × (get claim "status" ≡ some (text "claimed"))
    × (get claim "queue" ≡ some (text "queue"))
    × (kept.broker ≡ 0)
claim_next-kept_example =
    claim_next-kept env "queue" "paa" world message qa_packet [] 0 refl has_payload ("home" ∷ []) []
      refl not_in_home [] qa_packet_ok

ack-claimed_example :
    (claim_result ack_result : Dict) × (claimed kept : World ℕ) × (claim_next env "queue" "paa"
        world
      ≡ answered claim_result 0 claimed)
    × (ack env "c1" claimed ≡ answered ack_result 0 kept)
    × (load_claim env.roots "c1" kept.ledger ≡ some ("repo", done_claim "t1" claim))
    × (get (done_claim "t1" claim) "status" ≡ some (text "done"))
    × (claimed.messages ≡ set_status "m1" "claimed" "claimed" "claimed_at" "t1" world.messages)
    × (kept.messages
        ≡ set_status "m1" "acknowledged" "completed" "acknowledged_at" "t1" claimed.messages)
    × (kept.broker ≡ 0)
ack-claimed_example =
    ack-claimed env "queue" "paa" world message qa_packet [] 0 refl has_payload ("home" ∷ []) []
      refl not_in_home "m1" qa_packet_ok message_named (m1_named "m1" refl)

abbrev routed_result : Value
routed_result = dict (entry "routed" (flag true) empty)

requeue-claimed_example :
    (claim_result : Dict) × (claimed kept : World ℕ) × (claim_next env "queue" "paa" world
      ≡ answered claim_result 0 claimed)
    × (requeue env "c1" claimed ≡ raised kept)
    × (kept.broker ≡ 1)
    × (load_claim env.roots "c1" kept.ledger
        ≡ some ("repo", requeued_claim "t1" routed_result claim))
    × (get (requeued_claim "t1" routed_result claim) "status" ≡ some (text "requeued"))
    × (kept.messages ≡ set_status "m1" "claimed" "claimed" "claimed_at" "t1" world.messages)
requeue-claimed_example =
    requeue-claimed env "queue" "paa" world message qa_packet [] 0 refl has_payload ("home" ∷ []) []
      refl not_in_home "m1" qa_packet_ok message_named (m1_named "m1" refl)
