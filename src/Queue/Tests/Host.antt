-- ===== src/Queue/Tests/Host.antt =====
-- The host's adapters over a broker that routes nothing.
use paa_platform.Prelude.{ℕ, suc, ◌≡◌, refl, true, false, none, some, [], ◌∷◌, differ, find}
use paa_platform.Json.{null, flag, text, dict, Dict, empty, entry, get}
use paa_platform.Queue.Ledger.{load_claim}
use paa_platform.Queue.Host.{acknowledge_claim, requeue_claim, missing_envelope}
use paa_platform.Queue.Host.Outside.{Broker, World, Setting, returned, raised}
use paa_platform.Queue.Host.Claims.{
  recorded_world, acknowledged, requeue-recorded, acknowledge-recorded, sent, requeued,
  requeue-raises,
}

-- A broker that counts publications, and routes none.
abbrev broker : Broker ℕ
broker = record {
  get_messages = λ queue requeue n. ([], n);
  publish = λ exchange queue envelope n. (dict (entry "routed" (flag false) empty), suc n);
  loads = λ s. null;
}

abbrev setting : Setting
setting = record {
  root = "root";
  source = "explicit-root";
  roots = "home" ∷ "root" ∷ [];
  exchange = "x";
  new_id = "c2";
  now = "t1";
}

abbrev claimed_record : Dict
claimed_record =
    entry "queue_name" (text "q")
      (entry "claimant_name" (text "techlead") (entry "packet_message_id" (text "m1") empty))

abbrev world : World ℕ
world = record { broker = 0; ledger = []; messages = [] }

not_home : load_claim ("home" ∷ []) "c2" [] ≡ none
unfolding load_claim find
not_home = refl

requeue-recorded_example :
    requeue_claim setting broker "c2"
      (recorded_world setting claimed_record world ("home" ∷ []) [] refl not_home)
    ≡ returned
        (missing_envelope "c2")
        (recorded_world setting claimed_record world ("home" ∷ []) [] refl not_home)
requeue-recorded_example =
    requeue-recorded setting claimed_record world ("home" ∷ []) [] refl not_home broker

acknowledge-recorded_example :
    let w = recorded_world setting claimed_record world ("home" ∷ []) [] refl not_home in
    let a = acknowledged setting claimed_record world ("home" ∷ []) [] refl not_home in
    (done : World ℕ) × (acknowledge_claim setting "c2" w
      ≡ returned
          (entry "ok"
            (flag true)
            (entry "claim_id" (text "c2") (entry "status" (text "done") empty)))
          done)
    × (load_claim setting.roots "c2" done.ledger ≡ some ("root", a))
    × (get a "status" ≡ some (text "done"))
    × (done.messages ≡ w.messages)
    × (done.broker ≡ w.broker)
acknowledge-recorded_example =
    acknowledge-recorded setting claimed_record world ("home" ∷ []) [] refl not_home

abbrev envelope : Dict
envelope = entry "message_id" (text "m1") empty

abbrev admin_claim : Dict
admin_claim = entry "queue" (text "q") (entry "original_envelope" (dict envelope) empty)

abbrev claimed_world : World ℕ
claimed_world = record {
  broker = 0;
  ledger = record { root = "root"; claim_id = "c3"; claim = admin_claim } ∷ [];
  messages = [];
}

claimed : load_claim setting.roots "c3" claimed_world.ledger ≡ some ("root", admin_claim)
unfolding load_claim find
claimed = refl

has_envelope : get admin_claim "original_envelope" ≡ some (dict envelope)
unfolding get
has_envelope = refl

has_queue : get admin_claim "queue" ≡ some (text "q")
unfolding get
has_queue = refl

has_id : get envelope "message_id" ≡ some (text "m1")
unfolding get
has_id = refl

requeue-raises_example :
    let s = sent setting broker claimed_world "c3" "root" "m1" admin_claim envelope (text "q") in
    let r =
      requeued setting broker claimed_world "c3" "root" "m1" admin_claim envelope (text "q") in
    (left : World ℕ) × (requeue_claim setting broker "c3" claimed_world ≡ raised left)
    × (left.broker ≡ s.1)
    × (load_claim setting.roots "c3" left.ledger ≡ some ("root", r))
    × (get r "status" ≡ some (text "requeued"))
    × (left.messages ≡ claimed_world.messages)
requeue-raises_example =
    requeue-raises setting broker claimed_world "c3" "root" "m1" admin_claim envelope (text "q")
      claimed has_envelope has_queue has_id (differ "m1" "" refl)
