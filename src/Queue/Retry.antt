-- ===== src/Queue/Retry.antt =====
-- `_claim_with_retry` of the TechLead runtime loop (runtime/hosts/techlead.py): an empty queue is asked
-- again, up to three times, in claim mode. The pause between attempts is left out.
pub mod Attempts
use paa_platform.Prelude.{
  ℕ, zero, suc, pos, String, Bool, not, ◌||◌, ◌==◌, Option, none, some, leb, opt_eq, if◌then◌else◌,
}
use paa_platform.Json.{Dict, empty, entry, number, opt_text}
use paa_platform.Queue.Models.{QueueClaimRuntimeRequest, QueueClaimRuntimeResult, Adapters}
use paa_platform.Queue.Claim.{assemble_queue_intake}

-- The fields of the loop that a claim request is made of.
pub record Loop : Type 0 where
  pub queue_name : String
  pub actor_name : Option String
  pub host_name : Option String

unfoldable pub attempts_for : String → ℕ
attempts_for mode = if mode == "claim_next" then 3 else 1

unfoldable pub attempt_request : Loop → String → ℕ → QueueClaimRuntimeRequest
attempt_request loop mode attempt = record {
  queue_name = loop.queue_name;
  intake_mode = mode;
  packet_message_id = none;
  packet_schema_type = none;
  claimant_name = loop.actor_name;
  host_name = loop.host_name;
  metadata = some (
      entry "host_name" (opt_text loop.host_name) (
        entry "claim_attempt" (number (pos attempt))
          (entry "max_claim_attempts" (number (pos (attempts_for mode))) empty)));
}

-- The tests on which an attempt is the last one.
abbrev pub is_final : String → ℕ → QueueClaimRuntimeResult → Bool
is_final mode attempt result =
    result.ok
    || (not (opt_eq result.reason (some "missing_queue_packet")) || leb (attempts_for mode) attempt)

module _ {S : Type 0} (adapters : Adapters S) (loop : Loop) (mode : String) where
  -- The loop from an attempt on, with the number of attempts that `range` still gives; `none` is the
  -- `None` that is left when it gives none.
  unfoldable pub attempts_from : ℕ → ℕ → S → Option (QueueClaimRuntimeResult × S)
  attempts_from zero attempt s = none
  attempts_from (suc n) attempt s =
      let got = assemble_queue_intake adapters (attempt_request loop mode attempt) s in
      let later = attempts_from n (suc attempt) got.1 in
      if is_final mode attempt got.0 then some got else later

  unfoldable pub claim_with_retry : S → Option (QueueClaimRuntimeResult × S)
  claim_with_retry s = attempts_from (attempts_for mode) 1 s
