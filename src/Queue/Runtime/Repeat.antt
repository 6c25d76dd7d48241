-- ===== src/Queue/Runtime/Repeat.antt =====
-- `run_loop` of the TechLead runtime loop (runtime/hosts/techlead.py) with a positive number of
-- iterations; with none it does not end. The pauses are left out.
pub mod Counted
use paa_platform.Prelude.{
  ℕ, zero, suc, String, Bool, true, ◌&&◌, ◌==◌, Option, none, some, List, [], ◌∷◌, length, is_some,
  opt_eq, if◌then◌else◌, named,
}
use paa_platform.Json.{plain}
use paa_platform.Queue.Runtime.{Runtime, TechLeadRuntimeLoopResult, Call, gave, failed, or_else}
use paa_platform.Queue.Runtime.Run.{run_once}

-- What `run_loop` returns. An entry of its iterations has the fields of the result of the run.
pub record LoopReport : Type 0 where
  pub host_name : Option String
  pub actor_name : Option String
  pub queue_name : String
  pub intake_mode : String
  pub iterations : List TechLeadRuntimeLoopResult
  pub iteration_count : ℕ

-- A preview that shows the packet of the last one again.
abbrev pub is_repeated : String → Option String → TechLeadRuntimeLoopResult → Bool
is_repeated mode last_id result =
    mode == "preview"
    && (is_some (named result.packet_message_id) && opt_eq result.packet_message_id last_id)

unfoldable pub result_payload :
    String → Option String → TechLeadRuntimeLoopResult → TechLeadRuntimeLoopResult
result_payload mode last_id result =
    if is_repeated mode last_id result
    then record result {
      skipped = true;
      reason = some "duplicate_preview_head";
      details =
          some (plain "Preview loop saw the same head packet again and did not redispatch it.");
    }
    else result

-- `last_preview_message_id` after an iteration.
unfoldable pub next_preview_id : String → Option String → TechLeadRuntimeLoopResult → Option String
next_preview_id mode last_id result =
    if is_repeated mode last_id result
    then last_id
    else or_else (named result.packet_message_id) last_id

module _ {S : Type 0} (rt : Runtime S) (mode : String) (emit : Bool) where
  -- The iterations that are left, from the last preview id on.
  unfoldable pub iterate : ℕ → Option String → S → Call (List TechLeadRuntimeLoopResult) S
  iterate zero last_id s = gave [] s
  iterate (suc n) last_id s = elim (run_once rt mode emit s) [
    | failed t ↦ failed t
    | gave result t ↦ elim (iterate n (next_preview_id mode last_id result) t) [
      | failed u ↦ failed u
      | gave later u ↦ gave (result_payload mode last_id result ∷ later) u
    ]
  ]

  unfoldable pub run_loop : ℕ → S → Call LoopReport S
  run_loop max_iterations s = elim (iterate max_iterations none s) [
    | failed t ↦ failed t
    | gave iterations t ↦
        gave
          (record {
            host_name = rt.loop.host_name;
            actor_name = rt.loop.actor_name;
            queue_name = rt.loop.queue_name;
            intake_mode = mode;
            iterations = iterations;
            iteration_count = length iterations;
          })
          t
  ]
