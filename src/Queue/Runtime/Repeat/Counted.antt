-- ===== src/Queue/Runtime/Repeat/Counted.antt =====
-- How often the loop runs, and which iterations it marks as repeated.
use paa_platform.Json.{plain}
use paa_platform.Prelude.{
  ℕ, String, ◌≡◌, Bool, true, Option, some, List, [], ◌∷◌, length, ◌⊎◌, named, ◌≢◌, ◌<◌,
}
use paa_platform.Queue.Runtime.{Runtime, TechLeadRuntimeLoopResult, gave, failed, or_else}
use paa_platform.Queue.Runtime.Run.{run_once}
use paa_platform.Queue.Runtime.Repeat.{iterate, plain}

-- A preview that shows the packet that was shown last.
pub record Repeats (mode : String) (last_id : Option String) (r : TechLeadRuntimeLoopResult)
    : Type 0 where
  pub preview : mode ≡ "preview"
  pub id : String
  pub is_named : id ≢ ""
  pub shows : r.packet_message_id ≡ some id
  pub last : last_id ≡ some id

-- What is reported of the results of the runs: a repeated preview as a skipped duplicate, any other
-- result as it is, and then its packet, if it names one, is the one shown last.
abbrev pub Reported :
    String
    → Option String
    → List TechLeadRuntimeLoopResult
    → List TechLeadRuntimeLoopResult
    → Type 0
Reported mode last_id [] [] = Unit
Reported mode last_id [] (x ∷ xs) = ⊥
Reported mode last_id (r ∷ rs) [] = ⊥
Reported mode last_id (r ∷ rs) (x ∷ xs) =
    (Repeats mode last_id r
      × (x ≡ record r {
        skipped = true;
        reason = some "duplicate_preview_head";
        details =
            some (plain "Preview loop saw the same head packet again and did not redispatch it.");
      })
      × Reported mode last_id rs xs)
    ⊎ ((Repeats mode last_id r → ⊥)
        × (x ≡ r)
        × Reported mode (or_else (named r.packet_message_id) last_id) rs xs)

module _ {S : Type 0} (rt : Runtime S) (mode : String) (emit : Bool) where
  -- `Runs s rs t`: runs one after the other lead from `s` to `t` and give the results `rs`.
  pub data Runs : S → List TechLeadRuntimeLoopResult → S → Type 0 where
    done : (s : S) → Runs s [] s
    run :
        {s t u : S} {r : TechLeadRuntimeLoopResult} {rs : List TechLeadRuntimeLoopResult}
        → run_once rt mode emit s ≡ gave r t
        → Runs t rs u
        → Runs s (r ∷ rs) u

  -- A run fails before the iterations are over.
  pub record Broken (n : ℕ) (s t : S) : Type 0 where
    pub results : List TechLeadRuntimeLoopResult
    pub reached : S
    pub runs : Runs s results reached
    pub early : length results < n
    pub fails : run_once rt mode emit reached ≡ failed t

  pub record Finished (n : ℕ) (last_id : Option String) (s t : S)
      (reported : List TechLeadRuntimeLoopResult) : Type 0 where
    pub results : List TechLeadRuntimeLoopResult
    pub runs : Runs s results t
    pub count : length results ≡ n
    pub shown_count : length reported ≡ n
    pub shown : Reported mode last_id results reported

  -- What the iterations come to: all of them, or a run that fails.
  Iterated : ℕ → Option String → S → Type 0
  Iterated n last_id s =
      ((t : S) × (iterate rt mode emit n last_id s ≡ failed t) × Broken n s t)
      ⊎ ((xs : List TechLeadRuntimeLoopResult) × (t : S) × (iterate rt mode emit n last_id s
            ≡ gave xs t)
          × Finished n last_id s t xs)
