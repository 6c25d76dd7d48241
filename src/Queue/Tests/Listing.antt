-- ===== src/Queue/Tests/Listing.antt =====
-- The claim ledger of a process in a checkout whose own state directory cannot be written.
use mathlib.Core.List.{Perm}
use paa_platform.Prelude.{
  String, ◌≡◌, true, not, ◌==◌, none, some, [], ◌∷◌, map, member, select, refl, find, if◌then◌else◌,
  Bool, ◌↔◌,
}
use paa_platform.Json.{text, empty, entry}
use paa_platform.Queue.Ledger.{Ledger, load_claim, record_claim, ClaimFile}
use paa_platform.Queue.Ledger.States.{Process, resolve_active_state_root}
use paa_platform.Queue.Ledger.Listing.{list_claims}
use paa_platform.Queue.Ledger.Listed.{shown, list_claims-Perm, Asked}
use paa_platform.Queue.Ledger.Found.{Chosen, resolve-Chosen, load-record_new}

abbrev concat : String → String → String
concat String.[] t = t
concat (String.◌∷◌ c s) t = String.◌∷◌ c (concat s t)

abbrev machine : Process
machine = record {
  configured = none;
  toplevel = some "/repo\n";
  home = "/home/u";
  cwd = "/repo";
  path = λ s. s;
  slash = λ a b. concat a (concat "/" b);
  parent = λ d. concat d "/..";
  expanduser = λ d. d;
  exists = λ d. not (d == "/gone/claims");
  makes_dir = λ d. not (d == "/repo/.project/data/paa/queue-state/fractal-core-handoff");
  writes_probe = λ d. true;
  unlinks_probe = λ d. true;
  name_le = λ a b. a == "c1";
}

abbrev home_root : String
home_root = "/home/u/.codex/state/fractal-core-handoff"

abbrev ledger : Ledger
ledger =
    record {
      root = home_root;
      claim_id = "c2";
      claim = entry "queue" (text "q") (entry "status" (text "done") empty);
    }
    ∷ record { root = home_root; claim_id = "c1"; claim = entry "queue" (text "q") empty }
    ∷ record { root = "/elsewhere"; claim_id = "c3"; claim = entry "queue" (text "q") empty }
    ∷ []

resolve-Chosen_example : Chosen machine (resolve_active_state_root machine)
resolve-Chosen_example = resolve-Chosen machine

not_there : load_claim ("/a" ∷ home_root ∷ []) "c3" ledger ≡ none
unfolding load_claim find
not_there = refl

load-record_new_example :
    let recorded = record_claim home_root "home" "c3" empty ledger in
    load_claim ("/a" ∷ home_root ∷ []) "c3" recorded.1
    ≡ (if member home_root ("/a" ∷ home_root ∷ []) then some (home_root, recorded.0) else none)
load-record_new_example =
    load-record_new ("/a" ∷ home_root ∷ []) home_root "home" "c3" empty ledger not_there

list_claims-Perm_example :
    (keep : ClaimFile → Bool) × ((f : ClaimFile)
      → (keep f ≡ true) ↔ Asked machine (some "q") (some "done") f)
    × Perm
        (list_claims machine (some "q") (some "done") ledger)
        (map (shown machine) (select keep ledger))
list_claims-Perm_example = list_claims-Perm machine (some "q") (some "done") ledger
