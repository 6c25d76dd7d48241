-- ===== src/Queue/Ledger/Listing.antt =====
-- The listing of claims (`all_existing_claim_dirs` and `list_claims` of runtime/transport/claim_ledger.py).
-- Every file of the ledger is one that `save_json` wrote, so that `load_json` reads it.
use paa_platform.Prelude.{
  String, Bool, true, false, not, ◌&&◌, ◌==◌, Option, none, some, List, [], ◌∷◌, ◌++◌, member,
  select, sort_by, named, if◌then◌else◌,
}
use paa_platform.Json.{Value, null, flag, number, text, tuple, dict, Dict, get, set_default}
use paa_platform.Queue.Ledger.{Ledger, ClaimFile}
use paa_platform.Queue.Ledger.States.{Process, claims_dir, unique_state_root_candidates}

-- `value == text` for what `claim.get` gives.
abbrev pub holds : Option Value → String → Bool
holds none w = false
holds (some null) w = false
holds (some (flag b)) w = false
holds (some (number n)) w = false
holds (some (text s)) w = s == w
holds (some (tuple vs)) w = false
holds (some (dict d)) w = false

-- A filter that is `None` or empty lets every claim through.
abbrev pub fits : String → Option String → Dict → Bool
fits key wanted claim = elim (named wanted) [ none ↦ true | some w ↦ holds (get claim key) w ]

module _ (p : Process) where
  -- The loop of `all_existing_claim_dirs`, with the directories seen.
  unfoldable pub existing_from : List String → List (String × String) → List String
  existing_from seen [] = []
  existing_from seen (c ∷ cs) =
      let cdir = claims_dir p c.0 in
      elim (p.exists cdir && not (member cdir seen)) [
        | true ↦ cdir ∷ existing_from (cdir ∷ seen) cs
        | false ↦ existing_from seen cs
      ]

  unfoldable pub all_existing_claim_dirs : List String
  unfolding existing_from
  all_existing_claim_dirs = existing_from [] (unique_state_root_candidates p)

  -- `sorted(cdir.glob("*.json"))`
  abbrev pub files_of : String → Ledger → Ledger
  files_of cdir ledger =
      sort_by (λ f g. p.name_le f.claim_id g.claim_id)
        (select (λ f. claims_dir p f.root == cdir) ledger)

  module _ (queue status : Option String) where
    abbrev pub wanted : ClaimFile → Bool
    wanted f = fits "queue" queue f.claim && fits "status" status f.claim

    -- The inner loop of `list_claims`, in one directory.
    unfoldable pub list_files : String → Ledger → List Dict
    list_files cdir [] = []
    list_files cdir (f ∷ fs) =
        let rest = list_files cdir fs in
        if wanted f then set_default f.claim "state_dir" (text (p.parent cdir)) ∷ rest else rest

    unfoldable pub list_dirs : List String → Ledger → List Dict
    unfolding list_files
    list_dirs [] ledger = []
    list_dirs (cdir ∷ cdirs) ledger =
        list_files cdir (files_of cdir ledger) ++ list_dirs cdirs ledger

    unfoldable pub list_claims : Ledger → List Dict
    unfolding list_dirs
    list_claims ledger = list_dirs all_existing_claim_dirs ledger
