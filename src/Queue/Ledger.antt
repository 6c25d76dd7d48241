-- ===== src/Queue/Ledger.antt =====
-- The file-backed claim ledger (runtime/transport/claim_ledger.py): one JSON file for each claim, in
-- the `claims` directory below a state root.
pub mod Found
pub mod Listed
pub mod Listing
pub mod Roots
pub mod States
use paa_platform.Prelude.{
  String, Bool, ◌&&◌, ◌==◌, Option, none, some, List, [], ◌∷◌, find, if◌then◌else◌,
}
use paa_platform.Json.{Dict, empty, entry, text, update}

pub record ClaimFile : Type 0 where
  pub root : String
  pub claim_id : String
  pub claim : Dict

abbrev pub Ledger : Type 0
Ledger = List ClaimFile

abbrev pub at_path : String → String → ClaimFile → Bool
at_path root id f = f.root == root && f.claim_id == id

-- `save_json`: the file is written anew.
unfoldable pub save_json : String → String → Dict → Ledger → Ledger
save_json root id claim [] = record { root = root; claim_id = id; claim = claim } ∷ []
save_json root id claim (f ∷ fs) =
    let rest = save_json root id claim fs in
    if at_path root id f
    then record { root = root; claim_id = id; claim = claim } ∷ fs
    else f ∷ rest

-- The record that is stored: the entries of the caller may replace the fresh id, the state directory
-- comes last.
unfoldable pub stored_record : String → String → String → Dict → Dict
stored_record root source id claim_record =
    update (update (entry "claim_id" (text id) empty) claim_record)
      (entry "state_dir" (text root) (entry "state_dir_source" (text source) empty))

-- `record_claim` of a repository at `root`; `id` is the fresh key.
unfoldable pub record_claim : String → String → String → Dict → Ledger → Dict × Ledger
record_claim root source id claim_record ledger =
    let stored = stored_record root source id claim_record in
    (stored, save_json root id stored ledger)

-- `load_claim`: the state roots of the process are searched in their order, whatever root the
-- repository has. `none` is the `RuntimeError`.
unfoldable pub load_claim : List String → String → Ledger → Option (String × Dict)
load_claim [] id ledger = none
load_claim (root ∷ roots) id ledger =
    let rest = load_claim roots id ledger in
    elim (find (at_path root id) ledger) [ none ↦ rest | some f ↦ some (root, f.claim) ]

-- `update_claim`, at the path that `load_claim` gave.
unfoldable pub update_claim : String → String → Dict → Ledger → Ledger
update_claim root id claim ledger = save_json root id claim ledger
