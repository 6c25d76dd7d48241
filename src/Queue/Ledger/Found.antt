-- ===== src/Queue/Ledger/Found.antt =====
-- Claims recorded at the state root that `resolve_active_state_root` chooses.
use paa_platform.Prelude.{
  String, ◌≡◌, refl, sym, ap, ◌∙◌, Bool, true, false, ◌⊎◌, named, none, some, List, [], ◌∷◌, map,
  member, Bool-cases, Option-cases, inl, inr, arith, eq_iff, refl, All, if◌then◌else◌,
}
use paa_platform.Json.{Dict}
use paa_platform.Queue.Ledger.{Ledger, stored_record, record_claim, load_claim}
use paa_platform.Queue.Ledger.Roots.{load-save_new, load-save_elsewhere}
use paa_platform.Queue.Ledger.States.{
  Process, StateRoot, CandidateInfo, active, configured_not_writable, none_writable,
  path_is_writable_dir, resolve_from, resolve_active_state_root, unique_state_root_candidates,
  searched_roots,
}

root_of : StateRoot → String
root_of (active root source infos) = root
root_of (configured_not_writable cs) = ""
root_of (none_writable infos) = ""

is_active : StateRoot → Bool
is_active (active root source infos) = true
is_active (configured_not_writable cs) = false
is_active (none_writable infos) = false

module _ (p : Process) where
  -- The first of the candidates whose probe goes through.
  abbrev pub IsChosen : String → List (String × String) → Type 0
  IsChosen root [] = ⊥
  IsChosen root (c ∷ cs) =
      (c.0 ≡ root × path_is_writable_dir p root ≡ true)
      ⊎ (path_is_writable_dir p c.0 ≡ false × IsChosen root cs)

  resolve_from-IsChosen :
      (root source : String) (infos info : List CandidateInfo) (cs : List (String × String))
      → resolve_from p info cs ≡ active root source infos
      → IsChosen root cs
  unfolding resolve_from is_active root_of
  resolve_from-IsChosen root source infos info [] h = elim (Option-cases (named p.configured)) [
    | inl n ↦ let no : false ≡ true = ap is_active (rw (n, resolve_from) at h) in ground arith
    | inr f ↦ let no : false ≡ true = ap is_active (rw (f.1, resolve_from) at h) in ground arith
  ]
  resolve_from-IsChosen root source infos info (c ∷ cs) h =
      elim (Bool-cases (path_is_writable_dir p c.0)) [
        | inl e ↦
            let same : c.0 ≡ root = ap root_of (rw (e, resolve_from) at h) in
            inl (same, ap (path_is_writable_dir p) (sym same) ∙ e)
        | inr e ↦ inr (e, resolve_from-IsChosen root source infos _ cs (rw (e, resolve_from) at h))
      ]

  IsChosen-member :
      (root : String) (cs : List (String × String))
      → IsChosen root cs
      → member root (map (λ c. c.0) cs) ≡ true
  IsChosen-member root [] h = absurd h
  IsChosen-member root (c ∷ cs) (inl h) = ground (arith, eq_iff root c.0, sym h.0)
  IsChosen-member root (c ∷ cs) (inr h) = ground (arith, IsChosen-member root cs h.1)

  not_writable_from :
      (info : List CandidateInfo) (cs : List (String × String))
      → is_active (resolve_from p info cs) ≡ false
      → All (λ c. path_is_writable_dir p c.0 ≡ false) cs
  unfolding resolve_from is_active
  not_writable_from info [] h = tt
  not_writable_from info (c ∷ cs) h = elim (Bool-cases (path_is_writable_dir p c.0)) [
    | inl e ↦ let no : true ≡ false = rw (e, resolve_from, is_active) at h in ground arith
    | inr e ↦ (e, not_writable_from _ cs (rw (e, resolve_from) at h))
  ]

  -- What the outcome says of the candidates.
  abbrev pub Chosen : StateRoot → Type 0
  Chosen (active root source infos) =
      IsChosen root (unique_state_root_candidates p) × member root (searched_roots p) ≡ true
  Chosen (configured_not_writable cs) =
      All (λ c. path_is_writable_dir p c.0 ≡ false) (unique_state_root_candidates p)
  Chosen (none_writable infos) =
      All (λ c. path_is_writable_dir p c.0 ≡ false) (unique_state_root_candidates p)

  resolved-Chosen : (r : StateRoot) → resolve_active_state_root p ≡ r → Chosen r
  unfolding resolve_active_state_root is_active
  resolved-Chosen (active root source infos) h =
      let chosen = resolve_from-IsChosen root source infos [] (unique_state_root_candidates p) h in
      (chosen, IsChosen-member root (unique_state_root_candidates p) chosen)
  resolved-Chosen (configured_not_writable cs) h = not_writable_from [] _ (ap is_active h)
  resolved-Chosen (none_writable infos) h = not_writable_from [] _ (ap is_active h)

  -- The search for a state root gives the first candidate in which a probe can be written, and claims are
  -- looked for there; it raises only when a probe can be written in none of them.
  pub resolve-Chosen : Chosen (resolve_active_state_root p)
  resolve-Chosen = resolved-Chosen (resolve_active_state_root p) refl

-- A claim that is recorded under an id of which no searched root has a file is found again under that id
-- when the root of its repository is one of the state roots that are searched; when it is not one of them,
-- the claim that was just recorded is not found.
pub load-record_new :
    (roots : List String) (root source id : String) (claim_record : Dict) (ledger : Ledger)
    → load_claim roots id ledger ≡ none
    → let recorded = record_claim root source id claim_record ledger in
      load_claim roots id recorded.1 ≡ (if member root roots then some (root, recorded.0) else none)
unfolding record_claim
load-record_new roots root source id claim_record ledger new =
    let stored = stored_record root source id claim_record in
    elim (Bool-cases (member root roots)) [
      | inl e ↦ rw e (load-save_new root id stored roots ledger e new)
      | inr e ↦ rw e (load-save_elsewhere root id stored roots ledger id e ∙ new)
    ]
