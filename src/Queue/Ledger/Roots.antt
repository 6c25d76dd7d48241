-- ===== src/Queue/Ledger/Roots.antt =====
-- Claims that are recorded under one root and looked for under others.
use mathlib.Core.Option.{some-injective}
use paa_platform.Prelude.{
  differ, if-true, if-false, absurd_some, ◌++◌, String, ◌≡◌, refl, ap, sym, ◌∙◌, true, false, ◌&&◌,
  ◌==◌, none, some, List, [], ◌∷◌, inl, inr, Bool-cases, Option-cases, find, member, arith, eq_iff,
  if◌then◌else◌,
}
use paa_platform.Json.{Dict}
use paa_platform.Queue.Ledger.{
  Ledger, at_path, save_json, stored_record, record_claim, load_claim, update_claim,
}

module _ (root id : String) (claim : Dict) where
  -- What a search by path finds after a write.
  pub find-save :
      (r i : String) (ledger : Ledger)
      → find (at_path r i) (save_json root id claim ledger) ≡ (
          if root == r && id == i
          then some (record { root = root; claim_id = id; claim = claim })
          else find (at_path r i) ledger)
  unfolding find save_json
  find-save r i [] = refl
  find-save r i (f ∷ fs) = ground (
    arith,
    find-save r i fs,
    eq_iff f.root root,
    eq_iff f.claim_id id,
    eq_iff f.root r,
    eq_iff f.claim_id i,
    eq_iff root r,
    eq_iff id i,
  )

  saved :
      (r : String) (ledger : Ledger)
      → root ≡ r
      → find (at_path r id) (save_json root id claim ledger)
        ≡ some (record { root = root; claim_id = id; claim = claim })
  saved r ledger e =
      find-save r id ledger
      ∙ if-true {b = root == r && id == id} _ _ (ground (arith, eq_iff root r, eq_iff id id))

  missed :
      (r k : String) (ledger : Ledger)
      → (root == r) ≡ false
      → find (at_path r k) (save_json root id claim ledger) ≡ find (at_path r k) ledger
  missed r k ledger e =
      find-save r k ledger ∙ if-false {b = root == r && id == k} _ _ (ground arith)

  -- A load after a write finds what was written, where the root is searched and no root before it has
  -- a file for the claim.
  pub load-save :
      (before after : List String) (ledger : Ledger)
      → load_claim before id ledger ≡ none
      → load_claim (before ++ root ∷ after) id (save_json root id claim ledger) ≡ some (root, claim)
  unfolding load_claim
  load-save [] after ledger h = rw (saved root ledger refl, load_claim) refl
  load-save (r ∷ before) after ledger h = elim (Option-cases (find (at_path r id) ledger)) [
    | inr f ↦ absurd_some (sym (rw (f.1, load_claim) at h))
    | inl n ↦ elim (Bool-cases (root == r)) [
      | inl e ↦
          let same : root ≡ r = (eq_iff root r).0 e in
          rw (saved r ledger same, load_claim) (ap (λ x. some (x, claim)) (sym same))
      | inr e ↦
          rw (missed r id ledger e ∙ n, load_claim)
            (load-save before after ledger (rw (n, load_claim) at h))
    ]
  ]

  -- A load after a write at a searched root finds what was written, where the id had no file.
  pub load-save_new :
      (roots : List String) (ledger : Ledger)
      → member root roots ≡ true
      → load_claim roots id ledger ≡ none
      → load_claim roots id (save_json root id claim ledger) ≡ some (root, claim)
  unfolding load_claim
  load-save_new [] ledger m h = ground arith
  load-save_new (r ∷ roots) ledger m h = elim (Option-cases (find (at_path r id) ledger)) [
    | inr f ↦ absurd_some (sym (rw (f.1, load_claim) at h))
    | inl n ↦ elim (Bool-cases (root == r)) [
      | inl e ↦
          let same : root ≡ r = (eq_iff root r).0 e in
          rw (saved r ledger same, load_claim) (ap (λ x. some (x, claim)) (sym same))
      | inr e ↦
          rw (missed r id ledger e ∙ n, load_claim)
            (load-save_new roots ledger (ground arith) (rw (n, load_claim) at h))
    ]
  ]

  -- A load after a write under a root that is not searched finds what it found before.
  pub load-save_elsewhere :
      (roots : List String) (ledger : Ledger) (k : String)
      → member root roots ≡ false
      → load_claim roots k (save_json root id claim ledger) ≡ load_claim roots k ledger
  unfolding load_claim
  load-save_elsewhere [] ledger k h = refl
  load-save_elsewhere (r ∷ roots) ledger k h =
      let e : (root == r) ≡ false = ground arith in
      let rest = load-save_elsewhere roots ledger k (ground arith) in
      elim (Option-cases (find (at_path r k) ledger)) [
        | inl n ↦ rw (missed r k ledger e ∙ n, n, load_claim) rest
        | inr f ↦ rw (missed r k ledger e ∙ f.1, f.1, load_claim) refl
      ]

  load-save_found :
      (roots : List String) (ledger : Ledger) (old : Dict)
      → load_claim roots id ledger ≡ some (root, old)
      → load_claim roots id (save_json root id claim ledger) ≡ some (root, claim)
  unfolding load_claim
  load-save_found [] ledger old h = absurd_some h
  load-save_found (r ∷ roots) ledger old h = elim (Bool-cases (root == r)) [
    | inl e ↦
        let same : root ≡ r = (eq_iff root r).0 e in
        rw (saved r ledger same, load_claim) (ap (λ x. some (x, claim)) (sym same))
    | inr e ↦ elim (Option-cases (find (at_path r id) ledger)) [
      | inl n ↦
          rw (missed r id ledger e ∙ n, load_claim)
            (load-save_found roots ledger old (rw (n, load_claim) at h))
      | inr f ↦
          let there : some (r, f.0.claim) ≡ some (root, old) = rw (f.1, load_claim) at h in
          absurd (differ root r e (sym (ap (λ p. p.0) (some-injective _ _ there))))
    ]
  ]

module _ (root source id : String) (claim_record : Dict) (ledger : Ledger) where
  -- A recorded claim is found again under its id where the root of its repository is one of the state
  -- roots that the process searches and no root searched before it holds a file of that id; where it
  -- is not one of them and the id is new, the claim that was just recorded is not found.
  pub load-record :
      ((before after : List String)
        → load_claim before id ledger ≡ none
        → load_claim (before ++ root ∷ after) id (record_claim root source id claim_record ledger).1
          ≡ some (root, (record_claim root source id claim_record ledger).0))
      × ((roots : List String)
          → member root roots ≡ false
          → load_claim roots id ledger ≡ none
          → load_claim roots id (record_claim root source id claim_record ledger).1 ≡ none)
  unfolding record_claim
  load-record = (
    (λ before after h.
        load-save root id (stored_record root source id claim_record) before after ledger h),
    λ roots out new.
        load-save_elsewhere root id (stored_record root source id claim_record) roots ledger id out
        ∙ new,
  )

  -- An update at the path that a load gave is what the next load gives.
  pub load-update :
      (roots : List String) (r : String) (old claim : Dict)
      → load_claim roots id ledger ≡ some (r, old)
      → load_claim roots id (update_claim r id claim ledger) ≡ some (r, claim)
  unfolding update_claim
  load-update roots r old claim h = load-save_found r id claim roots ledger old h
