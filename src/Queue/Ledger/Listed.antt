-- ===== src/Queue/Ledger/Listed.antt =====
-- Which claims `list_claims` gives (runtime/transport/claim_ledger.py).
use mathlib.Core.List.{Perm, map-append}
use mathlib.Core.List.Perm
use paa_platform.Prelude.{
  String, ◌↔◌, ◌⊎◌, Option, none, some, ◌==◌, select_twice, ◌≡◌, refl, sym, ap, ◌∙◌, Bool, true,
  not, ◌&&◌, ◌==◌, Option, List, [], ◌∷◌, ◌++◌, map, member, select, sort_by-perm, select-perm,
  select-append, select_either, select_agree, select_nothing, All-sort_by, Bool-cases, inl, inr,
  arith, eq_iff, All, select-passes, false,
}
use paa_platform.Json.{Value, null, flag, number, tuple, dict, get, text, Dict, set_default}
use paa_platform.Queue.Ledger.{Ledger, ClaimFile}
use paa_platform.Queue.Ledger.States.{
  Process, claims_dir, searched_roots, unique_state_root_candidates,
}
use paa_platform.Queue.Ledger.Listing.{
  existing_from, all_existing_claim_dirs, files_of, wanted, list_files, list_dirs, list_claims,
  holds, fits,
}

-- A claim has the text that is asked for under the key; `None` and the empty text ask for nothing.
abbrev pub Matches : String → Option String → Dict → Type 0
Matches key none claim = Unit
Matches key (some w) claim = (w ≡ "") ⊎ (get claim key ≡ some (text w))

holds_iff : (v : Option Value) (w : String) → (holds v w ≡ true) ↔ (v ≡ some (text w))
holds_iff v w = (there v, λ e. rw e ((eq_iff w w).1 refl))
  where
    there : (v : Option Value) → holds v w ≡ true → v ≡ some (text w)
    there none h = let no : false ≡ true = h in absurd (cc)
    there (some null) h = let no : false ≡ true = h in absurd (cc)
    there (some (flag b)) h = let no : false ≡ true = h in absurd (cc)
    there (some (number n)) h = let no : false ≡ true = h in absurd (cc)
    there (some (text s)) h = ap (λ x. some (text x)) ((eq_iff s w).0 h)
    there (some (tuple vs)) h = let no : false ≡ true = h in absurd (cc)
    there (some (dict d)) h = let no : false ≡ true = h in absurd (cc)

fits_iff :
    (key : String) (w : Option String) (claim : Dict)
    → (fits key w claim ≡ true) ↔ Matches key w claim
fits_iff key none claim = ((λ h. tt), λ h. refl)
fits_iff key (some w) claim = elim (Bool-cases (w == "")) [
  | inl e ↦ ((λ h. inl ((eq_iff w "").0 e)), λ h. rw (e, fits) refl)
  | inr e ↦
      let same = holds_iff (get claim key) w in
      (
        (λ h. inr (same.0 (rw (e, fits) at h))),
        λ h. elim h [
          | inl q ↦ (let no : true ≡ false = sym ((eq_iff w "").1 q) ∙ e in absurd (cc))
          | inr m ↦ rw (e, fits) (same.1 m)
        ],
      )
]

module _ (p : Process) where
  -- The directory of a file, and a claim as it is listed from there.
  abbrev pub dir_of : ClaimFile → String
  dir_of f = claims_dir p f.root

  abbrev pub shown : ClaimFile → Dict
  shown f = set_default f.claim "state_dir" (text (p.parent (dir_of f)))

  -- A directory is searched when it exists and belongs to a state root that is searched.
  abbrev pub searched : String → Bool
  searched cdir = p.exists cdir && member cdir (map (claims_dir p) (searched_roots p))

  member-existing_from :
      (cdir : String) (seen : List String) (cs : List (String × String))
      → member cdir (existing_from p seen cs) ≡ (
          p.exists cdir
          && member cdir (map (claims_dir p) (map (λ c. c.0) cs))
          && not (member cdir seen))
  unfolding existing_from
  member-existing_from cdir seen [] = ground arith
  member-existing_from cdir seen (c ∷ cs) =
      let d = claims_dir p c.0 in
      let exists_of : cdir ≡ d → p.exists cdir ≡ p.exists d = ap p.exists in
      let seen_of : cdir ≡ d → member cdir seen ≡ member d seen = ap (λ x. member x seen) in
      elim (Bool-cases (p.exists d && not (member d seen))) [
        | inl e ↦
            rw (e, existing_from)
              (ground (
                arith,
                e,
                member-existing_from cdir (d ∷ seen) cs,
                eq_iff cdir d,
                exists_of,
                seen_of,
              ))
        | inr e ↦
            rw (e, existing_from)
              (ground
                (arith, e, member-existing_from cdir seen cs, eq_iff cdir d, exists_of, seen_of))
      ]

  files_in : List String → Ledger → Ledger
  files_in [] ledger = []
  files_in (cdir ∷ cdirs) ledger = files_of p cdir ledger ++ files_in cdirs ledger

  -- The directories that are listed share no file, and a file is listed when its directory is.
  files_in-perm :
      (seen : List String) (cs : List (String × String)) (ledger : Ledger)
      → Perm
          (files_in (existing_from p seen cs) ledger)
          (select (λ f. member (dir_of f) (existing_from p seen cs)) ledger)
  unfolding existing_from files_in
  files_in-perm seen [] ledger = rw (select_nothing ledger) (Perm.refl [])
  files_in-perm seen (c ∷ cs) ledger =
      let d = claims_dir p c.0 in
      elim (Bool-cases (p.exists d && not (member d seen))) [
        | inl e ↦
            rw (e, existing_from, files_in)
              (Perm.trans (Perm.append (sort_by-perm _ _) (files_in-perm (d ∷ seen) cs ledger)) (
                select_either (λ f. dir_of f == d)
                  (λ f. member (dir_of f) (existing_from p (d ∷ seen) cs))
                  (λ f t. ground (arith, t, member-existing_from (dir_of f) (d ∷ seen) cs)) ledger))
        | inr e ↦ rw (e, existing_from, files_in) (files_in-perm seen cs ledger)
      ]

  files_of-here :
      (cdir : String) (ledger : Ledger)
      → All (λ f. (dir_of f == cdir) ≡ true) (files_of p cdir ledger)
  files_of-here cdir ledger =
      All-sort_by (λ f. (dir_of f == cdir) ≡ true) _ _
        (select-passes (λ f. dir_of f == cdir) ledger)

  module _ (queue status : Option String) where
    -- What a claim needs to be listed.
    pub record Asked (f : ClaimFile) : Type 0 where
      pub at_queue : Matches "queue" queue f.claim
      pub at_status : Matches "status" status f.claim
      pub there : p.exists (dir_of f) ≡ true
      pub among : member (dir_of f) (map (claims_dir p) (searched_roots p)) ≡ true

    list_files-shown :
        (cdir : String) (fs : Ledger)
        → All (λ f. (dir_of f == cdir) ≡ true) fs
        → list_files p queue status cdir fs ≡ map shown (select (wanted p queue status) fs)
    unfolding list_files select
    list_files-shown cdir [] h = refl
    list_files-shown cdir (f ∷ fs) h =
        let same : dir_of f ≡ cdir = (eq_iff (dir_of f) cdir).0 h.0 in
        elim (Bool-cases (wanted p queue status f)) [
          | inl e ↦ rw e (
              ap
                (λ c.
                  set_default f.claim "state_dir" (text (p.parent c))
                  ∷ list_files p queue status cdir fs)
                (sym same)
              ∙ ap (λ r. shown f ∷ r) (list_files-shown cdir fs h.1))
          | inr e ↦ rw e (list_files-shown cdir fs h.1)
        ]

    list_dirs-shown :
        (cdirs : List String) (ledger : Ledger)
        → list_dirs p queue status cdirs ledger
          ≡ map shown (select (wanted p queue status) (files_in cdirs ledger))
    unfolding list_dirs files_in
    list_dirs-shown [] ledger = unfold select in refl
    list_dirs-shown (cdir ∷ cdirs) ledger =
        let here = files_of p cdir ledger in
        let there = files_in cdirs ledger in
        ap (λ l. l ++ list_dirs p queue status cdirs ledger)
          (list_files-shown cdir here (files_of-here cdir ledger))
        ∙ ap (λ l. map shown (select (wanted p queue status) here) ++ l)
            (list_dirs-shown cdirs ledger)
        ∙ sym (
            ap (map shown) (select-append (wanted p queue status) here there)
            ∙ map-append shown _ _)

    keeps_iff :
        (f : ClaimFile) → ((wanted p queue status f && searched (dir_of f)) ≡ true) ↔ Asked f
    keeps_iff f =
        let q = fits_iff "queue" queue f.claim in
        let t = fits_iff "status" status f.claim in
        (
          (λ h. record {
            at_queue = q.0 (ground (arith, h));
            at_status = t.0 (ground (arith, h));
            there = ground (arith, h);
            among = ground (arith, h);
          }),
          λ a. ground (arith, q.1 a.at_queue, t.1 a.at_status, a.there, a.among),
        )

    -- The listing is, up to its order, every claim of the ledger whose directory exists and belongs to a
    -- searched state root and that has the queue and the status that are asked for, where one is, each
    -- listed once and with the parent of its directory as the state directory where it names none.
    pub list_claims-Perm :
        (ledger : Ledger)
        → (keep : ClaimFile → Bool) × ((f : ClaimFile) → (keep f ≡ true) ↔ Asked f)
          × Perm (list_claims p queue status ledger) (map shown (select keep ledger))
    unfolding list_claims all_existing_claim_dirs
    list_claims-Perm ledger =
        let cs = unique_state_root_candidates p in
        let agree =
          select_agree (λ f. member (dir_of f) (existing_from p [] cs)) (λ f. searched (dir_of f))
            (λ f. ground (arith, member-existing_from (dir_of f) [] cs)) ledger in
        (
          (λ f. wanted p queue status f && searched (dir_of f)),
          keeps_iff,
          rw
              (
                list_dirs-shown (existing_from p [] cs) ledger,
                sym (select_twice (wanted p queue status) (λ f. searched (dir_of f)) ledger),
                sym agree,
              )
              (Perm.map shown (select-perm (wanted p queue status) (files_in-perm [] cs ledger))),
        )
