-- ===== src/Progress/Next/Ranked.antt =====
-- The sort of `_derive_next_activity_key`: it keeps the elements and puts a least rank first.
use paa_platform.Prelude.{
  ◌≤ℤ◌, length, ◌≡◌, refl, Bool, true, false, List, [], ◌∷◌, arith, select, All, Bool-cases, inl,
  inr, length-select_cons,
}
use paa_platform.Progress.Models.{ActivityRecord}
use paa_platform.Progress.Next.{ranked_before, insert_ranked, sort_ranked}

abbrev pub NotAfter : ActivityRecord → ActivityRecord → Type 0
NotAfter a b = a.sequence_order ≤ℤ b.sequence_order

ranked_before-NotAfter : (a b : ActivityRecord) → ranked_before a b ≡ true → NotAfter a b
unfolding ranked_before
ranked_before-NotAfter a b h = ground arith

not-ranked_before : (a b : ActivityRecord) → ranked_before a b ≡ false → NotAfter b a
unfolding ranked_before
not-ranked_before a b h = ground arith

-- Every element is followed by elements of its rank or a later one.
abbrev pub Ranked : List ActivityRecord → Type 0
Ranked [] = Unit
Ranked (a ∷ l) = All (NotAfter a) l × Ranked l

module _ {κ} (P : ActivityRecord → Type κ) where
  All-insert :
      (a : ActivityRecord) (l : List ActivityRecord) → P a → All P l → All P (insert_ranked a l)
  unfolding insert_ranked
  All-insert a [] p h = (p, tt)
  All-insert a (b ∷ l) p h = elim (Bool-cases (ranked_before a b)) [
    | inl e ↦ rw e (p, h)
    | inr e ↦ rw e (h.0, All-insert a l p h.1)
  ]

  All-uninsert :
      (a : ActivityRecord) (l : List ActivityRecord) → All P (insert_ranked a l) → P a × All P l
  unfolding insert_ranked
  All-uninsert a [] h = (h.0, tt)
  All-uninsert a (b ∷ l) h = elim (Bool-cases (ranked_before a b)) [
    | inl e ↦ let k : All P (a ∷ b ∷ l) = rw e at h in k
    | inr e ↦
        let k : All P (b ∷ insert_ranked a l) = rw e at h in
        let both = All-uninsert a l k.1 in (both.0, (k.0, both.1))
  ]

  pub All-sort : (l : List ActivityRecord) → All P l → All P (sort_ranked l)
  unfolding sort_ranked
  All-sort [] h = tt
  All-sort (a ∷ l) h = All-insert a (sort_ranked l) h.0 (All-sort l h.1)

  pub All-unsort : (l : List ActivityRecord) → All P (sort_ranked l) → All P l
  unfolding sort_ranked
  All-unsort [] h = tt
  All-unsort (a ∷ l) h =
      let both = All-uninsert a (sort_ranked l) h in (both.0, All-unsort l both.1)

All-NotAfter-trans :
    (a b : ActivityRecord) (l : List ActivityRecord)
    → NotAfter a b
    → All (NotAfter b) l
    → All (NotAfter a) l
All-NotAfter-trans a b [] h k = tt
All-NotAfter-trans a b (c ∷ l) h k = (omega arith, All-NotAfter-trans a b l h k.1)

insert-Ranked :
    (a : ActivityRecord) (l : List ActivityRecord) → Ranked l → Ranked (insert_ranked a l)
unfolding insert_ranked
insert-Ranked a [] r = (tt, tt)
insert-Ranked a (b ∷ l) r = elim (Bool-cases (ranked_before a b)) [
  | inl e ↦ let ab = ranked_before-NotAfter a b e in rw e ((ab, All-NotAfter-trans a b l ab r.0), r)
  | inr e ↦ rw e (All-insert (NotAfter b) a l (not-ranked_before a b e) r.0, insert-Ranked a l r.1)
]

pub sort-Ranked : (l : List ActivityRecord) → Ranked (sort_ranked l)
unfolding sort_ranked
sort-Ranked [] = tt
sort-Ranked (a ∷ l) = insert-Ranked a (sort_ranked l) (sort-Ranked l)

-- The sort drops and doubles nothing: as many elements pass any test as before.
module _ (p : ActivityRecord → Bool) where
  count-insert :
      (a : ActivityRecord) (l : List ActivityRecord)
      → length (select p (insert_ranked a l)) ≡ length (select p (a ∷ l))
  unfolding insert_ranked
  count-insert a [] = refl
  count-insert a (b ∷ l) = elim (Bool-cases (ranked_before a b)) [
    | inl e ↦ rw e
    | inr e ↦ rw e (
        omega (
          arith,
          length-select_cons p b (insert_ranked a l),
          length-select_cons p a (b ∷ l),
          length-select_cons p b l,
          length-select_cons p a l,
          count-insert a l,
        ))
  ]

  pub count-sort :
      (l : List ActivityRecord) → length (select p (sort_ranked l)) ≡ length (select p l)
  unfolding sort_ranked
  count-sort [] = refl
  count-sort (a ∷ l) = omega (
    arith,
    count-insert a (sort_ranked l),
    length-select_cons p a (sort_ranked l),
    length-select_cons p a l,
    count-sort l,
  )
