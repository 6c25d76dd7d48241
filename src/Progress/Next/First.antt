-- ===== src/Progress/Next/First.antt =====
-- The key that `_derive_next_activity_key` returns, against the executable activities.
use paa_platform.Progress.Next.Executable.{Ready, is_executable-Ready}
use paa_platform.Prelude.{
  length, String, ◌≡◌, Bool, true, some, List, [], ◌∷◌, arith, select, All, length-select_cons,
  Memᴰ, none, ◌<◌, All-map, select-passes, All-Memᴰ, not-select, select-Memᴰ, refl,
}
use paa_platform.Progress.Models.{ActivityRecord, DependencyRecord}
use paa_platform.Progress.Next.{
  returned, same_rank, pick_first, sort_ranked, raised, is_executable, Derived,
  derive_next_activity_key, predecessors_by_successor,
}
use paa_platform.Progress.Next.Ranked.{
  NotAfter, Ranked, All-unsort, sort-Ranked, count-sort, All-sort,
}

-- `a` is the one activity of the list that comes first: none has an earlier place, and no other has
-- the same one.
pub record IsFirst (a : ActivityRecord) (l : List ActivityRecord) : Type 0 where
  pub earliest : All (NotAfter a) l
  pub alone : length (select (same_rank a) l) ≡ 1

NotAfter-refl : (a : ActivityRecord) → NotAfter a a
NotAfter-refl a = omega arith

module _ (test : ActivityRecord → Bool) (l : List ActivityRecord) where
  -- The head of the sorted list, when no other element shares its rank.
  IsFirst-of_sorted :
      (s : List ActivityRecord) (k : String)
      → sort_ranked l ≡ s
      → All (λ b. (test b ≡ true) × Memᴰ b l) s
      → pick_first s ≡ returned (some k)
      → (a : ActivityRecord) × (a.activity_key ≡ k) × (test a ≡ true) × Memᴰ a l × IsFirst a l
  unfolding pick_first
  IsFirst-of_sorted [] k e t h = cc
  IsFirst-of_sorted (a ∷ s) k e t h =
      let ranked : Ranked (a ∷ s) = rw e at (sort-Ranked l) in
      let same : length (select (same_rank a) (a ∷ s)) ≡ length (select (same_rank a) l) =
        rw e at (count-sort (same_rank a) l) in
      (
        a,
        ground arith,
        t.0.0,
        t.0.1,
        record {
          earliest = All-unsort (NotAfter a) l (rw e (NotAfter-refl a, ranked.0));
          alone = ground (arith, same, length-select_cons (same_rank a) a s);
        },
      )

  -- The head of the sorted list, when another element shares its rank.
  shared_of_sorted :
      (s : List ActivityRecord) (m : String)
      → sort_ranked l ≡ s
      → pick_first s ≡ raised m
      → (a : ActivityRecord) × All (NotAfter a) l × (1 < length (select (same_rank a) l))
  unfolding pick_first
  shared_of_sorted [] m e h = cc
  shared_of_sorted (a ∷ s) m e h =
      let ranked : Ranked (a ∷ s) = rw e at (sort-Ranked l) in
      let same : length (select (same_rank a) (a ∷ s)) ≡ length (select (same_rank a) l) =
        rw e at (count-sort (same_rank a) l) in
      (a, All-unsort (NotAfter a) l (rw e (NotAfter-refl a, ranked.0)), ground (arith, same))

  none_of_sorted :
      (s : List ActivityRecord) → sort_ranked l ≡ s → pick_first s ≡ returned none → All (λ b. ⊥) l
  unfolding pick_first
  none_of_sorted [] e h = All-unsort (λ b. ⊥) l (rw e tt)
  none_of_sorted (a ∷ s) e h = ground arith

module _ (ds : List DependencyRecord) (activities : List ActivityRecord)
    (completed blocked remaining : List String) where
  abbrev pub executable : ActivityRecord → Bool
  executable = is_executable (predecessors_by_successor ds []) completed blocked remaining

  abbrev pub derived : Derived
  derived =
      derive_next_activity_key activities (predecessors_by_successor ds []) completed blocked
        remaining

  both_facts :
      (xs : List ActivityRecord)
      → All (λ b. executable b ≡ true) xs
      → All (λ b. Memᴰ b (select executable activities)) xs
      → All (λ b. (executable b ≡ true) × Memᴰ b (select executable activities)) xs
  both_facts [] h k = tt
  both_facts (x ∷ xs) h k = ((h.0, k.0), both_facts xs h.1 k.1)

  -- A key that is returned is that of an activity of the plan that can start, and among those that
  -- can start it alone has the least sequence order.
  pub derived-IsFirst :
      (k : String)
      → derived ≡ returned (some k)
      → (a : ActivityRecord) × (a.activity_key ≡ k)
        × Memᴰ a activities
        × Ready ds completed blocked remaining a
        × IsFirst a (select executable activities)
  unfolding derive_next_activity_key
  derived-IsFirst k h =
      let l = select executable activities in
      let facts =
        All-sort (λ b. (executable b ≡ true) × Memᴰ b l) l
          (both_facts l (select-passes executable activities) (All-Memᴰ l)) in
      let (a, key, test, mem, first) =
        IsFirst-of_sorted executable l (sort_ranked l) k refl facts h in
      (
        a,
        key,
        select-Memᴰ executable activities mem,
        (is_executable-Ready ds completed blocked remaining a).0 test,
        first,
      )

  -- `None` is returned only when no activity of the plan can start.
  pub derived-none :
      derived ≡ returned none → All (λ a. ¬ Ready ds completed blocked remaining a) activities
  unfolding derive_next_activity_key
  derived-none h =
      let l = select executable activities in
      All-map activities
        (λ a e r. cc (e, (is_executable-Ready ds completed blocked remaining a).1 r))
        (not-select executable activities (none_of_sorted executable l (sort_ranked l) refl h))

  -- The derivation is called ambiguous only when two activities that can start share the least
  -- sequence order.
  pub derived_ambiguous :
      (m : String)
      → derived ≡ raised m
      → (a : ActivityRecord) × All (NotAfter a) (select executable activities)
        × (1 < length (select (same_rank a) (select executable activities)))
  unfolding derive_next_activity_key
  derived_ambiguous m h =
      let l = select executable activities in shared_of_sorted executable l (sort_ranked l) m refl h
