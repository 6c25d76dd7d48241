-- ===== src/Progress/Next/Advances.antt =====
-- When `_derive_next_activity_key` finds an activity: the dependencies go in one direction, and each
-- predecessor is done or to be done.
use paa_platform.Prelude.{
  ℕ, ◌<◌, String, ◌≡◌, ◌≢◌, ◌⊎◌, refl, true, false, ◌&&◌, none, some, List, [], ◌∷◌, Memᴰ, arith,
  member, select, All, All-lookup, Bool-cases, inl, inr, eq_iff, ◌==◌,
}
use paa_platform.Progress.Models.{ActivityRecord, DependencyRecord}
use paa_platform.Progress.Next.{Derived, returned, raised}
use paa_platform.Progress.Next.Executable.{Ready, precedes}
use paa_platform.Progress.Next.Least.{IsLeast, least}
use paa_platform.Progress.Next.Distinct.{Distinct, Distinct-select, one_of_rank}
use paa_platform.Progress.Next.First.{derived-none, derived_ambiguous, executable, derived}

-- A property of every dependency, for those that `precedes` finds.
precedes-All :
    (P : String → String → Type 0) (p k : String) (ds : List DependencyRecord)
    → All (λ d. P d.predecessor_activity_key d.successor_activity_key) ds
    → precedes p k ds ≡ true
    → P p k
unfolding precedes
precedes-All P p k [] h e = cc
precedes-All P p k (d ∷ ds) h e =
    elim (Bool-cases (d.successor_activity_key == k && d.predecessor_activity_key == p)) [
      | inl here ↦
          let after : d.successor_activity_key ≡ k =
            ground (arith, eq_iff d.successor_activity_key k) in
          let before : d.predecessor_activity_key ≡ p =
            ground (arith, eq_iff d.predecessor_activity_key p) in
          rw (after, before) at h.0
      | inr later ↦ precedes-All P p k ds h.1 (rw later at e)
    ]

-- A predecessor is listed as completed or as remaining, and not as blocked.
abbrev pub Settled : List String → List String → List String → String → Type 0
Settled completed blocked remaining p =
    ((member p completed ≡ true) ⊎ (member p remaining ≡ true)) × (member p blocked ≡ false)

uncons : (l : List String) → l ≢ [] → (x : String) × (ks : List String) × (l ≡ x ∷ ks)
uncons [] h = absurd (h refl)
uncons (x ∷ ks) h = (x, ks, refl)

-- A derivation returns a key, unless it returns none or complains.
some_returned :
    (d : Derived)
    → d ≢ returned none
    → ((m : String) → d ≢ raised m)
    → (k : String) × (d ≡ returned (some k))
some_returned (returned none) h r = absurd (h refl)
some_returned (returned (some k)) h r = (k, refl)
some_returned (raised m) h r = absurd (r m refl)

-- Where the dependencies go up in rank and the predecessors are settled, a remaining activity of
-- least rank can start.
module _ (rank : String → ℕ) (ds : List DependencyRecord) (activities : List ActivityRecord)
    (completed blocked remaining : List String)
    (ordered : All (λ d. rank d.predecessor_activity_key < rank d.successor_activity_key) ds)
    (settled : All (λ d. Settled completed blocked remaining d.predecessor_activity_key) ds)
    (listed : (k : String)
      → member k remaining ≡ true
      → (a : ActivityRecord) × Memᴰ a activities × (a.activity_key ≡ k)) where
  Settled-before : (p k : String) → precedes p k ds ≡ true → Settled completed blocked remaining p
  Settled-before p k = precedes-All (λ q _. Settled completed blocked remaining q) p k ds settled

  least-Ready :
      (a : ActivityRecord)
      → IsLeast rank a.activity_key remaining
      → Ready ds completed blocked remaining a
  least-Ready a l = record {
    to_do = l.inside;
    done_before = λ p e. elim ((Settled-before p a.activity_key e).0) [
      | inl done ↦ done
      | inr left ↦
          let up = precedes-All (λ q k. rank q < rank k) p a.activity_key ds ordered e in
          absurd (omega (arith, l.lowest p left))
    ];
    none_blocked = λ p e. (Settled-before p a.activity_key e).1;
  }

  not_none :
      (x : String) (ks : List String)
      → remaining ≡ x ∷ ks
      → derived ds activities completed blocked remaining ≢ returned none
  not_none x ks e h =
      let (k, l) = least rank x ks in
      let l' : IsLeast rank k remaining = rw e l in
      let (a, m, key) = listed k l'.inside in
      All-lookup (λ b. ¬ Ready ds completed blocked remaining b) activities
        (derived-none ds activities completed blocked remaining h) m (least-Ready a (rw key l'))

  not_raised :
      (m : String)
      → Distinct activities
      → derived ds activities completed blocked remaining ≢ raised m
  not_raised m distinct h =
      let test = executable ds activities completed blocked remaining in
      let (a, earliest, shared) = derived_ambiguous ds activities completed blocked remaining m h in
      absurd (
        omega (
          arith,
          one_of_rank a (select test activities) (Distinct-select test activities distinct),
        ))

  -- So the derivation returns a key, if no two activities share a sequence order.
  pub derived-some :
      remaining ≢ []
      → Distinct activities
      → (k : String) × (derived ds activities completed blocked remaining ≡ returned (some k))
  derived-some nonempty distinct =
      let (x, ks, e) = uncons remaining nonempty in
      some_returned (derived ds activities completed blocked remaining) (not_none x ks e)
        (λ m. not_raised m distinct)
