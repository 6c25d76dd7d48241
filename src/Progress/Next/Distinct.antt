-- ===== src/Progress/Next/Distinct.antt =====
-- Activities no two of which share a sequence order, on which `_derive_next_activity_key` sorts them.
use paa_platform.Prelude.{
  ◌≤◌, ◌≡◌, ◌≢◌, refl, Bool, true, false, List, [], ◌∷◌, arith, select, All, All-select, Bool-cases,
  inl, inr, length, eqb_ℤ, ℤ,
}
use paa_platform.Progress.Models.{ActivityRecord}
use paa_platform.Progress.Next.{same_rank}

-- No two activities share a sequence order.
abbrev pub Distinct : List ActivityRecord → Type 0
Distinct [] = Unit
Distinct (a ∷ activities) =
    All (λ b. b.sequence_order ≢ a.sequence_order) activities × Distinct activities

pub Distinct-select :
    (p : ActivityRecord → Bool) (xs : List ActivityRecord) → Distinct xs → Distinct (select p xs)
unfolding select
Distinct-select p [] h = tt
Distinct-select p (x ∷ xs) h = elim (Bool-cases (p x)) [
  | inl e ↦ rw e (All-select p _ xs h.0, Distinct-select p xs h.1)
  | inr e ↦ rw e (Distinct-select p xs h.1)
]

-- Of two orders that differ, at most one is a given one.
not_both : (k m n : ℤ) → eqb_ℤ m k ≡ true → (n ≡ m → ⊥) → eqb_ℤ n k ≡ false
not_both k m n e h = elim (Bool-cases (eqb_ℤ n k)) [ inl d ↦ absurd (h (ground arith)) | inr d ↦ d ]

module _ (a : ActivityRecord) where
  none_of_rank :
      (x : ActivityRecord) (xs : List ActivityRecord)
      → same_rank a x ≡ true
      → All (λ b. b.sequence_order ≢ x.sequence_order) xs
      → length (select (same_rank a) xs) ≡ 0
  unfolding select
  none_of_rank x [] e h = refl
  none_of_rank x (b ∷ xs) e h =
      rw (not_both a.sequence_order x.sequence_order b.sequence_order e h.0)
        (none_of_rank x xs e h.1)

  -- Where no two activities share an order, at most one has that of `a`.
  pub one_of_rank : (xs : List ActivityRecord) → Distinct xs → length (select (same_rank a) xs) ≤ 1
  unfolding select
  one_of_rank [] h = omega arith
  one_of_rank (x ∷ xs) h = elim (Bool-cases (same_rank a x)) [
    | inl e ↦ rw e (omega (arith, none_of_rank x xs e h.0))
    | inr e ↦ rw e (one_of_rank xs h.1)
  ]
