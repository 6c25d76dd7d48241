-- ===== src/Progress/Next/Least.antt =====
-- The rank of activity keys along the dependencies: a key of least rank among those of a list.
use native.Mathlib.Nat.{le_trans}
use paa_platform.Prelude.{
  ℕ, ◌≤◌, String, ◌≡◌, true, List, [], ◌∷◌, arith, member, leb, Bool-cases, inl, inr,
}
use paa_platform.Progress.Next.Executable.{member-split, member-head}

module _ (rank : String → ℕ) where
  -- `k` is in the list, and no text of the list has a lower rank.
  pub record IsLeast (k : String) (ks : List String) : Type 0 where
    pub inside : member k ks ≡ true
    pub lowest : (p : String) → member p ks ≡ true → rank k ≤ rank p

  IsLeast-head :
      (x : String) (ks : List String)
      → ((p : String) → member p ks ≡ true → rank x ≤ rank p)
      → IsLeast x (x ∷ ks)
  IsLeast-head x ks h = record {
    inside = member-head x ks;
    lowest = λ p m. member-split p x ks (λ q. rank x ≤ rank q) (omega arith) (h p) m;
  }

  IsLeast-cons :
      (x k : String) (ks : List String) → IsLeast k ks → (m : String) × IsLeast m (x ∷ ks)
  IsLeast-cons x k ks l = elim (Bool-cases (leb (rank x) (rank k))) [
    | inl below ↦ (x, IsLeast-head x ks (λ p m. le_trans (ground arith) (l.lowest p m)))
    | inr above ↦ (
      k,
      record {
        inside = ground (arith, l.inside);
        lowest = λ p m. member-split p x ks (λ q. rank k ≤ rank q) (ground arith) (l.lowest p) m;
      },
    )
  ]

  pub least : (x : String) (ks : List String) → (k : String) × IsLeast k (x ∷ ks)
  least x [] = (x, IsLeast-head x [] (λ p m. cc))
  least x (y ∷ ks) = let (k, l) = least y ks in IsLeast-cons x k (y ∷ ks) l
