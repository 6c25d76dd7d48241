-- ===== src/Prelude/Sorting.antt =====
-- `list.sort`, which is stable, by the test of coming first or level.
use mathlib.Core.Path.{◌≡◌, refl, ap, ◌∙◌}
use mathlib.Core.Logic.{inl, inr}
use mathlib.Core.Bool.{Bool, false, ◌||◌}
use mathlib.Core.List.{List, [], ◌∷◌, ◌++◌, map}
use native.Mathlib.Omega.{arith}
use paa_platform.Prelude.Tests.{if◌then◌else◌, Bool-cases}
use paa_platform.Prelude.Lists.{All, select}

module _ {ℓ} {A : Type ℓ} where
  unfoldable pub insert_by : (A → A → Bool) → A → List A → List A
  insert_by le a [] = a ∷ []
  insert_by le a (b ∷ bs) = if le a b then a ∷ b ∷ bs else b ∷ insert_by le a bs

  unfoldable pub sort_by : (A → A → Bool) → List A → List A
  unfolding insert_by
  sort_by le [] = []
  sort_by le (a ∷ rest) = insert_by le a (sort_by le rest)

  module _ {κ} (P : A → Type κ) (le : A → A → Bool) where
    All-insert_by : (a : A) (xs : List A) → P a → All P xs → All P (insert_by le a xs)
    unfolding insert_by
    All-insert_by a [] h hs = (h, tt)
    All-insert_by a (b ∷ bs) h hs = elim (Bool-cases (le a b)) [
      | inl e ↦ rw e (h, hs)
      | inr e ↦ rw e (hs.0, All-insert_by a bs h hs.1)
    ]

    pub All-sort_by : (xs : List A) → All P xs → All P (sort_by le xs)
    unfolding sort_by
    All-sort_by [] h = tt
    All-sort_by (a ∷ xs) h = All-insert_by a (sort_by le xs) h.0 (All-sort_by xs h.1)

module _ {ℓ} {A : Type ℓ} (p : A → Bool) where
  -- `any(test(x) for x in xs)`
  unfoldable pub any : List A → Bool
  any [] = false
  any (x ∷ xs) = p x || any xs

  any-insert_by :
      (le : A → A → Bool) (x : A) (xs : List A) → any (insert_by le x xs) ≡ (p x || any xs)
  unfolding any insert_by
  any-insert_by le x [] = refl
  any-insert_by le x (y ∷ ys) = ground (arith, any-insert_by le x ys)

  -- Sorting neither adds nor loses an element.
  pub any-sort_by : (le : A → A → Bool) (xs : List A) → any (sort_by le xs) ≡ any xs
  unfolding any sort_by
  any-sort_by le [] = refl
  any-sort_by le (x ∷ xs) = rw (any-insert_by le x (sort_by le xs), any-sort_by le xs)

  pub any-append : (xs ys : List A) → any (xs ++ ys) ≡ (any xs || any ys)
  unfolding any
  any-append [] ys = refl
  any-append (x ∷ xs) ys = ground (arith, any-append xs ys)

-- A change of the elements that a test and an order do not see.
module _ {ℓ} {A : Type ℓ} (f : A → A) where
  pub select-map :
      (p : A → Bool)
      → ((x : A) → p (f x) ≡ p x)
      → (xs : List A) → select p (map f xs) ≡ map f (select p xs)
  unfolding select
  select-map p same [] = refl
  select-map p same (x ∷ xs) = elim (Bool-cases (p x)) [
    | inl e ↦ rw (same x, e) (ap (λ r. f x ∷ r) (select-map p same xs))
    | inr e ↦ rw (same x, e) (select-map p same xs)
  ]

  module _ (le : A → A → Bool) (same : (x y : A) → le (f x) (f y) ≡ le x y) where
    insert_by-map :
        (a : A) (xs : List A) → insert_by le (f a) (map f xs) ≡ map f (insert_by le a xs)
    unfolding insert_by
    insert_by-map a [] = refl
    insert_by-map a (x ∷ xs) = elim (Bool-cases (le a x)) [
      | inl e ↦ rw (same a x, e)
      | inr e ↦ rw (same a x, e) (ap (λ r. f x ∷ r) (insert_by-map a xs))
    ]

    pub sort_by-map : (xs : List A) → sort_by le (map f xs) ≡ map f (sort_by le xs)
    unfolding sort_by
    sort_by-map [] = refl
    sort_by-map (x ∷ xs) =
        ap (insert_by le (f x)) (sort_by-map xs) ∙ insert_by-map x (sort_by le xs)
