-- ===== src/Prelude/Perms.antt =====
-- Sorting and selecting up to the order of the elements.
use mathlib.Core.Path.{◌≡◌, refl, ap}
use mathlib.Core.Logic.{inl, inr}
use mathlib.Core.Bool.{Bool, true, false, ◌||◌, ◌&&◌}
use mathlib.Core.List.{List, [], ◌∷◌, ◌++◌, Perm, perm_middle, filter_map}
use mathlib.Core.List.Perm
use mathlib.Core.Option.{Option, some, none}
use paa_platform.Prelude.Tests.{if◌then◌else◌, Bool-cases}
use paa_platform.Prelude.Lists.{select}
use paa_platform.Prelude.Sorting.{sort_by, insert_by}

module _ {ℓ} {A : Type ℓ} (le : A → A → Bool) where
  insert_by-perm : (a : A) (xs : List A) → Perm (insert_by le a xs) (a ∷ xs)
  unfolding insert_by
  insert_by-perm a [] = Perm.refl _
  insert_by-perm a (x ∷ xs) = elim (Bool-cases (le a x)) [
    | inl e ↦ rw e (Perm.refl _)
    | inr e ↦ rw e (Perm.trans (Perm.cons x (insert_by-perm a xs)) (Perm.swap a x xs))
  ]

  pub sort_by-perm : (xs : List A) → Perm (sort_by le xs) xs
  unfolding sort_by
  sort_by-perm [] = Perm.refl []
  sort_by-perm (x ∷ xs) =
      Perm.trans (insert_by-perm x (sort_by le xs)) (Perm.cons x (sort_by-perm xs))

module _ {ℓ} {A : Type ℓ} where
  passing : (A → Bool) → A → Option A
  passing p x = if p x then some x else none

  select-filter_map : (p : A → Bool) (xs : List A) → select p xs ≡ filter_map (passing p) xs
  unfolding select filter_map passing
  select-filter_map p [] = refl
  select-filter_map p (x ∷ xs) = elim (Bool-cases (p x)) [
    | inl e ↦ rw e (ap (λ r. x ∷ r) (select-filter_map p xs))
    | inr e ↦ rw e (select-filter_map p xs)
  ]

  pub select-perm : (p : A → Bool) {xs ys : List A} → Perm xs ys → Perm (select p xs) (select p ys)
  select-perm p {xs} {ys} h =
      rw (select-filter_map p xs, select-filter_map p ys) (Perm.filter_map (passing p) h)

  -- What passes one of two tests that no element passes both.
  pub select_either :
      (p q : A → Bool)
      → ((x : A) → p x ≡ true → q x ≡ false)
      → (xs : List A) → Perm (select p xs ++ select q xs) (select (λ x. p x || q x) xs)
  unfolding select
  select_either p q apart [] = Perm.refl []
  select_either p q apart (x ∷ xs) = elim (Bool-cases (p x)) [
    | inl e ↦ rw (e, apart x e) (Perm.cons x (select_either p q apart xs))
    | inr e ↦ elim (Bool-cases (q x)) [
      | inl d ↦
          rw (e, d)
            (Perm.trans (perm_middle (select p xs) (select q xs))
              (Perm.cons x (select_either p q apart xs)))
      | inr d ↦ rw (e, d) (select_either p q apart xs)
    ]
  ]

  -- Tests that agree select alike.
  pub select_agree :
      (p q : A → Bool) → ((x : A) → p x ≡ q x) → (xs : List A) → select p xs ≡ select q xs
  unfolding select
  select_agree p q same [] = refl
  select_agree p q same (x ∷ xs) = rw (same x, select_agree p q same xs)

  pub select_nothing : (xs : List A) → select (λ x. false) xs ≡ []
  unfolding select
  select_nothing [] = refl
  select_nothing (x ∷ xs) = select_nothing xs

  pub select_twice :
      (p q : A → Bool) (xs : List A) → select p (select q xs) ≡ select (λ x. p x && q x) xs
  unfolding select
  select_twice p q [] = refl
  select_twice p q (x ∷ xs) = elim (Bool-cases (q x)) [
    | inl e ↦ elim (Bool-cases (p x)) [
      | inl d ↦ rw (e, d) (ap (λ r. x ∷ r) (select_twice p q xs))
      | inr d ↦ rw (e, d) (select_twice p q xs)
    ]
    | inr e ↦ elim (Bool-cases (p x)) [
      | inl d ↦ rw (e, d) (select_twice p q xs)
      | inr d ↦ rw (e, d) (select_twice p q xs)
    ]
  ]
