-- ===== src/Prelude/Lists.antt =====
-- Lists measured by native numbers, membership of texts, and predicates on lists.
use Prim.Native.Nat.{ℕ, suc, ◌+◌}
use Prim.Native.String.{String}
use mathlib.Core.Path.{◌≡◌, refl, sym, subst, ap}
use mathlib.Core.Logic.{inl, inr}
use mathlib.Core.Bool.{Bool, true, false, ◌||◌, ◌&&◌}
use mathlib.Core.List.{List, [], ◌∷◌, ◌++◌, Memᴰ, map}
use mathlib.Core.Option
use mathlib.Core.Option.{Option, none, some}
use native.Mathlib.Omega.{arith}
use text.Mathlib.Text.{◌==◌}
use paa_platform.Prelude.Tests.{if◌then◌else◌, Bool-cases, is_empty, is_some}

module _ {ℓ} {A : Type ℓ} where
  abbrev pub length : List A → ℕ
  length [] = 0
  length (x ∷ xs) = suc (length xs)

  pub length-append : (xs ys : List A) → length (xs ++ ys) ≡ length xs + length ys
  length-append [] ys = omega arith
  length-append (x ∷ xs) ys = omega (arith, length-append xs ys)

  -- The elements that pass a Boolean test, in order.
  unfoldable pub select : (A → Bool) → List A → List A
  select p [] = []
  select p (x ∷ xs) = let rest = select p xs in if p x then x ∷ rest else rest

-- `key in keys` of the source.
abbrev pub member : String → List String → Bool
member k [] = false
member k (x ∷ xs) = k == x || member k xs

abbrev pub All {ℓ κ} : {A : Type ℓ} → (A → Type κ) → List A → Type κ
All P [] = Unit
All P (x ∷ xs) = P x × All P xs

-- `cond ∷ xs` where the source appends under a test.
abbrev pub when {ℓ} : {A : Type ℓ} → Bool → A → List A
when b x = if b then x ∷ [] else []

pub member-append :
    (k : String) (xs ys : List String) → member k (xs ++ ys) ≡ (member k xs || member k ys)
member-append k [] ys = refl
member-append k (x ∷ xs) ys = ground (arith, member-append k xs ys)

module _ {ℓ} {A : Type ℓ} (p : A → Bool) where
  -- A property of all elements holds of those selected; what is selected passes the test.
  pub All-select {κ} : (P : A → Type κ) (xs : List A) → All P xs → All P (select p xs)
  unfolding select
  All-select P [] h = tt
  All-select P (x ∷ xs) h = elim (Bool-cases (p x)) [
    | inl e ↦ rw e (h.0, All-select P xs h.1)
    | inr e ↦ rw e (All-select P xs h.1)
  ]

  pub select-passes : (xs : List A) → All (λ x. p x ≡ true) (select p xs)
  unfolding select
  select-passes [] = tt
  select-passes (x ∷ xs) = elim (Bool-cases (p x)) [
    | inl e ↦ rw e (e, select-passes xs)
    | inr e ↦ rw e (select-passes xs)
  ]

-- How many elements pass a test, in a form that arithmetic reads.
pub length-select_cons {ℓ} :
    {A : Type ℓ} (p : A → Bool) (x : A) (xs : List A)
    → length (select p (x ∷ xs)) ≡ (if p x then 1 else 0) + length (select p xs)
unfolding select
length-select_cons p x xs = elim (Bool-cases (p x)) [
  | inl e ↦ rw e (omega arith)
  | inr e ↦ rw e (omega arith)
]

module _ {ℓ} {A : Type ℓ} where
  pub All-map {κ ι} :
      {P : A → Type κ} {Q : A → Type ι} (xs : List A) → ((x : A) → P x → Q x) → All P xs → All Q xs
  All-map [] f h = tt
  All-map (x ∷ xs) f h = (f x h.0, All-map xs f h.1)

  pub All-Memᴰ : (xs : List A) → All (λ x. Memᴰ x xs) xs
  All-Memᴰ [] = tt
  All-Memᴰ (x ∷ xs) = (Memᴰ.head refl, All-map xs (λ y. Memᴰ.tail) (All-Memᴰ xs))

  pub All-lookup {κ} : (P : A → Type κ) {a : A} (xs : List A) → All P xs → Memᴰ a xs → P a
  All-lookup P [] h m = elim m [ ]
  All-lookup P (x ∷ xs) h (Memᴰ.head e) = subst P (sym e) h.0
  All-lookup P (x ∷ xs) h (Memᴰ.tail m) = All-lookup P xs h.1 m

module _ {ℓ} {A : Type ℓ} (p : A → Bool) where
  -- What is selected, with its test and its place in the list.
  pub select-Memᴰ : (xs : List A) {a : A} → Memᴰ a (select p xs) → Memᴰ a xs
  select-Memᴰ xs =
      All-lookup (λ x. Memᴰ x xs) (select p xs) (All-select p (λ x. Memᴰ x xs) xs (All-Memᴰ xs))

  -- Where nothing is selected, no element passes.
  pub not-select : (xs : List A) → All (λ x. ⊥) (select p xs) → All (λ x. p x ≡ false) xs
  unfolding select
  not-select [] h = tt
  not-select (x ∷ xs) h = elim (Bool-cases (p x)) [
    | inl e ↦ let k : All (λ y. ⊥) (x ∷ select p xs) = rw e at h in absurd k.0
    | inr e ↦ (e, not-select xs (rw e at h))
  ]

module _ {ℓ} {A : Type ℓ} where
  -- The first element that passes a test.
  unfoldable pub find : (A → Bool) → List A → Option A
  find p [] = none
  find p (x ∷ xs) = if p x then some x else find p xs

  pub find-passes : (p : A → Bool) (xs : List A) (a : A) → find p xs ≡ some a → p a ≡ true
  unfolding find
  find-passes p [] a h = ground arith
  find-passes p (x ∷ xs) a h = ground (arith, find-passes p xs a)

  -- A search commutes with a change of the elements that its test does not see.
  pub find-map :
      (p : A → Bool) (f : A → A)
      → ((x : A) → p (f x) ≡ p x)
      → (xs : List A) → find p (map f xs) ≡ Option.map f (find p xs)
  unfolding find
  find-map p f same [] = refl
  find-map p f same (x ∷ xs) = elim (Bool-cases (p x)) [
    | inl e ↦ rw (same x, e)
    | inr e ↦ rw (same x, e) (find-map p f same xs)
  ]

pub is_empty-append {ℓ} :
    {A : Type ℓ} (xs ys : List A) → is_empty (xs ++ ys) ≡ (is_empty xs && is_empty ys)
is_empty-append [] ys = refl
is_empty-append (x ∷ xs) ys = refl

-- An element that one search finds and that passes another test is an element for the other search.
pub find-other {ℓ} :
    {A : Type ℓ} (p q : A → Bool) (xs : List A) (a : A)
    → find p xs ≡ some a
    → q a ≡ true
    → is_some (find q xs) ≡ true
unfolding find
find-other p q [] a h k = ground arith
find-other p q (x ∷ xs) a h k = elim (Bool-cases (q x)) [
  | inl e ↦ rw e
  | inr e ↦ elim (Bool-cases (p x)) [
    | inl d ↦ let found : some x ≡ some a = rw d at h in cc (e, k, found)
    | inr d ↦ rw e (find-other p q xs a (rw d at h) k)
  ]
]

module _ {ℓ} {A : Type ℓ} where
  -- `xs[-1]`
  unfoldable pub last : List A → Option A
  last [] = none
  last (x ∷ xs) = elim (last xs) [ none ↦ some x | some y ↦ some y ]

  pub last-append : (xs : List A) (y : A) → last (xs ++ y ∷ []) ≡ some y
  unfolding last
  last-append [] y = refl
  last-append (x ∷ xs) y = rw (last-append xs y)

  pub select-append :
      (p : A → Bool) (xs ys : List A) → select p (xs ++ ys) ≡ select p xs ++ select p ys
  unfolding select
  select-append p [] ys = refl
  select-append p (x ∷ xs) ys = elim (Bool-cases (p x)) [
    | inl e ↦ rw (e, select-append p xs ys)
    | inr e ↦ rw (e, select-append p xs ys)
  ]

  -- A selection that keeps what another search asks for leaves its result alone.
  pub find-select :
      (p q : A → Bool)
      → ((x : A) → p x ≡ true → q x ≡ true)
      → (xs : List A) → find p (select q xs) ≡ find p xs
  unfolding find select
  find-select p q keep [] = refl
  find-select p q keep (x ∷ xs) = elim (Bool-cases (p x)) [
    | inl e ↦ rw (keep x e, e)
    | inr e ↦ elim (Bool-cases (q x)) [
      | inl d ↦ rw (d, e) (find-select p q keep xs)
      | inr d ↦ rw (d, e) (find-select p q keep xs)
    ]
  ]

  pub select-all : (p : A → Bool) → ((x : A) → p x ≡ true) → (xs : List A) → select p xs ≡ xs
  unfolding select
  select-all p yes_all [] = refl
  select-all p yes_all (x ∷ xs) = rw (yes_all x) (ap (λ r. x ∷ r) (select-all p yes_all xs))
