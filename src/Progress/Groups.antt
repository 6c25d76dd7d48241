-- ===== src/Progress/Groups.antt =====
-- The dictionaries of lists and of sets that the progress service builds by `setdefault`.
use paa_platform.Prelude.{
  String, ◌≡◌, List, [], ◌∷◌, ◌++◌, arith, ◌==◌, eq_iff, member, if◌then◌else◌, ◌||◌, true,
  Bool-cases, inl, inr, member-append,
}

abbrev pub Groups : Type 0 → Type 0
Groups V = List (String × List V)

module _ {V : Type 0} where
  -- `groups.get(key, ())`
  unfoldable pub group : String → Groups V → List V
  group k [] = []
  group k ((j, vs) ∷ g) = if j == k then vs else group k g

  -- `groups.setdefault(key, []).append(value)`
  unfoldable pub append_to : String → V → Groups V → Groups V
  append_to k v [] = (k, v ∷ []) ∷ []
  append_to k v ((j, vs) ∷ g) = if j == k then (j, vs ++ v ∷ []) ∷ g else (j, vs) ∷ append_to k v g

  pub group-append_to :
      (k j : String) (v : V) (g : Groups V)
      → group j (append_to k v g) ≡ (if k == j then group j g ++ v ∷ [] else group j g)
  unfolding group append_to
  group-append_to k j v [] = ground arith
  group-append_to k j v ((i, vs) ∷ g) =
      ground (arith, eq_iff k j, eq_iff i k, eq_iff i j, group-append_to k j v g)

-- `keys.add(key)` on a set of texts.
unfoldable pub set_add : String → List String → List String
set_add k ks = if member k ks then ks else ks ++ k ∷ []

-- `groups.setdefault(key, set()).add(value)`
unfoldable pub add_to : String → String → Groups String → Groups String
add_to k v [] = (k, set_add v []) ∷ []
add_to k v ((j, vs) ∷ g) = if j == k then (j, set_add v vs) ∷ g else (j, vs) ∷ add_to k v g

absorbed :
    (a k : String) (ks : List String) → member k ks ≡ true → member a ks ≡ (a == k || member a ks)
absorbed a k ks h = elim (Bool-cases (a == k)) [
  | inl e ↦ rw e (rw ((eq_iff a k).0 e) h)
  | inr e ↦ rw e
]

pub member-set_add :
    (a k : String) (ks : List String) → member a (set_add k ks) ≡ (a == k || member a ks)
unfolding set_add
member-set_add a k ks = elim (Bool-cases (member k ks)) [
  | inl old ↦ rw old (absorbed a k ks old)
  | inr new ↦ rw new (ground (arith, member-append a ks (k ∷ [])))
]

pub group-add_to :
    (k j v : String) (g : Groups String)
    → group j (add_to k v g) ≡ (if k == j then set_add v (group j g) else group j g)
unfolding group add_to
group-add_to k j v [] = ground (arith, eq_iff k j)
group-add_to k j v ((i, vs) ∷ g) =
    ground (arith, eq_iff k j, eq_iff i k, eq_iff i j, group-add_to k j v g)
