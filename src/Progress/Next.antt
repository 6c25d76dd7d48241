-- ===== src/Progress/Next.antt =====
-- `_derive_next_activity_key`: the first executable activity, or the complaint that two share a rank.
pub mod Ranked
pub mod First
pub mod Executable
pub mod Least
pub mod Distinct
pub mod Advances
use Prim.Native.String.{compare}
use text.Mathlib.Text.{is_le}
use paa_platform.Prelude.{
  ltb_ℤ, eqb_ℤ, ltb, length, String, Bool, not, ◌&&◌, ◌||◌, Option, none, some, List, [], ◌∷◌,
  is_empty, member, select, if◌then◌else◌, false,
}
use paa_platform.Progress.Models.{ActivityRecord, DependencyRecord}
use paa_platform.Progress.Groups.{Groups, group, add_to}

-- `predecessor_keys_by_successor`
unfoldable pub predecessors_by_successor : List DependencyRecord → Groups String → Groups String
predecessors_by_successor [] g = g
predecessors_by_successor (d ∷ ds) g =
    predecessors_by_successor ds (add_to d.successor_activity_key d.predecessor_activity_key g)

-- `bool(a & b)` on sets of keys.
unfoldable pub intersects : List String → List String → Bool
intersects [] ys = false
intersects (x ∷ xs) ys = member x ys || intersects xs ys

-- The tests of the loop: a remaining activity, no predecessor blocked, none unsatisfied.
unfoldable pub is_executable :
    Groups String → List String → List String → List String → ActivityRecord → Bool
is_executable predecessors completed blocked remaining a =
    let keys = group a.activity_key predecessors in
    if not (member a.activity_key remaining)
    then false
    else if intersects keys blocked
    then false
    else is_empty (select (λ key. not (member key completed)) keys)

-- `(a.sequence_order, a.activity_key) <= (b.sequence_order, b.activity_key)`
unfoldable pub ranked_before : ActivityRecord → ActivityRecord → Bool
ranked_before a b =
    ltb_ℤ a.sequence_order b.sequence_order
    || (eqb_ℤ a.sequence_order b.sequence_order && is_le (compare a.activity_key b.activity_key))

-- `executable.sort(key=…)`, a stable sort.
unfoldable pub insert_ranked : ActivityRecord → List ActivityRecord → List ActivityRecord
insert_ranked a [] = a ∷ []
insert_ranked a (b ∷ bs) = if ranked_before a b then a ∷ b ∷ bs else b ∷ insert_ranked a bs

unfoldable pub sort_ranked : List ActivityRecord → List ActivityRecord
sort_ranked [] = []
sort_ranked (a ∷ rest) = insert_ranked a (sort_ranked rest)

-- A key or `None` is returned, or a `ValueError` is raised.
pub data Derived : Type 0 where
  returned : Option String → Derived
  raised : String → Derived

abbrev pub ambiguity : String
ambiguity =
    "Duplicate executable activities share the same sequence order; successor derivation is ambiguous."

abbrev pub same_rank : ActivityRecord → ActivityRecord → Bool
same_rank first item = eqb_ℤ item.sequence_order first.sequence_order

-- From `if not executable` on, over the sorted list.
unfoldable pub pick_first : List ActivityRecord → Derived
pick_first [] = returned none
pick_first (first ∷ rest) =
    if ltb 1 (length (select (same_rank first) (first ∷ rest)))
    then raised ambiguity
    else returned (some first.activity_key)

unfoldable pub derive_next_activity_key :
    List ActivityRecord → Groups String → List String → List String → List String → Derived
derive_next_activity_key activities predecessors completed blocked remaining =
    pick_first
      (sort_ranked (select (is_executable predecessors completed blocked remaining) activities))
