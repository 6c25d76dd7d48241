-- ===== src/Progress/Next/Executable.antt =====
-- What makes an activity executable, in terms of the plan's dependencies.
use paa_platform.Prelude.{
  String, ◌≡◌, ◌↔◌, refl, Bool, true, false, not, ◌&&◌, ◌||◌, List, [], ◌∷◌, arith, eq_iff, ◌==◌,
  member, select, Bool-cases, inl, inr, is_empty,
}
use paa_platform.Progress.Models.{ActivityRecord, DependencyRecord}
use paa_platform.Progress.Groups.{Groups, group, add_to, group-add_to, member-set_add}
use paa_platform.Progress.Next.{predecessors_by_successor, intersects, is_executable}

-- Some dependency says that `p` must precede `k`.
unfoldable pub precedes : String → String → List DependencyRecord → Bool
precedes p k [] = false
precedes p k (d ∷ ds) =
    (d.successor_activity_key == k && d.predecessor_activity_key == p) || precedes p k ds

member-group-add_to :
    (p k s v : String) (g : Groups String)
    → member p (group k (add_to s v g)) ≡ ((s == k && v == p) || member p (group k g))
member-group-add_to p k s v g = rw (group-add_to s k v g) (elim (Bool-cases (s == k)) [
  | inl e ↦ rw e (ground (arith, member-set_add p v (group k g), eq_iff p v, eq_iff v p))
  | inr e ↦ rw e
])

member-predecessors :
    (p k : String) (ds : List DependencyRecord) (g : Groups String)
    → member p (group k (predecessors_by_successor ds g))
      ≡ (precedes p k ds || member p (group k g))
unfolding predecessors_by_successor precedes
member-predecessors p k [] g = refl
member-predecessors p k (d ∷ ds) g =
    let s = d.successor_activity_key in
    let v = d.predecessor_activity_key in
    ground (arith, member-predecessors p k ds (add_to s v g), member-group-add_to p k s v g)

-- The key of a member that a list holds, first or later.
pub member-split :
    (p k : String) (keys : List String) (P : String → Type 0)
    → P k
    → (member p keys ≡ true → P p)
    → member p (k ∷ keys) ≡ true
    → P p
member-split p k keys P here later m = elim (Bool-cases (p == k)) [
  | inl e ↦ rw ((eq_iff p k).0 e) here
  | inr e ↦ later (rw e at m)
]

unsatisfied : List String → List String → List String
unsatisfied completed keys = select (λ key. not (member key completed)) keys

-- No predecessor is unsatisfied exactly when every one of them is completed.
all_completed :
    (completed keys : List String)
    → is_empty (unsatisfied completed keys) ≡ true
    → (p : String) → member p keys ≡ true
    → member p completed ≡ true
unfolding unsatisfied select
all_completed completed [] h p m = cc
all_completed completed (k ∷ keys) h p m =
    member-split p k keys (λ q. member q completed ≡ true) (ground arith)
      (all_completed completed keys (ground arith) p) m

pub member-head : (k : String) (keys : List String) → member k (k ∷ keys) ≡ true
member-head k keys = ground (arith, eq_iff k k)

member-tail :
    (p k : String) (keys : List String) → member p keys ≡ true → member p (k ∷ keys) ≡ true
member-tail p k keys h = ground arith

none_unsatisfied :
    (completed keys : List String)
    → ((p : String) → member p keys ≡ true → member p completed ≡ true)
    → is_empty (unsatisfied completed keys) ≡ true
unfolding unsatisfied select
none_unsatisfied completed [] h = refl
none_unsatisfied completed (k ∷ keys) h =
    rw (h k (member-head k keys))
      (none_unsatisfied completed keys (λ p m. h p (member-tail p k keys m)))

none_shared :
    (keys blocked : List String)
    → intersects keys blocked ≡ false
    → (p : String) → member p keys ≡ true
    → member p blocked ≡ false
unfolding intersects
none_shared [] blocked h p m = cc
none_shared (k ∷ keys) blocked h p m =
    member-split p k keys (λ q. member q blocked ≡ false) (ground arith)
      (none_shared keys blocked (ground arith) p) m

shares_none :
    (keys blocked : List String)
    → ((p : String) → member p keys ≡ true → member p blocked ≡ false)
    → intersects keys blocked ≡ false
unfolding intersects
shares_none [] blocked h = refl
shares_none (k ∷ keys) blocked h =
    rw (h k (member-head k keys)) (shares_none keys blocked (λ p m. h p (member-tail p k keys m)))

-- An activity can start: it remains to be done, and what must precede it is completed and not
-- blocked.
pub record Ready (ds : List DependencyRecord) (completed blocked remaining : List String)
    (a : ActivityRecord) : Type 0 where
  pub to_do : member a.activity_key remaining ≡ true
  pub done_before : (p : String) → precedes p a.activity_key ds ≡ true → member p completed ≡ true
  pub none_blocked : (p : String) → precedes p a.activity_key ds ≡ true → member p blocked ≡ false

module _ (ds : List DependencyRecord) (completed blocked remaining : List String)
    (a : ActivityRecord) where
  abbrev predecessors : Groups String
  predecessors = predecessors_by_successor ds []

  abbrev keys : List String
  keys = group a.activity_key predecessors

  keys-precedes : (p : String) → member p keys ≡ precedes p a.activity_key ds
  unfolding group
  keys-precedes p = ground (arith, member-predecessors p a.activity_key ds [])

  -- The tests of the loop pass exactly for the activities that can start.
  pub is_executable-Ready :
      (is_executable predecessors completed blocked remaining a ≡ true)
      ↔ Ready ds completed blocked remaining a
  unfolding is_executable unsatisfied
  is_executable-Ready = (
    (λ h. record {
      to_do = ground arith;
      done_before = λ p m. all_completed completed keys (ground arith) p (rw (keys-precedes p) m);
      none_blocked = λ p m. none_shared keys blocked (ground arith) p (rw (keys-precedes p) m);
    }),
    λ r. ground (
      arith,
      r.to_do,
      shares_none keys blocked (λ p m. r.none_blocked p (rw (keys-precedes p) at m)),
      none_unsatisfied completed keys (λ p m. r.done_before p (rw (keys-precedes p) at m)),
    ),
  )
