-- ===== src/Progress/Classify/Completing.antt =====
-- What the completion of one activity does to the classes of a plan's activities, where all the
-- verification that the plan requires has passed.
use paa_platform.Prelude.{
  ℕ, ◌+◌, if◌then◌else◌, ◌≤◌, ◌<◌, String, ◌≡◌, ◌⊎◌, refl, true, false, List, [], ◌∷◌, map, arith,
  eq_iff, ◌==◌, member, All, Bool-cases, inl, inr, length, ap, select,
}
use paa_platform.Progress.Models.{Classification, ActivityRecord, VerificationSurfaceRecord}
use paa_platform.Progress.Classify.{required_by_activity}
use paa_platform.Progress.Classify.Partition.{keys_of, keys_of-cons, same_class, class_of}
use paa_platform.Progress.Classify.Completed.{Verified, completed-Verified}

-- `b` is `a` after the activities of the key `k` have been completed.
pub record Completes (k : String) (a b : ActivityRecord) : Type 0 where
  pub same_key : b.activity_key ≡ a.activity_key
  pub same_order : b.sequence_order ≡ a.sequence_order
  pub here : (a.activity_key == k) ≡ true → b.activity_state ≡ "completed"
  pub elsewhere : (a.activity_key == k) ≡ false → b ≡ a

module _ (surfaces : List VerificationSurfaceRecord)
    (verified : (id : String) → All (Verified id) surfaces) where
  abbrev pub class : ActivityRecord → Classification
  class = class_of (required_by_activity surfaces [])

  -- An activity is completed or can be worked on.
  abbrev pub Going : ActivityRecord → Type 0
  Going a = (class a ≡ Classification.completed) ⊎ (class a ≡ Classification.remaining)

  abbrev remaining_keys : List ActivityRecord → List String
  remaining_keys = keys_of (required_by_activity surfaces []) Classification.remaining

  class_here :
      (k : String) (a b : ActivityRecord)
      → Completes k a b
      → (a.activity_key == k) ≡ true
      → class b ≡ Classification.completed
  class_here k a b c e =
      (completed-Verified surfaces b).1 (c.here e, verified b.implementation_plan_activity_id)

  pub Going-completed : (k : String) (a b : ActivityRecord) → Completes k a b → Going a → Going b
  Going-completed k a b c g = elim (Bool-cases (a.activity_key == k)) [
    | inl e ↦ inl (class_here k a b c e)
    | inr e ↦ rw (c.elsewhere e) g
  ]

  -- Where no key remains, every activity that is completed or can be worked on is completed.
  pub all_done :
      (activities : List ActivityRecord)
      → All Going activities
      → remaining_keys activities ≡ []
      → keys_of (required_by_activity surfaces []) Classification.completed activities
        ≡ map (λ a. a.activity_key) activities
  all_done [] g e = unfold keys_of select in refl
  all_done (a ∷ activities) g e =
      let required = required_by_activity surfaces [] in
      let e' = rw (keys_of-cons required Classification.remaining a activities) at e in
      rw (keys_of-cons required Classification.completed a activities) (elim g.0 [
        | inl done ↦
            rw done (ap (λ ks. a.activity_key ∷ ks) (all_done activities g.1 (rw done at e')))
        | inr left ↦
            let none_left : a.activity_key ∷ remaining_keys activities ≡ [] = rw left at e' in cc
      ])

  -- How much an activity adds to the list of remaining keys.
  abbrev open_count : ActivityRecord → ℕ
  open_count a = if same_class Classification.remaining (class a) then 1 else 0

  length-remaining_cons :
      (a : ActivityRecord) (activities : List ActivityRecord)
      → length (remaining_keys (a ∷ activities)) ≡ open_count a + length (remaining_keys activities)
  length-remaining_cons a activities =
      rw (keys_of-cons (required_by_activity surfaces []) Classification.remaining a activities)
        (elim (Bool-cases (same_class Classification.remaining (class a))) [
          | inl e ↦ rw e (omega arith)
          | inr e ↦ rw e (omega arith)
        ])

  open_count_here :
      (k : String) (a b : ActivityRecord)
      → Completes k a b
      → (a.activity_key == k) ≡ true
      → open_count b ≡ 0
  open_count_here k a b c e = rw (class_here k a b c e)

  open_count_le :
      (k : String) (a b : ActivityRecord) → Completes k a b → open_count b ≤ open_count a
  open_count_le k a b c = elim (Bool-cases (a.activity_key == k)) [
    | inl e ↦ rw (class_here k a b c e) (omega arith)
    | inr e ↦ rw (c.elsewhere e) (omega arith)
  ]

  module _ (k : String) (set : ActivityRecord → ActivityRecord) where
    pub shrinks :
        (activities : List ActivityRecord)
        → All (λ a. Completes k a (set a)) activities
        → length (remaining_keys (map set activities)) ≤ length (remaining_keys activities)
    unfolding keys_of
    shrinks [] h = omega arith
    shrinks (a ∷ activities) h = omega (
      arith,
      length-remaining_cons a activities,
      length-remaining_cons (set a) (map set activities),
      open_count_le k a (set a) h.0,
      shrinks activities h.1,
    )

    none_remain : member k (remaining_keys []) ≡ true → ⊥
    unfolding keys_of select
    none_remain m = cc

    -- A remaining key is that of the head, which remains, or remains in the rest.
    member-remaining_cons :
        (a : ActivityRecord) (activities : List ActivityRecord)
        → member k (remaining_keys (a ∷ activities)) ≡ true
        → (((a.activity_key == k) ≡ true) × (open_count a ≡ 1))
          ⊎ (member k (remaining_keys activities) ≡ true)
    member-remaining_cons a activities m =
        let cons =
          keys_of-cons (required_by_activity surfaces []) Classification.remaining a activities in
        let m' = rw cons at m in
        elim (Bool-cases (same_class Classification.remaining (class a))) [
          | inr e ↦ inr (rw e at m')
          | inl e ↦ elim (Bool-cases (k == a.activity_key)) [
            | inl here ↦
                inl (ground (arith, eq_iff k a.activity_key, eq_iff a.activity_key k), rw e refl)
            | inr there ↦ inr (rw (e, there) at m')
          ]
        ]

    -- The completion of a remaining key leaves fewer keys that remain.
    pub falls :
        (activities : List ActivityRecord)
        → All (λ a. Completes k a (set a)) activities
        → member k (remaining_keys activities) ≡ true
        → length (remaining_keys (map set activities)) < length (remaining_keys activities)
    falls [] h m = absurd (none_remain m)
    falls (a ∷ activities) h m = elim (member-remaining_cons a activities m) [
      | inl (here, counted) ↦ omega (
        arith,
        length-remaining_cons a activities,
        length-remaining_cons (set a) (map set activities),
        open_count_here k a (set a) h.0 here,
        counted,
        shrinks activities h.1,
      )
      | inr later ↦ omega (
        arith,
        length-remaining_cons a activities,
        length-remaining_cons (set a) (map set activities),
        open_count_le k a (set a) h.0,
        falls activities h.1 later,
      )
    ]
