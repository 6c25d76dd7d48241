-- ===== src/Progress/Classify/Members.antt =====
-- The keys of the four lists, as the keys of activities.
use paa_platform.Prelude.{
  ◌≤◌, length, String, ◌≡◌, refl, true, List, [], ◌∷◌, map, Memᴰ, arith, eq_iff, ◌==◌, member,
  select, select-Memᴰ, All, false, Bool-cases, inl, inr,
}
use paa_platform.Progress.Models.{Classification, ActivityRecord, VerificationSurfaceRecord}
use paa_platform.Progress.Groups.{Groups}
use paa_platform.Progress.Classify.{empty_tally, tally_all}
use paa_platform.Progress.Classify.Partition.{
  tally-Filed, keys_of, keys_of-cons, same_class, class_of,
}

-- A key that a list of activities has is that of one of them.
pub member-keys :
    (k : String) (xs : List ActivityRecord)
    → member k (map (λ a. a.activity_key) xs) ≡ true
    → (a : ActivityRecord) × Memᴰ a xs × (a.activity_key ≡ k)
member-keys k [] h = cc
member-keys k (a ∷ xs) h = elim (Bool-cases (k == a.activity_key)) [
  | inl e ↦ (a, Memᴰ.head refl, ground (arith, eq_iff k a.activity_key))
  | inr e ↦ let (b, m, key) = member-keys k xs (rw e at h) in (b, Memᴰ.tail m, key)
]

module _ (required : Groups VerificationSurfaceRecord) where
  -- A remaining key is the key of an activity of the plan.
  pub listed :
      (activities : List ActivityRecord) (k : String)
      → member k (tally_all required activities empty_tally).remaining ≡ true
      → (a : ActivityRecord) × Memᴰ a activities × (a.activity_key ≡ k)
  unfolding keys_of
  listed activities k h =
      let test =
        λ (a : ActivityRecord). same_class Classification.remaining (class_of required a) in
      let (a, m, key) =
        member-keys k (select test activities)
          (rw (tally-Filed required activities).remaining at h) in
      (a, select-Memᴰ test activities m, key)

  same_class_refl : (c : Classification) → same_class c c ≡ true
  same_class_refl Classification.completed = refl
  same_class_refl Classification.remaining = refl
  same_class_refl Classification.blocked = refl
  same_class_refl Classification.deferred = refl

  -- Each activity has its key in the list of its class.
  pub member-keys_of :
      (c : Classification) (activities : List ActivityRecord) {a : ActivityRecord}
      → class_of required a ≡ c
      → Memᴰ a activities
      → member a.activity_key (keys_of required c activities) ≡ true
  member-keys_of c [] e m = elim m [ ]
  member-keys_of c (x ∷ xs) e (Memᴰ.head same) =
      let own : same_class c (class_of required x) ≡ true =
        rw (← same) (rw e (same_class_refl c)) in
      rw (keys_of-cons required c x xs, own, same)
        (ground (arith, eq_iff x.activity_key x.activity_key))
  member-keys_of c (x ∷ xs) e (Memᴰ.tail m) =
      rw (keys_of-cons required c x xs) (ground (arith, member-keys_of c xs e m))

  -- A class that no activity has has no keys.
  pub keys_of-none :
      (c : Classification) (activities : List ActivityRecord)
      → All (λ a. same_class c (class_of required a) ≡ false) activities
      → keys_of required c activities ≡ []
  keys_of-none c [] h = unfold keys_of select in refl
  keys_of-none c (a ∷ activities) h =
      rw (keys_of-cons required c a activities, h.0) (keys_of-none c activities h.1)

  -- No class has more keys than there are activities.
  pub length-keys_of :
      (c : Classification) (activities : List ActivityRecord)
      → length (keys_of required c activities) ≤ length activities
  length-keys_of c [] = unfold keys_of select in omega arith
  length-keys_of c (a ∷ activities) =
      rw (keys_of-cons required c a activities)
        (elim (Bool-cases (same_class c (class_of required a))) [
          | inl e ↦ rw e (omega (arith, length-keys_of c activities))
          | inr e ↦ rw e (omega (arith, length-keys_of c activities))
        ])
