-- ===== src/Progress/Classify/Partition.antt =====
-- The four lists under which the loop of `_build_summary` files the activities.
use mathlib.Core.List.{append_assoc, append-nil, Perm, perm_middle}
use mathlib.Core.List.Perm
use paa_platform.Prelude.{
  String, ◌≡◌, refl, Bool, true, false, List, [], ◌∷◌, ◌++◌, map, arith, select, if◌then◌else◌,
  Bool-cases, inl, inr,
}
use paa_platform.Progress.Models.{Classification, ActivityRecord, VerificationSurfaceRecord}
use paa_platform.Progress.Groups.{Groups}
use paa_platform.Progress.Classify.{
  Tally, empty_tally, activity_detail, file_under, tally_activity, tally_all,
}

abbrev pub same_class : Classification → Classification → Bool
same_class Classification.completed Classification.completed = true
same_class Classification.remaining Classification.remaining = true
same_class Classification.blocked Classification.blocked = true
same_class Classification.deferred Classification.deferred = true
same_class _ _ = false

module _ (required : Groups VerificationSurfaceRecord) where
  abbrev pub class_of : ActivityRecord → Classification
  class_of a = (activity_detail required a).classification

  -- The keys of the activities of one class, in plan order.
  unfoldable pub keys_of : Classification → List ActivityRecord → List String
  keys_of c activities =
      map (λ a. a.activity_key) (select (λ a. same_class c (class_of a)) activities)

  -- What the loop has added to the four lists.
  pub record Filed (activities : List ActivityRecord) (t u : Tally) : Type 0 where
    pub completed : u.completed ≡ t.completed ++ keys_of Classification.completed activities
    pub deferred : u.deferred ≡ t.deferred ++ keys_of Classification.deferred activities
    pub blocked : u.blocked ≡ t.blocked ++ keys_of Classification.blocked activities
    pub remaining : u.remaining ≡ t.remaining ++ keys_of Classification.remaining activities

  pub keys_of-cons :
      (c : Classification) (a : ActivityRecord) (activities : List ActivityRecord)
      → keys_of c (a ∷ activities) ≡ (
          if same_class c (class_of a)
          then a.activity_key ∷ keys_of c activities
          else keys_of c activities)
  unfolding keys_of select
  keys_of-cons c a activities = elim (Bool-cases (same_class c (class_of a))) [
    | inl e ↦ rw e
    | inr e ↦ rw e
  ]

  -- One turn of the loop appends the key to the list of its class.
  list_of : Classification → Tally → List String
  list_of Classification.completed t = t.completed
  list_of Classification.deferred t = t.deferred
  list_of Classification.blocked t = t.blocked
  list_of Classification.remaining t = t.remaining

  list_of-tally_activity :
      (c : Classification) (a : ActivityRecord) (t : Tally)
      → list_of c (tally_activity required a t)
        ≡ (if same_class c (class_of a) then list_of c t ++ a.activity_key ∷ [] else list_of c t)
  unfolding list_of tally_activity file_under
  list_of-tally_activity Classification.completed a t = ground arith
  list_of-tally_activity Classification.deferred a t = ground arith
  list_of-tally_activity Classification.blocked a t = ground arith
  list_of-tally_activity Classification.remaining a t = ground arith

  list_of-tally_all :
      (c : Classification) (activities : List ActivityRecord) (t : Tally)
      → list_of c (tally_all required activities t) ≡ list_of c t ++ keys_of c activities
  unfolding tally_all
  list_of-tally_all c [] t = unfold keys_of select in rw append-nil
  list_of-tally_all c (a ∷ activities) t =
      rw (list_of-tally_all c activities (tally_activity required a t)) (
        ground (
          arith,
          list_of-tally_activity c a t,
          keys_of-cons c a activities,
          append_assoc (list_of c t) (a.activity_key ∷ []) (keys_of c activities),
        ))

  -- Each list holds the keys of the activities of its class, in plan order.
  pub tally-Filed :
      (activities : List ActivityRecord)
      → Filed activities empty_tally (tally_all required activities empty_tally)
  unfolding list_of
  tally-Filed activities = record {
    completed = list_of-tally_all Classification.completed activities empty_tally;
    deferred = list_of-tally_all Classification.deferred activities empty_tally;
    blocked = list_of-tally_all Classification.blocked activities empty_tally;
    remaining = list_of-tally_all Classification.remaining activities empty_tally;
  }

  -- The four lists of keys together, as one list.
  pub all_keys : List ActivityRecord → List String
  all_keys activities =
      keys_of Classification.completed activities
      ++ (keys_of Classification.deferred activities
          ++ (keys_of Classification.blocked activities
              ++ keys_of Classification.remaining activities))

  all_keys-cons :
      (c : Classification) (a : ActivityRecord) (activities : List ActivityRecord)
      → class_of a ≡ c
      → Perm (all_keys (a ∷ activities)) (a.activity_key ∷ all_keys activities)
  unfolding all_keys
  all_keys-cons Classification.completed a activities e = simp (keys_of-cons, e) (Perm.refl _)
  all_keys-cons Classification.deferred a activities e =
      simp (keys_of-cons, e) (perm_middle (keys_of Classification.completed activities) _)
  all_keys-cons Classification.blocked a activities e =
      let done = keys_of Classification.completed activities in
      simp (keys_of-cons, e)
        (Perm.trans
          (Perm.append_left done (perm_middle (keys_of Classification.deferred activities) _))
          (perm_middle done _))
  all_keys-cons Classification.remaining a activities e =
      let done = keys_of Classification.completed activities in
      let later = keys_of Classification.deferred activities in
      simp (keys_of-cons, e)
        (Perm.trans
          (Perm.append_left done (
            Perm.trans
              (Perm.append_left later (perm_middle (keys_of Classification.blocked activities) _))
              (perm_middle later _)))
          (perm_middle done _))

  -- No activity is lost or filed twice: the four lists together are a permutation of the plan's keys.
  all_keys-perm :
      (activities : List ActivityRecord)
      → Perm (all_keys activities) (map (λ a. a.activity_key) activities)
  all_keys-perm [] = unfold all_keys keys_of select in Perm.refl []
  all_keys-perm (a ∷ activities) =
      Perm.trans (all_keys-cons (class_of a) a activities refl)
        (Perm.cons a.activity_key (all_keys-perm activities))

  -- After the loop the four lists are a permutation of the keys of the plan's activities, so that
  -- every activity is filed exactly once.
  pub tally-perm :
      (activities : List ActivityRecord)
      → let t = tally_all required activities empty_tally in
        Perm
          (t.completed ++ (t.deferred ++ (t.blocked ++ t.remaining)))
          (map (λ a. a.activity_key) activities)
  tally-perm activities =
      let f = tally-Filed activities in
      rw (f.completed, f.deferred, f.blocked, f.remaining)
        (unfold all_keys in all_keys-perm activities)
