-- ===== src/Progress/Summary/Workable.antt =====
-- A plan that can be worked off: each summary names a next activity, and the completion of that one
-- leaves a plan that can be worked off, with less that remains.
use mathlib.Core.Path.{subst}
use paa_platform.Prelude.{
  select, ℕ, ◌<◌, String, ◌≡◌, ◌≢◌, refl, ap, ◌∙◌, true, false, some, List, [], ◌∷◌, map, member,
  All, All-map, All-lookup, inl, inr, length,
}
use paa_platform.Progress.Models.{
  Classification, ActivityRecord, DependencyRecord, VerificationSurfaceRecord, PlanRecord,
}
use paa_platform.Progress.Groups.{Groups}
use paa_platform.Progress.Classify.{empty_tally, required_by_activity, tally_all}
use paa_platform.Progress.Classify.Partition.{keys_of, tally-Filed, same_class}
use paa_platform.Progress.Classify.Members.{member-keys, member-keys_of, keys_of-none}
use paa_platform.Progress.Classify.Completed.{Verified}
use paa_platform.Progress.Classify.Completing.{Completes, Going, Going-completed, class, all_done}
use paa_platform.Progress.Next.Distinct.{Distinct}
use paa_platform.Progress.Next.Advances.{Settled}
use paa_platform.Progress.Summary.{finish_summary, build_summary, empty_summary}
use paa_platform.Progress.Summary.Next.{next-Ready}
use paa_platform.Progress.Summary.Advances.{next_of_tally}

-- The lists of a summary in terms of the classes.
remaining-build :
    (plan : PlanRecord) (activities : List ActivityRecord) (ds : List DependencyRecord)
    (surfaces : List VerificationSurfaceRecord)
    → (build_summary plan activities ds surfaces).remaining_activity_keys
      ≡ keys_of (required_by_activity surfaces []) Classification.remaining activities
unfolding build_summary empty_summary finish_summary keys_of select
remaining-build plan [] ds surfaces = refl
remaining-build plan (x ∷ xs) ds surfaces =
    (tally-Filed (required_by_activity surfaces []) (x ∷ xs)).remaining

pub count-build :
    (plan : PlanRecord) (activities : List ActivityRecord) (ds : List DependencyRecord)
    (surfaces : List VerificationSurfaceRecord)
    → (build_summary plan activities ds surfaces).remaining_activity_count
      ≡ length (keys_of (required_by_activity surfaces []) Classification.remaining activities)
unfolding build_summary empty_summary finish_summary keys_of select
count-build plan [] ds surfaces = refl
count-build plan (x ∷ xs) ds surfaces =
    ap length (tally-Filed (required_by_activity surfaces []) (x ∷ xs)).remaining

completed-build :
    (plan : PlanRecord) (activities : List ActivityRecord) (ds : List DependencyRecord)
    (surfaces : List VerificationSurfaceRecord)
    → (build_summary plan activities ds surfaces).completed_activity_keys
      ≡ keys_of (required_by_activity surfaces []) Classification.completed activities
unfolding build_summary empty_summary finish_summary keys_of select
completed-build plan [] ds surfaces = refl
completed-build plan (x ∷ xs) ds surfaces =
    (tally-Filed (required_by_activity surfaces []) (x ∷ xs)).completed

module _ (surfaces : List VerificationSurfaceRecord)
    (verified : (id : String) → All (Verified id) surfaces) (ds : List DependencyRecord) where
  -- No two activities share an order, the predecessors are activities of the plan, and each activity is
  -- completed or can be worked on.
  pub record Workable (activities : List ActivityRecord) : Type 0 where
    pub distinct : Distinct activities
    pub inside :
        All
          (λ d. member d.predecessor_activity_key (map (λ a. a.activity_key) activities) ≡ true)
          ds
    pub going : All (Going surfaces verified) activities

  abbrev required : Groups VerificationSurfaceRecord
  required = required_by_activity surfaces []

  not-blocked :
      (a : ActivityRecord)
      → Going surfaces verified a
      → same_class Classification.blocked (class surfaces verified a) ≡ false
  not-blocked a (inl e) = rw e
  not-blocked a (inr e) = rw e

  pub none_blocked :
      (activities : List ActivityRecord)
      → Workable activities
      → keys_of required Classification.blocked activities ≡ []
  none_blocked activities w =
      keys_of-none required Classification.blocked activities
        (All-map activities not-blocked w.going)

  Settled-key :
      (activities : List ActivityRecord) (p : String)
      → Workable activities
      → member p (map (λ a. a.activity_key) activities) ≡ true
      → let t = tally_all required activities empty_tally in
        Settled t.completed t.blocked t.remaining p
  Settled-key activities p w h =
      let f = tally-Filed required activities in
      let (a, m, key) = member-keys p activities h in
      (
        elim (All-lookup (Going surfaces verified) activities w.going m) [
          | inl e ↦ inl (
              rw (f.completed, ← key)
                (member-keys_of required Classification.completed activities e m))
          | inr e ↦ inr (
              rw (f.remaining, ← key)
                (member-keys_of required Classification.remaining activities e m))
        ],
        rw (f.blocked, none_blocked activities w) refl,
      )

  module _ (k : String) (set : ActivityRecord → ActivityRecord) where
    pub keys-completed :
        (activities : List ActivityRecord)
        → All (λ a. Completes k a (set a)) activities
        → map (λ a. a.activity_key) (map set activities) ≡ map (λ a. a.activity_key) activities
    keys-completed [] h = refl
    keys-completed (a ∷ activities) h =
        rw (h.0.same_key) (ap (λ ks. a.activity_key ∷ ks) (keys-completed activities h.1))

    orders-completed :
        (x : ActivityRecord) (activities : List ActivityRecord)
        → All (λ a. Completes k a (set a)) activities
        → All (λ b. b.sequence_order ≢ x.sequence_order) activities
        → All (λ b. b.sequence_order ≢ x.sequence_order) (map set activities)
    orders-completed x [] h d = tt
    orders-completed x (a ∷ activities) h d =
        (rw (h.0.same_order) d.0, orders-completed x activities h.1 d.1)

    Distinct-completed :
        (activities : List ActivityRecord)
        → All (λ a. Completes k a (set a)) activities
        → Distinct activities
        → Distinct (map set activities)
    Distinct-completed [] h d = tt
    Distinct-completed (a ∷ activities) h d = (
      rw (h.0.same_order) (orders-completed a activities h.1 d.0),
      Distinct-completed activities h.1 d.1,
    )

    All-Going-completed :
        (activities : List ActivityRecord)
        → All (λ a. Completes k a (set a)) activities
        → All (Going surfaces verified) activities
        → All (Going surfaces verified) (map set activities)
    All-Going-completed [] h g = tt
    All-Going-completed (a ∷ activities) h g = (
      Going-completed surfaces verified k a (set a) h.0 g.0,
      All-Going-completed activities h.1 g.1,
    )

    -- A plan stays one that can be worked off.
    pub Workable-completed :
        (activities : List ActivityRecord)
        → All (λ a. Completes k a (set a)) activities
        → Workable activities
        → Workable (map set activities)
    Workable-completed activities h w = record {
      distinct = Distinct-completed activities h w.distinct;
      inside = rw (keys-completed activities h) w.inside;
      going = All-Going-completed activities h w.going;
    }

  abbrev pub remaining_keys : List ActivityRecord → List String
  remaining_keys = keys_of required Classification.remaining

  -- Where nothing remains, the summary lists every activity as completed.
  pub none_remaining :
      (plan : PlanRecord) (activities : List ActivityRecord)
      → Workable activities
      → remaining_keys activities ≡ []
      → (build_summary plan activities ds surfaces).completed_activity_keys
        ≡ map (λ a. a.activity_key) activities
  none_remaining plan activities w e =
      completed-build plan activities ds surfaces ∙ all_done surfaces verified activities w.going e

  -- A next activity is one that remains.
  pub next-member :
      (plan : PlanRecord) (activities : List ActivityRecord) (k : String)
      → (build_summary plan activities ds surfaces).next_activity_key ≡ some k
      → member k (remaining_keys activities) ≡ true
  next-member plan activities k next =
      let (a, key, mem, ready) = next-Ready plan activities ds surfaces k next in
      subst (λ j. member j (remaining_keys activities) ≡ true) key
        (subst (λ ks. member a.activity_key ks ≡ true) (remaining-build plan activities ds surfaces)
          ready.to_do)

  -- Where something remains, there is a next activity.
  pub next_of_Workable :
      (plan : PlanRecord) (rank : String → ℕ)
      → All (λ d. rank d.predecessor_activity_key < rank d.successor_activity_key) ds
      → (activities : List ActivityRecord) → Workable activities
      → remaining_keys activities ≢ []
      → (k : String) × ((build_summary plan activities ds surfaces).next_activity_key ≡ some k)
  next_of_Workable plan rank ordered activities w left =
      let f = tally-Filed required activities in
      next_of_tally plan ds surfaces rank ordered activities w.distinct
        (All-map ds (λ (d : DependencyRecord). Settled-key activities d.predecessor_activity_key w)
          w.inside)
        (rw f.remaining left)
