-- ===== src/Progress/Summary/Advances.antt =====
-- When a plan can go on: a summary with work that remains names the next activity.
use paa_platform.Prelude.{
  ℕ, ◌<◌, String, ◌≡◌, ◌≢◌, refl, false, some, List, [], ◌∷◌, arith, member, All, All-map,
  member-append, ap,
}
use paa_platform.Progress.Models.{
  ActivityRecord, DependencyRecord, VerificationSurfaceRecord, PlanRecord,
}
use paa_platform.Progress.Classify.{empty_tally, required_by_activity, tally_all}
use paa_platform.Progress.Classify.Members.{listed}
use paa_platform.Progress.Next.{Derived, returned, raised}
use paa_platform.Progress.Next.Distinct.{Distinct}
use paa_platform.Progress.Next.Advances.{Settled, derived-some}
use paa_platform.Progress.Summary.{
  next_of, blocked_after, finish_summary, derived_from, build_summary, empty_summary,
}

-- The complaint of an ambiguous derivation only adds to the blocked keys.
not-blocked_after :
    (d : Derived) (p : String) (blocked : List String)
    → member p (blocked_after d blocked) ≡ false
    → member p blocked ≡ false
not-blocked_after (returned key) p blocked h = h
not-blocked_after (raised issue) p blocked h = ground (arith, member-append p blocked (issue ∷ []))

-- What the dependencies of a plan are like when they go up in rank, one settled predecessor each.
module _ (plan : PlanRecord) (ds : List DependencyRecord)
    (surfaces : List VerificationSurfaceRecord) (rank : String → ℕ)
    (ordered : All (λ d. rank d.predecessor_activity_key < rank d.successor_activity_key) ds) where
  -- The next activity in terms of the lists of the loop.
  pub next_of_tally :
      (activities : List ActivityRecord)
      → Distinct activities
      → let t = tally_all (required_by_activity surfaces []) activities empty_tally in
        All (λ d. Settled t.completed t.blocked t.remaining d.predecessor_activity_key) ds
        → t.remaining ≢ []
        → (k : String) × ((build_summary plan activities ds surfaces).next_activity_key ≡ some k)
  unfolding build_summary empty_summary finish_summary derived_from tally_all
  next_of_tally [] distinct settled left = absurd (left refl)
  next_of_tally (x ∷ xs) distinct settled left =
      let required = required_by_activity surfaces [] in
      let t = tally_all required (x ∷ xs) empty_tally in
      let (k, e) =
        derived-some rank ds (x ∷ xs) t.completed t.blocked t.remaining ordered settled
          (listed required (x ∷ xs)) left distinct in
      (k, ap next_of e)

  -- A plan with work that remains can go on, and its summary names the next activity, where no two
  -- activities share a sequence order, the dependencies go up in some rank of the keys, and every
  -- predecessor is listed as completed or remaining and not as blocked.
  pub next_exists :
      (activities : List ActivityRecord)
      → Distinct activities
      → let s = build_summary plan activities ds surfaces in
        All
          (λ d.
            Settled s.completed_activity_keys s.blocked_activity_keys s.remaining_activity_keys
              d.predecessor_activity_key)
          ds
        → s.remaining_activity_keys ≢ []
        → (k : String) × (s.next_activity_key ≡ some k)
  unfolding build_summary empty_summary finish_summary
  next_exists [] distinct settled left = absurd (left refl)
  next_exists (x ∷ xs) distinct settled left =
      let t = tally_all (required_by_activity surfaces []) (x ∷ xs) empty_tally in
      let blocked = blocked_after (derived_from (x ∷ xs) ds t) t.blocked in
      next_of_tally (x ∷ xs) distinct
        (All-map ds
          (λ (e : DependencyRecord)
              (h : Settled t.completed blocked t.remaining e.predecessor_activity_key).
            (h.0, not-blocked_after _ e.predecessor_activity_key t.blocked h.1))
          settled)
        left
