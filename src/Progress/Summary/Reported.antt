-- ===== src/Progress/Summary/Reported.antt =====
-- What a summary reports of a plan with completed work.
use paa_platform.Prelude.{
  ◌*◌, ◌≤◌, ◌<◌, String, ◌≡◌, ◌≢◌, ◌↔◌, refl, ap, List, [], ◌∷◌, arith, length,
}
use paa_platform.Progress.Models.{
  RealizationState, AuthorityState, Classification, ActivityRecord, DependencyRecord,
  VerificationSurfaceRecord, PlanRecord,
}
use paa_platform.Progress.Classify.{empty_tally, required_by_activity, tally_all}
use paa_platform.Progress.Classify.Partition.{tally-Filed}
use paa_platform.Progress.Classify.Members.{length-keys_of}
use paa_platform.Progress.Summary.{build_summary, empty_summary, finish_summary}
use paa_platform.Progress.Summary.States.{hidden_counts, substantial_counts}

length_pos : (l : List String) → l ≢ [] → 0 < length l
length_pos [] n = absurd (n refl)
length_pos (k ∷ l) n = omega arith

module _ (plan : PlanRecord) (ds : List DependencyRecord)
    (surfaces : List VerificationSurfaceRecord) where
  -- The loop files no more keys as completed than there are activities.
  completed_le :
      (activities : List ActivityRecord)
      → let t = tally_all (required_by_activity surfaces []) activities empty_tally in
        length t.completed ≤ length activities
  completed_le activities =
      let required = required_by_activity surfaces [] in
      rw (tally-Filed required activities).completed
        (length-keys_of required Classification.completed activities)

  -- A plan with completed activities, of which none remains and some are blocked, is reported neither
  -- as blocked nor as fully realized: neither its realization state nor its authority state shows that
  -- it cannot go on.
  pub blocked_hidden :
      (activities : List ActivityRecord)
      → let s = build_summary plan activities ds surfaces in
        s.completed_activity_keys ≢ []
        → s.remaining_activity_keys ≡ []
        → s.blocked_activity_keys ≢ []
        → (s.realization_state ≢ RealizationState.realization_blocked)
          × (s.realization_state ≢ RealizationState.fully_realized)
          × (s.authority_state_summary ≢ AuthorityState.blocked_plan)
  unfolding build_summary empty_summary finish_summary
  blocked_hidden [] done left blocked = absurd (done refl)
  blocked_hidden (x ∷ xs) done left blocked =
      hidden_counts _ _ _ _ (length (x ∷ xs)) _ _ _ (completed_le (x ∷ xs)) (length_pos _ done)
        (ap length left) left (length_pos _ blocked)

  -- A plan with completed activities, activities that remain and none that is blocked is substantially
  -- realized exactly when at least three quarters of its activities are completed, and partially
  -- realized exactly when fewer are.
  pub substantially_iff :
      (activities : List ActivityRecord)
      → let s = build_summary plan activities ds surfaces in
        let done = length s.completed_activity_keys in
        s.completed_activity_keys ≢ []
        → s.remaining_activity_keys ≢ []
        → s.blocked_activity_keys ≡ []
        → ((s.realization_state ≡ RealizationState.substantially_realized)
            ↔ (3 * length activities ≤ 4 * done))
          × ((s.realization_state ≡ RealizationState.partially_realized)
              ↔ (4 * done < 3 * length activities))
  unfolding build_summary empty_summary finish_summary
  substantially_iff [] done left blocked = absurd (done refl)
  substantially_iff (x ∷ xs) done left blocked =
      substantial_counts _ _ _ _ (length (x ∷ xs)) (completed_le (x ∷ xs)) (length_pos _ done)
        (length_pos _ left) (ap length blocked)
