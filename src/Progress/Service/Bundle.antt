-- ===== src/Progress/Service/Bundle.antt =====
-- The next activity bundle against the progress summary.
use paa_platform.Prelude.{
  ℕ, length, String, ◌≡◌, ◌≢◌, ◌↔◌, refl, true, false, some, List, [], ◌∷◌, ◌++◌, arith, is_empty,
  member, if◌then◌else◌,
}
use paa_platform.Progress.Models.{
  RealizationState, ActivityRecord, DependencyRecord, VerificationSurfaceRecord, PlanRecord,
  ProgressSummary,
}
use paa_platform.Progress.Summary.{
  derive_realization_state, empty_summary, finish_summary, build_summary,
}
use paa_platform.Progress.Summary.Next.{next-Ready}
use paa_platform.Progress.Service.{
  bundle_of, realized_bundle, blocked_bundle, single_bundle, no_successor,
}

remaining_gone :
    (done blocked deferred total : ℕ) (keys : List String)
    → derive_realization_state done (length keys) blocked deferred total
      ≡ RealizationState.fully_realized
    → keys ≡ []
unfolding derive_realization_state
remaining_gone done blocked deferred total [] h = refl
remaining_gone done blocked deferred total (k ∷ keys) h = ground arith

-- A summary that is fully realized has an empty list of remaining activities.
realized_remaining :
    (plan : PlanRecord) (activities : List ActivityRecord) (ds : List DependencyRecord)
    (surfaces : List VerificationSurfaceRecord)
    → let s = build_summary plan activities ds surfaces in
      s.realization_state ≡ RealizationState.fully_realized → s.remaining_activity_keys ≡ []
unfolding build_summary empty_summary finish_summary
realized_remaining plan [] ds surfaces h = refl
realized_remaining plan (x ∷ xs) ds surfaces h = remaining_gone _ _ _ _ _ h

-- A fully realized plan has no next activity.
realized_next :
    (plan : PlanRecord) (activities : List ActivityRecord) (ds : List DependencyRecord)
    (surfaces : List VerificationSurfaceRecord) (k : String)
    → let s = build_summary plan activities ds surfaces in
      s.realization_state ≡ RealizationState.fully_realized → s.next_activity_key ≢ some k
realized_next plan activities ds surfaces k h n =
    let (a, key, mem, ready) = next-Ready plan activities ds surfaces k n in
    let gone = realized_remaining plan activities ds surfaces h in
    let none_to_do : member a.activity_key [] ≡ true = rw gone at ready.to_do in cc

bundle_of-next :
    (s : ProgressSummary)
    → ((k : String)
        → s.realization_state ≡ RealizationState.fully_realized
        → s.next_activity_key ≢ some k)
    → (k : String)
    → (s.next_activity_key ≡ some k)
      ↔ (((bundle_of s).ok ≡ true) × ((bundle_of s).next_bundle_activity_keys ≡ k ∷ []))
unfolding bundle_of realized_bundle blocked_bundle single_bundle
bundle_of-next s h k = ground (arith, h k)

-- The bundle of a plan is ok, with exactly the key `k` in it, when the summary of the plan names `k`
-- as the next activity, and only then.
pub bundle-next :
    (plan : PlanRecord) (activities : List ActivityRecord) (ds : List DependencyRecord)
    (surfaces : List VerificationSurfaceRecord) (k : String)
    → let s = build_summary plan activities ds surfaces in
      (s.next_activity_key ≡ some k)
      ↔ (((bundle_of s).ok ≡ true) × ((bundle_of s).next_bundle_activity_keys ≡ k ∷ []))
bundle-next plan activities ds surfaces =
    bundle_of-next (build_summary plan activities ds surfaces)
      (λ k. realized_next plan activities ds surfaces k)

-- Of a bundle that is not ok: it holds no key, it is unattended-safe exactly when the plan is fully
-- realized, and otherwise its reasons are the blocked keys, followed by one more when activities
-- remain.
pub refused_bundle :
    (s : ProgressSummary)
    → (bundle_of s).ok ≡ false
    → ((bundle_of s).next_bundle_activity_keys ≡ [])
      × (((bundle_of s).unattended_safe ≡ true)
          ↔ (s.realization_state ≡ RealizationState.fully_realized))
      × (s.realization_state ≢ RealizationState.fully_realized
          → (bundle_of s).blocking_reasons
            ≡ s.blocked_activity_keys
              ++ (if is_empty s.remaining_activity_keys then [] else no_successor ∷ []))
unfolding bundle_of realized_bundle blocked_bundle single_bundle
refused_bundle s h = ground arith
