-- ===== src/Progress/Summary/Next.antt =====
-- The next activity that a progress summary names, in terms of the summary's own lists.
use paa_platform.Prelude.{String, ◌≡◌, some, List, [], ◌∷◌, Memᴰ}
use paa_platform.Progress.Models.{
  ActivityRecord, DependencyRecord, VerificationSurfaceRecord, PlanRecord,
}
use paa_platform.Progress.Classify.{empty_tally, required_by_activity, tally_all}
use paa_platform.Progress.Next.{Derived, returned, raised}
use paa_platform.Progress.Next.Executable.{Ready}
use paa_platform.Progress.Next.First.{derived-IsFirst}
use paa_platform.Progress.Summary.{
  next_of, empty_summary, finish_summary, derived_from, build_summary,
}

-- A key that the summary names was returned, and then the `except` branch was not taken.
returned_of_next : (d : Derived) (k : String) → next_of d ≡ some k → d ≡ returned (some k)
returned_of_next (returned o) k h = cc
returned_of_next (raised m) k h = cc

-- The next activity of a summary is an activity of the plan that is listed as remaining, and every
-- activity that a dependency puts before it is listed as completed and not as blocked.
pub next-Ready :
    (plan : PlanRecord) (activities : List ActivityRecord) (ds : List DependencyRecord)
    (surfaces : List VerificationSurfaceRecord) (k : String)
    → let s = build_summary plan activities ds surfaces in
      s.next_activity_key ≡ some k
      → (a : ActivityRecord) × (a.activity_key ≡ k)
        × Memᴰ a activities
        × Ready ds s.completed_activity_keys s.blocked_activity_keys s.remaining_activity_keys a
unfolding build_summary empty_summary finish_summary derived_from
next-Ready plan [] ds surfaces k h = cc
next-Ready plan (x ∷ xs) ds surfaces k h =
    let t = tally_all (required_by_activity surfaces []) (x ∷ xs) empty_tally in
    let d = derived_from (x ∷ xs) ds t in
    let e : d ≡ returned (some k) = returned_of_next d k h in
    let (a, key, mem, ready, first) =
      derived-IsFirst ds (x ∷ xs) t.completed t.blocked t.remaining k e in
    (a, key, mem, rw e ready)
