-- ===== src/Progress/Summary/Done.antt =====
-- The end of a plan that is worked off: nothing remains, no activity can start, and the plan is
-- reported as fully realized.
use paa_platform.Prelude.{
  String, ◌≡◌, ◌≢◌, refl, ap, ◌∙◌, none, List, [], ◌∷◌, map, arith, select, All, length,
}
use paa_platform.Progress.Models.{
  RealizationState, ActivityRecord, DependencyRecord, VerificationSurfaceRecord, PlanRecord,
}
use paa_platform.Progress.Groups.{Groups}
use paa_platform.Progress.Classify.{Tally, empty_tally, required_by_activity, tally_all}
use paa_platform.Progress.Classify.Partition.{tally-Filed}
use paa_platform.Progress.Classify.Completed.{Verified}
use paa_platform.Progress.Classify.Completing.{all_done}
use paa_platform.Progress.Next.{
  returned, is_executable, sort_ranked, pick_first, derive_next_activity_key,
}
use paa_platform.Progress.Summary.{blocked_after, finish_summary, derived_from, build_summary}
use paa_platform.Progress.Summary.States.{fully_realized_iff}
use paa_platform.Progress.Summary.Workable.{Workable, remaining_keys, none_blocked}

length-keys :
    (activities : List ActivityRecord)
    → length (map (λ a. a.activity_key) activities) ≡ length activities
length-keys [] = refl
length-keys (a ∷ activities) = omega (arith, length-keys activities)

none_executable :
    (predecessors : Groups String) (completed blocked : List String)
    (activities : List ActivityRecord)
    → select (is_executable predecessors completed blocked []) activities ≡ []
unfolding select is_executable
none_executable predecessors completed blocked [] = refl
none_executable predecessors completed blocked (a ∷ activities) =
    none_executable predecessors completed blocked activities

none_derived :
    (activities : List ActivityRecord) (ds : List DependencyRecord) (t : Tally)
    → t.remaining ≡ []
    → derived_from activities ds t ≡ returned none
unfolding derived_from derive_next_activity_key sort_ranked pick_first
none_derived activities ds t e = rw e (rw (none_executable _ t.completed t.blocked activities))

module _ (surfaces : List VerificationSurfaceRecord)
    (verified : (id : String) → All (Verified id) surfaces) (ds : List DependencyRecord)
    (plan : PlanRecord) where
  pub fully_realized_end :
      (activities : List ActivityRecord)
      → Workable surfaces verified ds activities
      → remaining_keys surfaces verified ds activities ≡ []
      → activities ≢ []
      → (build_summary plan activities ds surfaces).realization_state
        ≡ RealizationState.fully_realized
  unfolding build_summary finish_summary
  fully_realized_end [] w e n = absurd (n refl)
  fully_realized_end (x ∷ xs) w e n =
      let f = tally-Filed (required_by_activity surfaces []) (x ∷ xs) in
      let t = tally_all (required_by_activity surfaces []) (x ∷ xs) empty_tally in
      let left : t.remaining ≡ [] = f.remaining ∙ e in
      let done : length t.completed ≡ length (x ∷ xs) =
        ap length (f.completed ∙ all_done surfaces verified (x ∷ xs) w.going e)
        ∙ length-keys (x ∷ xs) in
      let blocked : blocked_after (derived_from (x ∷ xs) ds t) t.blocked ≡ [] =
        rw (none_derived (x ∷ xs) ds t left)
          (f.blocked ∙ none_blocked surfaces verified ds (x ∷ xs) w) in
      (fully_realized_iff (length t.completed) (length t.remaining) _ (length t.deferred)
          (length (x ∷ xs)) (omega (arith, done))).1
        (omega (arith, done), ap length left, ap length blocked)
