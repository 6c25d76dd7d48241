-- ===== src/Planning/Tests/Finished.antt =====
-- The derived plan of two activities, with a check that has passed, worked off at two times.
use paa_platform.Planning.Derivation.Stored.{put_all}
use paa_platform.Planning.Updates.Completion.{work_off}
use paa_platform.Progress.Service.{summarize_plan_progress}
use paa_platform.Planning.Store.Summary.{built_summary}
use paa_platform.Planning.Derivation.Specs.{activity_spec_from_blueprint}
use paa_platform.Progress.Summary.{build_summary, finish_summary}
use paa_platform.Progress.Next.{ranked_before}
use paa_platform.Json.{empty}
use paa_platform.Progress.Classify.{
  activity_detail, classify_activity, tally_all, tally_activity, file_under,
}
use paa_platform.Planning.Store.Listing.{
  list_implementation_plan_activities, list_implementation_plan_verification_surfaces,
  list_implementation_plan_activity_dependencies, join_rows, join_row, joined_row, plan_repository,
}
use paa_platform.Planning.Store.{put_activity, inserted_activity, inserted_dependency}
use paa_platform.Planning.Store.Plans.{Store, get_implementation_plan, inserted_plan}
use paa_platform.Progress.Models.{VerificationSurfaceRecord, ProgressSummary, RealizationState}
use paa_platform.Prelude.{
  find, ℕ, ◌≡◌, String, refl, inl, inr, some, [], ◌∷◌, All, arith, ◌==◌, if◌then◌else◌, true, pos,
  none, select, sort_by, insert_by, ◌≤◌,
}
use paa_platform.Progress.Classify.Completed.{Verified}
use paa_platform.Progress.Summary.Workable.{Workable}
use paa_platform.Planning.Updates.Finished.{work_off-finished}
use paa_platform.Planning.Tests.{after, db, spec, key_for, put_all}

abbrev passed : VerificationSurfaceRecord
passed = record {
  implementation_plan_verification_surface_id = "check";
  implementation_plan_id = "plan";
  implementation_plan_activity_id = some (key_for "plan" "a");
  verification_obligation_id = none;
  surface_kind = "test";
  surface_ref = "tests";
  required = true;
  sequence_order = pos 1;
  status = "passed";
  metadata = empty;
  created_at = none;
  updated_at = none;
}

abbrev checked : Store
checked = record after { surfaces = passed ∷ [] }

abbrev position : String → ℕ
position k = if k == "a" then 0 else 1

verified :
    (i : String) → All (Verified i) (list_implementation_plan_verification_surfaces checked "plan")
unfolding list_implementation_plan_verification_surfaces select sort_by insert_by
verified i = ((λ _ _. inl refl), tt)

workable :
    Workable
      (list_implementation_plan_verification_surfaces checked "plan")
      verified
      (list_implementation_plan_activity_dependencies checked "plan")
      (list_implementation_plan_activities checked "plan")
unfolding activity_detail classify_activity select list_implementation_plan_activities ranked_before
    list_implementation_plan_activity_dependencies sort_by join_rows join_row joined_row find
    put_all put_activity inserted_activity activity_spec_from_blueprint inserted_dependency key_for
workable = record {
  distinct = ((ground arith, tt), (tt, tt));
  inside = (refl, tt);
  going = (inr refl, (inr refl, tt));
}

two_remain : (built_summary checked (inserted_plan spec db) "plan").remaining_activity_count ≤ 2
unfolding build_summary finish_summary tally_all tally_activity file_under activity_detail
    classify_activity select list_implementation_plan_activities ranked_before sort_by put_all
    put_activity inserted_activity activity_spec_from_blueprint
two_remain = omega arith

work_off-finished_example :
    (s : ProgressSummary) × (summarize_plan_progress
        (plan_repository (work_off "plan" ("t2" ∷ "t3" ∷ []) checked))
        "plan"
      ≡ some s)
    × (s.completed_activity_keys ≡ "a" ∷ "b" ∷ [])
    × (s.realization_state ≡ RealizationState.fully_realized)
unfolding get_implementation_plan inserted_plan select list_implementation_plan_activities
    ranked_before list_implementation_plan_activity_dependencies sort_by join_rows join_row
    joined_row find put_all put_activity inserted_activity activity_spec_from_blueprint
    inserted_dependency key_for
work_off-finished_example =
    work_off-finished "plan" checked (inserted_plan spec db) position verified refl (λ e. cc)
      workable (omega arith, tt) ("t2" ∷ "t3" ∷ []) two_remain
