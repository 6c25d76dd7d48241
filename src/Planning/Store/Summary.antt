-- ===== src/Planning/Store/Summary.antt =====
-- The summary of the progress service over the tables of the repository.
use paa_platform.Prelude.{
  String, ◌≡◌, sym, ap, ◌∙◌, some, find, find-passes, eq_iff, Option-cases, absurd_some, inl, inr,
}
use paa_platform.Progress.Models.{ProgressSummary}
use paa_platform.Progress.Summary.{build_summary}
use paa_platform.Progress.Service.{summarize_plan_progress}
use paa_platform.Planning.Records.{ImplementationPlanRecord}
use paa_platform.Planning.Store.Plans.{Store, has_plan_id, get_implementation_plan}
use paa_platform.Planning.Store.Listing.{
  plan_repository, plan_columns, list_implementation_plan_activities,
  list_implementation_plan_activity_dependencies, list_implementation_plan_verification_surfaces,
}

-- The summary of a plan from the rows that are listed under an id.
abbrev pub built_summary : Store → ImplementationPlanRecord → String → ProgressSummary
built_summary store p id =
    build_summary (plan_columns p) (list_implementation_plan_activities store id)
      (list_implementation_plan_activity_dependencies store id)
      (list_implementation_plan_verification_surfaces store id)

-- A plan that is there is summarized from its own rows.
pub summarized :
    (store : Store) (id : String) (p : ImplementationPlanRecord)
    → get_implementation_plan store id ≡ some p
    → summarize_plan_progress (plan_repository store) id ≡ some (built_summary store p id)
unfolding summarize_plan_progress plan_repository get_implementation_plan
summarized store id p e =
    let own : p.implementation_plan_id ≡ id =
      (eq_iff p.implementation_plan_id id).0 (find-passes (has_plan_id id) store.plans p e) in
    rw (e, summarize_plan_progress) (ap (λ i. some (built_summary store p i)) own)

some_injective : {s t : ProgressSummary} → some s ≡ some t → s ≡ t
some_injective h = cc

-- A summary is of a plan that is there.
pub summary_of :
    (store : Store) (id : String) (s : ProgressSummary)
    → summarize_plan_progress (plan_repository store) id ≡ some s
    → (p : ImplementationPlanRecord) × (built_summary store p id ≡ s)
unfolding summarize_plan_progress plan_repository get_implementation_plan
summary_of store id s h = elim (Option-cases (find (has_plan_id id) store.plans)) [
  | inl e ↦ absurd_some (rw (e, summarize_plan_progress) at h)
  | inr (p, e) ↦ (p, some_injective (sym (summarized store id p e) ∙ h))
]
