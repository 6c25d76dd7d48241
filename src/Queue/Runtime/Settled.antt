-- ===== src/Queue/Runtime/Settled.antt =====
-- How a run settles its claim.
use mathlib.Core.Path.{subst₂, ap}
use paa_platform.Prelude.{
  if-true, if-false, String, ◌≡◌, refl, sym, Bool, true, false, ◌&&◌, Option, some, Bool-cases, inl,
  inr, arith, if◌then◌else◌, none, ◌⊎◌, ap,
}
use paa_platform.Json.{Dict}
use paa_platform.Queue.Models.{QueueClaimRuntimeResult}
use paa_platform.Queue.Host.Outside.{Outcome, returned, raised}
use paa_platform.Queue.Retry.{claim_with_retry}
use paa_platform.Queue.Runtime.{
  Lifecycle, Runtime, TechLeadRuntimeLoopResult, Call, gave, failed, claim_id_in, opt_ok, Work,
  lifecycle_success, final_ok,
}
use paa_platform.Queue.Runtime.Run.{
  claim_to_settle, settle_with, finalize_claim, unresolved_result, work_on, worked_result, finish,
  run_claimed, run_once, called, return_transition, emit_assignment, record_emitted, packet_request,
  resolution_request,
}

-- The lifecycle call that ends a run.
abbrev pub settling : {S : Type 0} → Lifecycle S → String → Bool → S → Outcome S
settling l id success s = if success then l.acknowledge_claim id s else l.requeue_claim id s

-- The host without a claim lifecycle.
abbrev pub unsettled : {S : Type 0} → Runtime S → Runtime S
unsettled rt = record rt { lifecycle = none }

-- When the result of a run on a claim is ok: the packet was resolved, and the worker, the return
-- transition and the transition for the assignment are ok where they were called. The assignment that was
-- emitted is not asked.
abbrev pub Judged :
    {S : Type 0}
    → Runtime S
    → String
    → Bool
    → QueueClaimRuntimeResult
    → S
    → TechLeadRuntimeLoopResult
    → S
    → Type 0
Judged rt mode emit claim t result worked =
    let resolved = rt.resolve_packet_reference (resolution_request rt claim) t in
    ((resolved.0.ok ≡ false)
      × (worked ≡ resolved.1)
      × (result.ok ≡ false)
      × (result.emitted_assignment ≡ none))
    ⊎ ((resolved.0.ok ≡ true)
        × (w : Work) × (work_on rt mode emit claim resolved.0 resolved.1 ≡ (w, worked))
        × (result.ok ≡ (
            w.runtime_result.ok
            && (opt_ok w.workflow_transition && opt_ok w.assignment_transition)))
        × (result.emitted_assignment ≡ w.emitted_assignment))

-- A run ends as the run of the host without a lifecycle does, with one lifecycle call after it.
pub record Settled {S : Type 0} (rt : Runtime S) (l : Lifecycle S) (mode id : String) (emit : Bool)
    (claim : QueueClaimRuntimeResult) (t : S) (run bare : Call TechLeadRuntimeLoopResult S)
    : Type 0 where
  pub result : TechLeadRuntimeLoopResult
  pub worked : S
  pub before : bare ≡ gave result worked
  pub judged : Judged rt mode emit claim t result worked
  pub passes :
      (d : Dict) (u : S)
      → settling l id (result.ok && opt_ok result.emitted_assignment) worked ≡ returned d u
      → (metadata : Option Dict) × (run ≡ gave (record result { metadata = metadata }) u)
  pub fails :
      (u : S)
      → settling l id (result.ok && opt_ok result.emitted_assignment) worked ≡ raised u
      → run ≡ failed u

success_lem : (w : Work) → lifecycle_success w ≡ (final_ok w && opt_ok w.emitted_assignment)
unfolding lifecycle_success final_ok
success_lem w = ground arith

final_ok_lem :
    (w : Work)
    → final_ok w
      ≡ (w.runtime_result.ok && (opt_ok w.workflow_transition && opt_ok w.assignment_transition))
unfolding final_ok
final_ok_lem w = refl

module _ {S : Type 0} (rt : Runtime S) (l : Lifecycle S) (has : rt.lifecycle ≡ some l)
    (mode id : String) (emit : Bool) (claim : QueueClaimRuntimeResult)
    (open_claim : claim_to_settle mode (claim_id_in rt.write claim) ≡ some id) where
  finish-bare :
      (success : Bool) (result : Option Dict → TechLeadRuntimeLoopResult) (worked : S)
      → finish (unsettled rt) mode claim success result worked ≡ gave (result none) worked
  unfolding finish finalize_claim
  finish-bare success result worked = rw (open_claim, finish) refl

  finish-Settled :
      (t : S) (success : Bool) (result : Option Dict → TechLeadRuntimeLoopResult) (worked : S)
      → ((d : Option Dict) → (m : Option Dict) × (result d ≡ record (result none) { metadata = m }))
      → success ≡ ((result none).ok && opt_ok (result none).emitted_assignment)
      → Judged rt mode emit claim t (result none) worked
      → Settled rt l mode id emit claim t
          (finish rt mode claim success result worked)
          (finish (unsettled rt) mode claim success result worked)
  unfolding finish finalize_claim
  finish-Settled t success result worked same told judged = record {
    result = result none;
    worked = worked;
    before = finish-bare success result worked;
    judged = judged;
    passes = λ d u e. (
      (same (some d)).0,
      rw (open_claim, finish)
          (rw (has, settle_with) (rw (told, e, called) (ap (λ r. gave r u) (same (some d)).1))),
    );
    fails = λ u e. rw (open_claim, finish) (rw (has, settle_with) (rw (told, e, called) refl));
  }

  claimed-Settled :
      (t : S)
      → Settled rt l mode id emit claim t
          (run_claimed rt mode emit claim t)
          (run_claimed (unsettled rt) mode emit claim t)
  unfolding run_claimed worked_result unresolved_result work_on return_transition emit_assignment
      record_emitted packet_request resolution_request
  claimed-Settled t =
      let resolved = rt.resolve_packet_reference (resolution_request rt claim) t in
      let worked = work_on rt mode emit claim resolved.0 resolved.1 in
      elim (Bool-cases resolved.0.ok) [
        | inl e ↦
            let end =
              finish-Settled t (lifecycle_success worked.0)
                (worked_result rt mode claim resolved.0 worked.0) worked.1
                (λ d. ((worked_result rt mode claim resolved.0 worked.0 d).metadata, refl))
                (success_lem worked.0) (inr (e, worked.0, refl, final_ok_lem worked.0, refl)) in
            subst₂ (Settled rt l mode id emit claim t) (sym (if-true _ _ e)) (sym (if-true _ _ e))
              end
        | inr e ↦
            let end =
              finish-Settled t false (unresolved_result rt mode claim resolved.0) resolved.1
                (λ d. ((unresolved_result rt mode claim resolved.0 d).metadata, refl)) refl
                (inl (e, refl, refl, refl)) in
            subst₂ (Settled rt l mode id emit claim t) (sym (if-false _ _ e)) (sym (if-false _ _ e))
              end
      ]

  -- A run whose intake succeeds in claim mode, with a claim id and a claim lifecycle, does what the host
  -- does without a lifecycle, and then calls the lifecycle once for that claim: it acknowledges the claim
  -- when the result is ok and an assignment that was emitted is ok as well, and requeues it otherwise.
  -- Its result is that of the host without a lifecycle up to the metadata, and where the lifecycle call
  -- raises, so does the run. The result is ok when the packet was resolved and the worker and both
  -- workflow transitions are ok, whatever is said of the assignment.
  pub run_once-Settled :
      (s t : S)
      → claim_with_retry rt.adapters rt.loop mode s ≡ some (claim, t)
      → claim.ok ≡ true
      → Settled rt l mode id emit claim t
          (run_once rt mode emit s)
          (run_once (unsettled rt) mode emit s)
  unfolding run_once
  run_once-Settled s t got ok =
      let with_lifecycle : run_once rt mode emit s ≡ run_claimed rt mode emit claim t =
        rw (got, run_once) (if-true _ _ ok) in
      let without : run_once (unsettled rt) mode emit s
          ≡ run_claimed (unsettled rt) mode emit claim t =
        rw (got, run_once) (if-true _ _ ok) in
      subst₂ (Settled rt l mode id emit claim t) (sym with_lifecycle) (sym without)
        (claimed-Settled t)
