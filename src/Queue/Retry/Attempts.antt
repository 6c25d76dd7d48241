-- ===== src/Queue/Retry/Attempts.antt =====
-- The attempts that the retry loop makes, as a relation.
use paa_platform.Prelude.{
  ℕ, zero, suc, ◌+◌, ◌<◌, String, ◌≡◌, ◌∙◌, true, false, some, inl, inr, Bool-cases, arith, ◌⊎◌,
  ◌≢◌, ◌≤◌, ◌==◌, sym, opt_eq, if◌then◌else◌, opt_eq_iff, if-true, if-false,
}
use paa_platform.Queue.Models.{QueueClaimRuntimeResult, Adapters}
use paa_platform.Queue.Claim.{assemble_queue_intake}
use paa_platform.Queue.Retry.{
  Loop, attempts_for, attempt_request, is_final, attempts_from, claim_with_retry,
}

module _ {S : Type 0} (adapters : Adapters S) (loop : Loop) (mode : String) where
  abbrev pub intake : ℕ → S → QueueClaimRuntimeResult × S
  intake attempt s = assemble_queue_intake adapters (attempt_request loop mode attempt) s

  -- `Attempts most a s r t`: from attempt `a` of at most `most` in state `s` the loop comes to result `r`
  -- in state `t`. An attempt is repeated where the queue was empty and an attempt is left, and only there.
  pub data Attempts (most : ℕ) : ℕ → S → QueueClaimRuntimeResult → S → Type 0 where
    last :
        (a : ℕ) (s : S)
        → ((intake a s).0.ok ≡ true)
          ⊎ (((intake a s).0.reason ≢ some "missing_queue_packet") ⊎ (most ≤ a))
        → Attempts most a s (intake a s).0 (intake a s).1
    again :
        (a : ℕ) (s : S) {r : QueueClaimRuntimeResult} {t : S}
        → (intake a s).0.ok ≡ false
        → (intake a s).0.reason ≡ some "missing_queue_packet"
        → a < most
        → Attempts most (suc a) (intake a s).1 r t
        → Attempts most a s r t

  Reached : ℕ → S → ℕ → Type 0
  Reached a s n =
      (r : QueueClaimRuntimeResult) × (t : S) × (attempts_from adapters loop mode n a s
        ≡ some (r, t))
      × Attempts (attempts_for mode) a s r t

  -- What is known of an attempt that is not the last.
  not_final :
      (a : ℕ) (r : QueueClaimRuntimeResult)
      → is_final mode a r ≡ false
      → (r.ok ≡ false) × (r.reason ≡ some "missing_queue_packet") × (a < attempts_for mode)
  not_final a r f =
      let same = opt_eq_iff r.reason (some "missing_queue_packet") in
      (ground arith, same.0 (ground arith), ground arith)

  final_because :
      (a : ℕ) (r : QueueClaimRuntimeResult)
      → is_final mode a r ≡ true
      → (r.ok ≡ true) ⊎ ((r.reason ≢ some "missing_queue_packet") ⊎ (attempts_for mode ≤ a))
  final_because a r f =
      let same = opt_eq_iff r.reason (some "missing_queue_packet") in
      elim (Bool-cases r.ok) [
        | inl o ↦ inl o
        | inr o ↦ elim (Bool-cases (opt_eq r.reason (some "missing_queue_packet"))) [
          | inl e ↦ inr (inr (ground (arith, f, o, e)))
          | inr e ↦ inr (inl (λ m. (let no : true ≡ false = sym (same.1 m) ∙ e in cc)))
        ]
      ]

  attempts-positive : 0 < attempts_for mode
  unfolding attempts_for
  attempts-positive = ground arith

  attempts_from-Reached :
      (n a : ℕ) (s : S) → a + n ≡ suc (attempts_for mode) → 0 < n → Reached a s n
  unfolding Reached attempts_from
  attempts_from-Reached zero a s e p = let no : ⊥ = omega arith in absurd no
  attempts_from-Reached (suc n) a s e p =
      let got = intake a s in
      elim (Bool-cases (is_final mode a got.0)) [
        | inl f ↦ (
          got.0,
          got.1,
          if-true {b = is_final mode a got.0} _ _ f,
          last a s (final_because a got.0 f),
        )
        | inr f ↦
            let parts = not_final a got.0 f in
            let later =
              attempts_from-Reached n (suc a) got.1 (omega arith) (omega (arith, parts.2)) in
            (
              later.0,
              later.1,
              if-false {b = is_final mode a got.0} _ _ f ∙ later.2,
              again a s parts.0 parts.1 parts.2 later.3,
            )
      ]

  -- The retry loop always returns a result, and by attempts of which each but the last found the queue
  -- empty; the last succeeded, failed for another reason, or was the last one allowed, the third in
  -- claim mode and the first in any other.
  pub retry-Attempts :
      (s : S)
      → (r : QueueClaimRuntimeResult) × (t : S) × (claim_with_retry adapters loop mode s
          ≡ some (r, t))
        × Attempts (if mode == "claim_next" then 3 else 1) 1 s r t
  unfolding claim_with_retry Reached attempts_for
  retry-Attempts s = attempts_from-Reached (attempts_for mode) 1 s (omega arith) attempts-positive
