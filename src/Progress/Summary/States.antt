-- ===== src/Progress/Summary/States.antt =====
-- The two states that a summary derives from the counts of its lists.
use paa_platform.Prelude.{ℕ, ◌*◌, ◌≤◌, ◌<◌, String, ◌≡◌, ◌≢◌, ◌↔◌, List, [], arith}
use paa_platform.Progress.Models.{RealizationState, AuthorityState}
use paa_platform.Progress.Summary.{derive_realization_state, derive_authority_state}

-- Where no more activities are completed than there are, a plan is fully realized exactly when
-- something is completed and nothing remains or is blocked.
pub fully_realized_iff :
    (done remaining blocked deferred total : ℕ)
    → done ≤ total
    → (derive_realization_state done remaining blocked deferred total
        ≡ RealizationState.fully_realized)
      ↔ ((0 < done) × (remaining ≡ 0) × (blocked ≡ 0))
unfolding derive_realization_state
fully_realized_iff done remaining blocked deferred total h = ground arith

hidden :
    (done blocked deferred total : ℕ) (keys ds : List String)
    → done ≤ total
    → 0 < done
    → 0 < blocked
    → let state = derive_realization_state done 0 blocked deferred total in
      (state ≢ RealizationState.realization_blocked)
      × (state ≢ RealizationState.fully_realized)
      × (derive_authority_state state [] keys ds ≢ AuthorityState.blocked_plan)
unfolding derive_realization_state derive_authority_state
hidden done blocked deferred total keys ds le d b = ground arith

-- The counts of a plan that cannot go on: completed work, nothing that remains, something blocked.
pub hidden_counts :
    (done remaining blocked deferred total : ℕ) (left keys ds : List String)
    → done ≤ total
    → 0 < done
    → remaining ≡ 0
    → left ≡ []
    → 0 < blocked
    → let state = derive_realization_state done remaining blocked deferred total in
      (state ≢ RealizationState.realization_blocked)
      × (state ≢ RealizationState.fully_realized)
      × (derive_authority_state state left keys ds ≢ AuthorityState.blocked_plan)
unfolding derive_realization_state derive_authority_state
hidden_counts done remaining blocked deferred total left keys ds le d r e b =
    rw (r, e) (hidden done blocked deferred total keys ds le d b)

-- The counts of a plan with completed work, work that remains, and nothing blocked.
pub substantial_counts :
    (done remaining blocked deferred total : ℕ)
    → done ≤ total
    → 0 < done
    → 0 < remaining
    → blocked ≡ 0
    → let state = derive_realization_state done remaining blocked deferred total in
      ((state ≡ RealizationState.substantially_realized) ↔ (3 * total ≤ 4 * done))
      × ((state ≡ RealizationState.partially_realized) ↔ (4 * done < 3 * total))
unfolding derive_realization_state
substantial_counts done remaining blocked deferred total le d r b = rw b (ground arith)
