-- ===== src/Executor/Attempts/Status.antt =====
-- src/fetech/executor.py, `_status`: what each status tells.
use fetech.Prelude.{◌≡◌, ◌↔◌, Bool, true, false, ◌||◌, arith}
use fetech.Models.Status.{ResultStatus}
use fetech.Executor.Context.{ExecutionContext}
use fetech.Executor.Attempts.{Flags, status_of}

-- One of the flags is set.
abbrev pub some_trouble : Flags → Bool
some_trouble f =
    f.failed
    || (f.dependency_missing
        || (f.budget_exhausted || (f.auth_required || (f.policy_blocked || f.not_found))))

-- The status is success exactly when an artifact was accepted and no flag is set.
pub succeeded_iff :
    (c : ExecutionContext) (f : Flags)
    → (status_of c f ≡ ResultStatus.succeeded) ↔ ((c.accepted ≡ true) × (some_trouble f ≡ false))
unfolding status_of
succeeded_iff c f = ((λ h. ground arith), (λ h. ground arith))

-- With nothing accepted, a policy block is reported whatever else happened, then a missing
-- authentication, then a missing page, then an exhausted budget.
trouble_order :
    (c : ExecutionContext) (f : Flags)
    → c.accepted ≡ false
    → ((status_of c f ≡ ResultStatus.blocked_by_policy) ↔ (f.policy_blocked ≡ true))
      × ((status_of c f ≡ ResultStatus.auth_required)
          ↔ ((f.policy_blocked ≡ false) × (f.auth_required ≡ true)))
      × ((status_of c f ≡ ResultStatus.not_found)
          ↔ ((f.policy_blocked ≡ false) × (f.auth_required ≡ false) × (f.not_found ≡ true)))
      × ((status_of c f ≡ ResultStatus.budget_exhausted) ↔ (
          (f.policy_blocked ≡ false)
          × (f.auth_required ≡ false)
          × (f.not_found ≡ false)
          × (f.budget_exhausted ≡ true)))
unfolding status_of
trouble_order c f h = (
  ((λ e. ground arith), (λ e. ground arith)),
  ((λ e. ground arith), (λ e. ground arith)),
  ((λ e. ground arith), (λ e. ground arith)),
  ((λ e. ground arith), (λ e. ground arith)),
)
