-- ===== src/Executor/Retry/Tries.antt =====
-- What `_with_retries` does, as a relation: the calls that failed and were tried again, and how the
-- last one ended.
use fetech.Prelude.{
  ℕ, zero, suc, ◌+◌, ◌<◌, ◌≤◌, ◌≡◌, ◌≢◌, ◌⊎◌, refl, subst, inl, inr, Bool, true, false, Option,
  none, some, length, leb, leb→le, leb→gt, Bool-cases, if◌then◌else◌, arith,
}
use fetech.Models.Plan.{RetryRule}
use fetech.Executor.Context.{ExecutionContext}
use fetech.Executor.Failure.{
  Signal, ExecutionFailure, returned, budget_exceeded, policy_blocked, dependency, auth_expired,
  auth_required, not_found, timeout, cancelled, execution, invalid, other,
}
use fetech.Executor.Retry.{
  Operation, Pauses, retryable, pause_of, after_call, tries_from, with_retries,
}

-- There is room for one more attempt.
abbrev pub HasRoom : ExecutionContext → Type 0
HasRoom c = length c.attempts < c.request.budget.attempts

module _ (operation : Operation) (retry : RetryRule) (pauses : Pauses) where
  -- After `k` calls that failed with a retryable code, each with room for its attempt and followed
  -- by a pause that passed, the context is `d`.
  pub data Retried (c : ExecutionContext) : ℕ → ExecutionContext → Type 0 where
    none_yet : Retried c 0 c
    once_more :
        {k : ℕ} {d e : ExecutionContext} (x : ExecutionFailure)
        → Retried c k d
        → HasRoom d
        → operation k d ≡ (execution x, e)
        → retryable retry x ≡ true
        → pause_of retry pauses k ≡ none
        → Retried c (suc k) e

  -- How the loop ends at call `k`.
  pub data Ends (k : ℕ) (d : ExecutionContext) : Signal × ExecutionContext → Type 0 where
    no_room :
        d.request.budget.attempts ≤ length d.attempts
        → Ends k d (budget_exceeded "attempt budget exhausted", d)
    -- the call returned, or ended by what is not retried
    by_call :
        {r : Signal × ExecutionContext}
        → HasRoom d
        → operation k d ≡ r
        → ((x : ExecutionFailure)
            → r.0 ≡ execution x
            → (k ≡ retry.maximum) ⊎ (retryable retry x ≡ false))
        → Ends k d r
    by_pause :
        {s : Signal} {e : ExecutionContext} (x : ExecutionFailure)
        → HasRoom d
        → operation k d ≡ (execution x, e)
        → retryable retry x ≡ true
        → pause_of retry pauses k ≡ some s
        → k < retry.maximum
        → Ends k d (s, e)

  -- The run of the loop that returns `r`.
  pub record Ran (c : ExecutionContext) (r : Signal × ExecutionContext) : Type 0 where
    pub tries : ℕ
    pub context : ExecutionContext
    pub retried : Retried c tries context
    pub within : tries ≤ retry.maximum
    pub ends : Ends tries context r

  after_last :
      (index : ℕ) (d : ExecutionContext) (r : Signal × ExecutionContext)
      → after_call retry pauses none index r ≡ r
  after_last index d (s, c) = refl

  module _ (c d : ExecutionContext) (left index : ℕ) (e : left + suc index ≡ retry.maximum)
      (before : Retried c index d) (room : HasRoom d)
      (ih : (f : ExecutionContext)
        → Retried c (suc index) f
        → Ran c (tries_from operation retry pauses left (suc index) f)) where
    abbrev again : ExecutionContext → Signal × ExecutionContext
    again f = tries_from operation retry pauses left (suc index) f

    ended :
        (r : Signal × ExecutionContext)
        → operation index d ≡ r
        → ((x : ExecutionFailure) → r.0 ≢ execution x)
        → Ran c r
    ended r q plain = record {
      tries = index;
      context = d;
      retried = before;
      within = omega arith;
      ends = by_call room q (λ x p. absurd (plain x p));
    }

    paused :
        (x : ExecutionFailure) (f : ExecutionContext) (o : Option Signal)
        → operation index d ≡ (execution x, f)
        → retryable retry x ≡ true
        → pause_of retry pauses index ≡ o
        → Ran c (elim o [ none ↦ again f | some s ↦ (s, f) ])
    paused x f none q t p = ih f (once_more x before room q t p)
    paused x f (some s) q t p = record {
      tries = index;
      context = d;
      retried = before;
      within = omega arith;
      ends = by_pause x room q t p (omega arith);
    }

    failed :
        (x : ExecutionFailure) (f : ExecutionContext) (b : Bool)
        → operation index d ≡ (execution x, f)
        → retryable retry x ≡ b
        → Ran c (
            if b
            then (elim (pause_of retry pauses index) [ none ↦ again f | some s ↦ (s, f) ])
            else (execution x, f))
    failed x f true q t = paused x f (pause_of retry pauses index) q t refl
    failed x f false q t = record {
      tries = index;
      context = d;
      retried = before;
      within = omega arith;
      ends = by_call room q (λ y p. inr (let same : x ≡ y = ground arith in rw (← same) t));
    }

    one_round :
        (r : Signal × ExecutionContext)
        → operation index d ≡ r
        → Ran c (after_call retry pauses (some again) index r)
    one_round (execution x, f) q = failed x f (retryable retry x) q refl
    one_round (returned, f) q = ended _ q (λ x p. cc)
    one_round (budget_exceeded m, f) q = ended _ q (λ x p. cc)
    one_round (policy_blocked m l, f) q = ended _ q (λ x p. cc)
    one_round (dependency m, f) q = ended _ q (λ x p. cc)
    one_round (auth_expired, f) q = ended _ q (λ x p. cc)
    one_round (auth_required, f) q = ended _ q (λ x p. cc)
    one_round (not_found m, f) q = ended _ q (λ x p. cc)
    one_round (timeout, f) q = ended _ q (λ x p. cc)
    one_round (cancelled, f) q = ended _ q (λ x p. cc)
    one_round (invalid t m, f) q = ended _ q (λ x p. cc)
    one_round (other, f) q = ended _ q (λ x p. cc)

  tries_from-Ran :
      (left index : ℕ) (c d : ExecutionContext)
      → left + index ≡ retry.maximum
      → Retried c index d
      → Ran c (tries_from operation retry pauses left index d)
  unfolding tries_from
  tries_from-Ran zero index c d e before =
      elim (Bool-cases (leb d.request.budget.attempts (length d.attempts))) [
        | inl full ↦ rw full (record {
          tries = index;
          context = d;
          retried = before;
          within = omega arith;
          ends = no_room (leb→le d.request.budget.attempts (length d.attempts) full);
        })
        | inr room ↦
            rw (room, after_last index d (operation index d))
              (record {
                tries = index;
                context = d;
                retried = before;
                within = omega arith;
                ends =
                    by_call (leb→gt d.request.budget.attempts (length d.attempts) room) refl
                      (λ x p. inl (omega arith));
              })
      ]
  tries_from-Ran (suc left) index c d e before =
      elim (Bool-cases (leb d.request.budget.attempts (length d.attempts))) [
        | inl full ↦ rw full (record {
          tries = index;
          context = d;
          retried = before;
          within = omega arith;
          ends = no_room (leb→le d.request.budget.attempts (length d.attempts) full);
        })
        | inr room ↦ rw room (
            one_round c d left index (omega arith) before
              (leb→gt d.request.budget.attempts (length d.attempts) room)
              (λ f more. tries_from-Ran left (suc index) c f (omega arith) more) (operation index d)
              refl)
      ]

  -- `_with_retries` makes at most `maximum` calls that fail with a retryable code and are tried
  -- again, each with room for its attempt and a pause that passed; then it ends, because no attempt
  -- is left, by an interrupted pause, or as its last call ended, and where that was a failure of
  -- the adapter, its code was not retryable or the call was the last that the rule allows.
  pub with_retries_lem : (c : ExecutionContext) → Ran c (with_retries operation retry pauses c)
  unfolding with_retries
  with_retries_lem c = tries_from-Ran retry.maximum 0 c c (omega arith) none_yet

  -- What each call of the adapter keeps, the loop keeps.
  pub with_retries_inv {ℓ} :
      (P : ExecutionContext → Type ℓ)
      → ((k : ℕ) (d : ExecutionContext) → P d → P (operation k d).1)
      → (c : ExecutionContext) → P c
      → P (with_retries operation retry pauses c).1
  with_retries_inv P keeps c p = at_end (with_retries_lem c)
    where
      along : {k : ℕ} {d : ExecutionContext} → Retried c k d → P d
      along none_yet = p
      along (once_more {k} {d} x before room q t w) =
          subst (λ (r : Signal × ExecutionContext). P r.1) q (keeps k d (along before))

      at_end : {r : Signal × ExecutionContext} → Ran c r → P r.1
      at_end ran = last_step ran.tries ran.context (along ran.retried) ran.ends
        where
          last_step :
              {r' : Signal × ExecutionContext} (k : ℕ) (d : ExecutionContext)
              → P d
              → Ends k d r'
              → P r'.1
          last_step k d pd (no_room h) = pd
          last_step k d pd (by_call room q h) =
              subst (λ (r : Signal × ExecutionContext). P r.1) q (keeps k d pd)
          last_step k d pd (by_pause x room q t w h) =
              subst (λ (r : Signal × ExecutionContext). P r.1) q (keeps k d pd)
