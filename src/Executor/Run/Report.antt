-- ===== src/Executor/Run/Report.antt =====
-- src/fetech/executor.py, `execute`: what a result reports.
use fetech.Prelude.{
  ℕ, ◌=s=◌, ◌≡◌, refl, subst, inl, inr, ◌⊎◌, ◌≢◌, Bool, true, Bool-cases, some, List, [], ◌∷◌, ◌++◌,
  any, any-snoc, last?, length, arith,
}
use fetech.Models.Status.{ResultStatus, OutcomeStatus}
use fetech.Models.Plan.{FetchPlan}
use fetech.Models.Record.{CapabilityOutcome, ProvenanceEvent, text, number}
use fetech.Executor.Context.{ExecutionContext, record_outcome}
use fetech.Executor.Ledger.{Ledger, emit}
use fetech.Executor.Attempts.{Flags, status_of}
use fetech.Executor.Attempts.Status.{succeeded_iff}
use fetech.Executor.Run.{
  Progress, World, LoopEnd, all_done, stopped, gave_up, out_of_fuel, FetchResult, result,
  status_text, closing_outcomes, conclude, end_run, execute, run_loop, first_progress,
}

abbrev pub is_expiry_check : CapabilityOutcome → Bool
is_expiry_check o = o.capability_id =s= "cache_expiry_check"

last?-snoc : {A : Type 0} (xs : List A) (y : A) → last? (xs ++ y ∷ []) ≡ some y
last?-snoc [] y = refl
last?-snoc (x ∷ []) y = refl
last?-snoc (x ∷ z ∷ xs) y = last?-snoc (z ∷ xs) y

-- The result says that the cache was checked for expiry or not; it succeeds only with an accepted
-- artifact; its last event reports its status under the root of the run.
pub record Reports (root : ℕ) (r : FetchResult) : Type 0 where
  pub expiry : any is_expiry_check r.context.capability_outcomes ≡ true
  pub success : (r.context.accepted ≡ true) ⊎ (r.status ≢ ResultStatus.succeeded)
  pub last :
      (e : ProvenanceEvent) × (last? r.ledger.events ≡ some e)
      × (e.event_type ≡ "run.finished")
      × (e.payload ≡ ("status", text (status_text r.status)) ∷ [])
      × (e.parent_event_ids ≡ root ∷ [])

closing_outcomes-expiry :
    (plan : FetchPlan) (c : ExecutionContext)
    → any is_expiry_check (closing_outcomes plan c).capability_outcomes ≡ true
unfolding closing_outcomes record_outcome
closing_outcomes-expiry plan c =
    let timed : List CapabilityOutcome =
      c.capability_outcomes
      ++ record {
        capability_id = "fetch_attempt_logging";
        status = OutcomeStatus.applied;
        stage = "ledger";
        details = ("attempts", number (length c.attempts)) ∷ [];
      }
        ∷ []
      ++ record {
        capability_id = "timeout_diagnostics";
        status = OutcomeStatus.applied;
        stage = "executor";
        details = ("deadline_seconds", number plan.request.budget.deadline_seconds) ∷ [];
      }
        ∷ [] in
    elim (Bool-cases (any is_expiry_check timed)) [
      | inl there ↦ rw there there
      | inr new ↦ rw new (any-snoc is_expiry_check timed _ refl)
    ]

accepted_or :
    (c : ExecutionContext) (f : Flags)
    → (c.accepted ≡ true) ⊎ (status_of c f ≢ ResultStatus.succeeded)
accepted_or c f = elim (Bool-cases c.accepted) [
  | inl a ↦ inl a
  | inr a ↦ inr (λ e. let (b, _) = (succeeded_iff c f).0 e in absurd (ground arith))
]

conclude-Reports :
    (plan : FetchPlan) (root least elapsed : ℕ) (p : Progress)
    → Reports root (conclude plan root least elapsed p)
unfolding conclude emit
conclude-Reports plan root least elapsed p = record {
  expiry = closing_outcomes-expiry plan p.context;
  success = accepted_or (closing_outcomes plan p.context) p.flags;
  last = (_, last?-snoc p.ledger.events _, refl, refl, refl);
}

-- When `execute` returns a result, it has an outcome for the expiry check of the cache, it is a success
-- only if an artifact was accepted, and the last event of the ledger is `run.finished` with the
-- status of the result, under the event that began the run.
pub execute-Reports :
    (w : World) (plan : FetchPlan) (least elapsed : ℕ) (g : Ledger) (r : FetchResult)
    → execute w plan least elapsed g ≡ result r
    → Reports g.next_id r
unfolding execute
execute-Reports w plan least elapsed g r h =
    by_end (run_loop w plan g.next_id (length plan.nodes) 0 plan.nodes (first_progress plan g)) h
  where
    concluded :
        (p : Progress)
        → result (conclude plan g.next_id least elapsed p) ≡ result r
        → Reports g.next_id r
    concluded p k =
        let same : conclude plan g.next_id least elapsed p ≡ r = cc in
        subst (Reports g.next_id) same (conclude-Reports plan g.next_id least elapsed p)

    by_end : (e : LoopEnd) → end_run plan g.next_id least elapsed e ≡ result r → Reports g.next_id r
    by_end (all_done p) k = concluded p k
    by_end (stopped rest p) k = concluded p k
    by_end (gave_up s) k = absurd (ground arith)
    by_end out_of_fuel k = absurd (ground arith)
