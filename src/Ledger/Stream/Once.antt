-- ===== src/Ledger/Stream/Once.antt =====
-- src/fetech/ledger.py: a stream yields each event of its run exactly once.
use fetech.Prelude.{ℕ, ◌≡◌, refl, ◌⊎◌, inl, inr, Bool, true, List, In, All, subst, arith}
use fetech.Models.Status.{queued}
use fetech.Ledger.Document.{TextLibrary}
use fetech.Ledger.Stream.{
  Event, Phase, detached, subscribed, replaying, draining, waiting, returned, key_error, System,
  initial, stored, events, Step, creates, updates, appends, appends_other, announces, loses,
  finishes, tells, reads, Reach, start, next,
}
use fetech.Ledger.Stream.Events.{Unique, Unique-prefix, All-prefix}
use fetech.Ledger.Stream.Invariant.{shown, Covered, Ending, Inv}
use fetech.Ledger.Stream.Steps.{
  set_state-Inv, finish-Inv, tell_end-Inv, announce-Inv, lose-Inv, append_other-Inv, append_row-Inv,
}
use fetech.Ledger.Stream.Reads.{read-Inv}
use fetech.Ledger.Stream.Unsent.{unsent_of, unsent-unsent_of}

initial-Inv : (run_id : ℕ) → Inv run_id initial
unfolding events Unique
initial-Inv run_id = record {
  unique = tt;
  seen_ids = λ n. refl;
  shown_unique = tt;
  shown_own = tt;
  queue_own = tt;
  unannounced_own = tt;
  covered = refl;
  quiet = inl refl;
  end_marked = inl refl;
  ending = tt;
  not_early = inr (λ h. ground arith);
}

module _ (lib : TextLibrary) (authenticated : Bool) (run_id : ℕ) where
  Step-Inv : (s s' : System) → Inv run_id s → Step lib authenticated run_id s s' → Inv run_id s'
  Step-Inv s _ v (creates _ none_yet) = set_state-Inv run_id s v queued (λ h. ground arith)
  Step-Inv s _ v (updates state old _ is going other) = set_state-Inv run_id s v state other
  Step-Inv s _ v (appends e _ own fresh) =
      append_row-Inv run_id s v (stored lib authenticated e) own fresh
  Step-Inv s _ v (appends_other e _ other fresh) =
      append_other-Inv run_id s v (stored lib authenticated e) other
  Step-Inv s _ v (announces i e _ there) = announce-Inv run_id s v i e there
  Step-Inv s _ v (finishes old _ is) = finish-Inv run_id s v
  Step-Inv s _ v (loses i e _ there) = lose-Inv run_id s v i e there
  Step-Inv s _ v (tells _ f) = tell_end-Inv run_id s v f
  Step-Inv s _ v (reads _) = read-Inv run_id s v

  Reach-Inv : (s : System) → Reach lib authenticated run_id s → Inv run_id s
  Reach-Inv _ start = initial-Inv run_id
  Reach-Inv s' (next s _ r step) = Step-Inv s s' (Reach-Inv s r) step

  yielded-Unique : (p : Phase) (yielded : List Event) → Unique (shown p yielded) → Unique yielded
  yielded-Unique (replaying rest) yielded u = Unique-prefix yielded rest u
  yielded-Unique detached yielded u = u
  yielded-Unique subscribed yielded u = u
  yielded-Unique draining yielded u = u
  yielded-Unique waiting yielded u = u
  yielded-Unique returned yielded u = u
  yielded-Unique key_error yielded u = u

  yielded-All :
      (P : Event → Type 0) (p : Phase) (yielded : List Event)
      → All P (shown p yielded)
      → All P yielded
  yielded-All P (replaying rest) yielded h = All-prefix P yielded rest h
  yielded-All P detached yielded h = h
  yielded-All P subscribed yielded h = h
  yielded-All P draining yielded h = h
  yielded-All P waiting yielded h = h
  yielded-All P returned yielded h = h
  yielded-All P key_error yielded h = h

  -- However appends, updates and the stream are interleaved, what the stream has yielded are events
  -- that are committed for its run, and no two of them have the same identifier.
  pub stream_no_repeats :
      (s : System)
      → Reach lib authenticated run_id s
      → Unique s.yielded × All (λ e. In e (events run_id s.rows)) s.yielded
  stream_no_repeats s r =
      let v = Reach-Inv s r in
      (
        yielded-Unique s.phase s.yielded v.shown_unique,
        yielded-All (λ e. In e (events run_id s.rows)) s.phase s.yielded v.shown_own,
      )

  -- However appends, updates, cancellations and the stream are interleaved, the stream returns only
  -- when the run has finished, and then it has yielded every event of the run, those that were
  -- committed before it began and those that came while it read, but for events whose append was
  -- cancelled between its commit and the queues or had not come to its end when FINISHED was
  -- committed for the run.
  pub stream_complete :
      (s : System) (r : Reach lib authenticated run_id s)
      → s.phase ≡ returned
      → (s.finishing ≡ true)
        × All (λ e. In e s.yielded ⊎ In e (unsent_of s r)) (events run_id s.rows)
  stream_complete s r at =
      let v = Reach-Inv s r in
      (
        subst (λ p. Ending p s.finishing) at v.ending,
        subst (λ us. All (λ e. In e s.yielded ⊎ In e us) (events run_id s.rows))
            (unsent-unsent_of s r)
            (subst (λ p. Covered p (events run_id s.rows) s.yielded s.queue s.unannounced s.unsent)
              at v.covered),
      )
