-- ===== src/Ledger/Stream/Steps.antt =====
-- src/fetech/ledger.py: the steps of `append` and `update_run` keep the invariant.
use fetech.Prelude.{
  ℕ, ◌≡◌, ◌≢◌, refl, subst, inl, inr, Bool, true, false, some, List, [], ◌∷◌, ◌++◌, ◌==◌, ==→eq, In,
  All, All-map, All-append, All-In, ◌⊎◌, not, ◌&&◌, All-get_elem?, All-remove_at, arith,
  if◌then◌else◌, get_elem?, remove_at,
}
use fetech.Models.Status.{RunState, finished}
use fetech.Ledger.Stream.{
  Event, Phase, detached, subscribed, replaying, draining, waiting, returned, key_error, System,
  has_id, has_queue, events, append_row, append_other, announce, lose, set_state, finish, tell_end,
}
use fetech.Ledger.Stream.Events.{
  Unique-snoc, In-left, In-right, In-last, All-In-refl, In-remove_at, events-own, events-other,
  has_id-events,
}
use fetech.Ledger.Stream.Invariant.{
  shown, OnWay, Ending, Inv, All-weaken, Covered-move, Covered-add,
}

-- An event that is put into the queue, unless the queue has come to its end
OnWay-announce :
    (queue unannounced unsent : List Event) (i : ℕ) (e : Event) (queued marked finishing : Bool)
    → get_elem? unannounced i ≡ some e
    → (finishing ≡ false) ⊎ All (λ x. In x unsent) unannounced
    → (marked ≡ false) ⊎ (finishing ≡ true)
    → queued ≡ true
    → (seen : List Event) (x : Event) → OnWay seen queue unannounced unsent x
    → OnWay seen
        (if queued && not marked then queue ++ e ∷ [] else queue)
        (remove_at unannounced i)
        unsent
        x
OnWay-announce queue unannounced unsent i e false m f there quiet mark q seen x h =
    absurd (ground arith)
OnWay-announce queue unannounced unsent i e true m f there quiet mark q seen x (inl j) = inl j
OnWay-announce queue unannounced unsent i e true true f there quiet mark q seen x (inr (inl j)) =
    inr (inl j)
OnWay-announce queue unannounced unsent i e true false f there quiet mark q seen x (inr (inl j)) =
    inr (inl (In-left x queue (e ∷ []) j))
OnWay-announce queue unannounced unsent i e true m f there quiet mark q seen x (inr (inr (inr j))) =
    inr (inr (inr j))
OnWay-announce queue unannounced unsent i e true false f there quiet mark q seen x
      (inr (inr (inl j))) =
    elim (In-remove_at unannounced i e x there j) [
      | inl is ↦ inr (inl (rw is (In-last e queue)))
      | inr j' ↦ inr (inr (inl j'))
    ]
OnWay-announce queue unannounced unsent i e true true f there quiet (inl m) q seen x
      (inr (inr (inl j))) =
    absurd (ground arith)
OnWay-announce queue unannounced unsent i e true true f there (inl g) (inr m) q seen x
      (inr (inr (inl j))) =
    absurd (ground arith)
OnWay-announce queue unannounced unsent i e true true f there (inr late) (inr m) q seen x
      (inr (inr (inl j))) =
    inr (inr (inr (All-In (λ y. In y unsent) unannounced x late j)))

All-In-right : (xs ys : List Event) → All (λ x. In x (xs ++ ys)) ys
All-In-right xs ys =
    All-map (λ x. In x ys) (λ x. In x (xs ++ ys)) (λ x h. In-right x xs ys h) ys (All-In-refl ys)

Ending-finish : (phase : Phase) → Ending phase true
Ending-finish detached = tt
Ending-finish subscribed = tt
Ending-finish (replaying rest) = tt
Ending-finish draining = refl
Ending-finish waiting = tt
Ending-finish returned = refl
Ending-finish key_error = tt

module _ (run_id : ℕ) (s : System) (v : Inv run_id s) where
  pub set_state-Inv : (state : RunState) → state ≢ finished → Inv run_id (set_state state s)
  unfolding set_state
  set_state-Inv state other = record {
    unique = v.unique;
    seen_ids = v.seen_ids;
    shown_unique = v.shown_unique;
    shown_own = v.shown_own;
    queue_own = v.queue_own;
    unannounced_own = v.unannounced_own;
    covered = v.covered;
    quiet = v.quiet;
    end_marked = v.end_marked;
    ending = v.ending;
    not_early = inr (λ is. other cc);
  }

  pub finish-Inv : Inv run_id (finish s)
  unfolding finish set_state
  finish-Inv = record {
    unique = v.unique;
    seen_ids = v.seen_ids;
    shown_unique = v.shown_unique;
    shown_own = v.shown_own;
    queue_own = v.queue_own;
    unannounced_own = v.unannounced_own;
    covered =
        Covered-move s.phase (events run_id s.rows) s.yielded s.queue s.unannounced s.unsent s.queue
          s.unannounced (s.unsent ++ s.unannounced) (λ _ seen x h. longer seen x h)
          (λ x h. In-left x s.unsent s.unannounced h) v.covered;
    quiet = inr (All-In-right s.unsent s.unannounced);
    end_marked = inr refl;
    ending = Ending-finish s.phase;
    not_early = inl refl;
  }
    where
      longer :
          (seen : List Event) (x : Event)
          → OnWay seen s.queue s.unannounced s.unsent x
          → OnWay seen s.queue s.unannounced (s.unsent ++ s.unannounced) x
      longer seen x (inl i) = inl i
      longer seen x (inr (inl i)) = inr (inl i)
      longer seen x (inr (inr (inl i))) = inr (inr (inl i))
      longer seen x (inr (inr (inr i))) = inr (inr (inr (In-left x s.unsent s.unannounced i)))

  pub tell_end-Inv : s.finishing ≡ true → Inv run_id (tell_end s)
  unfolding tell_end
  tell_end-Inv f = record {
    unique = v.unique;
    seen_ids = v.seen_ids;
    shown_unique = v.shown_unique;
    shown_own = v.shown_own;
    queue_own = v.queue_own;
    unannounced_own = v.unannounced_own;
    covered = v.covered;
    quiet = v.quiet;
    end_marked = inr f;
    ending = v.ending;
    not_early = v.not_early;
  }

  pub announce-Inv :
      (i : ℕ) (e : Event) → get_elem? s.unannounced i ≡ some e → Inv run_id (announce i e s)
  unfolding announce
  announce-Inv i e there =
      let own = events run_id s.rows in
      let Own = λ (x : Event). In x own in
      let e_own = All-get_elem? Own s.unannounced i e v.unannounced_own there in
      record {
        unique = v.unique;
        seen_ids = v.seen_ids;
        shown_unique = v.shown_unique;
        shown_own = v.shown_own;
        queue_own =
            if_All (has_queue s.phase && not s.marked)
              (All-append Own s.queue (e ∷ []) v.queue_own (e_own, tt));
        unannounced_own = All-remove_at Own s.unannounced i v.unannounced_own;
        covered =
            Covered-move s.phase own s.yielded s.queue s.unannounced s.unsent
              (if has_queue s.phase && not s.marked then s.queue ++ e ∷ [] else s.queue)
              (remove_at s.unannounced i) s.unsent
              (λ q.
                OnWay-announce s.queue s.unannounced s.unsent i e (has_queue s.phase) s.marked
                  s.finishing there v.quiet v.end_marked q)
              (λ x h. h) v.covered;
        quiet = elim v.quiet [
          | inl f ↦ inl f
          | inr late ↦ inr (All-remove_at (λ x. In x s.unsent) s.unannounced i late)
        ];
        end_marked = v.end_marked;
        ending = v.ending;
        not_early = v.not_early;
      }
    where
      if_All :
          (b : Bool)
          → All (λ x. In x (events run_id s.rows)) (s.queue ++ e ∷ [])
          → All (λ x. In x (events run_id s.rows)) (if b then s.queue ++ e ∷ [] else s.queue)
      if_All true h = h
      if_All false h = v.queue_own

  pub lose-Inv : (i : ℕ) (e : Event) → get_elem? s.unannounced i ≡ some e → Inv run_id (lose i e s)
  unfolding lose
  lose-Inv i e there =
      let own = events run_id s.rows in
      let more = λ (x : Event) (h : In x s.unsent). In-left x s.unsent (e ∷ []) h in
      record {
        unique = v.unique;
        seen_ids = v.seen_ids;
        shown_unique = v.shown_unique;
        shown_own = v.shown_own;
        queue_own = v.queue_own;
        unannounced_own = All-remove_at (λ x. In x own) s.unannounced i v.unannounced_own;
        covered =
            Covered-move s.phase own s.yielded s.queue s.unannounced s.unsent s.queue
              (remove_at s.unannounced i) (s.unsent ++ e ∷ []) (λ _ seen x h. moved seen x h) more
              v.covered;
        quiet = elim v.quiet [
          | inl f ↦ inl f
          | inr late ↦ inr (
              All-map (λ x. In x s.unsent) (λ x. In x (s.unsent ++ e ∷ [])) more
                (remove_at s.unannounced i)
                (All-remove_at (λ x. In x s.unsent) s.unannounced i late))
        ];
        end_marked = v.end_marked;
        ending = v.ending;
        not_early = v.not_early;
      }
    where
      moved :
          (seen : List Event) (x : Event)
          → OnWay seen s.queue s.unannounced s.unsent x
          → OnWay seen s.queue (remove_at s.unannounced i) (s.unsent ++ e ∷ []) x
      moved seen x (inl j) = inl j
      moved seen x (inr (inl j)) = inr (inl j)
      moved seen x (inr (inr (inl j))) = elim (In-remove_at s.unannounced i e x there j) [
        | inl is ↦ inr (inr (inr (rw is (In-last e s.unsent))))
        | inr j' ↦ inr (inr (inl j'))
      ]
      moved seen x (inr (inr (inr j))) = inr (inr (inr (In-left x s.unsent (e ∷ []) j)))

  pub append_other-Inv : (e : Event) → e.run_id ≢ run_id → Inv run_id (append_other e s)
  unfolding append_other
  append_other-Inv e other =
      let same = events-other run_id s.rows e (different (e.run_id == run_id) refl) in
      record {
        unique = rw same v.unique;
        seen_ids = v.seen_ids;
        shown_unique = v.shown_unique;
        shown_own = rw same v.shown_own;
        queue_own = rw same v.queue_own;
        unannounced_own = rw same v.unannounced_own;
        covered = rw same v.covered;
        quiet = v.quiet;
        end_marked = v.end_marked;
        ending = v.ending;
        not_early = v.not_early;
      }
    where
      different : (b : Bool) → (e.run_id == run_id) ≡ b → (e.run_id == run_id) ≡ false
      different true h = absurd (other (==→eq e.run_id run_id h))
      different false h = h

  pub append_row-Inv :
      (e : Event)
      → e.run_id ≡ run_id
      → has_id e.event_id s.rows ≡ false
      → Inv run_id (append_row e s)
  unfolding append_row
  append_row-Inv e own_run fresh =
      let own = events run_id s.rows in
      let same = events-own run_id s.rows e own_run in
      let unsent' = if s.finishing then s.unsent ++ e ∷ [] else s.unsent in
      record {
        unique =
            rw same (Unique-snoc own e v.unique (has_id-events run_id e.event_id s.rows fresh));
        seen_ids = v.seen_ids;
        shown_unique = v.shown_unique;
        shown_own = rw same (All-weaken own (shown s.phase s.yielded) e v.shown_own);
        queue_own = rw same (All-weaken own s.queue e v.queue_own);
        unannounced_own = rw same (
            All-append (λ x. In x (own ++ e ∷ [])) s.unannounced (e ∷ [])
              (All-weaken own s.unannounced e v.unannounced_own) (In-last e own, tt));
        covered = rw same (
            Covered-add s.phase own s.yielded s.queue (s.unannounced ++ e ∷ []) unsent' e
              (In-last e s.unannounced)
              (λ at. late s.finishing (subst (λ p. Ending p s.finishing) at v.ending))
              (Covered-move s.phase own s.yielded s.queue s.unannounced s.unsent s.queue
                (s.unannounced ++ e ∷ []) unsent' (λ _ seen x h. moved seen x h)
                (λ x h. stays s.finishing x h) v.covered));
        quiet = quiet' s.finishing v.quiet;
        end_marked = v.end_marked;
        ending = v.ending;
        not_early = v.not_early;
      }
    where
      late : (b : Bool) → b ≡ true → In e (if b then s.unsent ++ e ∷ [] else s.unsent)
      late true f = In-last e s.unsent
      late false f = absurd (ground arith)

      stays :
          (b : Bool) (x : Event) → In x s.unsent → In x (if b then s.unsent ++ e ∷ [] else s.unsent)
      stays true x h = In-left x s.unsent (e ∷ []) h
      stays false x h = h

      moved :
          (seen : List Event) (x : Event)
          → OnWay seen s.queue s.unannounced s.unsent x
          → OnWay seen s.queue
              (s.unannounced ++ e ∷ [])
              (if s.finishing then s.unsent ++ e ∷ [] else s.unsent)
              x
      moved seen x (inl j) = inl j
      moved seen x (inr (inl j)) = inr (inl j)
      moved seen x (inr (inr (inl j))) = inr (inr (inl (In-left x s.unannounced (e ∷ []) j)))
      moved seen x (inr (inr (inr j))) = inr (inr (inr (stays s.finishing x j)))

      quiet' :
          (b : Bool)
          → (b ≡ false) ⊎ All (λ x. In x s.unsent) s.unannounced
          → (b ≡ false)
            ⊎ All (λ x. In x (if b then s.unsent ++ e ∷ [] else s.unsent)) (s.unannounced ++ e ∷ [])
      quiet' false h = inl refl
      quiet' true (inl f) = inl f
      quiet' true (inr h) = inr (
          All-append (λ x. In x (s.unsent ++ e ∷ [])) s.unannounced (e ∷ [])
            (All-weaken s.unsent s.unannounced e h) (In-last e s.unsent, tt))
