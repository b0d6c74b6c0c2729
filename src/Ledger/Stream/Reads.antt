-- ===== src/Ledger/Stream/Reads.antt =====
-- src/fetech/ledger.py: the steps of `stream` keep the invariant.
use fetech.Prelude.{
  ℕ, ◌≡◌, refl, sym, ap, subst, inl, inr, Bool, true, false, Option, none, some, List, [], ◌∷◌,
  ◌++◌, ◌⊎◌, In, All, All-map, All-append, All-In, arith, if◌then◌else◌,
}
use fetech.Models.Status.{RunState}
use fetech.Security.Policy.{member}
use fetech.Ledger.Stream.{
  Event, Phase, detached, subscribed, replaying, draining, waiting, returned, key_error, System,
  has_id, events, take, after_snapshot, drain_step, wait_step, read_at, read,
}
use fetech.Ledger.Stream.Events.{
  Unique, Unique-snoc, In-left, In-last, has_id-In, same_event, has_id-append, append_assoc,
  All-In-refl,
}
use fetech.Ledger.Stream.Invariant.{shown, OnWay, Covered, Ending, Inv}

-- The two loops of a stream that reads its queue
IsLive : Phase → Type 0
IsLive draining = Unit
IsLive waiting = Unit
IsLive detached = ⊥
IsLive subscribed = ⊥
IsLive (replaying rest) = ⊥
IsLive returned = ⊥
IsLive key_error = ⊥

shown-live : (p : Phase) (yielded : List Event) → IsLive p → shown p yielded ≡ yielded
unfolding IsLive
shown-live draining yielded l = refl
shown-live waiting yielded l = refl
shown-live detached yielded l = absurd l
shown-live subscribed yielded l = absurd l
shown-live (replaying rest) yielded l = absurd l
shown-live returned yielded l = absurd l
shown-live key_error yielded l = absurd l

Covered-live :
    (p : Phase) (own yielded queue unannounced unsent : List Event)
    → IsLive p
    → Covered p own yielded queue unannounced unsent
    → All (OnWay yielded queue unannounced unsent) own
unfolding IsLive
Covered-live draining own yielded queue unannounced unsent l h = h
Covered-live waiting own yielded queue unannounced unsent l h = h
Covered-live detached own yielded queue unannounced unsent l h = absurd l
Covered-live subscribed own yielded queue unannounced unsent l h = absurd l
Covered-live (replaying rest) own yielded queue unannounced unsent l h = absurd l
Covered-live returned own yielded queue unannounced unsent l h = absurd l
Covered-live key_error own yielded queue unannounced unsent l h = absurd l

live-Covered :
    (p : Phase) (own yielded queue unannounced unsent : List Event)
    → IsLive p
    → All (OnWay yielded queue unannounced unsent) own
    → Covered p own yielded queue unannounced unsent
unfolding IsLive
live-Covered draining own yielded queue unannounced unsent l h = h
live-Covered waiting own yielded queue unannounced unsent l h = h
live-Covered detached own yielded queue unannounced unsent l h = absurd l
live-Covered subscribed own yielded queue unannounced unsent l h = absurd l
live-Covered (replaying rest) own yielded queue unannounced unsent l h = absurd l
live-Covered returned own yielded queue unannounced unsent l h = absurd l
live-Covered key_error own yielded queue unannounced unsent l h = absurd l

member-seen :
    (seen : List ℕ) (yielded : List Event) (e : Event)
    → ((n : ℕ) → member n seen ≡ has_id n yielded)
    → (n : ℕ) → member n (e.event_id ∷ seen) ≡ has_id n (yielded ++ e ∷ [])
member-seen seen yielded e h n = ground (arith, h n, has_id-append n yielded (e ∷ []))

-- What is taken from the queue has been yielded before, or is yielded now.
OnWay-taken :
    (own yielded queue unannounced unsent : List Event) (e : Event) (yielded' : List Event)
    → ((x : Event) → In x yielded → In x yielded')
    → In e yielded'
    → All (OnWay yielded (e ∷ queue) unannounced unsent) own
    → All (OnWay yielded' queue unannounced unsent) own
OnWay-taken own yielded queue unannounced unsent e yielded' keeps there h =
    All-map (OnWay yielded (e ∷ queue) unannounced unsent) (OnWay yielded' queue unannounced unsent)
      moved own h
  where
    moved :
        (x : Event)
        → OnWay yielded (e ∷ queue) unannounced unsent x
        → OnWay yielded' queue unannounced unsent x
    moved x (inl i) = inl (keeps x i)
    moved x (inr (inl (inl is))) = inl (rw (← is) there)
    moved x (inr (inl (inr i))) = inr (inl i)
    moved x (inr (inr i)) = inr (inr i)

none-In : (x : Event) → In x [] → ⊥
none-In x i = i.1

-- With an empty queue, when what is not announced is not sent, all else has been yielded.
OnWay-all :
    (own yielded queue unannounced unsent : List Event)
    → queue ≡ []
    → All (λ e. In e unsent) unannounced
    → All (OnWay yielded queue unannounced unsent) own
    → All (λ e. In e yielded ⊎ In e unsent) own
OnWay-all own yielded queue unannounced unsent q u h =
    All-map (OnWay yielded queue unannounced unsent) (λ e. In e yielded ⊎ In e unsent) moved own h
  where
    moved : (x : Event) → OnWay yielded queue unannounced unsent x → In x yielded ⊎ In x unsent
    moved x (inl i) = inl i
    moved x (inr (inl i)) = absurd (none-In x (subst (λ l. In x l) q i))
    moved x (inr (inr (inl i))) = inr (All-In (λ e. In e unsent) unannounced x u i)
    moved x (inr (inr (inr i))) = inr i

module _ (run_id : ℕ) (s : System) (v : Inv run_id s) where
  take-Inv :
      (e : Event) (rest : List Event)
      → IsLive s.phase
      → s.queue ≡ e ∷ rest
      → Inv run_id (take e rest s)
  take-Inv e rest live q = by_seen (member e.event_id s.seen) refl
    where
      by_seen :
          (b : Bool)
          → member e.event_id s.seen ≡ b
          → Inv run_id (
              if b then record s { queue = rest } else record s {
                queue = rest;
                seen = e.event_id ∷ s.seen;
                yielded = s.yielded ++ e ∷ [];
              })
      by_seen true is =
          let own = events run_id s.rows in
          let cov =
            subst (λ z. All (OnWay s.yielded z s.unannounced s.unsent) own) q
              (Covered-live s.phase own s.yielded s.queue s.unannounced s.unsent live v.covered) in
          let e_own = (subst (λ z. All (λ x. In x own) z) q v.queue_own).0 in
          let yielded_own =
            subst (λ z. All (λ x. In x own) z) (shown-live s.phase s.yielded live) v.shown_own in
          let (y, y_in, same) = has_id-In e.event_id s.yielded (rw (← v.seen_ids e.event_id) is) in
          let y_own = All-In (λ x. In x own) s.yielded y yielded_own y_in in
          let y_is : y ≡ e = same_event own y e v.unique y_own e_own same in
          record {
            unique = v.unique;
            seen_ids = v.seen_ids;
            shown_unique = v.shown_unique;
            shown_own = v.shown_own;
            queue_own = (subst (λ z. All (λ x. In x own) z) q v.queue_own).1;
            unannounced_own = v.unannounced_own;
            covered = live-Covered s.phase own s.yielded rest s.unannounced s.unsent live (
                OnWay-taken own s.yielded rest s.unannounced s.unsent e s.yielded (λ x i. i)
                  (subst (λ z. In z s.yielded) y_is y_in) cov);
            quiet = v.quiet;
            end_marked = v.end_marked;
            ending = v.ending;
            not_early = v.not_early;
          }
      by_seen false is =
          let own = events run_id s.rows in
          let cov =
            subst (λ z. All (OnWay s.yielded z s.unannounced s.unsent) own) q
              (Covered-live s.phase own s.yielded s.queue s.unannounced s.unsent live v.covered) in
          let e_own = (subst (λ z. All (λ x. In x own) z) q v.queue_own).0 in
          let yielded_own =
            subst (λ z. All (λ x. In x own) z) (shown-live s.phase s.yielded live) v.shown_own in
          let yielded_unique = subst Unique (shown-live s.phase s.yielded live) v.shown_unique in
          let yielded' = s.yielded ++ e ∷ [] in
          record {
            unique = v.unique;
            seen_ids = member-seen s.seen s.yielded e v.seen_ids;
            shown_unique =
                subst Unique (sym (shown-live s.phase yielded' live))
                  (Unique-snoc s.yielded e yielded_unique (rw (← v.seen_ids e.event_id) is));
            shown_own =
                subst (λ z. All (λ x. In x own) z) (sym (shown-live s.phase yielded' live))
                  (All-append (λ x. In x own) s.yielded (e ∷ []) yielded_own (e_own, tt));
            queue_own = (subst (λ z. All (λ x. In x own) z) q v.queue_own).1;
            unannounced_own = v.unannounced_own;
            covered = live-Covered s.phase own yielded' rest s.unannounced s.unsent live (
                OnWay-taken own s.yielded rest s.unannounced s.unsent e yielded'
                  (λ x i. In-left x s.yielded (e ∷ []) i) (In-last e s.yielded) cov);
            quiet = v.quiet;
            end_marked = v.end_marked;
            ending = v.ending;
            not_early = v.not_early;
          }

  -- A return from one of the two loops, when the queue is empty and the run has finished
  return-Inv :
      IsLive s.phase
      → s.queue ≡ []
      → s.finishing ≡ true
      → Inv run_id (record s { phase = returned })
  return-Inv live q f =
      let none_left : All (λ e. In e s.unsent) s.unannounced = elim v.quiet [
        | inl g ↦ absurd (ground arith)
        | inr u ↦ u
      ] in
      record {
        unique = v.unique;
        seen_ids = v.seen_ids;
        shown_unique = subst Unique (shown-live s.phase s.yielded live) v.shown_unique;
        shown_own =
            subst (λ z. All (λ x. In x (events run_id s.rows)) z)
              (shown-live s.phase s.yielded live) v.shown_own;
        queue_own = v.queue_own;
        unannounced_own = v.unannounced_own;
        covered =
            OnWay-all (events run_id s.rows) s.yielded s.queue s.unannounced s.unsent q none_left (
              Covered-live s.phase (events run_id s.rows) s.yielded s.queue s.unannounced s.unsent
                live v.covered);
        quiet = v.quiet;
        end_marked = v.end_marked;
        ending = f;
        not_early = v.not_early;
      }

  drain-Inv : s.phase ≡ draining → (q : List Event) → s.queue ≡ q → Inv run_id (drain_step q s)
  unfolding IsLive
  drain-Inv at [] q =
      return-Inv (subst IsLive (sym at) tt) q (subst (λ p. Ending p s.finishing) at v.ending)
  drain-Inv at (e ∷ rest) q = take-Inv e rest (subst IsLive (sym at) tt) q

  wait-Inv : s.phase ≡ waiting → (q : List Event) → s.queue ≡ q → Inv run_id (wait_step q s)
  unfolding IsLive
  wait-Inv at [] q = at_mark s.marked refl
    where
      at_mark :
          (b : Bool) → s.marked ≡ b → Inv run_id (if b then record s { phase = returned } else s)
      at_mark true is =
          let f : s.finishing ≡ true = elim v.end_marked [
            | inl g ↦ absurd (ground arith)
            | inr f ↦ f
          ] in
          return-Inv (subst IsLive (sym at) tt) q f
      at_mark false is = v
  wait-Inv at (e ∷ rest) q = take-Inv e rest (subst IsLive (sym at) tt) q

  replay-Inv :
      (e : Event) (rest : List Event)
      → s.phase ≡ replaying (e ∷ rest)
      → Inv run_id (record s {
        phase = replaying rest;
        seen = e.event_id ∷ s.seen;
        yielded = s.yielded ++ e ∷ [];
      })
  replay-Inv e rest at =
      let own = events run_id s.rows in
      let same : shown (replaying rest) (s.yielded ++ e ∷ []) ≡ shown s.phase s.yielded =
        rw at (append_assoc s.yielded e rest) in
      let cov = subst (λ p. Covered p own s.yielded s.queue s.unannounced s.unsent) at v.covered in
      record {
        unique = v.unique;
        seen_ids = member-seen s.seen s.yielded e v.seen_ids;
        shown_unique = subst Unique (sym same) v.shown_unique;
        shown_own = subst (λ z. All (λ x. In x own) z) (sym same) v.shown_own;
        queue_own = v.queue_own;
        unannounced_own = v.unannounced_own;
        covered =
            subst (λ z. All (OnWay z s.queue s.unannounced s.unsent) own)
              (sym (append_assoc s.yielded e rest)) cov;
        quiet = v.quiet;
        end_marked = v.end_marked;
        ending = tt;
        not_early = v.not_early;
      }

  snapshot-Inv :
      s.phase ≡ subscribed → Inv run_id (record s { phase = replaying (events run_id s.rows) })
  snapshot-Inv at =
      let own = events run_id s.rows in
      let none_yet : s.yielded ≡ [] =
        subst (λ p. Covered p own s.yielded s.queue s.unannounced s.unsent) at v.covered in
      let same : s.yielded ++ own ≡ own = rw none_yet refl in
      record {
        unique = v.unique;
        seen_ids = v.seen_ids;
        shown_unique = subst Unique (sym same) v.unique;
        shown_own = subst (λ z. All (λ x. In x own) z) (sym same) (All-In-refl own);
        queue_own = v.queue_own;
        unannounced_own = v.unannounced_own;
        covered =
            subst (λ z. All (OnWay z s.queue s.unannounced s.unsent) own) (sym same)
              (All-map (λ x. In x own) (OnWay own s.queue s.unannounced s.unsent) (λ x i. inl i) own
                (All-In-refl own));
        quiet = v.quiet;
        end_marked = v.end_marked;
        ending = tt;
        not_early = v.not_early;
      }

  append_nil : (xs : List Event) → xs ++ [] ≡ xs
  append_nil [] = refl
  append_nil (x ∷ xs) = ap (λ ys. x ∷ ys) (append_nil xs)

  -- The stream has yielded what it had read: it stands in `p`, which shows no more.
  settled-Inv :
      (p : Phase)
      → s.phase ≡ replaying []
      → shown p s.yielded ≡ s.yielded
      → Covered p (events run_id s.rows) s.yielded s.queue s.unannounced s.unsent
      → Ending p s.finishing
      → Inv run_id (record s { phase = p })
  settled-Inv p at plain cov end =
      let same : shown s.phase s.yielded ≡ s.yielded = rw at (append_nil s.yielded) in
      record {
        unique = v.unique;
        seen_ids = v.seen_ids;
        shown_unique = subst Unique (sym plain) (subst Unique same v.shown_unique);
        shown_own =
            subst (λ z. All (λ x. In x (events run_id s.rows)) z) (sym plain)
              (subst (λ z. All (λ x. In x (events run_id s.rows)) z) same v.shown_own);
        queue_own = v.queue_own;
        unannounced_own = v.unannounced_own;
        covered = cov;
        quiet = v.quiet;
        end_marked = v.end_marked;
        ending = end;
        not_early = v.not_early;
      }

  after_snapshot-Inv :
      s.phase ≡ replaying []
      → (run : Option RunState) → s.run ≡ run
      → Inv run_id (record s { phase = after_snapshot run })
  after_snapshot-Inv at run is =
      let own = events run_id s.rows in
      let cov : All (OnWay s.yielded s.queue s.unannounced s.unsent) own =
        subst (λ z. All (OnWay z s.queue s.unannounced s.unsent) own) (append_nil s.yielded)
          (subst (λ p. Covered p own s.yielded s.queue s.unannounced s.unsent) at v.covered) in
      by_state run is cov
    where
      by_state :
          (run : Option RunState)
          → s.run ≡ run
          → All (OnWay s.yielded s.queue s.unannounced s.unsent) (events run_id s.rows)
          → Inv run_id (record s { phase = after_snapshot run })
      by_state none is cov = settled-Inv key_error at refl tt tt
      by_state (some RunState.queued) is cov = settled-Inv waiting at refl cov tt
      by_state (some RunState.planning) is cov = settled-Inv waiting at refl cov tt
      by_state (some RunState.running) is cov = settled-Inv waiting at refl cov tt
      by_state (some RunState.finished) is cov =
          settled-Inv draining at refl cov
            (elim v.not_early [ inl f ↦ f | inr other ↦ absurd (other is) ])

  subscribe-Inv : s.phase ≡ detached → Inv run_id (record s { phase = subscribed })
  subscribe-Inv at = record {
    unique = v.unique;
    seen_ids = v.seen_ids;
    shown_unique = subst (λ p. Unique (shown p s.yielded)) at v.shown_unique;
    shown_own =
        subst (λ p. All (λ x. In x (events run_id s.rows)) (shown p s.yielded)) at v.shown_own;
    queue_own = v.queue_own;
    unannounced_own = v.unannounced_own;
    covered =
        subst (λ p. Covered p (events run_id s.rows) s.yielded s.queue s.unannounced s.unsent) at
          v.covered;
    quiet = v.quiet;
    end_marked = v.end_marked;
    ending = tt;
    not_early = v.not_early;
  }

  read_at-Inv : (p : Phase) → s.phase ≡ p → Inv run_id (read_at run_id p s)
  read_at-Inv detached at = subscribe-Inv at
  read_at-Inv subscribed at = snapshot-Inv at
  read_at-Inv (replaying []) at = after_snapshot-Inv at s.run refl
  read_at-Inv (replaying (e ∷ rest)) at = replay-Inv e rest at
  read_at-Inv draining at = drain-Inv at s.queue refl
  read_at-Inv waiting at = wait-Inv at s.queue refl
  read_at-Inv returned at = v
  read_at-Inv key_error at = v

  pub read-Inv : Inv run_id (read run_id s)
  unfolding read
  read-Inv = read_at-Inv s.phase refl
