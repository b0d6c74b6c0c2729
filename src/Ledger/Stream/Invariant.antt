-- ===== src/Ledger/Stream/Invariant.antt =====
-- src/fetech/ledger.py: what holds between the rows, the queue and what a stream has yielded.
use fetech.Prelude.{
  ℕ, ◌≡◌, ◌≢◌, refl, ◌⊎◌, inl, inr, Bool, true, false, some, List, [], ◌∷◌, ◌++◌, In, All, All-map,
  All-append,
}
use fetech.Models.Status.{finished}
use fetech.Security.Policy.{member}
use fetech.Ledger.Stream.{
  Event, Phase, detached, subscribed, replaying, draining, waiting, returned, key_error, System,
  has_id, has_queue, events,
}
use fetech.Ledger.Stream.Events.{Unique, In-left}

-- What the stream has yielded, and what it is about to yield of what it has read
abbrev pub shown : Phase → List Event → List Event
shown detached yielded = yielded
shown subscribed yielded = yielded
shown (replaying rest) yielded = yielded ++ rest
shown draining yielded = yielded
shown waiting yielded = yielded
shown returned yielded = yielded
shown key_error yielded = yielded

-- An event that the stream has shown, that is on its way to it, or that is not sent
abbrev pub OnWay : List Event → List Event → List Event → List Event → Event → Type 0
OnWay seen queue unannounced unsent e = In e seen ⊎ In e queue ⊎ In e unannounced ⊎ In e unsent

-- Which events of the run a stream accounts for, by its phase
abbrev pub Covered : Phase → List Event → List Event → List Event → List Event → List Event → Type 0
Covered detached own yielded queue unannounced unsent = yielded ≡ []
Covered subscribed own yielded queue unannounced unsent = yielded ≡ []
Covered (replaying rest) own yielded queue unannounced unsent =
    All (OnWay (yielded ++ rest) queue unannounced unsent) own
Covered draining own yielded queue unannounced unsent =
    All (OnWay yielded queue unannounced unsent) own
Covered waiting own yielded queue unannounced unsent =
    All (OnWay yielded queue unannounced unsent) own
Covered returned own yielded queue unannounced unsent = All (λ e. In e yielded ⊎ In e unsent) own
Covered key_error own yielded queue unannounced unsent = Unit

-- A stream that has seen the end of the run
abbrev pub Ending : Phase → Bool → Type 0
Ending draining finishing = finishing ≡ true
Ending returned finishing = finishing ≡ true
Ending detached finishing = Unit
Ending subscribed finishing = Unit
Ending (replaying rest) finishing = Unit
Ending waiting finishing = Unit
Ending key_error finishing = Unit

pub record Inv (run_id : ℕ) (s : System) : Type 0 where
  pub unique : Unique (events run_id s.rows)
  pub seen_ids : (n : ℕ) → member n s.seen ≡ has_id n s.yielded
  pub shown_unique : Unique (shown s.phase s.yielded)
  pub shown_own : All (λ e. In e (events run_id s.rows)) (shown s.phase s.yielded)
  pub queue_own : All (λ e. In e (events run_id s.rows)) s.queue
  pub unannounced_own : All (λ e. In e (events run_id s.rows)) s.unannounced
  pub covered : Covered s.phase (events run_id s.rows) s.yielded s.queue s.unannounced s.unsent
  pub quiet : (s.finishing ≡ false) ⊎ All (λ e. In e s.unsent) s.unannounced
  pub end_marked : (s.marked ≡ false) ⊎ (s.finishing ≡ true)
  pub ending : Ending s.phase s.finishing
  pub not_early : (s.finishing ≡ true) ⊎ (s.run ≢ some finished)

pub All-weaken :
    (own zs : List Event) (e : Event) → All (λ x. In x own) zs → All (λ x. In x (own ++ e ∷ [])) zs
All-weaken own zs e h =
    All-map (λ x. In x own) (λ x. In x (own ++ e ∷ [])) (λ x i. In-left x own (e ∷ []) i) zs h

-- What is on its way may move on, as long as the stream has a queue, and what is not sent stays so.
pub Covered-move :
    (phase : Phase) (own yielded queue unannounced unsent queue' unannounced' unsent' : List Event)
    → (has_queue phase ≡ true
        → (seen : List Event) (x : Event) → OnWay seen queue unannounced unsent x
        → OnWay seen queue' unannounced' unsent' x)
    → ((x : Event) → In x unsent → In x unsent')
    → Covered phase own yielded queue unannounced unsent
    → Covered phase own yielded queue' unannounced' unsent'
Covered-move detached own yielded q u n q' u' n' moves stays h = h
Covered-move subscribed own yielded q u n q' u' n' moves stays h = h
Covered-move (replaying rest) own yielded q u n q' u' n' moves stays h =
    All-map (OnWay (yielded ++ rest) q u n) (OnWay (yielded ++ rest) q' u' n')
      (moves refl (yielded ++ rest)) own h
Covered-move draining own yielded q u n q' u' n' moves stays h =
    All-map (OnWay yielded q u n) (OnWay yielded q' u' n') (moves refl yielded) own h
Covered-move waiting own yielded q u n q' u' n' moves stays h =
    All-map (OnWay yielded q u n) (OnWay yielded q' u' n') (moves refl yielded) own h
Covered-move returned own yielded q u n q' u' n' moves stays h =
    All-map (λ x. In x yielded ⊎ In x n) (λ x. In x yielded ⊎ In x n') kept own h
  where
    kept : (x : Event) → In x yielded ⊎ In x n → In x yielded ⊎ In x n'
    kept x (inl i) = inl i
    kept x (inr i) = inr (stays x i)
Covered-move key_error own yielded q u n q' u' n' moves stays h = h

-- A new row of the run is on its way, and is not sent if the stream has ended.
pub Covered-add :
    (phase : Phase) (own yielded queue unannounced unsent : List Event) (e : Event)
    → In e unannounced
    → (phase ≡ returned → In e unsent)
    → Covered phase own yielded queue unannounced unsent
    → Covered phase (own ++ e ∷ []) yielded queue unannounced unsent
Covered-add detached own yielded queue unannounced unsent e i late h = h
Covered-add subscribed own yielded queue unannounced unsent e i late h = h
Covered-add (replaying rest) own yielded queue unannounced unsent e i late h =
    All-append (OnWay (yielded ++ rest) queue unannounced unsent) own (e ∷ []) h
      (inr (inr (inl i)), tt)
Covered-add draining own yielded queue unannounced unsent e i late h =
    All-append (OnWay yielded queue unannounced unsent) own (e ∷ []) h (inr (inr (inl i)), tt)
Covered-add waiting own yielded queue unannounced unsent e i late h =
    All-append (OnWay yielded queue unannounced unsent) own (e ∷ []) h (inr (inr (inl i)), tt)
Covered-add returned own yielded queue unannounced unsent e i late h =
    All-append (λ x. In x yielded ⊎ In x unsent) own (e ∷ []) h (inr (late refl), tt)
Covered-add key_error own yielded queue unannounced unsent e i late h = tt
