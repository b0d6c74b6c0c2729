-- ===== src/Ledger/Stream/Unsent.antt =====
-- src/fetech/ledger.py: the events that a history leaves unsent.
use fetech.Prelude.{ℕ, ◌≡◌, refl, ap, ◌∙◌, Bool, true, false, List, [], ◌∷◌, ◌++◌, if◌then◌else◌}
use fetech.Security.Policy.{member}
use fetech.Ledger.Document.{TextLibrary}
use fetech.Ledger.Stream.{
  Event, Phase, detached, subscribed, replaying, draining, waiting, returned, key_error, System,
  stored, append_row, append_other, announce, lose, set_state, finish, tell_end, take, drain_step,
  wait_step, read_at, read, Step, creates, updates, appends, appends_other, announces, loses,
  finishes, tells, reads, Reach, start, next,
}

append_nil : (xs : List Event) → xs ≡ xs ++ []
append_nil [] = refl
append_nil (x ∷ xs) = λ i. x ∷ append_nil xs i

take-unsent : (e : Event) (rest : List Event) (s : System) → (take e rest s).unsent ≡ s.unsent
take-unsent e rest s = by_seen (member e.event_id s.seen)
  where
    by_seen :
        (b : Bool)
        → (if b then record s { queue = rest } else record s {
          queue = rest;
          seen = e.event_id ∷ s.seen;
          yielded = s.yielded ++ e ∷ [];
        }).unsent
          ≡ s.unsent
    by_seen true = refl
    by_seen false = refl

drain-unsent : (q : List Event) (s : System) → (drain_step q s).unsent ≡ s.unsent
drain-unsent [] s = refl
drain-unsent (e ∷ rest) s = take-unsent e rest s

wait-unsent : (q : List Event) (s : System) → (wait_step q s).unsent ≡ s.unsent
wait-unsent [] s = by_mark s.marked
  where
    by_mark : (b : Bool) → (if b then record s { phase = returned } else s).unsent ≡ s.unsent
    by_mark true = refl
    by_mark false = refl
wait-unsent (e ∷ rest) s = take-unsent e rest s

read_at-unsent : (run_id : ℕ) (p : Phase) (s : System) → (read_at run_id p s).unsent ≡ s.unsent
read_at-unsent run_id detached s = refl
read_at-unsent run_id subscribed s = refl
read_at-unsent run_id (replaying []) s = refl
read_at-unsent run_id (replaying (e ∷ rest)) s = refl
read_at-unsent run_id draining s = drain-unsent s.queue s
read_at-unsent run_id waiting s = wait-unsent s.queue s
read_at-unsent run_id returned s = refl
read_at-unsent run_id key_error s = refl

module _ {lib : TextLibrary} {authenticated : Bool} {run_id : ℕ} where
  -- What a step leaves unsent: an event whose append is cancelled, one that is appended after the run
  -- has finished, and those whose append has not come to its end when the run finishes
  abbrev pub left_unsent : (s s' : System) → Step lib authenticated run_id s s' → List Event
  left_unsent _ _ (creates s none_yet) = []
  left_unsent _ _ (updates state old s is going other) = []
  left_unsent _ _ (appends e s own fresh) =
      if s.finishing then stored lib authenticated e ∷ [] else []
  left_unsent _ _ (appends_other e s other fresh) = []
  left_unsent _ _ (announces i e s there) = []
  left_unsent _ _ (loses i e s there) = e ∷ []
  left_unsent _ _ (finishes old s is) = s.unannounced
  left_unsent _ _ (tells s f) = []
  left_unsent _ _ (reads s) = []

  abbrev pub unsent_of : (s : System) → Reach lib authenticated run_id s → List Event
  unsent_of _ start = []
  unsent_of s' (next s _ r step) = unsent_of s r ++ left_unsent s s' step

  Step-unsent :
      (s s' : System) (step : Step lib authenticated run_id s s')
      → s'.unsent ≡ s.unsent ++ left_unsent s s' step
  unfolding append_row append_other announce lose set_state finish tell_end read
  Step-unsent s _ (creates _ none_yet) = append_nil s.unsent
  Step-unsent s _ (updates state old _ is going other) = append_nil s.unsent
  Step-unsent s _ (appends e _ own fresh) = by_end s.finishing
    where
      by_end :
          (b : Bool)
          → (if b then s.unsent ++ stored lib authenticated e ∷ [] else s.unsent)
            ≡ s.unsent ++ (if b then stored lib authenticated e ∷ [] else [])
      by_end true = refl
      by_end false = append_nil s.unsent
  Step-unsent s _ (appends_other e _ other fresh) = append_nil s.unsent
  Step-unsent s _ (announces i e _ there) = append_nil s.unsent
  Step-unsent s _ (loses i e _ there) = refl
  Step-unsent s _ (finishes old _ is) = refl
  Step-unsent s _ (tells _ f) = append_nil s.unsent
  Step-unsent s _ (reads _) = read_at-unsent run_id s.phase s ∙ append_nil s.unsent

  pub unsent-unsent_of :
      (s : System) (r : Reach lib authenticated run_id s) → s.unsent ≡ unsent_of s r
  unsent-unsent_of _ start = refl
  unsent-unsent_of s' (next s _ r step) =
      Step-unsent s s' step ∙ ap (λ us. us ++ left_unsent s s' step) (unsent-unsent_of s r)
