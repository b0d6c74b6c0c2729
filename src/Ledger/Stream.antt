-- ===== src/Ledger/Stream.antt =====
-- src/fetech/ledger.py: `create_run`, `update_run`, `append`, `events` and `stream`, cut at the
-- awaits, for one run and one stream of its events. What other streams do does not reach its queue.
-- Identifiers are numbers.
pub mod Events
pub mod Invariant
pub mod Steps
pub mod Reads
pub mod Unsent
pub mod Once
use fetech.Prelude.{
  ℕ, String, ◌≡◌, ◌≢◌, Bool, true, false, not, ◌&&◌, Option, none, some, List, [], ◌∷◌, ◌++◌, ◌==◌,
  if◌then◌else◌, any, keep, get_elem?, remove_at,
}
use fetech.Models.Status.{RunState, queued, finished}
use fetech.Security.Policy.{member}
use fetech.Ledger.Document.{Json, Fields, TextLibrary}
use fetech.Ledger.Sanitize.{sanitize_fields}

-- `ProvenanceEvent`, which is what a row of `EventRow` holds too
pub record Event : Type 0 where
  pub event_id : ℕ
  pub run_id : ℕ
  pub event_type : String
  pub actor : String
  pub payload : Fields
  pub parent_event_ids : List ℕ

-- Where `stream` stands: not begun, its queue registered, yielding what it has read, in the loop of
-- a finished run, in the loop that waits, returned, or ended by the KeyError of an unknown run
pub data Phase : Type 0 where
  detached : Phase
  subscribed : Phase
  replaying : List Event → Phase
  draining waiting returned key_error : Phase

-- The rows in order of their sequence; the events of the run that are committed and not yet in the
-- queues; the state of the run's row; whether the commit of FINISHED has been made; the stream's phase,
-- its queue up to the first `None` and whether there is a `None`, its `seen`, and what it has yielded.
-- `unsent` only observes: the events whose `append` was cancelled after its commit, and those whose
-- `append` had not come to its end when FINISHED was committed.
pub record System : Type 0 where
  pub rows : List Event
  pub unannounced : List Event
  pub unsent : List Event
  pub run : Option RunState
  pub finishing : Bool
  pub phase : Phase
  pub queue : List Event
  pub marked : Bool
  pub seen : List ℕ
  pub yielded : List Event

-- A ledger without rows, and no stream
abbrev pub initial : System
initial = record {
  rows = [];
  unannounced = [];
  unsent = [];
  run = none;
  finishing = false;
  phase = detached;
  queue = [];
  marked = false;
  seen = [];
  yielded = [];
}

abbrev pub has_id : ℕ → List Event → Bool
has_id n events = any (λ e. e.event_id == n) events

-- Whether the stream's queue is among the subscribers of the run
abbrev pub has_queue : Phase → Bool
has_queue detached = false
has_queue returned = false
has_queue key_error = false
has_queue subscribed = true
has_queue (replaying events) = true
has_queue draining = true
has_queue waiting = true

-- The row of an event: its payload is sanitized
abbrev pub stored : TextLibrary → Bool → Event → Event
stored lib authenticated e = record e { payload = sanitize_fields lib authenticated e.payload }

-- `events` and the query of `stream`
unfoldable pub events : ℕ → List Event → List Event
events run_id rows = keep (λ e. e.run_id == run_id) rows

-- `append` up to its commit
unfoldable pub append_row : Event → System → System
append_row e s = record s {
  rows = s.rows ++ e ∷ [];
  unannounced = s.unannounced ++ e ∷ [];
  unsent = if s.finishing then s.unsent ++ e ∷ [] else s.unsent;
}

-- `append` of an event of another run
unfoldable pub append_other : Event → System → System
append_other e s = record s { rows = s.rows ++ e ∷ [] }

-- The end of `append`, for the event at a place of those committed: `put_nowait`. What is put after a
-- `None` is never read.
unfoldable pub announce : ℕ → Event → System → System
announce i e s = record s {
  unannounced = remove_at s.unannounced i;
  queue = if has_queue s.phase && not s.marked then s.queue ++ e ∷ [] else s.queue;
}

-- A cancellation that reaches `append` after its commit, before it puts the event into the queues
unfoldable pub lose : ℕ → Event → System → System
lose i e s = record s { unannounced = remove_at s.unannounced i; unsent = s.unsent ++ e ∷ [] }

-- `update_run` up to its commit, of a run that has a row
unfoldable pub set_state : RunState → System → System
set_state state s = record s { run = some state }

unfoldable pub finish : System → System
unfolding set_state
finish s = record (set_state finished s) { finishing = true; unsent = s.unsent ++ s.unannounced }

-- The end of `update_run` with FINISHED: `put_nowait(None)`
unfoldable pub tell_end : System → System
tell_end s = record s { marked = has_queue s.phase }

-- What the stream does with an event of its queue
abbrev pub take : Event → List Event → System → System
take e rest s =
    if member e.event_id s.seen
    then record s { queue = rest }
    else record s { queue = rest; seen = e.event_id ∷ s.seen; yielded = s.yielded ++ e ∷ [] }

abbrev pub after_snapshot : Option RunState → Phase
after_snapshot none = key_error
after_snapshot (some RunState.finished) = draining
after_snapshot (some RunState.queued) = waiting
after_snapshot (some RunState.planning) = waiting
after_snapshot (some RunState.running) = waiting

-- The loop of a finished run: an empty queue or a `None` ends it
abbrev pub drain_step : List Event → System → System
drain_step [] s = record s { phase = returned }
drain_step (e ∷ rest) s = take e rest s

-- The loop that waits; with an empty queue `get` does not return
abbrev pub wait_step : List Event → System → System
wait_step [] s = if s.marked then record s { phase = returned } else s
wait_step (e ∷ rest) s = take e rest s

abbrev pub read_at : ℕ → Phase → System → System
read_at run_id detached s = record s { phase = subscribed }
read_at run_id subscribed s = record s { phase = replaying (events run_id s.rows) }
read_at run_id (replaying (e ∷ rest)) s = record s {
  phase = replaying rest;
  seen = e.event_id ∷ s.seen;
  yielded = s.yielded ++ e ∷ [];
}
read_at run_id (replaying []) s = record s { phase = after_snapshot s.run }
read_at run_id draining s = drain_step s.queue s
read_at run_id waiting s = wait_step s.queue s
read_at run_id returned s = s
read_at run_id key_error s = s

-- `stream`, up to its next await or yield
unfoldable pub read : ℕ → System → System
unfolding events
read run_id s = read_at run_id s.phase s

-- What can happen next. An identifier of an event is used once. The run's own events are appended
-- by its tasks, several at a time where nodes run in parallel, and by the gateway, also after the run
-- has finished; a task may be cancelled at any await.
pub data Step (lib : TextLibrary) (authenticated : Bool) (run_id : ℕ)
    : System → System → Type 0 where
  creates : (s : System) → s.run ≡ none → Step lib authenticated run_id s (set_state queued s)
  updates :
      (state old : RunState) (s : System)
      → s.run ≡ some old
      → s.finishing ≡ false
      → state ≢ finished
      → Step lib authenticated run_id s (set_state state s)
  appends :
      (e : Event) (s : System)
      → e.run_id ≡ run_id
      → has_id e.event_id s.rows ≡ false
      → Step lib authenticated run_id s (append_row (stored lib authenticated e) s)
  appends_other :
      (e : Event) (s : System)
      → e.run_id ≢ run_id
      → has_id e.event_id s.rows ≡ false
      → Step lib authenticated run_id s (append_other (stored lib authenticated e) s)
  announces :
      (i : ℕ) (e : Event) (s : System)
      → get_elem? s.unannounced i ≡ some e
      → Step lib authenticated run_id s (announce i e s)
  loses :
      (i : ℕ) (e : Event) (s : System)
      → get_elem? s.unannounced i ≡ some e
      → Step lib authenticated run_id s (lose i e s)
  finishes :
      (old : RunState) (s : System) → s.run ≡ some old → Step lib authenticated run_id s (finish s)
  tells : (s : System) → s.finishing ≡ true → Step lib authenticated run_id s (tell_end s)
  reads : (s : System) → Step lib authenticated run_id s (read run_id s)

pub data Reach (lib : TextLibrary) (authenticated : Bool) (run_id : ℕ) : System → Type 0 where
  start : Reach lib authenticated run_id initial
  next :
      (s s' : System)
      → Reach lib authenticated run_id s
      → Step lib authenticated run_id s s'
      → Reach lib authenticated run_id s'
