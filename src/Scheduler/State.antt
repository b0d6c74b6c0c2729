-- ===== src/Scheduler/State.antt =====
-- src/fetech/scheduling.py: the fields of `NetworkScheduler`, and the futures that its waiters hold.
use fetech.Prelude.{ℕ, String, Option, none, [], List, Bool, true, false, ◌==◌, if◌then◌else◌}
use fetech.Prelude.Dict.{Dict, lookup}

-- An `asyncio.Future[None]`: `done` has its result set.
pub data FutureState : Type 0 where
  pending done cancelled : FutureState

-- `_Waiter`: compared by identity, which is `id` here; `id` also names its future.
pub record Waiter : Type 0 where
  pub id : ℕ
  pub host : String

-- Times are ticks of the loop's clock, and a loop is its identity.
pub record State : Type 0 where
  pub active_global : ℕ
  pub active_by_host : Dict ℕ
  pub last_started_at : Dict ℕ
  pub waiters : List Waiter
  pub loop : Option ℕ
  pub wake_handle : Option ℕ
  pub future : ℕ → FutureState
  pub next_id : ℕ

abbrev pub initial : State
initial = record {
  active_global = 0;
  active_by_host = [];
  last_started_at = [];
  waiters = [];
  loop = none;
  wake_handle = none;
  future = λ _. pending;
  next_id = 0;
}

abbrev pub or_zero : Option ℕ → ℕ
or_zero none = 0
or_zero (Option.some n) = n

-- self._active_by_host.get(host, 0)
unfoldable pub active : State → String → ℕ
active s host = or_zero (lookup host s.active_by_host)

abbrev pub is_done : FutureState → Bool
is_done done = true
is_done _ = false

abbrev pub is_cancelled : FutureState → Bool
is_cancelled cancelled = true
is_cancelled _ = false

abbrev pub set_future : ℕ → FutureState → (ℕ → FutureState) → ℕ → FutureState
set_future id v f i = if id == i then v else f i
