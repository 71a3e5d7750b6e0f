-- ===== src/Runtime/Executor.antt =====
-- BoundedExecutor of native/server/src/callback_runtime.cc: the bounded task queue with room kept for
-- cleanup. A step is one critical section of its mutex. A task is known by a number; what it does,
-- exceptions included, stays inside the worker that runs it. The condition variable is not modelled:
-- a worker's wait is a step that changes nothing.
pub mod Reserve
pub mod Drain
mod Tests
use linuxcnc_ctrl.Prelude.{
  ℕ, zero, suc, ◌+◌, ◌-◌, Bool, true, false, not, ◌&&◌, ◌||◌, Option, none, some, List, [], ◌∷◌,
  ◌++◌, if◌then◌else◌, length, leb, ltb, u64, u64_mod, is_empty, ◌==◌,
}

pub record Item : Type 0 where
  pub task : ℕ
  pub cleanup : Bool

-- A worker thread waits, runs a task, or has returned.
pub data Worker : Type 0 where
  waiting : Worker
  running : ℕ → Worker
  returned : Worker

pub record Executor : Type 0 where
  pub capacity : ℕ
  pub cleanup_reserve : ℕ
  pub queue : List Item
  pub ordinary_queued : ℕ
  pub active : ℕ
  pub accepting : Bool
  pub stopping : Bool
  pub drain : Bool
  pub workers : List Worker

abbrev pub replicate {ℓ} : {A : Type ℓ} → ℕ → A → List A
replicate zero a = []
replicate (suc n) a = a ∷ replicate n a

-- The constructor; none is std::invalid_argument.
pub create : ℕ → ℕ → ℕ → Option Executor
create threads capacity cleanup_reserve =
    if threads == 0 || capacity == 0 || ltb capacity cleanup_reserve
    then none
    else some (record {
      capacity = capacity;
      cleanup_reserve = cleanup_reserve;
      queue = [];
      ordinary_queued = 0;
      active = 0;
      accepting = true;
      stopping = false;
      drain = true;
      workers = replicate threads waiting;
    })

push : Executor → ℕ → Bool → Executor
push e task cleanup = record e {
  queue = e.queue ++ record { task = task; cleanup = cleanup } ∷ [];
  ordinary_queued = if cleanup then e.ordinary_queued else u64 (e.ordinary_queued + 1);
}

-- `submit_impl`; an empty task is none.
pub submit_impl : Executor → Option ℕ → Bool → Executor × Bool
unfolding push
submit_impl e none cleanup = (e, false)
submit_impl e (some task) cleanup =
    if e.stopping || (not cleanup && not e.accepting)
    then (e, false)
    else if leb e.capacity (length e.queue)
    then (e, false)
    else if not cleanup && leb (e.capacity - e.cleanup_reserve) e.ordinary_queued
    then (e, false)
    else (push e task cleanup, true)

pub submit : Executor → Option ℕ → Executor × Bool
submit e task = submit_impl e task false

pub submit_cleanup : Executor → Option ℕ → Executor × Bool
submit_cleanup e task = submit_impl e task true

pub stop_admission : Executor → Executor
stop_admission e = record e { accepting = false }

-- The locked section of `shutdown`.
pub shutdown : Executor → Bool → Executor
shutdown e drain = if e.stopping then e else record e {
  accepting = false;
  stopping = true;
  drain = drain;
  queue = if drain then e.queue else [];
  ordinary_queued = if drain then e.ordinary_queued else 0;
}

pub queued : Executor → ℕ
queued e = length e.queue

pub accepts : Executor → Bool
accepts e = e.accepting && not e.stopping

-- The predicate that `drain` waits for.
pub is_drained : Executor → Bool
is_drained e = is_empty e.queue && e.active == 0

-- The first section of `run`: the oldest task, or the return of a worker that has nothing left.
take_from : List Item → Executor → Executor × Worker
take_from [] e = (e, if e.stopping then returned else waiting)
take_from (item ∷ rest) e = (
  record e {
    queue = rest;
    ordinary_queued =
        if item.cleanup then e.ordinary_queued else u64 (e.ordinary_queued + u64_mod - 1);
    active = u64 (e.active + 1);
  },
  running item.task,
)

-- One section of `run` by a worker: it takes a task, or it has finished one.
advance : Executor → Worker → Executor × Worker
unfolding take_from
advance e waiting = take_from e.queue e
advance e (running task) = (record e { active = u64 (e.active + u64_mod - 1) }, waiting)
advance e returned = (e, returned)

-- The worker at a place in the list moves.
move_at : ℕ → Executor → List Worker → Executor × List Worker
move_at i e [] = (e, [])
move_at zero e (w ∷ ws) = let (e', w') = advance e w in (e', w' ∷ ws)
move_at (suc i) e (w ∷ ws) = let (e', ws') = move_at i e ws in (e', w ∷ ws')

pub work : ℕ → Executor → Executor
unfolding move_at
work i e = let (e', ws') = move_at i e e.workers in record e' { workers = ws' }

pub data Step : Type 0 where
  submits : Option ℕ → Step
  submits_cleanup : Option ℕ → Step
  stops_admission : Step
  shuts_down : Bool → Step
  works : ℕ → Step

pub step : Executor → Step → Executor
step e (submits task) = (submit e task).0
step e (submits_cleanup task) = (submit_cleanup e task).0
step e stops_admission = stop_admission e
step e (shuts_down drain) = shutdown e drain
step e (works i) = work i e

pub run : Executor → List Step → Executor
run e [] = e
run e (s ∷ ss) = run (step e s) ss
