-- ===== src/Runtime/Admission.antt =====
-- AdmissionCounter of native/server/src/callback_runtime.cc: any number of threads that acquire and
-- release a bounded slot with atomic operations. A step is one atomic operation of one thread, so a
-- history is an interleaving. `compare_exchange_weak` may fail without a reason: a failing step is
-- either a real or a spurious failure, and reads the counter again. Counters are std::size_t and wrap.
pub mod Bounds
mod Tests
use linuxcnc_ctrl.Prelude.{
  ℕ, zero, suc, ◌+◌, ◌-◌, Bool, true, false, List, [], ◌∷◌, if◌then◌else◌, ltb, u64, u64_mod, ◌==◌,
}

-- Where a thread stands. `holding` is a thread whose `acquire` has returned true.
pub data Place : Type 0 where
  outside : Place
  -- `acquire` has seen `accepting_`, and next loads `active_`.
  admitted : Place
  -- It has this value in `current` and next tests it against the capacity.
  loaded : ℕ → Place
  -- The exchange has succeeded; `accepting_` is loaded again.
  counted : Place
  holding : Place
  -- `release` is called, by `acquire` itself or by a holder; next the decrement.
  releasing : Place
  -- The decrement saw this value; next the reset of an underflow.
  decremented : ℕ → Place

pub record Counter : Type 0 where
  pub capacity : ℕ
  pub active : ℕ
  pub accepting : Bool
  pub threads : List Place

-- What a thread does next, where it has a choice: an exchange may fail spuriously, and a thread that
-- holds or is outside calls `release` or `acquire` when it likes.
pub data Move : Type 0 where
  goes : Move
  fails_spuriously : Move

abbrev pub Shared : Type 0
Shared = ℕ × Bool

exchange : ℕ → ℕ → ℕ × Place
exchange active current =
    if active == current then (u64 (current + 1), counted) else (active, loaded active)

-- One atomic operation of a thread at a place, on the capacity, `active_` and `accepting_`.
advance : ℕ → ℕ → Bool → Move → Place → ℕ × Place
advance capacity active accepting move outside = (active, if accepting then admitted else outside)
advance capacity active accepting move admitted = (active, loaded active)
advance capacity active accepting goes (loaded current) =
    if ltb current capacity then exchange active current else (active, outside)
advance capacity active accepting fails_spuriously (loaded current) =
    (active, if ltb current capacity then loaded active else outside)
advance capacity active accepting move counted = (active, if accepting then holding else releasing)
advance capacity active accepting move holding = (active, releasing)
advance capacity active accepting move releasing = (u64 (active + u64_mod - 1), decremented active)
advance capacity active accepting move (decremented previous) =
    (if previous == 0 then 0 else active, outside)

move_at : ℕ → Move → ℕ → ℕ → Bool → List Place → ℕ × List Place
move_at i move capacity active accepting [] = (active, [])
move_at zero move capacity active accepting (p ∷ ps) =
    let (active', p') = advance capacity active accepting move p in (active', p' ∷ ps)
move_at (suc i) move capacity active accepting (p ∷ ps) =
    let (active', ps') = move_at i move capacity active accepting ps in (active', p ∷ ps')

pub data Step : Type 0 where
  moves : ℕ → Move → Step
  stops : Step

pub step : Counter → Step → Counter
unfolding move_at
step c (moves i move) =
    let (active', threads') = move_at i move c.capacity c.active c.accepting c.threads in
    record c { active = active'; threads = threads' }
step c stops = record c { accepting = false }

pub run : Counter → List Step → Counter
run c [] = c
run c (s ∷ ss) = run (step c s) ss

pub init : ℕ → List Place → Counter
init capacity threads = record {
  capacity = capacity;
  active = 0;
  accepting = true;
  threads = threads;
}
