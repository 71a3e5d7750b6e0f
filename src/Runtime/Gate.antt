-- ===== src/Runtime/Gate.antt =====
-- LifetimeGate of native/server/include/linuxcnc_grpc/callback_runtime.hpp: the guard between worker
-- callbacks and a reactor that may be deleted. The reactor is known by a number; a call of it is that
-- number. The recursive mutex lets a call inside `invoke` finish the gate: such a step
-- comes next in the history, since the call changes nothing before it returns.
mod Tests
use linuxcnc_ctrl.Prelude.{
  ℕ, suc, ◌+◌, ◌≤◌, ◌≡◌, refl, Bool, true, false, not, ◌||◌, Option, none, some, List, [], ◌∷◌,
  ◌++◌, if◌then◌else◌, is_some, length, length-append, count_if, count_if-append, All, All-append,
  arith,
}

pub data State : Type 0 where
  open_ finishing done : State

pub record Gate : Type 0 where
  pub reactor : Option ℕ
  pub state : State

abbrev pub is_open : State → Bool
is_open open_ = true
is_open _ = false

-- A call that the gate makes on the reactor.
pub data Call : Type 0 where
  invoked finished : ℕ → Call

pub create : ℕ → Gate
create reactor = record { reactor = some reactor; state = open_ }

invoked_on : Option ℕ → List Call
invoked_on none = []
invoked_on (some r) = invoked r ∷ []

finished_on : Option ℕ → List Call
finished_on none = []
finished_on (some r) = finished r ∷ []

-- `invoke`: whether it called the function.
pub invoke : Gate → Gate × List Call × Bool
unfolding invoked_on
invoke g =
    if not (is_open g.state) || not (is_some g.reactor)
    then (g, [], false)
    else (g, invoked_on g.reactor, true)

-- `finish`; `begin_finish` is `finish` with a function that does nothing.
pub finish : Gate → Gate × List Call × Bool
unfolding finished_on
finish g =
    if not (is_open g.state)
    then (g, [], false)
    else (record g { state = finishing }, finished_on g.reactor, true)

pub detach : Gate → Gate
detach g = record { reactor = none; state = done }

pub data Step : Type 0 where
  invokes finishes detaches : Step

pub step : Gate → Step → Gate × List Call
step g invokes = let (g', calls, ok) = invoke g in (g', calls)
step g finishes = let (g', calls, ok) = finish g in (g', calls)
step g detaches = (detach g, [])

pub run : Gate → List Step → Gate × List Call
run g [] = (g, [])
run g (s ∷ ss) = let (g₁, now) = step g s in let (g₂, later) = run g₁ ss in (g₂, now ++ later)

-- A gate that is not open makes no call at all.
closed_step :
    (g : Gate) (s : Step)
    → is_open g.state ≡ false
    → (is_open (step g s).0.state ≡ false) × ((step g s).1 ≡ [])
unfolding step invoke finish detach
closed_step g invokes h = ground arith
closed_step g finishes h = ground arith
closed_step g detaches h = (refl, refl)

closed_run : (g : Gate) (ss : List Step) → is_open g.state ≡ false → (run g ss).1 ≡ []
unfolding run
closed_run g [] h = refl
closed_run g (s ∷ ss) h =
    let (still, none_) = closed_step g s h in rw none_ (closed_run (step g s).0 ss still)

-- After `detach` the reactor, which may then be deleted, is never called again, whatever follows.
pub detached_silent : (g : Gate) (ss : List Step) → (run (detach g) ss).1 ≡ []
unfolding detach
detached_silent g ss = closed_run (detach g) ss refl

-- No call comes after the one that finishes the reactor.
abbrev pub FinishLast : List Call → Type 0
FinishLast [] = Unit
FinishLast (invoked r ∷ calls) = FinishLast calls
FinishLast (finished r ∷ calls) = calls ≡ []

-- What one step calls.
data Calls (g : Gate) : List Call → Type 0 where
  nothing : Calls g []
  one_invoked : (r : ℕ) → Calls g (invoked r ∷ [])
  one_finished : (r : ℕ) → is_open g.state ≡ false → Calls g (finished r ∷ [])

step-Calls :
    (reactor : Option ℕ) (state : State) (s : Step)
    → let r = step (record { reactor = reactor; state = state }) s in Calls r.0 r.1
unfolding step invoke finish detach
step-Calls none open_ invokes = nothing
step-Calls (some r) open_ invokes = one_invoked r
step-Calls none open_ finishes = nothing
step-Calls (some r) open_ finishes = one_finished r refl
step-Calls reactor finishing invokes = nothing
step-Calls reactor done invokes = nothing
step-Calls reactor finishing finishes = nothing
step-Calls reactor done finishes = nothing
step-Calls reactor state detaches = nothing

Calls-FinishLast :
    (g : Gate) (now : List Call) (ss : List Step)
    → Calls g now
    → FinishLast (run g ss).1
    → FinishLast (now ++ (run g ss).1)
Calls-FinishLast g _ ss nothing h = h
Calls-FinishLast g _ ss (one_invoked r) h = h
Calls-FinishLast g _ ss (one_finished r closed) h = closed_run g ss closed

-- In any history the reactor is finished at most once, and nothing is invoked on it afterwards.
pub run-FinishLast : (g : Gate) (ss : List Step) → FinishLast (run g ss).1
unfolding run
run-FinishLast g [] = tt
run-FinishLast g (s ∷ ss) =
    let r = step g s in
    Calls-FinishLast r.0 r.1 ss (step-Calls g.reactor g.state s) (run-FinishLast r.0 ss)
