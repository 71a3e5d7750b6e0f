-- ===== src/Coordinator/CommandTicket.antt =====
-- The shared state of a command ticket: CommandResult, CommandTicket::State, `observe`, `wait_for`
-- and `CommandCoordinator::transition` of native/server/src/command_coordinator.cc.
-- A callback is known by a number; a call of it is that number with the result it is handed.
-- Each function is one critical section of the ticket's mutex, with the calls made after it.
pub mod Notify
pub mod Outcome
pub mod Policy
mod Tests
use linuxcnc_ctrl.Prelude.{
  ℕ, String, Bool, true, false, not, ◌&&◌, ◌||◌, Option, none, some, List, [], ◌∷◌, ◌++◌, map,
  if◌then◌else◌, is_some,
}

pub data WaitPolicy : Type 0 where
  accepted completed : WaitPolicy

pub data CommandState : Type 0 where
  queued accepted completed failed : CommandState

pub record CommandResult : Type 0 where
  pub sequence : ℕ
  pub accepted_sequence : ℕ
  pub state : CommandState
  pub error : String

pub record PendingObserver : Type 0 where
  pub policy : WaitPolicy
  pub callback : ℕ

pub record Ticket : Type 0 where
  pub result : CommandResult
  pub observers : List PendingObserver

-- A call of an observer's callback.
abbrev pub Call : Type 0
Call = ℕ × CommandResult

abbrev pub is_terminal : CommandState → Bool
is_terminal CommandState.completed = true
is_terminal CommandState.failed = true
is_terminal _ = false

abbrev is_accepted : CommandState → Bool
is_accepted CommandState.accepted = true
is_accepted _ = false

abbrev is_queued : CommandState → Bool
is_queued CommandState.queued = true
is_queued _ = false

-- The predicate that `wait_for` and `observe` test.
abbrev pub is_ready : WaitPolicy → CommandState → Bool
is_ready WaitPolicy.accepted s = is_accepted s || is_terminal s
is_ready WaitPolicy.completed s = is_terminal s

-- The test of the loop over the observers in `transition`.
abbrev wakes : CommandState → WaitPolicy → Bool
wakes s WaitPolicy.accepted = is_terminal s || is_accepted s
wakes s WaitPolicy.completed = is_terminal s

-- The loop over the observers: those left behind, and the callbacks moved to `ready`.
notify_ready : CommandState → List PendingObserver → List PendingObserver × List ℕ
notify_ready s [] = ([], [])
notify_ready s (o ∷ os) =
    let (kept, ready) = notify_ready s os in
    if wakes s o.policy then (kept, o.callback ∷ ready) else (o ∷ kept, ready)

abbrev calls : CommandResult → List ℕ → List Call
calls r = map λ c. (c, r)

-- What `transition` writes over the result.
updated : CommandResult → CommandState → String → ℕ → CommandResult
updated r s error accepted_sequence = record r {
  accepted_sequence = if is_accepted s then accepted_sequence else r.accepted_sequence;
  state = s;
  error = error;
}

-- The part of `transition` below its two early returns.
settle : Ticket → CommandState → String → ℕ → Ticket × List Call
settle t s error accepted_sequence =
    let snapshot = updated t.result s error accepted_sequence in
    let (kept, ready) = notify_ready s t.observers in
    (record { result = snapshot; observers = kept }, calls snapshot ready)

transition : Ticket → CommandState → String → ℕ → Ticket × List Call
transition t s error accepted_sequence =
    if is_terminal t.result.state
    then (t, [])
    else if is_accepted s && not (is_queued t.result.state)
    then (t, [])
    else settle t s error accepted_sequence

-- `observe` on a ticket with a state and a callback that is not empty.
watch : Ticket → WaitPolicy → ℕ → Ticket × List Call
watch t policy callback =
    if is_ready policy t.result.state then (t, (callback, t.result) ∷ []) else (
      record t { observers = t.observers ++ record { policy = policy; callback = callback } ∷ [] },
      [],
    )

-- `CommandTicket::observe`; a default ticket has no state.
pub observe : Option Ticket → WaitPolicy → Option ℕ → Option Ticket × List Call × Bool
observe none policy callback = (none, [], false)
observe (some t) policy none = (some t, [], false)
observe (some t) policy (some callback) =
    let (t', made) = watch t policy callback in (some t', made, true)

-- `wait_for` at the moment it returns, by its predicate or by the timeout.
pub wait_for : Option Ticket → WaitPolicy → Bool × Option CommandResult
wait_for none policy = (false, none)
wait_for (some t) policy = (is_ready policy t.result.state, some t.result)

pub fresh : ℕ → Ticket
fresh sequence = record {
  result = record {
    sequence = sequence;
    accepted_sequence = 0;
    state = CommandState.queued;
    error = "";
  };
  observers = [];
}

-- What happens to a ticket: the transitions that the code makes, and observers that register.
pub data TicketOp : Type 0 where
  mark_accepted : ℕ → TicketOp
  mark_completed : TicketOp
  mark_failed : String → TicketOp
  register : WaitPolicy → ℕ → TicketOp

pub apply : Ticket → TicketOp → Ticket × List Call
apply t (mark_accepted n) = transition t CommandState.accepted "" n
apply t mark_completed = transition t CommandState.completed "" 0
apply t (mark_failed e) = transition t CommandState.failed e 0
apply t (register policy callback) = watch t policy callback

unfoldable pub apply_all : Ticket → List TicketOp → Ticket × List Call
apply_all t [] = (t, [])
apply_all t (op ∷ ops) =
    let (t₁, made) = apply t op in let (t₂, more) = apply_all t₁ ops in (t₂, made ++ more)
