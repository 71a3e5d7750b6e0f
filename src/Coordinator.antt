-- ===== src/Coordinator.antt =====
-- native/server/src/command_coordinator.cc and its header: the two command queues and the worker.
-- CommandTicket holds the state of one command. A history is a list of steps, each of which is one critical
-- section of the coordinator's mutex, one operation on a ticket by the running action, or one by a
-- thread that completes a deferred command later. The worker thread's `join` is not modelled, nor
-- are the stop token and the action's own work: an action is what it does to its context.
pub mod CommandTicket
pub mod Queue
pub mod Worker
pub mod Exit
mod Tests
use linuxcnc_ctrl.Prelude.{
  ℕ, ◌+◌, String, Bool, true, false, ◌||◌, Option, none, some, List, [], ◌∷◌, ◌++◌, if◌then◌else◌,
  length, leb, u64, ◌==◌,
}
use CommandTicket.{
  Ticket, TicketOp, WaitPolicy, Call, fresh, apply, mark_accepted, mark_completed, mark_failed,
}

pub data Priority : Type 0 where
  normal safety : Priority

pub data SubmitStatus : Type 0 where
  submitted queue_full stopped : SubmitStatus

-- What a context action does with its CommandContext.
pub data Effect : Type 0 where
  accept : ℕ → Effect
  defer_completion : Effect
  complete : Effect
  fail : String → Effect

-- How an action ends: by a return, a std::exception or another exception.
pub data Ending : Type 0 where
  returns : Ending
  throws : String → Ending
  throws_unknown : Ending

-- CommandAction, and ContextCommandAction.
pub data Action : Type 0 where
  plain : Ending → Action
  contextual : List Effect → Ending → Action

pub record Item : Type 0 where
  pub sequence : ℕ
  pub action : Action

-- The worker waits for work, runs an item that has these operations on its ticket left, or is gone.
pub data WorkerState : Type 0 where
  waiting : WorkerState
  running : ℕ → List TicketOp → WorkerState
  exited : WorkerState

pub record Coordinator : Type 0 where
  pub capacity : ℕ
  pub safety_capacity : ℕ
  pub queue : List Item
  pub safety_queue : List Item
  pub next_sequence : ℕ
  pub stopping : Bool
  pub worker : WorkerState
  pub tickets : ℕ → Option Ticket

-- The constructor: no queue has capacity 0.
pub init : ℕ → ℕ → Coordinator
init capacity safety_capacity = record {
  capacity = if capacity == 0 then 1 else capacity;
  safety_capacity = if safety_capacity == 0 then 1 else safety_capacity;
  queue = [];
  safety_queue = [];
  next_sequence = 1;
  stopping = false;
  worker = waiting;
  tickets = λ s. none;
}

abbrev pub update : (ℕ → Option Ticket) → ℕ → Ticket → ℕ → Option Ticket
update tickets s t s' = if s' == s then some t else tickets s'

-- The queue that `submit` chooses by the priority, its capacity, and a `push_back` on it.
abbrev pub queue_of : Priority → Coordinator → List Item
queue_of normal c = c.queue
queue_of safety c = c.safety_queue

abbrev pub capacity_of : Priority → Coordinator → ℕ
capacity_of normal c = c.capacity
capacity_of safety c = c.safety_capacity

abbrev pub push_back : Priority → Item → Coordinator → Coordinator
push_back normal item c = record c { queue = c.queue ++ item ∷ [] }
push_back safety item c = record c { safety_queue = c.safety_queue ++ item ∷ [] }

pub record Submission : Type 0 where
  pub status : SubmitStatus
  pub ticket : Option ℕ

abbrev pub item_of : Coordinator → Action → Item
item_of c action = record { sequence = c.next_sequence; action = action }

enqueue : Coordinator → Action → Priority → Coordinator
enqueue c action priority = push_back priority (item_of c action) (record c {
  next_sequence = u64 (c.next_sequence + 1);
  tickets = update c.tickets c.next_sequence (fresh c.next_sequence);
})

-- `submit` and `submit_with_context`; none is the std::invalid_argument for an empty action.
pub submit : Coordinator → Option Action → Priority → Option (Coordinator × Submission)
unfolding enqueue
submit c none priority = none
submit c (some action) priority = some (
    if c.stopping
    then (c, record { status = stopped; ticket = none })
    else if leb (capacity_of priority c) (length (queue_of priority c))
    then (c, record { status = queue_full; ticket = none })
    else (enqueue c action priority, record { status = submitted; ticket = some c.next_sequence }))

-- The first section of `shutdown`; the worker is then notified and joined.
pub shutdown : Coordinator → Coordinator
shutdown c = record c { stopping = true }

pub queued : Coordinator → ℕ
queued c = length c.queue + length c.safety_queue

abbrev pub defers : List Effect → Bool
defers [] = false
defers (defer_completion ∷ es) = true
defers (accept n ∷ es) = defers es
defers (complete ∷ es) = defers es
defers (fail e ∷ es) = defers es

-- The transitions that the context's callbacks make; `defer_completion` only sets a flag.
abbrev pub effect_ops : List Effect → List TicketOp
effect_ops [] = []
effect_ops (accept n ∷ es) = mark_accepted n ∷ effect_ops es
effect_ops (defer_completion ∷ es) = effect_ops es
effect_ops (complete ∷ es) = mark_completed ∷ effect_ops es
effect_ops (fail e ∷ es) = mark_failed e ∷ effect_ops es

-- After the action: the transition below the call, or that of the handler which catches.
abbrev pub ending_ops : Bool → Ending → List TicketOp
ending_ops deferred returns = if deferred then [] else mark_completed ∷ []
ending_ops deferred (throws e) = mark_failed e ∷ []
ending_ops deferred throws_unknown = mark_failed "command failed with an unknown exception" ∷ []

abbrev pub plain_ops : Ending → List TicketOp
plain_ops returns = mark_accepted 0 ∷ mark_completed ∷ []
plain_ops (throws e) = mark_failed e ∷ []
plain_ops throws_unknown = mark_failed "command failed with an unknown exception" ∷ []

-- The `try` block of `run`, as the operations on the item's ticket in their order.
pub action_ops : Action → List TicketOp
action_ops (plain ending) = plain_ops ending
action_ops (contextual effects ending) = effect_ops effects ++ ending_ops (defers effects) ending

start : Coordinator → Item → Coordinator
unfolding action_ops
start c item = record c { worker = running item.sequence (action_ops item.action) }

-- The section of `run` that waits and takes: the safety queue goes first, and the worker returns
-- only when both queues are empty.
take_from : List Item → List Item → Coordinator → Coordinator
unfolding start
take_from (item ∷ rest) normals c = start (record c { safety_queue = rest }) item
take_from [] (item ∷ rest) c = start (record c { queue = rest }) item
take_from [] [] c = if c.stopping then record c { worker = exited } else c

-- An operation on the shared state of the command with this sequence.
abbrev pub touch : (ℕ → Option Ticket) → ℕ → TicketOp → ℕ → Option Ticket
touch tickets s op = elim (tickets s) [ none ↦ tickets | some t ↦ update tickets s (apply t op).0 ]

abbrev pub on_ticket : Coordinator → ℕ → TicketOp → Coordinator
on_ticket c s op = record c { tickets = touch c.tickets s op }

-- One move of the worker thread in its loop.
work_in : WorkerState → Coordinator → Coordinator
unfolding take_from
work_in waiting c = take_from c.safety_queue c.queue c
work_in (running s []) c = record c { worker = waiting }
work_in (running s (op ∷ ops)) c = record (on_ticket c s op) { worker = running s ops }
work_in exited c = c

pub work : Coordinator → Coordinator
unfolding work_in
work c = work_in c.worker c

pub data Step : Type 0 where
  submits : Option Action → Priority → Step
  shuts_down : Step
  works : Step
  -- An observer that registers, or the later completion of a deferred command.
  touches : ℕ → TicketOp → Step

abbrev submitted_state : Coordinator → Option (Coordinator × Submission) → Coordinator
submitted_state c none = c
submitted_state c (some (c', s)) = c'

pub step : Coordinator → Step → Coordinator
step c (submits action priority) = submitted_state c (submit c action priority)
step c shuts_down = shutdown c
step c works = work c
step c (touches s op) = on_ticket c s op

pub run : Coordinator → List Step → Coordinator
run c [] = c
run c (s ∷ ss) = run (step c s) ss
