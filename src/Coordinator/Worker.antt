-- ===== src/Coordinator/Worker.antt =====
-- What the worker of CommandCoordinator does, CommandCoordinator::run of
-- native/server/src/command_coordinator.cc: it ends every command that it starts, unless the command is
-- deferred, and after a shutdown it drains both queues.
use native.Mathlib.Nat.{zero-add, suc-add}
use linuxcnc_ctrl.Prelude.{
  ℕ, zero, suc, ◌+◌, ◌≡◌, refl, ◌∙◌, Bool, true, false, Option, List, [], ◌∷◌, ◌++◌, length, arith,
}
use linuxcnc_ctrl.Coordinator.CommandTicket.{
  Ticket, TicketOp, is_terminal, apply, apply_all, mark_accepted,
}
use linuxcnc_ctrl.Coordinator.CommandTicket.Outcome.{
  apply_all-append, apply-complete_terminal, apply-fail_terminal,
}
use linuxcnc_ctrl.Coordinator.Queue.{taken}
use linuxcnc_ctrl.Coordinator.{
  Priority, normal, safety, Effect, Ending, returns, throws, throws_unknown, Action, plain,
  contextual, Item, WorkerState, waiting, running, exited, Coordinator, works, shutdown, work,
  work_in, take_from, start, action_ops, effect_ops, ending_ops, defers, touch,
}

-- What the worker starts is run with exactly the operations of its action.
pub taken-running :
    (p : Priority) (c : Coordinator) (i : Item)
    → taken p c works ≡ i ∷ []
    → (work c).worker ≡ running i.sequence (action_ops i.action)
unfolding work work_in take_from start
taken-running normal c i h = ground arith
taken-running safety c i h = ground arith

-- An action leaves its command open only if it defers and returns.
abbrev pub is_deferred : Action → Bool
is_deferred (contextual effects returns) = defers effects
is_deferred _ = false

ending_terminal :
    (t : Ticket) (effects : List Effect) (ending : Ending)
    → is_deferred (contextual effects ending) ≡ false
    → is_terminal (apply_all t (ending_ops (defers effects) ending)).0.result.state ≡ true
unfolding apply_all
ending_terminal t effects returns h = rw h (apply-complete_terminal t)
ending_terminal t effects (throws e) h = apply-fail_terminal t e
ending_terminal t effects throws_unknown h = apply-fail_terminal t _

-- Whatever state its ticket is in, a command whose action does not defer has completed or failed once
-- the worker is done with it: also when the action throws.
pub action_ops-terminal :
    (t : Ticket) (a : Action)
    → is_deferred a ≡ false
    → is_terminal (apply_all t (action_ops a)).0.result.state ≡ true
unfolding action_ops apply_all
action_ops-terminal t (plain returns) h = apply-complete_terminal (apply t (mark_accepted 0)).0
action_ops-terminal t (plain (throws e)) h = apply-fail_terminal t e
action_ops-terminal t (plain throws_unknown) h = apply-fail_terminal t _
action_ops-terminal t (contextual effects ending) h =
    rw (apply_all-append t (effect_ops effects) (ending_ops (defers effects) ending))
      (ending_terminal (apply_all t (effect_ops effects)).0 effects ending h)

-- The tickets after the operations of one action, and after those of several items in their order.
abbrev pub perform : ℕ → List TicketOp → (ℕ → Option Ticket) → ℕ → Option Ticket
perform s [] tickets = tickets
perform s (op ∷ ops) tickets = perform s ops (touch tickets s op)

abbrev pub perform_all : List Item → (ℕ → Option Ticket) → ℕ → Option Ticket
perform_all [] tickets = tickets
perform_all (i ∷ is) tickets = perform_all is (perform i.sequence (action_ops i.action) tickets)

pub work_times : ℕ → Coordinator → Coordinator
work_times zero c = c
work_times (suc n) c = work_times n (work c)

-- One move takes an item, one does each operation, one goes back to the wait; the last one leaves.
abbrev pub moves_of : List Item → ℕ
moves_of [] = 1
moves_of (i ∷ is) = suc (length (action_ops i.action) + suc (moves_of is))

abbrev moves_in : WorkerState → ℕ → ℕ
moves_in waiting n = n
moves_in (running s ops) n = length ops + suc n
moves_in exited n = 0

abbrev pub drain_moves : Coordinator → ℕ
drain_moves c = moves_in c.worker (moves_of (c.safety_queue ++ c.queue))

abbrev performed_in : WorkerState → (ℕ → Option Ticket) → ℕ → Option Ticket
performed_in (running s ops) tickets = perform s ops tickets
performed_in _ tickets = tickets

-- The coordinator that has run all its commands one after another.
abbrev pub drained : Coordinator → Coordinator
drained c = record c {
  queue = [];
  safety_queue = [];
  stopping = true;
  worker = exited;
  tickets = perform_all (c.safety_queue ++ c.queue) (performed_in c.worker c.tickets);
}

finish_running :
    (s : ℕ) (ops : List TicketOp) (n : ℕ) (c : Coordinator)
    → work_times (length ops + suc n) (record c { worker = running s ops })
      ≡ work_times n (record c { worker = waiting; tickets = perform s ops c.tickets })
unfolding work_times work work_in
finish_running s [] n c = rw zero-add
finish_running s (op ∷ ops) n c =
    rw suc-add (finish_running s ops n (record c { tickets = touch c.tickets s op }))

drain_normals :
    (ns : List Item) (c : Coordinator)
    → work_times
        (moves_of ns)
        (record c { worker = waiting; stopping = true; safety_queue = []; queue = ns })
      ≡ record c {
        worker = exited;
        stopping = true;
        safety_queue = [];
        queue = [];
        tickets = perform_all ns c.tickets;
      }
unfolding work_times work work_in take_from start
drain_normals [] c = refl
drain_normals (i ∷ is) c =
    finish_running i.sequence (action_ops i.action) (moves_of is)
      (record c { stopping = true; safety_queue = []; queue = is })
    ∙ drain_normals is (record c { tickets = perform i.sequence (action_ops i.action) c.tickets })

drain_queues :
    (ss ns : List Item) (c : Coordinator)
    → work_times
        (moves_of (ss ++ ns))
        (record c { worker = waiting; stopping = true; safety_queue = ss; queue = ns })
      ≡ record c {
        worker = exited;
        stopping = true;
        safety_queue = [];
        queue = [];
        tickets = perform_all (ss ++ ns) c.tickets;
      }
unfolding work_times work work_in take_from start
drain_queues [] ns c = drain_normals ns c
drain_queues (i ∷ is) ns c =
    finish_running i.sequence (action_ops i.action) (moves_of (is ++ ns))
      (record c { stopping = true; safety_queue = is; queue = ns })
    ∙ drain_queues is ns (record c { tickets = perform i.sequence (action_ops i.action) c.tickets })

abbrev pub is_exited : WorkerState → Bool
is_exited exited = true
is_exited _ = false

drain_from :
    (w : WorkerState) (c : Coordinator)
    → is_exited w ≡ false
    → work_times (drain_moves (record c { worker = w })) (shutdown (record c { worker = w }))
      ≡ drained (record c { worker = w })
unfolding shutdown
drain_from waiting c h = drain_queues c.safety_queue c.queue c
drain_from (running s ops) c h =
    finish_running s ops (moves_of (c.safety_queue ++ c.queue)) (record c { stopping = true })
    ∙ drain_queues c.safety_queue c.queue (record c { tickets = perform s ops c.tickets })
drain_from exited c h = cc

-- After a shutdown the worker, whatever it was doing, leaves after `drain_moves` moves of its own, with
-- both queues empty, and the tickets are those that its running command, then every waiting safety
-- command and then every waiting normal command produce one after another.
pub shutdown-drained :
    (c : Coordinator)
    → is_exited c.worker ≡ false
    → work_times (drain_moves c) (shutdown c) ≡ drained c
shutdown-drained c h = drain_from c.worker c h
