-- ===== src/Coordinator/Tests.antt =====
-- The coordinator at concrete histories.
use linuxcnc_ctrl.Prelude.{◌≡◌, refl, true, some, List, [], ◌∷◌}
use linuxcnc_ctrl.Coordinator.CommandTicket.{is_terminal, fresh, apply_all}
use linuxcnc_ctrl.Coordinator.Queue.{WithinCapacity, run-init-WithinCapacity}
use linuxcnc_ctrl.Coordinator.Worker.{
  action_ops-terminal, work_times, drain_moves, drained, shutdown-drained,
}
use linuxcnc_ctrl.Coordinator.{
  normal, safety, accept, returns, throws, Action, plain, contextual, Coordinator, init, Step,
  submits, shuts_down, works, step, run, submit, enqueue, shutdown, work, work_in, take_from, start,
  action_ops, queued,
}

abbrev set_mode : Action
set_mode = contextual (accept 12 ∷ []) returns

abbrev abort : Action
abort = plain (throws "channel closed")

-- A full normal queue, a safety command past it, and a worker that takes the safety command first.
abbrev session : List Step
session =
    submits (some set_mode) normal
    ∷ submits (some set_mode) normal
    ∷ submits (some abort) safety
    ∷ works
    ∷ works
    ∷ []

abbrev busy : Coordinator
busy = run (init 1 1) session

run-init-WithinCapacity_example : WithinCapacity busy
run-init-WithinCapacity_example = run-init-WithinCapacity 1 1 session

action_ops-terminal_example :
    is_terminal (apply_all (fresh 3) (action_ops abort)).0.result.state ≡ true
action_ops-terminal_example = action_ops-terminal (fresh 3) abort refl

shutdown-drained_example : work_times (drain_moves busy) (shutdown busy) ≡ drained busy
unfolding run step submit enqueue work work_in take_from start init action_ops
shutdown-drained_example = shutdown-drained busy refl

one_waits : queued busy ≡ 1
unfolding queued run step submit enqueue work work_in take_from start init action_ops
one_waits = refl

abbrev finished : List Step
finished = submits (some set_mode) normal ∷ works ∷ works ∷ works ∷ works ∷ shuts_down ∷ works ∷ []
