-- ===== src/Coordinator/CommandTicket/Tests.antt =====
-- Tickets at concrete histories.
use linuxcnc_ctrl.Prelude.{
  ℕ, ◌≡◌, refl, true, false, some, List, [], ◌∷◌, count_if, All, if◌then◌else◌, ◌==◌,
}
use linuxcnc_ctrl.Coordinator.CommandTicket.Notify.{is_call_of, called_once}
use linuxcnc_ctrl.Coordinator.CommandTicket.Policy.{IsDue, apply_all-IsDue}
use linuxcnc_ctrl.Coordinator.CommandTicket.Outcome.{outcome, result-eq-outcome}
use linuxcnc_ctrl.Coordinator.CommandTicket.{
  WaitPolicy, CommandState, TicketOp, mark_accepted, mark_completed, mark_failed, register, apply,
  apply_all, fresh, transition, settle, notify_ready, updated, watch, observe, wait_for,
}

-- One observer of each kind before the acceptance, one late, and a completion after the failure.
abbrev history : List TicketOp
history =
    register WaitPolicy.completed 7
    ∷ register WaitPolicy.accepted 8
    ∷ mark_accepted 41
    ∷ mark_failed "limit"
    ∷ register WaitPolicy.completed 7
    ∷ mark_completed
    ∷ []

called_once_example : count_if (is_call_of 7) (apply_all (fresh 5) history).1 ≡ 2
unfolding apply_all apply transition settle notify_ready updated watch fresh
called_once_example = called_once 7 5 history refl

abbrev policies : ℕ → WaitPolicy
policies n = if n == 8 then WaitPolicy.accepted else WaitPolicy.completed

apply_all-IsDue_example : All (IsDue policies) (apply_all (fresh 5) history).1
unfolding fresh
apply_all-IsDue_example =
    apply_all-IsDue policies (fresh 5) history (refl, (refl, (tt, (tt, (refl, (tt, tt)))))) tt

result-eq-outcome_example : (apply_all (fresh 5) history).0.result ≡ outcome 5 history
result-eq-outcome_example = result-eq-outcome 5 history

failed_at_41 :
    (apply_all (fresh 5) history).0.result
    ≡ record { sequence = 5; accepted_sequence = 41; state = CommandState.failed; error = "limit" }
failed_at_41 = result-eq-outcome 5 history

observe_waits : (wait_for (some (fresh 5)) WaitPolicy.accepted).0 ≡ false
unfolding wait_for fresh
observe_waits = refl

observe_registers : (observe (some (fresh 5)) WaitPolicy.accepted (some 3)).2 ≡ true
unfolding observe watch fresh
observe_registers = refl
