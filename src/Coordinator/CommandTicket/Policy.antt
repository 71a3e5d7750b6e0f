-- ===== src/Coordinator/CommandTicket/Policy.antt =====
-- A callback is handed a state that the policy of its registration asks for.
use linuxcnc_ctrl.Prelude.{
  ℕ, String, ◌≡◌, refl, true, List, [], ◌∷◌, All, All-append, Bool-cases, inl, inr, arith,
}
use linuxcnc_ctrl.Coordinator.CommandTicket.{
  WaitPolicy, CommandState, CommandResult, PendingObserver, Ticket, Call, is_ready, notify_ready,
  calls, settle, updated, transition, watch, TicketOp, mark_accepted, mark_completed, mark_failed,
  register, apply, apply_all,
}

-- `policy_of` names the policy that each callback is registered with.
module _ (policy_of : ℕ → WaitPolicy) where
  abbrev pub Follows : TicketOp → Type 0
  Follows (register policy callback) = policy ≡ policy_of callback
  Follows _ = Unit

  abbrev pub IsRegistered : PendingObserver → Type 0
  IsRegistered o = o.policy ≡ policy_of o.callback

  abbrev pub IsDue : Call → Type 0
  IsDue call = is_ready (policy_of call.0) call.1.state ≡ true

  notify_ready-policy :
      (r : CommandResult) (s : CommandState) (os : List PendingObserver)
      → r.state ≡ s
      → All IsRegistered os
      → All IsRegistered (notify_ready s os).0 × All IsDue (calls r (notify_ready s os).1)
  unfolding notify_ready
  notify_ready-policy r s [] e h = (tt, tt)
  notify_ready-policy r s (o ∷ os) e h = ground (arith, notify_ready-policy r s os e h.1)

  abbrev IsOrderly : Ticket × List Call → Type 0
  IsOrderly r = All IsRegistered r.0.observers × All IsDue r.1

  settle-policy :
      (t : Ticket) (s : CommandState) (e : String) (n : ℕ)
      → All IsRegistered t.observers
      → IsOrderly (settle t s e n)
  unfolding settle updated
  settle-policy t s e n h = notify_ready-policy _ s t.observers refl h

  transition-policy :
      (t : Ticket) (s : CommandState) (e : String) (n : ℕ)
      → All IsRegistered t.observers
      → IsOrderly (transition t s e n)
  unfolding transition
  transition-policy t s e n h = ground (arith, settle-policy t s e n h)

  watch-policy :
      (t : Ticket) (policy : WaitPolicy) (callback : ℕ)
      → policy ≡ policy_of callback
      → All IsRegistered t.observers
      → IsOrderly (watch t policy callback)
  unfolding watch
  watch-policy t policy callback e h = elim (Bool-cases (is_ready policy t.result.state)) [
    | inl ready ↦ rw (ready, watch) (h, (rw (← e) ready, tt))
    | inr waits ↦ rw (waits, watch) (All-append _ t.observers _ h (e, tt), tt)
  ]

  apply-policy :
      (t : Ticket) (op : TicketOp)
      → Follows op
      → All IsRegistered t.observers
      → IsOrderly (apply t op)
  unfolding apply
  apply-policy t (mark_accepted n) f h = transition-policy t CommandState.accepted "" n h
  apply-policy t mark_completed f h = transition-policy t CommandState.completed "" 0 h
  apply-policy t (mark_failed e) f h = transition-policy t CommandState.failed e 0 h
  apply-policy t (register policy callback) f h = watch-policy t policy callback f h

  -- On a history in which each callback is always registered with its one policy, on a ticket whose
  -- pending observers are too, every call carries a state which the policy of its callback waits
  -- for: a terminal one, or for acceptance also the accepted one.
  pub apply_all-IsDue :
      (t : Ticket) (ops : List TicketOp)
      → All Follows ops
      → All IsRegistered t.observers
      → All IsDue (apply_all t ops).1
  unfolding apply_all
  apply_all-IsDue t [] f h = tt
  apply_all-IsDue t (op ∷ ops) f h =
      let step = apply-policy t op f.0 h in
      All-append _ (apply t op).1 _ step.1 (apply_all-IsDue (apply t op).0 ops f.1 step.0)
