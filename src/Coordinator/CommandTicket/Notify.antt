-- ===== src/Coordinator/CommandTicket/Notify.antt =====
-- Which observers are called, how often, and with what.
use linuxcnc_ctrl.Prelude.{
  ℕ, String, ◌+◌, ◌≡◌, refl, Bool, true, false, List, [], ◌∷◌, if◌then◌else◌, ◌==◌, count_if,
  count_if-append, All, All-append, Bool-cases, inl, inr, arith,
}
use linuxcnc_ctrl.Coordinator.CommandTicket.{
  WaitPolicy, CommandState, CommandResult, PendingObserver, Ticket, Call, is_terminal, is_ready,
  notify_ready, calls, transition, watch, TicketOp, mark_accepted, mark_completed, mark_failed,
  register, apply, apply_all, fresh, settle, updated,
}

abbrev pub registers : ℕ → TicketOp → Bool
registers c (register policy callback) = callback == c
registers c _ = false

abbrev pub is_call_of : ℕ → Call → Bool
is_call_of c call = call.0 == c

abbrev pub is_pending : ℕ → PendingObserver → Bool
is_pending c o = o.callback == c

notify_ready-count :
    (c : ℕ) (r : CommandResult) (s : CommandState) (os : List PendingObserver)
    → count_if (is_call_of c) (calls r (notify_ready s os).1)
        + count_if (is_pending c) (notify_ready s os).0
      ≡ count_if (is_pending c) os
unfolding notify_ready
notify_ready-count c r s [] = refl
notify_ready-count c r s (o ∷ os) = ground (arith, notify_ready-count c r s os)

settle-count :
    (c : ℕ) (t : Ticket) (s : CommandState) (e : String) (n : ℕ)
    → count_if (is_call_of c) (settle t s e n).1
        + count_if (is_pending c) (settle t s e n).0.observers
      ≡ count_if (is_pending c) t.observers
unfolding settle
settle-count c t s e n = notify_ready-count c _ s t.observers

transition-count :
    (c : ℕ) (t : Ticket) (s : CommandState) (e : String) (n : ℕ)
    → count_if (is_call_of c) (transition t s e n).1
        + count_if (is_pending c) (transition t s e n).0.observers
      ≡ count_if (is_pending c) t.observers
unfolding transition
transition-count c t s e n = ground (arith, settle-count c t s e n)

watch-count :
    (c : ℕ) (t : Ticket) (policy : WaitPolicy) (callback : ℕ)
    → count_if (is_call_of c) (watch t policy callback).1
        + count_if (is_pending c) (watch t policy callback).0.observers
      ≡ count_if (is_pending c) t.observers + (if callback == c then 1 else 0)
unfolding watch
watch-count c t policy callback = ground (
  arith,
  count_if-append {0} (is_pending c) t.observers
      (record { policy = policy; callback = callback } ∷ []),
)

apply-count :
    (c : ℕ) (t : Ticket) (op : TicketOp)
    → count_if (is_call_of c) (apply t op).1 + count_if (is_pending c) (apply t op).0.observers
      ≡ count_if (is_pending c) t.observers + (if registers c op then 1 else 0)
unfolding apply
apply-count c t (mark_accepted n) = omega (arith, transition-count c t CommandState.accepted "" n)
apply-count c t mark_completed = omega (arith, transition-count c t CommandState.completed "" 0)
apply-count c t (mark_failed e) = omega (arith, transition-count c t CommandState.failed e 0)
apply-count c t (register policy callback) = watch-count c t policy callback

-- Over any history, every registration of a callback is either still waiting or has led to one call.
pub apply_all-count :
    (c : ℕ) (t : Ticket) (ops : List TicketOp)
    → count_if (is_call_of c) (apply_all t ops).1
        + count_if (is_pending c) (apply_all t ops).0.observers
      ≡ count_if (is_pending c) t.observers + count_if (registers c) ops
unfolding apply_all
apply_all-count c t [] = omega arith
apply_all-count c t (op ∷ ops) = omega (
  arith,
  apply-count c t op,
  apply_all-count c (apply t op).0 ops,
  count_if-append {0} (is_call_of c) (apply t op).1 (apply_all (apply t op).0 ops).1,
)

-- A ticket whose state is terminal has no observer left, and one that is accepted has none that
-- waits for acceptance.
abbrev pub IsSettled : Ticket → Type 0
IsSettled t = All (λ o. is_ready o.policy t.result.state ≡ false) t.observers

notify_ready-IsSettled :
    (s : CommandState) (os : List PendingObserver)
    → All (λ o. is_ready o.policy s ≡ false) (notify_ready s os).0
unfolding notify_ready
notify_ready-IsSettled s [] = tt
notify_ready-IsSettled s (o ∷ os) = ground (arith, notify_ready-IsSettled s os)

settle-IsSettled :
    (t : Ticket) (s : CommandState) (e : String) (n : ℕ) → IsSettled (settle t s e n).0
unfolding settle updated
settle-IsSettled t s e n = notify_ready-IsSettled s t.observers

transition-IsSettled :
    (t : Ticket) (s : CommandState) (e : String) (n : ℕ)
    → IsSettled t
    → IsSettled (transition t s e n).0
unfolding transition
transition-IsSettled t s e n h = ground (arith, settle-IsSettled t s e n)

watch-IsSettled :
    (t : Ticket) (policy : WaitPolicy) (callback : ℕ)
    → IsSettled t
    → IsSettled (watch t policy callback).0
unfolding watch
watch-IsSettled t policy callback h = elim (Bool-cases (is_ready policy t.result.state)) [
  | inl ready ↦ rw (ready, watch) h
  | inr waits ↦ rw (waits, watch) (All-append _ t.observers _ h (waits, tt))
]

apply-IsSettled : (t : Ticket) (op : TicketOp) → IsSettled t → IsSettled (apply t op).0
unfolding apply
apply-IsSettled t (mark_accepted n) h = transition-IsSettled t CommandState.accepted "" n h
apply-IsSettled t mark_completed h = transition-IsSettled t CommandState.completed "" 0 h
apply-IsSettled t (mark_failed e) h = transition-IsSettled t CommandState.failed e 0 h
apply-IsSettled t (register policy callback) h = watch-IsSettled t policy callback h

pub apply_all-IsSettled :
    (t : Ticket) (ops : List TicketOp) → IsSettled t → IsSettled (apply_all t ops).0
unfolding apply_all
apply_all-IsSettled t [] h = h
apply_all-IsSettled t (op ∷ ops) h = apply_all-IsSettled (apply t op).0 ops (apply-IsSettled t op h)

terminal_is_ready : (p : WaitPolicy) (s : CommandState) → is_terminal s ≡ true → is_ready p s ≡ true
terminal_is_ready p s h = ground arith

none_pending :
    (c : ℕ) (s : CommandState) (os : List PendingObserver)
    → is_terminal s ≡ true
    → All (λ o. is_ready o.policy s ≡ false) os
    → count_if (is_pending c) os ≡ 0
none_pending c s [] t h = refl
none_pending c s (o ∷ os) t h = ground (arith, terminal_is_ready o.policy s t)

-- On a ticket that has completed or failed, a callback has been called exactly as often as it was
-- registered, whatever the order of transitions and registrations was.
pub called_once :
    (c sequence : ℕ) (ops : List TicketOp)
    → is_terminal (apply_all (fresh sequence) ops).0.result.state ≡ true
    → count_if (is_call_of c) (apply_all (fresh sequence) ops).1 ≡ count_if (registers c) ops
unfolding fresh
called_once c sequence ops done = omega (
  arith,
  apply_all-count c (fresh sequence) ops,
  none_pending c _ _ done (apply_all-IsSettled (fresh sequence) ops tt),
)
