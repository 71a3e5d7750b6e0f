-- ===== src/Coordinator/CommandTicket/Outcome.antt =====
-- The result of a ticket as a function of what happened to it.
use linuxcnc_ctrl.Prelude.{
  ℕ, String, ◌≡◌, refl, true, false, Option, none, some, List, [], ◌∷◌, ◌++◌, ap, ◌∙◌, arith,
}
use linuxcnc_ctrl.Coordinator.CommandTicket.{
  WaitPolicy, CommandState, CommandResult, Ticket, is_terminal, settle, updated, transition, watch,
  TicketOp, mark_accepted, mark_completed, mark_failed, register, apply, apply_all, fresh,
}

-- The state and the error of the first completion or failure.
abbrev pub verdict : List TicketOp → Option (CommandState × String)
verdict [] = none
verdict (mark_completed ∷ ops) = some (CommandState.completed, "")
verdict (mark_failed e ∷ ops) = some (CommandState.failed, e)
verdict (mark_accepted n ∷ ops) = verdict ops
verdict (register policy callback ∷ ops) = verdict ops

-- The channel's number in the first acceptance before any completion or failure.
abbrev pub acceptance : List TicketOp → Option ℕ
acceptance [] = none
acceptance (mark_completed ∷ ops) = none
acceptance (mark_failed e ∷ ops) = none
acceptance (mark_accepted n ∷ ops) = some n
acceptance (register policy callback ∷ ops) = acceptance ops

abbrev conclude : ℕ → ℕ → Option (CommandState × String) → CommandState → CommandResult
conclude sequence accepted_sequence none s = record {
  sequence = sequence;
  accepted_sequence = accepted_sequence;
  state = s;
  error = "";
}
conclude sequence accepted_sequence (some (s, error)) _ = record {
  sequence = sequence;
  accepted_sequence = accepted_sequence;
  state = s;
  error = error;
}

abbrev outcome_of : ℕ → Option ℕ → Option (CommandState × String) → CommandResult
outcome_of sequence none v = conclude sequence 0 v CommandState.queued
outcome_of sequence (some n) v = conclude sequence n v CommandState.accepted

-- What a ticket should say after a history, from the history alone.
abbrev pub outcome : ℕ → List TicketOp → CommandResult
outcome sequence ops = outcome_of sequence (acceptance ops) (verdict ops)

settle-result :
    (t : Ticket) (s : CommandState) (e : String) (n : ℕ)
    → (settle t s e n).0.result ≡ updated t.result s e n
unfolding settle
settle-result t s e n = refl

terminal_keeps :
    (t : Ticket) (op : TicketOp)
    → is_terminal t.result.state ≡ true
    → (apply t op).0.result ≡ t.result
unfolding apply transition watch
terminal_keeps t op h = ground arith

-- A result that is completed or failed never changes again.
pub terminal_absorbs :
    (t : Ticket) (ops : List TicketOp)
    → is_terminal t.result.state ≡ true
    → (apply_all t ops).0.result ≡ t.result
unfolding apply_all
terminal_absorbs t [] h = refl
terminal_absorbs t (op ∷ ops) h =
    let kept = terminal_keeps t op h in terminal_absorbs (apply t op).0 ops (rw kept h) ∙ kept

-- What one operation does to a result that is still open.
accept-keeps :
    (t : Ticket) (n : ℕ)
    → t.result.state ≡ CommandState.accepted
    → (apply t (mark_accepted n)).0.result ≡ t.result
unfolding apply transition
accept-keeps t n h = ground arith

accept-queued :
    (t : Ticket) (n : ℕ)
    → t.result.state ≡ CommandState.queued
    → (apply t (mark_accepted n)).0.result ≡ updated t.result CommandState.accepted "" n
unfolding apply transition
accept-queued t n h = ground (arith, settle-result t CommandState.accepted "" n)

complete_open :
    (t : Ticket)
    → is_terminal t.result.state ≡ false
    → (apply t mark_completed).0.result ≡ updated t.result CommandState.completed "" 0
unfolding apply transition
complete_open t h = ground (arith, settle-result t CommandState.completed "" 0)

fail_open :
    (t : Ticket) (e : String)
    → is_terminal t.result.state ≡ false
    → (apply t (mark_failed e)).0.result ≡ updated t.result CommandState.failed e 0
unfolding apply transition
fail_open t e h = ground (arith, settle-result t CommandState.failed e 0)

register-keeps :
    (t : Ticket) (policy : WaitPolicy) (callback : ℕ)
    → (apply t (register policy callback)).0.result ≡ t.result
unfolding apply watch
register-keeps t policy callback = ground arith

abbrev opened : ℕ → ℕ → CommandState → CommandResult
opened sequence n s = record { sequence = sequence; accepted_sequence = n; state = s; error = "" }

from_accepted :
    (sequence n : ℕ) (t : Ticket) (ops : List TicketOp)
    → t.result ≡ opened sequence n CommandState.accepted
    → (apply_all t ops).0.result ≡ conclude sequence n (verdict ops) CommandState.accepted
unfolding apply_all updated
from_accepted sequence n t [] h = h
from_accepted sequence n t (mark_accepted m ∷ ops) h =
    from_accepted sequence n (apply t (mark_accepted m)).0 ops
      (accept-keeps t m (ap (λ r. r.state) h) ∙ h)
from_accepted sequence n t (mark_completed ∷ ops) h =
    let now = complete_open t (rw h refl) in
    terminal_absorbs _ ops (rw now refl) ∙ now ∙ ap (λ r. updated r CommandState.completed "" 0) h
from_accepted sequence n t (mark_failed e ∷ ops) h =
    let now = fail_open t e (rw h refl) in
    terminal_absorbs _ ops (rw now refl) ∙ now ∙ ap (λ r. updated r CommandState.failed e 0) h
from_accepted sequence n t (register policy callback ∷ ops) h =
    from_accepted sequence n (apply t (register policy callback)).0 ops
      (register-keeps t policy callback ∙ h)

from_queued :
    (sequence : ℕ) (t : Ticket) (ops : List TicketOp)
    → t.result ≡ opened sequence 0 CommandState.queued
    → (apply_all t ops).0.result ≡ outcome sequence ops
unfolding apply_all updated
from_queued sequence t [] h = h
from_queued sequence t (mark_accepted n ∷ ops) h =
    from_accepted sequence n (apply t (mark_accepted n)).0 ops
      (accept-queued t n (ap (λ r. r.state) h) ∙ ap (λ r. updated r CommandState.accepted "" n) h)
from_queued sequence t (mark_completed ∷ ops) h =
    let now = complete_open t (rw h refl) in
    terminal_absorbs _ ops (rw now refl) ∙ now ∙ ap (λ r. updated r CommandState.completed "" 0) h
from_queued sequence t (mark_failed e ∷ ops) h =
    let now = fail_open t e (rw h refl) in
    terminal_absorbs _ ops (rw now refl) ∙ now ∙ ap (λ r. updated r CommandState.failed e 0) h
from_queued sequence t (register policy callback ∷ ops) h =
    from_queued sequence (apply t (register policy callback)).0 ops
      (register-keeps t policy callback ∙ h)

-- The result of a ticket after any history is the one that the specification reads off the history:
-- the first completion or failure decides the state and the error, and the number is that of the
-- first acceptance before it.
pub result-eq-outcome :
    (sequence : ℕ) (ops : List TicketOp)
    → (apply_all (fresh sequence) ops).0.result ≡ outcome sequence ops
unfolding fresh
result-eq-outcome sequence ops = from_queued sequence (fresh sequence) ops refl

pub apply_all-append :
    (t : Ticket) (xs ys : List TicketOp)
    → (apply_all t (xs ++ ys)).0 ≡ (apply_all (apply_all t xs).0 ys).0
unfolding apply_all
apply_all-append t [] ys = refl
apply_all-append t (x ∷ xs) ys = apply_all-append (apply t x).0 xs ys

pub apply-complete_terminal :
    (t : Ticket) → is_terminal (apply t mark_completed).0.result.state ≡ true
unfolding apply transition settle updated
apply-complete_terminal t = ground arith

pub apply-fail_terminal :
    (t : Ticket) (e : String) → is_terminal (apply t (mark_failed e)).0.result.state ≡ true
unfolding apply transition settle updated
apply-fail_terminal t e = ground arith
