-- ===== src/Hal/Stream/Contract/Turns.antt =====
-- The primitives of the reactor keep the rules and the stream's one turn.
use linuxcnc_ctrl.Prelude.{
  ℕ, ◌+◌, ◌≤◌, ◌≡◌, refl, ap, ◌∙◌, Bool, true, false, not, ◌&&◌, ◌||◌, List, [], ◌∷◌, ◌++◌,
  if◌then◌else◌, if_holds, if_cases, Bool-cases, inl, inr, arith, str_eq,
}
use linuxcnc_ctrl.Grpc.DeferredFinish.{
  try_start_write, request_finish as defer_finish, take_finish_status, termination_requested,
}
use linuxcnc_ctrl.Hal.Outbox.{Message, Entry, empty_outbox}
use linuxcnc_ctrl.Hal.Outbox.Responses.{responses, push_delta-responses, push_response-responses}
use linuxcnc_ctrl.Runtime.Gate.{is_open}
use linuxcnc_ctrl.Hal.Stream.{
  Reactor, Call, Does, then_, finish_with, finish_if_ready, request_finish, detach_transport,
  write_started, start_entry, offer_delta, offer_response, read_done, resource_exhausted_code,
  status_ok,
}
use linuxcnc_ctrl.Hal.Stream.Contract.{Transport, watch, watch_all}

abbrev pub one_if : Bool → ℕ
one_if b = if b then 1 else 0

-- The stream has one turn: the rest of the constructor, a read, a request at the worker, a response that waits or is written, or a read
-- that waits for the writes. `free` turns are not taken.
abbrev pub turns : Transport → Reactor → ℕ
turns t r =
    one_if t.starting
    + one_if t.reading
    + one_if t.at_worker
    + responses r.outbox
    + one_if (r.write_finish.write_in_flight && r.active_response)
    + one_if r.resume_read_when_idle

pub record Inv (free : ℕ) (t : Transport) (r : Reactor) : Type 0 where
  pub sound : t.broken ≡ false
  pub finishes : t.finished ≡ not (is_open r.gate)
  pub started : r.write_finish.finish_started ≡ not (is_open r.gate)
  pub writing : t.writing ≡ r.write_finish.write_in_flight
  pub still : (t.finished && t.writing) ≡ false
  pub turn : free + turns t r ≤ 1

abbrev pub Holds : ℕ → Transport → Does → Type 0
Holds free t d = Inv free (watch_all t d.1) d.0

pub watch_all-append :
    (t : Transport) (xs ys : List Call) → watch_all t (xs ++ ys) ≡ watch_all (watch_all t xs) ys
unfolding watch_all
watch_all-append t [] ys = refl
watch_all-append t (x ∷ xs) ys = watch_all-append (watch t x) xs ys

pub then_-Holds :
    (n m : ℕ) (t : Transport) (d : Does) (f : Reactor → Does)
    → Holds n t d
    → ((t' : Transport) → Inv n t' d.0 → Holds m t' (f d.0))
    → Holds m t (then_ d f)
then_-Holds n m t d f h k = rw (watch_all-append t d.1 (f d.0).1) (k (watch_all t d.1) h)

pub detach_transport-Holds :
    (n : ℕ) (t : Transport) (r : Reactor) → Inv n t r → Holds n t (detach_transport r)
unfolding detach_transport watch_all watch
detach_transport-Holds n t r v =
    if_holds (Holds n t) (r.detach_requested || str_eq r.proxy_id "") _ _ v (record {
      sound = v.sound;
      finishes = v.finishes;
      started = v.started;
      writing = v.writing;
      still = v.still;
      turn = v.turn;
    })

pub request_finish-Holds :
    (n : ℕ) (t : Transport) (r : Reactor) (status : ℕ)
    → is_open r.gate ≡ true
    → Inv n t r
    → Holds n t (request_finish r status)
unfolding request_finish finish_if_ready finish_with defer_finish take_finish_status watch_all watch
    empty_outbox
request_finish-Holds n t r status gate_open v =
    let d = defer_finish r.write_finish status in
    elim (Bool-cases d.write_in_flight) [
      | inl busy ↦ ground (arith, busy, gate_open, v)
      | inr idle ↦ ground (arith, idle, gate_open, v)
    ]

-- Once the gate is closed, a request to finish finds that Finish has been called.
pub request_finish-Holds_closed :
    (n : ℕ) (t : Transport) (r : Reactor) (status : ℕ)
    → is_open r.gate ≡ false
    → Inv n t r
    → Holds n t (request_finish r status)
unfolding request_finish finish_if_ready finish_with defer_finish take_finish_status watch_all watch
    empty_outbox
request_finish-Holds_closed n t r status closed v = ground (arith, closed, v)

pub start_entry-Holds :
    (n : ℕ) (t : Transport) (r : Reactor) (entry : Entry)
    → is_open r.gate ≡ true
    → r.write_finish.write_in_flight ≡ false
    → Inv (n + one_if entry.resume_read) t r
    → Holds n t (start_entry r entry)
unfolding start_entry write_started try_start_write watch_all watch
start_entry-Holds n t r entry gate_open idle v = ground (arith, gate_open, idle, v)

pub offer_delta-Holds :
    (t : Transport) (r : Reactor) (message : Message)
    → is_open r.gate ≡ true
    → Inv 0 t r
    → Holds 0 t (offer_delta r message)
unfolding offer_delta watch_all
offer_delta-Holds t r message gate_open v =
    if_holds (Holds 0 t) (termination_requested r.write_finish) _ _ v (
      if_cases (Holds 0 t) r.write_finish.write_in_flight _ _
        (λ busy. ground (arith, v, push_delta-responses r.outbox message))
        (λ idle.
          start_entry-Holds 0 t r (record { message = message; resume_read = false }) gate_open idle
            v))

pub weaken : (t : Transport) (r : Reactor) → Inv 1 t r → Inv 0 t r
weaken t r v = ground (arith, v)

pub offer_response-Holds :
    (t : Transport) (r : Reactor) (message : Message)
    → is_open r.gate ≡ true
    → Inv 1 t r
    → Holds 0 t (offer_response r message)
unfolding offer_response watch_all
offer_response-Holds t r message gate_open v =
    if_holds (Holds 0 t) (termination_requested r.write_finish) _ _ (weaken t r v) (
      if_cases (Holds 0 t) r.write_finish.write_in_flight _ _
        (λ busy. ground (arith, v, push_response-responses r.outbox message))
        (λ idle.
          start_entry-Holds 0 t r (record { message = message; resume_read = true }) gate_open idle
            v))

detach_transport-gate : (r : Reactor) → (detach_transport r).0.gate ≡ r.gate
unfolding detach_transport
detach_transport-gate r = ground arith

-- Detach, and finish.
pub give_up-Holds :
    (n : ℕ) (t : Transport) (r : Reactor) (status : ℕ)
    → is_open r.gate ≡ true
    → Inv n t r
    → Holds n t (then_ (detach_transport r) (λ r'. request_finish r' status))
give_up-Holds n t r status gate_open v =
    then_-Holds n n t (detach_transport r) (λ r'. request_finish r' status)
      (detach_transport-Holds n t r v)
      λ t' v'.
        request_finish-Holds n t' (detach_transport r).0 status
          (ap is_open (detach_transport-gate r) ∙ gate_open) v'

pub read_done-Holds :
    (t : Transport) (r : Reactor) (ok accepted : Bool)
    → is_open r.gate ≡ true
    → Inv 1 t r
    → Holds 0 t (read_done r ok accepted)
unfolding read_done watch_all watch
read_done-Holds t r ok accepted gate_open v =
    if_holds (Holds 0 t) (termination_requested r.write_finish) _ _ (weaken t r v) (
      if_holds (Holds 0 t) (not ok) _ _ (give_up-Holds 0 t r status_ok gate_open (weaken t r v)) (
        if_holds (Holds 0 t) accepted _ _ (ground (arith, v, gate_open)) (
          request_finish-Holds 0 t (record r { received_first_message = true })
            resource_exhausted_code gate_open (ground (arith, v)))))
