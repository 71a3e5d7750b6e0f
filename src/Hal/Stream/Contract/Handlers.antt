-- ===== src/Hal/Stream/Contract/Handlers.antt =====
-- Every handler of the reactor keeps the rules and the stream's one turn.
use linuxcnc_ctrl.Prelude.{
  ◌==◌, leb, ℕ, ◌≡◌, refl, ap, Bool, true, false, not, ◌&&◌, Option, none, some, [], if_holds,
  if_cases, Bool-cases, inl, inr, is_some, arith, str_eq,
}
use linuxcnc_ctrl.Grpc.DeferredFinish.{
  DeferredFinish, complete_write, take_finish_status, termination_requested,
}
use linuxcnc_ctrl.Hal.Outbox.{Message, Entry, Outbox, pop_front}
use linuxcnc_ctrl.Hal.Outbox.Responses.{pop_front-responses}
use linuxcnc_ctrl.Runtime.Gate.{is_open}
use linuxcnc_ctrl.Hal.Stream.{
  Reactor, resource_exhausted_code, start_stream, Answer, Does, finish_with, finish_if_ready,
  detach_transport, next_write, resumed, after_write, write_done, respond, answered, consumed, tick,
  heartbeat_timeout, ended, deadline_exceeded_code, through_gate, status_ok,
}
use linuxcnc_ctrl.Hal.Stream.Contract.{Transport, watch, watch_all}
use linuxcnc_ctrl.Hal.Stream.Contract.Turns.{
  Inv, one_if, Holds, request_finish-Holds, request_finish-Holds_closed, start_entry-Holds, weaken,
  offer_response-Holds, give_up-Holds,
}

respond-Holds :
    (t : Transport) (r : Reactor) (response : Option Message) (close : Bool)
    → is_open r.gate ≡ true
    → Inv 1 t r
    → Holds 0 t (respond r response close)
unfolding respond watch_all watch
respond-Holds t r (some message) close gate_open v =
    let w = offer_response-Holds t r message gate_open v in
    if_holds (Holds 0 t) close _ _
      (record {
        sound = w.sound;
        finishes = w.finishes;
        started = w.started;
        writing = w.writing;
        still = w.still;
        turn = w.turn;
      })
      w
respond-Holds t r none close gate_open v =
    if_holds (Holds 0 t) close _ _ (request_finish-Holds 0 t r status_ok gate_open (weaken t r v)) (
      if_holds (Holds 0 t) (not (termination_requested r.write_finish)) _ _
        (ground (arith, v, gate_open)) (weaken t r v))

answered-Holds :
    (t : Transport) (r : Reactor) (answer : Answer)
    → is_open r.gate ≡ true
    → Inv 1 t r
    → Holds 0 t (answered r answer)
unfolding answered
answered-Holds t r answer gate_open v =
    if_holds (Holds 0 t) (not (answer.status == status_ok)) _ _
      (give_up-Holds 0 t r answer.status gate_open (weaken t r v))
      (if_holds (Holds 0 t) (str_eq answer.proxy_id "") _ _
        (respond-Holds t r answer.response answer.close gate_open v)
        (respond-Holds t (record r { proxy_id = answer.proxy_id; generation = answer.generation })
          answer.response answer.close gate_open
          (record {
            sound = v.sound;
            finishes = v.finishes;
            started = v.started;
            writing = v.writing;
            still = v.still;
            turn = v.turn;
          })))

pub consumed-Holds :
    (t : Transport) (r : Reactor) (answer : Answer) → Inv 1 t r → Holds 0 t (consumed r answer)
unfolding consumed watch_all watch
consumed-Holds t r answer v =
    if_cases (Holds 0 t) (is_open r.gate) _ _ (λ gate_open. answered-Holds t r answer gate_open v)
      λ closed. if_holds (Holds 0 t) (str_eq answer.proxy_id "") _ _ (weaken t r v) (weaken t r v)

next_write-Holds :
    (t : Transport) (r : Reactor) (next : Option (Outbox × Entry))
    → is_open r.gate ≡ true
    → r.write_finish.write_in_flight ≡ false
    → Inv 0 t r
    → pop_front r.outbox ≡ next
    → Holds 0 t (next_write r next)
unfolding next_write watch_all watch
next_write-Holds t r none gate_open idle v e =
    if_holds (Holds 0 t) r.finish_after_responses _ _
      (request_finish-Holds 0 t r status_ok gate_open v)
      (if_cases (Holds 0 t) r.resume_read_when_idle _ _
        (λ resume. ground (arith, resume, v, gate_open)) (λ stay. v))
next_write-Holds t r (some (rest, entry)) gate_open idle v e =
    start_entry-Holds 0 t (record r { outbox = rest }) entry gate_open idle
      (ground (arith, idle, v, pop_front-responses r.outbox rest entry e))

after_write-Holds :
    (t : Transport) (r : Reactor)
    → is_open r.gate ≡ true
    → r.write_finish.write_in_flight ≡ false
    → Inv (one_if r.active_response) t r
    → Holds 0 t (after_write r)
unfolding after_write
after_write-Holds t r gate_open idle v =
    next_write-Holds t (resumed r) (pop_front (resumed r).outbox) (ground (arith, gate_open))
      (ground (arith, idle)) (ground (arith, idle, v)) refl

take_none :
    (w : DeferredFinish) → is_some w.terminal_status ≡ false → take_finish_status w ≡ (w, none)
unfolding take_finish_status
take_none w none_set = ground (arith, none_set)

-- A write ends, and no Finish is due.
not_ready :
    (r : Reactor)
    → is_some r.write_finish.terminal_status ≡ false
    → finish_if_ready r ≡ ((r, []), false)
unfolding finish_if_ready finish_with take_finish_status
not_ready r none_set = ap (finish_with r) (take_none r.write_finish none_set)

written_on-Holds :
    (t : Transport) (r : Reactor)
    → is_open r.gate ≡ true
    → t.writing ≡ true
    → is_some r.write_finish.terminal_status ≡ false
    → Inv 0 t r
    → Holds 0 (record t { writing = false }) (write_done r true)
unfolding write_done complete_write
written_on-Holds t r gate_open writing on v =
    let written : Reactor = record r { write_finish = complete_write r.write_finish true } in
    rw (not_ready written on, write_done)
      (after_write-Holds (record t { writing = false }) written gate_open refl
        (ground (arith, v, writing)))

pub write_done-Holds :
    (t : Transport) (r : Reactor) (ok : Bool)
    → is_open r.gate ≡ true
    → t.writing ≡ true
    → Inv 0 t r
    → Holds 0 (record t { writing = false }) (write_done r ok)
unfolding write_done finish_if_ready finish_with complete_write take_finish_status watch_all watch
write_done-Holds t r false gate_open writing v = ground (arith, gate_open, writing, v)
write_done-Holds t r true gate_open writing v =
    elim (Bool-cases (is_some r.write_finish.terminal_status)) [
      | inl ending ↦ ground (arith, gate_open, writing, v, ending)
      | inr on ↦ written_on-Holds t r gate_open writing on v
    ]

pub tick-Holds :
    (t : Transport) (r : Reactor) (now : ℕ)
    → is_open r.gate ≡ true
    → Inv 0 t r
    → Holds 0 t (tick r now)
unfolding tick watch_all
tick-Holds t r now gate_open v =
    if_holds (Holds 0 t) (not r.received_first_message && leb r.first_message_deadline now) _ _
      (request_finish-Holds 0 t r deadline_exceeded_code gate_open v) v

pub heartbeat_timeout-Holds :
    (t : Transport) (r : Reactor) (generation : ℕ)
    → is_open r.gate ≡ true
    → Inv 0 t r
    → Holds 0 t (heartbeat_timeout r generation)
unfolding heartbeat_timeout watch_all
heartbeat_timeout-Holds t r generation gate_open v =
    if_holds (Holds 0 t) (r.generation == generation) _ _
      (request_finish-Holds 0 t (record r { detach_requested = true }) deadline_exceeded_code
        gate_open
        (record {
          sound = v.sound;
          finishes = v.finishes;
          started = v.started;
          writing = v.writing;
          still = v.still;
          turn = v.turn;
        }))
      v

pub through_gate-Holds :
    (t : Transport) (r : Reactor) (does : Does)
    → Inv 0 t r
    → (is_open r.gate ≡ true → Holds 0 t does)
    → Holds 0 t (through_gate r does)
unfolding through_gate watch_all
through_gate-Holds t r does v h = if_cases (Holds 0 t) (is_open r.gate) _ _ h (λ closed. v)

-- `OnDone` comes after Finish.
pub ended-Holds :
    (t : Transport) (r : Reactor) → t.finished ≡ true → Inv 0 t r → Holds 0 t (ended r)
unfolding ended detach_transport watch_all watch
ended-Holds t r over v = ground (arith, over, v)

-- The constructor goes on, whether or not a shutdown has finished the stream.
pub start_stream-Holds :
    (t : Transport) (r : Reactor)
    → t.starting ≡ true
    → (t.finished && not t.excused) ≡ false
    → Inv 0 t r
    → Holds 0 (record t { starting = false }) (start_stream r)
unfolding start_stream watch_all watch
start_stream-Holds t r starting late v =
    let v' : Inv 1 (record t { starting = false }) r = ground (arith, starting, v) in
    let w = weaken (record t { starting = false }) r v' in
    if_holds (Holds 0 (record t { starting = false })) (not r.stream_admitted) _ _
      (elim (Bool-cases (is_open r.gate)) [
        | inl gate_open ↦
            request_finish-Holds 0 (record t { starting = false }) r resource_exhausted_code
              gate_open w
        | inr closed ↦
            request_finish-Holds_closed 0 (record t { starting = false }) r resource_exhausted_code
              closed w
      ])
      (ground (arith, late, v'))
