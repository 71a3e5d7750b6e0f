-- ===== src/Hal/Stream/Contract.antt =====
-- The rules that gRPC sets for a reactor, as a monitor of its calls, and a run of any events that gRPC, the
-- worker and the registry may deliver.
pub mod Turns
pub mod Handlers
pub mod Rules
mod Tests
use linuxcnc_ctrl.Prelude.{
  ◌==◌, leb, ℕ, ◌+◌, ◌≤◌, ◌≡◌, refl, sym, ap, ◌∙◌, Bool, true, false, not, ◌&&◌, ◌||◌, Option, none,
  some, List, [], ◌∷◌, ◌++◌, if◌then◌else◌, if_holds, if_cases, Bool-cases, Option-cases, inl, inr,
  count_if, count_if-append, is_some, arith, String, str_eq,
}
use linuxcnc_ctrl.Grpc.DeferredFinish.{
  DeferredFinish, initial, try_start_write, complete_write, request_finish as defer_finish,
  take_finish_status, termination_requested,
}
use linuxcnc_ctrl.Hal.Outbox.{
  Message, Entry, Outbox, empty_outbox, push_response, push_delta, pop_front,
}
use linuxcnc_ctrl.Hal.Outbox.Responses.{
  responses, push_delta-responses, push_response-responses, pop_front-responses,
}
use linuxcnc_ctrl.Runtime.Gate.{State, open_, finishing, done, is_open}
use linuxcnc_ctrl.Hal.Stream.{
  Reactor, Call, start_read, start_first_read, start_write, finish, submit, submit_cleanup, detach,
  release_stream, stream_registered, Answer, Does, quiet, then_, finish_with, finish_if_ready,
  request_finish, detach_transport, write_started, start_entry, offer_delta, offer_response,
  read_done, next_write, resumed, after_write, write_done, respond, answered, consumed, shut_down,
  cancelled, tick, heartbeat_timeout, ended, create, start_stream, starts, resource_exhausted_code,
  unavailable_code, cancelled_code, deadline_exceeded_code, Event, reads, writes, cancels,
  shuts_down, ends, ticks, times_out, offers, answers, through_gate, handle, status_ok,
}

-- What is outstanding, whether the constructor is still to start the stream, whether its read may come
-- after Finish, and whether a rule was broken.
pub record Transport : Type 0 where
  pub reading : Bool
  pub writing : Bool
  pub at_worker : Bool
  pub finished : Bool
  pub gone : Bool
  pub starting : Bool
  pub excused : Bool
  pub broken : Bool

-- One read, one write and one request at the worker at a time; one Finish, with no write outstanding, and
-- nothing is started after it, except for the read of the constructor if it is excused.
pub watch : Transport → Call → Transport
watch t start_read = record t { reading = true; broken = t.broken || t.reading || t.finished }
watch t start_first_read = record t {
  reading = true;
  broken = t.broken || t.reading || (t.finished && not t.excused);
}
watch t (start_write message) = record t {
  writing = true;
  broken = t.broken || t.writing || t.finished;
}
watch t (finish status) = record t { finished = true; broken = t.broken || t.writing || t.finished }
watch t (submit id generation) = record t {
  at_worker = true;
  broken = t.broken || t.at_worker || t.finished;
}
watch t (submit_cleanup id generation) = t
watch t (detach id generation) = t
watch t release_stream = t
watch t stream_registered = t

pub watch_all : Transport → List Call → Transport
unfolding watch
watch_all t [] = t
watch_all t (call ∷ calls) = watch_all (watch t call) calls

-- An operation ends only if it was started, and `OnDone` comes last. Until the constructor is through,
-- gRPC calls nothing of the reactor and the registry does not know it: only the shutdown callback and the
-- tick of the registered streams can come.
abbrev pub feasible : Transport → Event → Bool
feasible t starts = t.starting
feasible t (reads ok accepted) = not t.starting && t.reading
feasible t (writes ok) = not t.starting && t.writing
feasible t (answers answer) = not t.starting && t.at_worker
feasible t ends = not t.starting && t.finished && not t.reading && not t.writing && not t.gone
feasible t shuts_down = true
feasible t (ticks now) = true
feasible t _ = not t.starting

abbrev pub delivered : Transport → Event → Transport
delivered t starts = record t { starting = false }
delivered t (reads ok accepted) = record t { reading = false }
delivered t (writes ok) = record t { writing = false }
delivered t (answers answer) = record t { at_worker = false }
delivered t ends = record t { gone = true }
delivered t _ = t

-- No shutdown and no tick comes before the constructor is through.
abbrev pub is_prompt : List Event → Bool
is_prompt (starts ∷ events) = true
is_prompt (shuts_down ∷ events) = false
is_prompt (ticks now ∷ events) = false
is_prompt (event ∷ events) = is_prompt events
is_prompt [] = true

pub step : Transport × Reactor → Event → Transport × Reactor
unfolding watch_all
step (t, r) event =
    if feasible t event
    then (watch_all (delivered t event) (handle r event).1, (handle r event).0)
    else (t, r)

pub run : Transport × Reactor → List Event → Transport × Reactor
unfolding step
run x [] = x
run x (event ∷ events) = run (step x event) events

pub begin : Bool → Bool → Does → Transport × Reactor
unfolding watch_all
begin starting excused does = (
  watch_all
      (record {
        reading = false;
        writing = false;
        at_worker = false;
        finished = false;
        gone = false;
        starting = starting;
        excused = excused;
        broken = false;
      })
      does.1,
  does.0,
)
