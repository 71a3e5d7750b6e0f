-- ===== src/Hal/Stream/Contract/Rules.antt =====
-- Every event of a stream keeps the rules, also while the constructor runs.
use linuxcnc_ctrl.Hal.Stream.Contract.Handlers.{
  consumed-Holds, write_done-Holds, tick-Holds, heartbeat_timeout-Holds, through_gate-Holds,
  start_stream-Holds, ended-Holds,
}
use linuxcnc_ctrl.Prelude.{
  ℕ, ◌≡◌, refl, ◌∙◌, Bool, true, false, not, ◌&&◌, ◌||◌, List, [], ◌∷◌, if_cases, arith,
}
use linuxcnc_ctrl.Grpc.DeferredFinish.{initial, request_finish as defer_finish, take_finish_status}
use linuxcnc_ctrl.Hal.Outbox.{empty_outbox}
use linuxcnc_ctrl.Runtime.Gate.{is_open}
use linuxcnc_ctrl.Hal.Stream.{
  Reactor, Call, start_read, start_first_read, start_write, finish, submit, submit_cleanup, detach,
  release_stream, stream_registered, starts, finish_with, finish_if_ready, request_finish,
  detach_transport, shut_down, create, unavailable_code, cancelled_code, Event, reads, writes,
  cancels, shuts_down, ends, ticks, times_out, offers, answers, through_gate, handle,
}
use linuxcnc_ctrl.Hal.Stream.Contract.{
  Transport, watch, watch_all, feasible, delivered, is_prompt, step, run, begin,
}
use linuxcnc_ctrl.Hal.Stream.Contract.Turns.{
  Inv, Holds, offer_delta-Holds, weaken, give_up-Holds, read_done-Holds,
}

-- The read of the constructor does not come after Finish, or is excused.
abbrev on_time : Transport → List Event → Bool
on_time t events = not t.starting || t.excused || (not t.finished && is_prompt events)

handle-Holds :
    (t : Transport) (r : Reactor) (event : Event) (events : List Event)
    → feasible t event ≡ true
    → on_time t (event ∷ events) ≡ true
    → Inv 0 t r
    → Holds 0 (delivered t event) (handle r event)
unfolding handle through_gate
handle-Holds t r starts events can timely v =
    start_stream-Holds t r can (ground (arith, can, timely)) v
handle-Holds t r (reads ok accepted) events can timely v =
    let v' : Inv 1 (record t { reading = false }) r = ground (arith, can, v) in
    through_gate-Holds (record t { reading = false }) r _
      (weaken (record t { reading = false }) r v')
      λ o. read_done-Holds (record t { reading = false }) r ok accepted o v'
handle-Holds t r (writes ok) events can timely v =
    if_cases (Holds 0 (record t { writing = false })) (is_open r.gate) _ _
      (λ o. write_done-Holds t r ok o (ground (arith, can)) v)
      (λ closed. absurd (ground (arith, closed, can, v)))
handle-Holds t r (answers answer) events can timely v =
    consumed-Holds (record t { at_worker = false }) r answer (ground (arith, can, v))
handle-Holds t r ends events can timely v =
    ended-Holds (record t { gone = true }) r (ground (arith, can)) (ground (arith, v))
handle-Holds t r cancels events can timely v =
    through_gate-Holds t r _ v (λ o. give_up-Holds 0 t r cancelled_code o v)
handle-Holds t r shuts_down events can timely v =
    through_gate-Holds t r _ v (λ o. give_up-Holds 0 t r unavailable_code o v)
handle-Holds t r (ticks now) events can timely v =
    through_gate-Holds t r _ v (λ o. tick-Holds t r now o v)
handle-Holds t r (times_out generation) events can timely v =
    through_gate-Holds t r _ v (λ o. heartbeat_timeout-Holds t r generation o v)
handle-Holds t r (offers message) events can timely v =
    through_gate-Holds t r _ v (λ o. offer_delta-Holds t r message o v)

-- A stream that begins.
begin-Inv :
    (now : ℕ) (admitted registered excused : Bool)
    → let x = begin registered excused (create now admitted registered) in Inv 0 x.0 x.1
unfolding begin create shut_down request_finish detach_transport finish_if_ready finish_with
    defer_finish take_finish_status watch_all watch empty_outbox initial
begin-Inv now admitted false excused = ground arith
begin-Inv now admitted true excused = ground arith

begin-on_time :
    (now : ℕ) (admitted registered : Bool) (events : List Event)
    → let x = begin registered (not (is_prompt events)) (create now admitted registered) in
      on_time x.0 events ≡ true
unfolding begin create shut_down request_finish detach_transport finish_if_ready finish_with
    defer_finish take_finish_status watch_all watch empty_outbox initial
begin-on_time now admitted false events = ground arith
begin-on_time now admitted true events = ground arith

-- No call ends the constructor or takes the excuse back.
watch-kept :
    (t : Transport) (call : Call)
    → ((watch t call).starting ≡ t.starting) × ((watch t call).excused ≡ t.excused)
unfolding watch
watch-kept t start_read = (refl, refl)
watch-kept t start_first_read = (refl, refl)
watch-kept t (start_write message) = (refl, refl)
watch-kept t (finish status) = (refl, refl)
watch-kept t (submit id generation) = (refl, refl)
watch-kept t (submit_cleanup id generation) = (refl, refl)
watch-kept t (detach id generation) = (refl, refl)
watch-kept t release_stream = (refl, refl)
watch-kept t stream_registered = (refl, refl)

watch_all-kept :
    (t : Transport) (calls : List Call)
    → ((watch_all t calls).starting ≡ t.starting) × ((watch_all t calls).excused ≡ t.excused)
unfolding watch_all watch
watch_all-kept t [] = (refl, refl)
watch_all-kept t (call ∷ calls) =
    let rest = watch_all-kept (watch t call) calls in
    let here = watch-kept t call in (rest.0 ∙ here.0, rest.1 ∙ here.1)

settled :
    (t : Transport) (calls : List Call) (events : List Event)
    → (not t.starting || t.excused) ≡ true
    → on_time (watch_all t calls) events ≡ true
settled t calls events h = ground (arith, h, watch_all-kept t calls)

delivered-on_time :
    (t : Transport) (event : Event) (events : List Event) (calls : List Call)
    → feasible t event ≡ true
    → on_time t (event ∷ events) ≡ true
    → on_time (watch_all (delivered t event) calls) events ≡ true
delivered-on_time t starts events calls can h = settled _ calls events refl
delivered-on_time t (reads ok accepted) events calls can h =
    settled _ calls events (ground (arith, can))
delivered-on_time t (writes ok) events calls can h = settled _ calls events (ground (arith, can))
delivered-on_time t (answers answer) events calls can h =
    settled _ calls events (ground (arith, can))
delivered-on_time t ends events calls can h = settled _ calls events (ground (arith, can))
delivered-on_time t cancels events calls can h = settled _ calls events (ground (arith, can))
delivered-on_time t shuts_down events calls can h = settled _ calls events (ground (arith, h))
delivered-on_time t (ticks now) events calls can h = settled _ calls events (ground (arith, h))
delivered-on_time t (times_out generation) events calls can h =
    settled _ calls events (ground (arith, can))
delivered-on_time t (offers message) events calls can h =
    settled _ calls events (ground (arith, can))

missed-on_time :
    (t : Transport) (event : Event) (events : List Event)
    → feasible t event ≡ false
    → on_time t (event ∷ events) ≡ true
    → on_time t events ≡ true
missed-on_time t starts events cannot h = ground (arith, cannot)
missed-on_time t (reads ok accepted) events cannot h = h
missed-on_time t (writes ok) events cannot h = h
missed-on_time t (answers answer) events cannot h = h
missed-on_time t ends events cannot h = h
missed-on_time t cancels events cannot h = h
missed-on_time t shuts_down events cannot h = ground (arith, cannot)
missed-on_time t (ticks now) events cannot h = ground (arith, cannot)
missed-on_time t (times_out generation) events cannot h = h
missed-on_time t (offers message) events cannot h = h

step-on_time :
    (x : Transport × Reactor) (event : Event) (events : List Event)
    → on_time x.0 (event ∷ events) ≡ true
    → on_time (step x event).0 events ≡ true
unfolding step
step-on_time x event events h =
    if_cases (λ (y : Transport × Reactor). on_time y.0 events ≡ true) (feasible x.0 event) _ _
      (λ can. delivered-on_time x.0 event events (handle x.1 event).1 can h)
      (λ cannot. missed-on_time x.0 event events cannot h)

step-Inv :
    (x : Transport × Reactor) (event : Event) (events : List Event)
    → on_time x.0 (event ∷ events) ≡ true
    → Inv 0 x.0 x.1
    → Inv 0 (step x event).0 (step x event).1
unfolding step
step-Inv x event events timely v =
    if_cases (λ (y : Transport × Reactor). Inv 0 y.0 y.1) (feasible x.0 event) _ _
      (λ can. handle-Holds x.0 x.1 event events can timely v) (λ cannot. v)

run-Inv :
    (events : List Event) (x : Transport × Reactor)
    → on_time x.0 events ≡ true
    → Inv 0 x.0 x.1
    → Inv 0 (run x events).0 (run x events).1
unfolding run
run-Inv [] x timely v = v
run-Inv (event ∷ events) x timely v =
    run-Inv events (step x event) (step-on_time x event events timely)
      (step-Inv x event events timely v)

-- However the stream of a remote component begins, and whatever order of reads, writes, answers of the
-- worker, deltas, ticks, timeouts, cancellation and shutdown it meets, also while its constructor still
-- runs, the reactor keeps the rules of gRPC: it never has two reads or two writes outstanding, it calls
-- Finish at most once and with no write outstanding, and it starts nothing after it, with one exception. The
-- constructor's own read may come after Finish, but only in a history in which a shutdown or a tick comes
-- before the constructor is through. The reactor has at most one request at the worker, so its messages
-- are consumed in their order.
pub run-create_sound :
    (now : ℕ) (admitted registered : Bool) (events : List Event)
    → let excused = not (is_prompt events) in
      (run (begin registered excused (create now admitted registered)) events).0.broken ≡ false
run-create_sound now admitted registered events =
    let excused = not (is_prompt events) in
    (run-Inv events (begin registered excused (create now admitted registered))
      (begin-on_time now admitted registered events)
      (begin-Inv now admitted registered excused)).sound
