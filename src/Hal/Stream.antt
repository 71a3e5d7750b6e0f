-- ===== src/Hal/Stream.antt =====
-- RemoteComponentRpc::Impl::Reactor of native/server/src/hal/grpc/remote_component_rpc.cc: the stream of
-- one remote component, over its outbox, its deferred finish and its lifetime gate. The weak pointer of a
-- callback and the gate behind it are the state of the gate; the registry's answer to a request comes as an
-- event of its own, since the worker runs it. A status is its code, and 0 is OK.
pub mod Contract
use linuxcnc_ctrl.Prelude.{
  ℕ, ◌+◌, String, str_eq, Bool, true, false, not, ◌&&◌, ◌||◌, Option, none, some, List, [], ◌∷◌,
  ◌++◌, if◌then◌else◌, leb, ◌==◌, is_empty,
}
use linuxcnc_ctrl.Grpc.DeferredFinish.{
  DeferredFinish, initial, try_start_write, complete_write, request_finish as defer_finish,
  take_finish_status, termination_requested,
}
use linuxcnc_ctrl.Hal.Outbox.{
  Message, Entry, Outbox, empty_outbox, push_response, push_delta, pop_front,
}
use linuxcnc_ctrl.Runtime.Gate.{State, open_, finishing, done, is_open}

abbrev pub status_ok : ℕ
status_ok = 0

abbrev cancelled_code : ℕ
cancelled_code = 1

abbrev deadline_exceeded_code : ℕ
deadline_exceeded_code = 4

abbrev resource_exhausted_code : ℕ
resource_exhausted_code = 8

abbrev unavailable_code : ℕ
unavailable_code = 14

pub record Reactor : Type 0 where
  pub active_response : Bool
  pub resume_read_when_idle : Bool
  pub received_first_message : Bool
  pub finish_after_responses : Bool
  pub detach_requested : Bool
  pub first_message_deadline : ℕ
  pub proxy_id : String
  pub generation : ℕ
  pub outbox : Outbox
  pub write_finish : DeferredFinish
  pub gate : State
  pub stream_admitted : Bool

-- What the reactor asks of gRPC, of the worker, of the registry and of the stream admission.
pub data Call : Type 0 where
  start_read : Call
  -- The `StartRead` of the constructor.
  start_first_read : Call
  start_write : Message → Call
  finish : ℕ → Call
  -- The attachment that `consume` is called with.
  submit : String → ℕ → Call
  submit_cleanup detach : String → ℕ → Call
  release_stream stream_registered : Call

-- What `consume` answered.
pub record Answer : Type 0 where
  pub status : ℕ
  pub response : Option Message
  pub proxy_id : String
  pub generation : ℕ
  pub close : Bool

abbrev pub Does : Type 0
Does = Reactor × List Call

abbrev pub quiet : Reactor → Does
quiet r = (r, [])

abbrev pub then_ : Does → (Reactor → Does) → Does
then_ does f = let next = f does.0 in (next.0, does.1 ++ next.1)

finish_with : Reactor → DeferredFinish × Option ℕ → Does × Bool
finish_with r (w, none) = ((record r { write_finish = w }, []), false)
finish_with r (w, some status) = (
  (
    record r { write_finish = w; gate = if is_open r.gate then finishing else r.gate },
    if is_open r.gate then finish status ∷ [] else [],
  ),
  true,
)

pub finish_if_ready : Reactor → Does × Bool
unfolding finish_with
finish_if_ready r = finish_with r (take_finish_status r.write_finish)

pub request_finish : Reactor → ℕ → Does
unfolding finish_if_ready
request_finish r status =
    (finish_if_ready (record r {
      outbox = empty_outbox;
      resume_read_when_idle = false;
      write_finish = defer_finish r.write_finish status;
    })).0

pub detach_transport : Reactor → Does
detach_transport r =
    if r.detach_requested || str_eq r.proxy_id ""
    then quiet r
    else (record r { detach_requested = true }, submit_cleanup r.proxy_id r.generation ∷ [])

write_started : Reactor → Message → DeferredFinish × Bool → Does
write_started r message (w, true) = (record r { write_finish = w }, start_write message ∷ [])
write_started r message (w, false) = quiet (record r { write_finish = w })

pub start_entry : Reactor → Entry → Does
unfolding write_started
start_entry r entry =
    write_started (record r { active_response = entry.resume_read }) entry.message
      (try_start_write r.write_finish)

pub offer_delta : Reactor → Message → Does
unfolding start_entry
offer_delta r message =
    if termination_requested r.write_finish
    then quiet r
    else if r.write_finish.write_in_flight
    then quiet (record r { outbox = push_delta r.outbox message })
    else start_entry r (record { message = message; resume_read = false })

pub offer_response : Reactor → Message → Does
unfolding start_entry
offer_response r message =
    if termination_requested r.write_finish
    then quiet r
    else if r.write_finish.write_in_flight
    then quiet (record r { outbox = push_response r.outbox message })
    else start_entry r (record { message = message; resume_read = true })

-- `accepted` is the answer of the worker to `submit`.
pub read_done : Reactor → Bool → Bool → Does
unfolding detach_transport request_finish
read_done r ok accepted =
    if termination_requested r.write_finish
    then quiet r
    else if not ok
    then then_ (detach_transport r) (λ r'. request_finish r' status_ok)
    else if accepted
    then (record r { received_first_message = true }, submit r.proxy_id r.generation ∷ [])
    else request_finish (record r { received_first_message = true }) resource_exhausted_code

-- The end of `OnWriteDone`, for a write that succeeded and does not finish the stream.
next_write : Reactor → Option (Outbox × Entry) → Does
unfolding start_entry request_finish
next_write r (some (rest, entry)) = start_entry (record r { outbox = rest }) entry
next_write r none =
    if r.finish_after_responses
    then request_finish r status_ok
    else if r.resume_read_when_idle
    then (record r { resume_read_when_idle = false }, start_read ∷ [])
    else quiet r

abbrev resumed : Reactor → Reactor
resumed r = if r.active_response then record r { resume_read_when_idle = true } else r

after_write : Reactor → Does
unfolding next_write
after_write r = next_write (resumed r) (pop_front (resumed r).outbox)

pub write_done : Reactor → Bool → Does
unfolding finish_if_ready after_write
write_done r ok =
    let (does, finished) =
      finish_if_ready (record r { write_finish = complete_write r.write_finish ok }) in
    if finished || not ok then does else after_write does.0

-- The rest of a delivered answer that is OK.
respond : Reactor → Option Message → Bool → Does
unfolding offer_response request_finish
respond r (some message) close =
    let does = offer_response r message in
    if close
    then (record does.0 { detach_requested = true; finish_after_responses = true }, does.1)
    else does
respond r none close =
    if close
    then request_finish r status_ok
    else if not (termination_requested r.write_finish)
    then (r, start_read ∷ [])
    else quiet r

answered : Reactor → Answer → Does
unfolding detach_transport request_finish respond
answered r answer =
    if not (answer.status == status_ok)
    then then_ (detach_transport r) (λ r'. request_finish r' answer.status)
    else if str_eq answer.proxy_id ""
    then respond r answer.response answer.close
    else respond (record r { proxy_id = answer.proxy_id; generation = answer.generation })
        answer.response answer.close

-- What the worker does with an answer: the gate delivers it, or the attachment is given up.
pub consumed : Reactor → Answer → Does
unfolding answered
consumed r answer =
    if is_open r.gate
    then answered r answer
    else if str_eq answer.proxy_id ""
    then quiet r
    else (r, detach answer.proxy_id answer.generation ∷ [])

shut_down : Reactor → Does
unfolding detach_transport request_finish
shut_down r = then_ (detach_transport r) (λ r'. request_finish r' unavailable_code)

cancelled : Reactor → Does
unfolding detach_transport request_finish
cancelled r = then_ (detach_transport r) (λ r'. request_finish r' cancelled_code)

pub tick : Reactor → ℕ → Does
unfolding request_finish
tick r now =
    if not r.received_first_message && leb r.first_message_deadline now
    then request_finish r deadline_exceeded_code
    else quiet r

pub heartbeat_timeout : Reactor → ℕ → Does
unfolding request_finish
heartbeat_timeout r generation =
    if r.generation == generation
    then request_finish (record r { detach_requested = true }) deadline_exceeded_code
    else quiet r

-- `OnDone`.
pub ended : Reactor → Does
unfolding detach_transport
ended r =
    let does = detach_transport (record r { gate = done }) in
    (does.0, does.1 ++ (if r.stream_admitted then release_stream ∷ [] else []))

-- The constructor up to the answer of the callback registry. That answer and the one of the stream
-- admission are arguments. From here on a shutdown can come in.
pub create : ℕ → Bool → Bool → Does
unfolding shut_down
create now admitted registered =
    let r : Reactor = record {
      active_response = false;
      resume_read_when_idle = false;
      received_first_message = false;
      finish_after_responses = false;
      detach_requested = false;
      first_message_deadline = now + 5000;
      proxy_id = "";
      generation = 0;
      outbox = empty_outbox;
      write_finish = initial;
      gate = open_;
      stream_admitted = admitted;
    } in
    if not registered then shut_down r else quiet r

-- The rest of the constructor. It does not go through the gate.
pub start_stream : Reactor → Does
unfolding request_finish
start_stream r =
    if not r.stream_admitted
    then request_finish r resource_exhausted_code
    else (r, stream_registered ∷ start_first_read ∷ [])

pub data Event : Type 0 where
  -- The constructor of a registered stream goes on.
  starts : Event
  -- `OnReadDone`, with the worker's answer to what is submitted.
  reads : Bool → Bool → Event
  writes : Bool → Event
  cancels shuts_down ends : Event
  ticks times_out : ℕ → Event
  offers : Message → Event
  answers : Answer → Event

-- All but the constructor, `OnDone` and the worker's answer go through `invoke` of the gate.
pub through_gate : Reactor → Does → Does
through_gate r does = if is_open r.gate then does else quiet r

pub handle : Reactor → Event → Does
unfolding through_gate read_done write_done cancelled shut_down tick heartbeat_timeout offer_delta
    consumed ended start_stream
handle r starts = start_stream r
handle r (reads ok accepted) = through_gate r (read_done r ok accepted)
handle r (writes ok) = through_gate r (write_done r ok)
handle r cancels = through_gate r (cancelled r)
handle r shuts_down = through_gate r (shut_down r)
handle r (ticks now) = through_gate r (tick r now)
handle r (times_out generation) = through_gate r (heartbeat_timeout r generation)
handle r (offers message) = through_gate r (offer_delta r message)
handle r (answers answer) = consumed r answer
handle r ends = ended r

-- `Impl::streams`: the weak pointers to the gates of the streams. One that expired is none.
pub register_stream : List (Option Reactor) → Reactor → List (Option Reactor)
register_stream streams r = streams ++ some r ∷ []

-- The streams that are left, each after its tick, with its calls.
pub tick_streams : List (Option Reactor) → ℕ → List (Option Reactor) × List (List Call)
unfolding handle
tick_streams [] now = ([], [])
tick_streams (none ∷ streams) now = tick_streams streams now
tick_streams (some r ∷ streams) now =
    let (rest, calls) = tick_streams streams now in
    let (r', mine) = handle r (ticks now) in (some r' ∷ rest, mine ∷ calls)
