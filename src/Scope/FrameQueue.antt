-- ===== src/Scope/FrameQueue.antt =====
-- ScopeFrameQueue of native/server/src/scope/controller.cc: one frame in flight, one pending, and the
-- count of the frames that a slow consumer has missed. A frame's kind and payload are a number. Each
-- function is one critical section; the listener and the condition variable only wake others up, so
-- `wait_next` is the section at its end. Counters are std::uint64_t and wrap.
pub mod Numbering
pub mod Ownership
mod Tests
use linuxcnc_ctrl.Prelude.{
  ℕ, ◌+◌, String, str_eq, Bool, true, false, not, ◌&&◌, ◌||◌, Option, none, some, List, [], ◌∷◌,
  ◌++◌, if◌then◌else◌, is_some, u64, ◌==◌,
}

pub record Frame : Type 0 where
  pub generation : ℕ
  pub skipped_frames : ℕ
  pub payload : ℕ

pub record FrameQueue : Type 0 where
  pub owner : String
  pub in_flight : Option Frame
  pub pending : Option Frame
  pub delivered : Bool
  pub next_generation : ℕ
  pub pending_skipped_frames : ℕ
  pub skipped_frames : ℕ

pub empty_queue : FrameQueue
empty_queue = record {
  owner = "";
  in_flight = none;
  pending = none;
  delivered = false;
  next_generation = 1;
  pending_skipped_frames = 0;
  skipped_frames = 0;
}

pub acquire : FrameQueue → String → FrameQueue × Bool
acquire q owner =
    if str_eq owner ""
    then (q, false)
    else if not (str_eq q.owner "") && not (str_eq q.owner owner)
    then (q, false)
    else (record q { owner = owner }, true)

pub clear : FrameQueue → String → FrameQueue
clear q owner = if not (str_eq q.owner owner) then q else record q {
  in_flight = none;
  pending = none;
  delivered = false;
  pending_skipped_frames = 0;
}

pub release : FrameQueue → String → FrameQueue
release q owner = if not (str_eq q.owner owner) then q else record q {
  owner = "";
  in_flight = none;
  pending = none;
  delivered = false;
  pending_skipped_frames = 0;
  skipped_frames = 0;
}

pub acquired : FrameQueue → Bool
acquired q = not (str_eq q.owner "")

-- Where `publish` puts a numbered frame.
admit : FrameQueue → Frame → FrameQueue
admit q frame =
    if is_some q.in_flight
    then record q {
      pending_skipped_frames =
          if is_some q.pending
          then u64 (q.pending_skipped_frames + 1)
          else q.pending_skipped_frames;
      pending = some frame;
    }
    else record q { delivered = false; in_flight = some frame }

pub publish : FrameQueue → Frame → FrameQueue × Bool
unfolding admit
publish q frame = if str_eq q.owner "" then (q, false) else (
  admit (record q { next_generation = u64 (q.next_generation + 1) })
      (record frame { generation = q.next_generation; skipped_frames = 0 }),
  true,
)

pub next : FrameQueue → String → FrameQueue × Option Frame
next q owner =
    if not (str_eq q.owner owner) || not (is_some q.in_flight) || q.delivered
    then (q, none)
    else (record q { delivered = true }, q.in_flight)

-- The section after the wait.
pub wait_next : FrameQueue → String → FrameQueue × Option Frame
wait_next q owner =
    if not (str_eq q.owner owner) || not (is_some q.in_flight) || q.delivered
    then (q, none)
    else (record q { delivered = true }, q.in_flight)

generation_is : Option Frame → ℕ → Bool
generation_is none generation = false
generation_is (some f) generation = f.generation == generation

-- `acknowledge` below its guard: the pending frame, if there is one, is delivered at once.
advance : FrameQueue → Option Frame → FrameQueue × Option Frame
advance q none = (record q { in_flight = none; delivered = false }, none)
advance q (some p) =
    let frame = record p { skipped_frames = q.pending_skipped_frames } in
    (
      record q {
        skipped_frames = u64 (q.skipped_frames + q.pending_skipped_frames);
        pending_skipped_frames = 0;
        in_flight = some frame;
        pending = none;
        delivered = true;
      },
      some frame,
    )

pub acknowledge : FrameQueue → String → ℕ → FrameQueue × Option Frame
unfolding generation_is advance
acknowledge q owner generation =
    if not (str_eq q.owner owner) || not (generation_is q.in_flight generation)
    then (q, none)
    else advance q q.pending

pub data Step : Type 0 where
  acquires : String → Step
  releases : String → Step
  clears : String → Step
  publishes : Frame → Step
  takes : String → Step
  waits : String → Step
  acknowledges : String → ℕ → Step

-- A step, and the frame that it hands to the consumer.
pub step : FrameQueue → Step → FrameQueue × Option Frame
step q (acquires owner) = ((acquire q owner).0, none)
step q (releases owner) = (release q owner, none)
step q (clears owner) = (clear q owner, none)
step q (publishes frame) = ((publish q frame).0, none)
step q (takes owner) = next q owner
step q (waits owner) = wait_next q owner
step q (acknowledges owner generation) = acknowledge q owner generation

abbrev pub handed : Option Frame → List Frame
handed none = []
handed (some f) = f ∷ []

pub run : FrameQueue → List Step → FrameQueue × List Frame
run q [] = (q, [])
run q (s ∷ ss) =
    let (q₁, now) = step q s in let (q₂, later) = run q₁ ss in (q₂, handed now ++ later)
