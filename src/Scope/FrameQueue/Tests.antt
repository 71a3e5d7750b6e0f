-- ===== src/Scope/FrameQueue/Tests.antt =====
-- A slow consumer that misses two frames.
use linuxcnc_ctrl.Prelude.{ℕ, ◌≡◌, refl, ◌+◌, true, List, [], ◌∷◌, length, arith}
use linuxcnc_ctrl.Scope.FrameQueue.Numbering.{Ascending, run-Ascending, acknowledge_gap}
use linuxcnc_ctrl.Scope.FrameQueue.Ownership.{without_strangers, run-without_strangers}
use linuxcnc_ctrl.Scope.FrameQueue.{
  Frame, FrameQueue, empty_queue, acquire, admit, publish, next, generation_is, advance,
  acknowledge, acquired, Step, acquires, publishes, takes, releases, acknowledges, step, run,
}

abbrev frame : ℕ → Frame
frame n = record { generation = 0; skipped_frames = 0; payload = n }

abbrev slow : List Step
slow =
    acquires "ui"
    ∷ publishes (frame 10)
    ∷ takes "ui"
    ∷ publishes (frame 11)
    ∷ publishes (frame 12)
    ∷ publishes (frame 13)
    ∷ []

abbrev behind : FrameQueue
behind = (run empty_queue slow).0

acknowledge_gap_example : (4 ≡ 1 + 1 + 2) × (true ≡ true)
unfolding run step acquire publish admit next acknowledge generation_is advance empty_queue
acknowledge_gap_example = acknowledge_gap slow "ui" 1 (omega arith) refl

run-Ascending_example : Ascending 1 (run empty_queue slow).1
run-Ascending_example = run-Ascending slow (omega arith)

owned : acquired behind ≡ true
unfolding acquired run step acquire publish admit next empty_queue
owned = refl

abbrev meddled : List Step
meddled =
    takes "plc"
    ∷ releases "plc"
    ∷ acknowledges "ui" 1
    ∷ acquires "plc"
    ∷ releases "ui"
    ∷ acquires "plc"
    ∷ []

run-without_strangers_example : run behind meddled ≡ run behind (without_strangers "ui" meddled)
unfolding run step acquire publish admit next empty_queue
run-without_strangers_example = run-without_strangers behind meddled refl

only_two : length (without_strangers "ui" meddled) ≡ 3
only_two = refl
