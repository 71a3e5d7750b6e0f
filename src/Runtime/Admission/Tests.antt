-- ===== src/Runtime/Admission/Tests.antt =====
-- Two threads that race for one slot.
use linuxcnc_ctrl.Prelude.{◌≤◌, ◌≡◌, refl, List, [], ◌∷◌, count_if, arith}
use linuxcnc_ctrl.Runtime.Admission.Bounds.{Inv, holds, all_outside, run-bounded, run-stopped}
use linuxcnc_ctrl.Runtime.Admission.{
  Counter, goes, Step, moves, stops, step, run, init, move_at, advance, exchange,
}

abbrev race : List Step
race =
    moves 0 goes
    ∷ moves 1 goes
    ∷ moves 0 goes
    ∷ moves 1 goes
    ∷ moves 0 goes
    ∷ moves 1 goes
    ∷ moves 0 goes
    ∷ moves 1 goes
    ∷ []

abbrev raced : Counter
raced = run (init 1 (all_outside 2)) race

run-bounded_example : Inv 1 raced × (count_if holds raced.threads ≤ 1)
run-bounded_example = run-bounded 1 2 race (omega arith)

one_wins : count_if holds raced.threads ≡ 1
unfolding run step move_at advance exchange init
one_wins = refl

abbrev stopped : Counter
stopped = run raced (stops ∷ [])

run-stopped_example : count_if holds (run stopped race).threads ≤ count_if holds stopped.threads
unfolding run step move_at advance exchange init
run-stopped_example = run-stopped stopped race refl
