-- ===== src/Runtime/Executor/Tests.antt =====
-- The executor at concrete histories.
use linuxcnc_ctrl.Prelude.{◌≡◌, refl, true, false, some, List, [], ◌∷◌, arith}
use linuxcnc_ctrl.Runtime.Executor.Reserve.{Inv, run-create-counted, cleanup_admitted}
use linuxcnc_ctrl.Runtime.Executor.Drain.{submit-refused, Drains, worker-Drains}
use linuxcnc_ctrl.Runtime.Executor.{
  waiting, Executor, create, push, submit_impl, submit, submit_cleanup, stop_admission, shutdown,
  take_from, advance, move_at, work, Step, submits, submits_cleanup, stops_admission, shuts_down,
  works, step, run, queued, accepts, is_drained,
}

-- Two workers, three places, one of them kept for cleanup.
abbrev made : Executor
made = record {
  capacity = 3;
  cleanup_reserve = 1;
  queue = [];
  ordinary_queued = 0;
  active = 0;
  accepting = true;
  stopping = false;
  drain = true;
  workers = waiting ∷ waiting ∷ [];
}

abbrev load : List Step
load =
    submits (some 1)
    ∷ submits (some 2)
    ∷ submits (some 3)
    ∷ works 1
    ∷ submits (some 4)
    ∷ stops_admission
    ∷ []

abbrev loaded : Executor
loaded = run made load

loaded-Inv : Inv loaded
unfolding create
loaded-Inv = run-create-counted 2 3 1 made load (omega arith) (omega arith) refl

run-create-counted_example : Inv loaded
unfolding create
run-create-counted_example = run-create-counted 2 3 1 made load (omega arith) (omega arith) refl

cleanup_admitted_example : (submit_cleanup loaded (some 9)).1 ≡ true
unfolding run step submit submit_impl push work move_at advance take_from stop_admission
cleanup_admitted_example = cleanup_admitted loaded 9 loaded-Inv refl (omega arith)

submit-refused_example :
    submit (run (stop_admission made) load) (some 5) ≡ (run (stop_admission made) load, false)
submit-refused_example = submit-refused made load (some 5)

abbrev closing : Executor
closing = run made (submits (some 1) ∷ submits_cleanup (some 2) ∷ shuts_down true ∷ [])

worker-Drains_example : Drains 5 (waiting ∷ []) [] closing
unfolding run step submit submit_cleanup submit_impl push shutdown
worker-Drains_example = worker-Drains closing (waiting ∷ []) [] refl refl

two_wait : queued loaded ≡ 2
unfolding queued run step submit submit_impl push work move_at advance take_from stop_admission
two_wait = refl

not_accepting : accepts loaded ≡ false
unfolding accepts run step submit submit_impl push work move_at advance take_from stop_admission
not_accepting = refl

not_drained : is_drained loaded ≡ false
unfolding is_drained run step submit submit_impl push work move_at advance take_from stop_admission
not_drained = refl
