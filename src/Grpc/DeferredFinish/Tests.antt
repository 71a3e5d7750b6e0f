-- ===== src/Grpc/DeferredFinish/Tests.antt =====
-- A reactor whose write fails after a finish was asked for.
use linuxcnc_ctrl.Prelude.{◌≡◌, refl, true, false, some, List, [], ◌∷◌}
use linuxcnc_ctrl.Grpc.DeferredFinish.{
  DeferredFinish, initial, try_start_write, complete_write, request_finish, take_finish_status,
  termination_requested, Step, starts_write, completes_write, requests_finish, takes_status,
  start_write, finish, step, run, EndsWith, run-EndsWith, take_finish_status-quiet,
}

abbrev stream : List Step
stream =
    starts_write
    ∷ requests_finish 14
    ∷ takes_status
    ∷ completes_write false
    ∷ starts_write
    ∷ takes_status
    ∷ takes_status
    ∷ []

run-EndsWith_example : EndsWith (some 14) (run initial stream).1
run-EndsWith_example = run-EndsWith stream

one_finish : (run initial stream).1 ≡ start_write ∷ finish 14 ∷ []
unfolding run step try_start_write complete_write request_finish take_finish_status initial
one_finish = refl

abbrev asked : DeferredFinish
asked = request_finish initial 14

take_finish_status-quiet_example :
    (asked.write_in_flight ≡ false) × ((run (take_finish_status asked).0 stream).1 ≡ [])
unfolding request_finish initial take_finish_status
take_finish_status-quiet_example = take_finish_status-quiet asked 14 stream refl

asked_to_end : termination_requested asked ≡ true
unfolding termination_requested request_finish initial
asked_to_end = refl
