-- ===== src/Hal/Stream/Contract/Tests.antt =====
-- A concrete stream: it attaches, is cancelled while its answer is written, and ends.
use linuxcnc_ctrl.Prelude.{◌≡◌, refl, not, true, false, false, some, List, [], ◌∷◌}
use linuxcnc_ctrl.Hal.Outbox.{other, empty_outbox}
use linuxcnc_ctrl.Grpc.DeferredFinish.{take_finish_status, request_finish as defer_finish, initial}
use linuxcnc_ctrl.Hal.Stream.{
  Answer, create, Event, starts, shuts_down, handle, through_gate, shut_down, start_stream,
  request_finish, detach_transport, finish_if_ready, finish_with, reads, writes, cancels, ends,
  answers,
}
use linuxcnc_ctrl.Hal.Stream.Contract.{run, begin, is_prompt, step, watch_all, watch}
use linuxcnc_ctrl.Hal.Stream.Contract.Rules.{run-create_sound}

abbrev attachment : Answer
attachment = record {
  status = 0;
  response = some (other 1);
  proxy_id = "a";
  generation = 1;
  close = false;
}

abbrev events : List Event
events = starts ∷ reads true true ∷ answers attachment ∷ cancels ∷ writes true ∷ ends ∷ []

run-create_sound_example :
    (run (begin true (not (is_prompt events)) (create 0 true true)) events).0.broken ≡ false
run-create_sound_example = run-create_sound 0 true true events

-- A shutdown while the constructor runs: its read comes after Finish.
late_read : (run (begin true false (create 0 true true)) (shuts_down ∷ starts ∷ [])).0.broken ≡ true
unfolding run step begin create watch_all watch handle through_gate shut_down start_stream
    request_finish detach_transport finish_if_ready finish_with empty_outbox take_finish_status
    defer_finish initial
late_read = refl
