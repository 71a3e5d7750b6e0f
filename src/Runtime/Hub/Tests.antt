-- ===== src/Runtime/Hub/Tests.antt =====
-- Hubs and registries at concrete histories.
use linuxcnc_ctrl.Prelude.{◌≡◌, refl, none, some, List, [], ◌∷◌, arith}
use linuxcnc_ctrl.Runtime.Hub.Delivery.{calls_of, delivery}
use linuxcnc_ctrl.Runtime.Hub.Shutdown.{calls_in, shutdown_calls}
use linuxcnc_ctrl.Runtime.Hub.{
  Hub, empty_hub, subscribe, reset, publish, close, emplace, erase, contains, Step, subscribes,
  resets, step, run, subscriber_count, empty_registry, register_callback, RegistryStep, registers,
  unregisters, shuts_down, active_count,
}

abbrev busy : Hub
busy = (subscribe empty_hub (some 40)).0

abbrev traffic : List Step
traffic = subscribes (some 42) ∷ resets 1 ∷ subscribes none ∷ []

delivery_example :
    calls_of (subscribe busy (some 41)).1 (run (subscribe busy (some 41)).0 traffic) ≡ 1
unfolding subscribe emplace contains empty_hub
delivery_example = delivery busy 41 traffic refl (omega arith) (omega arith)

two_left : subscriber_count (run (subscribe busy (some 41)).0 traffic) ≡ 2
unfolding subscriber_count run step subscribe reset emplace contains erase empty_hub
two_left = refl

nobody_after_close : publish (close busy) ≡ []
unfolding publish close
nobody_after_close = refl

abbrev ending : List RegistryStep
ending = registers (some 8) ∷ unregisters 2 ∷ shuts_down ∷ shuts_down ∷ []

shutdown_calls_example :
    calls_in
      (register_callback empty_registry (some 7)).1
      (register_callback empty_registry (some 7)).0
      ending
    ≡ 1
unfolding register_callback emplace contains empty_registry
shutdown_calls_example = shutdown_calls empty_registry 7 ending refl tt (omega arith) (omega arith)

one_active : active_count (register_callback empty_registry (some 7)).0 ≡ 1
unfolding active_count register_callback emplace contains empty_registry
one_active = refl
