-- ===== src/Hal/Adapter/Operations/Tests.antt =====
-- The adapter over a HAL library that rejects the pin "bad".
use linuxcnc_ctrl.Prelude.{
  ◌+◌, ◌≡◌, ℤ, pos, negsuc, str_eq, false, some, List, [], ◌∷◌, if◌then◌else◌, ltb,
}
use linuxcnc_ctrl.Hal.Values.{HalType, Value, out}
use linuxcnc_ctrl.Hal.Adapter.{HalLibrary, Handle, create}
use linuxcnc_ctrl.Hal.Adapter.Operations.{Op, opens, adds_pin, closes, run}
use linuxcnc_ctrl.Hal.Adapter.Operations.Partition.{times_free, times_used}
use linuxcnc_ctrl.Hal.Adapter.Operations.Slots.{run-create-slots}

abbrev library : HalLibrary ℤ
library = record {
  Lib = Unit {0};
  name_length = 47;
  hal_init = λ lib name. (lib, pos 7);
  hal_exit = λ lib id. lib;
  hal_ready = λ lib id. (lib, pos 0);
  hal_unready = λ lib id. (lib, pos 0);
  hal_pin_new = λ lib name type direction slot id.
      (lib, if str_eq name "probe.bad" then negsuc 21 else pos 0);
  hal_param_new = λ lib name type direction slot id. (lib, pos 0);
  location = λ lib is_pin slot. some slot;
  load = λ lib type location. Value.bit false;
  store = λ lib type location value. lib;
  clear = λ lib slot. lib;
  same_value = λ left right. false;
}

abbrev probe : Handle
probe = record { key = 0; name = "probe"; prefix = "probe" }

abbrev ops : List (Op library)
ops =
    opens "probe" ""
    ∷ adds_pin probe "speed" HalType.s32 out
    ∷ adds_pin probe "bad" HalType.bit out
    ∷ closes probe
    ∷ []

run-create-slots_example :
    let a = run library (create tt 3) ops in
    times_free 1 a.free + times_used 1 a.components ≡ (if ltb 1 a.capacity then 1 else 0)
run-create-slots_example = run-create-slots library tt 3 ops 1
