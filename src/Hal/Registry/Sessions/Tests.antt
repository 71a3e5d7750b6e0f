-- ===== src/Hal/Registry/Sessions/Tests.antt =====
-- The registry over a small HAL, which keeps what was written to each item of each component.
use linuxcnc_ctrl.Prelude.{
  ℕ, ◌+◌, ◌≤◌, ◌≡◌, refl, ◌∙◌, ℤ, pos, ◌==ℤ◌, String, str_eq, ne_of_str_eq, Bool, true, false, not,
  ◌&&◌, ◌||◌, Option, none, some, List, [], ◌∷◌, if◌then◌else◌, count_if, length, arith,
}
use linuxcnc_ctrl.Hal.Values.{HalType, Value}
use linuxcnc_ctrl.Hal.Components.{HalComponents, returned}
use linuxcnc_ctrl.Hal.Mapping.{OneOf, decode_hal_scalar, decode_value}
use linuxcnc_ctrl.Hal.Registry.{
  ItemSchema, CreateRequest, ComponentValue, ClientMessage, Config, Item, Proxy, Registry, start,
  item_at, find_item, find_proxy,
}
use linuxcnc_ctrl.Hal.Registry.Lookup.{total_items}
use linuxcnc_ctrl.Hal.Registry.Schema.{accepted, of_type, typed_value}
use linuxcnc_ctrl.Hal.Registry.Create.Budget.{is_acquired, is_released}
use linuxcnc_ctrl.Hal.Registry.Create.Changes.{Change}
use linuxcnc_ctrl.Hal.Registry.Updates.{decode_update, decode_loop, decode_values}
use linuxcnc_ctrl.Hal.Registry.Sessions.{heartbeat, on_proxy, on_attached, consume_in, consume}
use linuxcnc_ctrl.Hal.Registry.Updates.Exact.{AreUpdates, Fresh}
use linuxcnc_ctrl.Hal.Registry.Updates.Cover.{covers, decode_values-exact}
use linuxcnc_ctrl.Hal.Registry.Sessions.Changes.{consume-Change}
use linuxcnc_ctrl.Hal.Registry.Sessions.Isolation.{consume-other}
use linuxcnc_ctrl.Hal.Registry.Sampling.{message, detached, sampled, stopped, Op, sample, run}
use linuxcnc_ctrl.Hal.Registry.Sampling.Budget.{run-start-Accounted}
use linuxcnc_ctrl.Hal.Registry.Sampling.Heartbeats.{
  timeouts, lapsed_streams, attachments, kept_attachments, sample-lapsed,
}

abbrev Writes : Type 0
Writes = List (String × String × Value ℤ)

abbrev last_write : Writes → String → String → Option (Value ℤ)
last_write [] component suffix = none
last_write ((c, s, v) ∷ writes) component suffix =
    if str_eq c component && str_eq s suffix then some v else last_write writes component suffix

abbrev same : Value ℤ → Value ℤ → Bool
same (Value.s32 i) (Value.s32 j) = i ==ℤ j
same (Value.bit true) (Value.bit b) = b
same (Value.bit false) (Value.bit b) = not b
same _ _ = false

abbrev desk : HalComponents ℤ
desk = record {
  Hal = Writes;
  Component = String × String;
  name = λ c. c.0;
  prefix = λ c. c.1;
  open_component = λ hal name prefix. (hal, returned (name, prefix));
  add_pin = λ hal c suffix type direction. (hal, returned true);
  add_param = λ hal c suffix type direction. (hal, returned true);
  set_ready = λ hal c. (hal, returned tt);
  read = λ hal c suffix. last_write hal c.0 suffix;
  write = λ hal c suffix value. ((c.0, suffix, value) ∷ hal, true);
  close = λ hal c. hal;
  same_value = same;
}

abbrev config : Config
config = record {
  max_items = 8;
  heartbeat_interval = 500;
  heartbeat_timeout = 2000;
  default_sampling_period = 20;
  min_sampling_period = 5;
  max_sampling_period = 1000;
}

abbrev speed : Item ℤ
speed = record {
  suffix = "speed";
  kind = 1;
  type = HalType.s32;
  full_name = "probe.speed";
  client_writable = true;
  server_readable = false;
  disconnect_value = some (Value.s32 (pos 0));
  previous = none;
}

abbrev tripped : Item ℤ
tripped = record speed {
  suffix = "tripped";
  type = HalType.bit;
  full_name = "probe.tripped";
  client_writable = false;
  server_readable = true;
  disconnect_value = none;
}

abbrev probe : Proxy (String × String) ℤ
probe = record {
  id = "a";
  ownership_token = 7 ∷ 9 ∷ [];
  component = ("probe", "probe");
  items = speed ∷ tripped ∷ [];
  sampling_period = 20;
  next_sample = 0;
  last_heartbeat = 100;
  generation = 1;
  client_sequence = 0;
  server_sequence = 0;
  is_attached = true;
  is_active = true;
  callbacks = some 3;
}

abbrev panel : Proxy (String × String) ℤ
panel = record probe {
  id = "b";
  component = ("panel", "panel");
  last_heartbeat = 1500;
  callbacks = some 4;
}

abbrev two : Registry Writes (String × String) ℤ
two = record { proxies = probe ∷ panel ∷ []; retained_item_count = 4; hal = [] }

abbrev set_speed : ComponentValue ℤ
set_speed = record {
  item = record { kind = 1; name = "probe.speed" };
  value = record { type = 3; value = OneOf.s32 (pos 30) };
}

abbrev speed_pin : ItemSchema ℤ
speed_pin = record { name = "speed"; type = 3; direction = 2; disconnect_value = none }

abbrev new_probe : CreateRequest ℤ
new_probe = record {
  name = "probe";
  prefix = "";
  pins = speed_pin ∷ [];
  parameters = [];
  sampling_period_ms = 0;
}

abbrev ops : List (Op desk)
ops =
    message 10 ("a" ∷ []) (7 ∷ 9 ∷ []) true "" 0 3 (ClientMessage.create new_probe)
    ∷ message 20 [] [] true "a" 1 3 (ClientMessage.activate 1 (set_speed ∷ []))
    ∷ sampled 30
    ∷ detached "a" 1
    ∷ stopped
    ∷ []

run-start-Accounted_example :
    let done = run desk config (start []) ops in
    (done.0.retained_item_count ≡ total_items done.0.proxies)
    × (done.0.retained_item_count ≤ config.max_items)
    × (count_if is_acquired done.1 ≡ length done.0.proxies + count_if is_released done.1)
run-start-Accounted_example = run-start-Accounted desk config ops [] (omega arith)

decoded :
    decode_values "probe" probe.items (set_speed ∷ []) true
    ≡ accepted ((speed, Value.s32 (pos 30)) ∷ [])
unfolding decode_values decode_loop decode_update find_item item_at typed_value of_type
    decode_hal_scalar decode_value
decoded = refl

decode_values-exact_example :
    (places : List ℕ) × AreUpdates "probe" probe.items
      (set_speed ∷ [])
      places
      ((speed, Value.s32 (pos 30)) ∷ [])
    × Fresh [] places
    × ((not true || covers 0 probe.items places) ≡ true)
decode_values-exact_example =
    decode_values-exact "probe" probe.items (set_speed ∷ []) true ((speed, Value.s32 (pos 30)) ∷ [])
      decoded

consume-Change_example :
    Change two
      (consume desk config 200 [] [] true two "a" 1 3 (ClientMessage.update 1 1 (set_speed ∷ []))).0
      (consume desk config 200 [] [] true two "a" 1 3 (ClientMessage.update 1 1 (set_speed ∷ []))).1
consume-Change_example =
    consume-Change desk config 200 [] [] true two "a" 1 3
      (ClientMessage.update 1 1 (set_speed ∷ []))

heartbeat_of_a :
    (consume desk config 200 [] [] true two "a" 1 3 (ClientMessage.heartbeat 1)).1.proxy_id ≡ "a"
unfolding consume consume_in on_attached on_proxy heartbeat
heartbeat_of_a = refl

consume-other_example :
    find_proxy "b"
      (consume desk config 200 [] [] true two "a" 1 3 (ClientMessage.heartbeat 1)).0.proxies
    ≡ find_proxy "b" two.proxies
consume-other_example =
    consume-other desk config 200 [] [] true two "a" 1 3 (ClientMessage.heartbeat 1) "b"
      (λ e. ne_of_str_eq "b" "a" refl (e ∙ heartbeat_of_a))

sample-lapsed_example :
    (timeouts (sample desk config two 2500).1 ≡ lapsed_streams 2000 2500 two.proxies)
    × (attachments (sample desk config two 2500).0.proxies ≡ kept_attachments 2000 2500 two.proxies)
sample-lapsed_example = sample-lapsed desk config two 2500

first_only : lapsed_streams 2000 2500 two.proxies ≡ (3, 1) ∷ []
first_only = refl
