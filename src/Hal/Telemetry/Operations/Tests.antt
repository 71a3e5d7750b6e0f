-- ===== src/Hal/Telemetry/Operations/Tests.antt =====
-- What a subscription shows.
use linuxcnc_ctrl.Prelude.{◌==◌, ◌≡◌, refl, true, false, none, some, List, [], ◌∷◌}
use linuxcnc_ctrl.Hal.Telemetry.{ItemKind, ItemType, Binding, Telemetry}
use linuxcnc_ctrl.Hal.Telemetry.Operations.{publish, snapshot, descriptor, same_values}

abbrev bound : List Binding
bound =
    record { slot = 0; item = record { kind = ItemKind.pin; name = "x" }; type = ItemType.float }
    ∷ []

abbrev busy : Telemetry
busy = record {
  capacity = 2;
  attachment_ttl = 30000;
  tokens = ("b", "a") ∷ [];
  closed = false;
  states =
      record {
        id = "a";
        attachment_token = "b";
        expires = 30000;
        next_due = 0;
        sample_period = 100;
        revision = 1;
        sequence = 4;
        next_slot = 1;
        attached = true;
        sampled = false;
        bindings = bound;
        values = none ∷ [];
      }
      ∷ [];
}

published_values :
    snapshot (publish (λ a b. a == b) busy "a" 1 (some 7 ∷ [])).0 "a"
    ≡ some (record {
      sampled = true;
      revision = 1;
      sequence = 5;
      bindings = bound;
      values = some 7 ∷ [];
    })
unfolding snapshot publish same_values
published_values = refl

described :
    descriptor busy "a"
    ≡ some (record {
      subscription_id = "a";
      websocket_path = "/v1/hal-values/b";
      revision = 1;
      sample_period = 100;
      bindings = bound;
    })
unfolding descriptor
described = refl
