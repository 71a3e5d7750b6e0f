-- ===== src/Hal/Telemetry/Tests.antt =====
-- The telemetry at concrete subscriptions.
use linuxcnc_ctrl.Prelude.{String, ◌==◌, ◌≡◌, refl, false, none, some, List, [], ◌∷◌, leb, arith}
use linuxcnc_ctrl.Hal.Telemetry.{
  ItemKind, ItemType, ResolvedItem, Binding, Telemetry, rebind, fastest_of, within_sampling_budget,
  max_samples_per_second, period_at, find_prior, place_item, fresh_binding,
}
use linuxcnc_ctrl.Hal.Telemetry.Fastest.{fastest_request, requests, Distinct}
use linuxcnc_ctrl.Hal.Telemetry.Budget.{total_rate, within_sampling_budget-total}
use linuxcnc_ctrl.Hal.Telemetry.Slots.{Answers, rebind-Answers}
use linuxcnc_ctrl.Hal.Telemetry.Operations.{
  create, update, claim, detach, erase, close, due, publish,
}
use linuxcnc_ctrl.Hal.Telemetry.Operations.Closing.{close-refuses}

abbrev pin_of : String → ResolvedItem
pin_of name = record { item = record { kind = ItemKind.pin; name = name }; type = ItemType.float }

abbrev idle : Telemetry
idle = record { capacity = 2; attachment_ttl = 30000; states = []; tokens = []; closed = false }

abbrev old : List Binding
old = record { slot = 0; item = (pin_of "x").item; type = ItemType.float } ∷ []

abbrev opened : Telemetry
opened = record idle {
  states =
      record {
        id = "a";
        attachment_token = "b";
        expires = 30000;
        next_due = 0;
        sample_period = 100;
        revision = 1;
        sequence = 0;
        next_slot = 1;
        attached = false;
        sampled = false;
        bindings = old;
        values = none ∷ [];
      }
      ∷ [];
}

within_sampling_budget-total_example :
    let fastest = fastest_of opened none (pin_of "x" ∷ []) 50 in
    (within_sampling_budget opened none (pin_of "x" ∷ []) 50
      ≡ leb (total_rate fastest) max_samples_per_second)
    × (period_at "1:x" fastest ≡ fastest_request "1:x" (requests opened none (pin_of "x" ∷ []) 50))
    × Distinct fastest
within_sampling_budget-total_example =
    within_sampling_budget-total opened none (pin_of "x" ∷ []) 50 "1:x"

-- Subscribed at 100 ms, asked for again at 50 ms.
at_fifty : fastest_request "1:x" (requests opened none (pin_of "x" ∷ []) 50) ≡ some 50
at_fifty = refl

rebind-Answers_example :
    let r = rebind (pin_of "y" ∷ pin_of "x" ∷ []) old (some 7 ∷ []) 1 in
    Answers old (some 7 ∷ []) 1 r.2 (pin_of "y" ∷ pin_of "x" ∷ []) r.0 r.1
rebind-Answers_example =
    rebind-Answers old (some 7 ∷ []) 1 (pin_of "y" ∷ pin_of "x" ∷ []) (omega arith)

close-refuses_example :
    let c = (close idle).0 in
    (create c 5 [] [] 100 ≡ ((c, none), []))
    × (update c 5 "a" 1 [] 100 ≡ ((c, none), []))
    × (claim c 5 "b" ≡ ((c, none), []))
    × (detach c 5 "a" ≡ (c, false))
    × (erase c "a" ≡ ((c, false), []))
    × (due c 5 ≡ ((c, []), []))
    × (publish (λ a b. a == b) c "a" 1 [] ≡ (c, []))
close-refuses_example = close-refuses (λ a b. a == b) idle 5 [] "a" "b" 1 [] 100 [] refl

keeps_slot : (rebind (pin_of "y" ∷ pin_of "x" ∷ []) old (some 7 ∷ []) 1).1 ≡ none ∷ some 7 ∷ []
unfolding rebind find_prior place_item fresh_binding
keeps_slot = refl
