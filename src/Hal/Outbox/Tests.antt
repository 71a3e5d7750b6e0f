-- ===== src/Hal/Outbox/Tests.antt =====
-- The outbox at a concrete history.
use linuxcnc_ctrl.Prelude.{ℕ, String, ◌≡◌, refl, none, List, [], ◌∷◌, ◌++◌}
use linuxcnc_ctrl.Hal.Outbox.{
  Item, Message, delta, other, empty_outbox, size, Step, responds, sends, pops, step, run,
  push_response, push_delta, pop_front, append_delta, merge_back, merge_delta, merge_values,
  merge_value,
}
use linuxcnc_ctrl.Hal.Outbox.Delivery.{Client, read_all, read_messages, pushed, run-delivers}

abbrev pin : String → Item
pin name = record { kind = 1; name = name }

abbrev update_of : String → ℕ → ℕ → Message
update_of name value sequence = delta (record {
  values = record { item = pin name; value = value } ∷ [];
  sequence = sequence;
  generation = 1;
})

-- Three deltas, of which the second is merged into the first and the third waits behind a response.
abbrev session : List Step
session =
    sends (update_of "speed" 10 1)
    ∷ sends (update_of "speed" 11 2)
    ∷ responds (other 7)
    ∷ pops
    ∷ sends (update_of "load" 3 3)
    ∷ []

abbrev newcomer : Client
newcomer = record { value = none; sequence = 0; generation = 0; others = [] }

run-delivers_example :
    read_all
      (pin "speed")
      newcomer
      ((run empty_outbox session).1 ++ (run empty_outbox session).0.entries)
    ≡ read_messages (pin "speed") newcomer (pushed session)
run-delivers_example =
    run-delivers (pin "speed") session newcomer ((tt, tt), ((tt, tt), (tt, ((tt, tt), tt))))

two_wait : size (run empty_outbox session).0 ≡ 2
unfolding size run step push_response push_delta pop_front append_delta merge_back merge_delta
    merge_values merge_value empty_outbox
two_wait = refl
