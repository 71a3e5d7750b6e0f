-- ===== src/Runtime/Ring/Tests.antt =====
-- The ring at concrete streams.
use linuxcnc_ctrl.Prelude.{ℕ, ◌≡◌, refl, true, List, [], ◌∷◌, arith}
use linuxcnc_ctrl.Runtime.Ring.Stream.{
  Holds, publish_all-Holds_created, answer, numbered, after-answer,
}
use linuxcnc_ctrl.Runtime.Ring.{Ring, create, publish, publish_all, after, newer, misses}

abbrev empty_ring : Ring
empty_ring = record { capacity = 2; entries = []; next_sequence = 1 }

abbrev stream : List ℕ
stream = 70 ∷ 71 ∷ 72 ∷ []

publish_all-Holds_created_example : Holds stream (publish_all empty_ring stream)
unfolding create
publish_all-Holds_created_example = publish_all-Holds_created 2 stream empty_ring (omega arith) refl

held : Holds stream (publish_all empty_ring stream)
unfolding create
held = publish_all-Holds_created 2 stream empty_ring (omega arith) refl

after-answer_example : after (publish_all empty_ring stream) 1 ≡ answer 1 1 (numbered 1 stream)
unfolding publish_all publish
after-answer_example =
    after-answer (publish_all empty_ring stream) stream 1 (omega arith) (omega arith) held

-- A reader at the largest number is told that it is behind, since `sequence + 1` wraps to 0.
behind_at_wrap : (after (publish_all empty_ring stream) 18446744073709551615).behind ≡ true
unfolding publish_all publish after newer misses
behind_at_wrap = refl
