-- ===== src/Runtime/Ring.antt =====
-- SequencedRing of native/server/include/linuxcnc_grpc/callback_runtime.hpp: the last events of a
-- stream under consecutive sequence numbers, and what a reader finds after a number. Sequence numbers
-- are std::uint64_t and wrap; the theorems ask that fewer than 2^64 events are published.
pub mod Stream
mod Tests
use mathlib.Core.List.{append-nil, append_assoc}
use linuxcnc_ctrl.Prelude.{
  ℕ, zero, suc, ◌+◌, ◌≤◌, ◌<◌, ◌≡◌, refl, ap, Bool, true, false, not, ◌&&◌, Option, none, some,
  List, [], ◌∷◌, ◌++◌, if◌then◌else◌, length, length-append, ltb, u64, u64_mod, ◌==◌, arith,
}

pub record Entry : Type 0 where
  pub sequence : ℕ
  pub event : ℕ

pub record ReadResult : Type 0 where
  pub behind : Bool
  pub entries : List Entry

pub record Ring : Type 0 where
  pub capacity : ℕ
  pub entries : List Entry
  pub next_sequence : ℕ

-- The constructor; none is std::invalid_argument.
pub create : ℕ → Option Ring
create capacity =
    if capacity == 0
    then none
    else some (record { capacity = capacity; entries = []; next_sequence = 1 })

abbrev pop_front : List Entry → List Entry
pop_front [] = []
pop_front (e ∷ es) = es

pub publish : Ring → ℕ → Ring × ℕ
publish r event =
    let grown = r.entries ++ record { sequence = r.next_sequence; event = event } ∷ [] in
    (
      record r {
        entries = if ltb r.capacity (length grown) then pop_front grown else grown;
        next_sequence = u64 (r.next_sequence + 1);
      },
      r.next_sequence,
    )

-- The loop of `after`.
newer : ℕ → List Entry → List Entry
newer s [] = []
newer s (e ∷ es) = if ltb s e.sequence then e ∷ newer s es else newer s es

-- The test for a reader that has missed events: the front is beyond the number after its own.
misses : ℕ → List Entry → Bool
misses s [] = false
misses s (e ∷ es) = not (s == 0) && ltb (u64 (s + 1)) e.sequence

pub after : Ring → ℕ → ReadResult
unfolding newer misses
after r s =
    if misses s r.entries
    then record { behind = true; entries = [] }
    else record { behind = false; entries = newer s r.entries }

pub publish_all : Ring → List ℕ → Ring
publish_all r [] = r
publish_all r (event ∷ events) = publish_all (publish r event).0 events
