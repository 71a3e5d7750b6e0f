-- ===== src/Hal/Outbox.antt =====
-- ComponentOutbox of native/server/src/hal/grpc/component_outbox.hpp: the messages that wait for the
-- stream of a remote component, with consecutive deltas merged into one. The contents of a value, and a
-- message that is no delta, are a number; the kind of an item is its enum value.
pub mod Merge
pub mod Responses
pub mod Delivery
mod Tests
use linuxcnc_ctrl.Prelude.{
  ℕ, String, str_eq, Bool, true, false, ◌&&◌, Option, none, some, List, [], ◌∷◌, ◌++◌,
  if◌then◌else◌, length, is_empty, ◌==◌,
}

pub record Item : Type 0 where
  pub kind : ℕ
  pub name : String

pub record ComponentValue : Type 0 where
  pub item : Item
  pub value : ℕ

pub record Delta : Type 0 where
  pub values : List ComponentValue
  pub sequence : ℕ
  pub generation : ℕ

pub data Message : Type 0 where
  delta : Delta → Message
  other : ℕ → Message

pub record Entry : Type 0 where
  pub message : Message
  pub resume_read : Bool

pub record Outbox : Type 0 where
  pub entries : List Entry

unfoldable pub empty_outbox : Outbox
empty_outbox = record { entries = [] }

abbrev pub same_item : Item → Item → Bool
same_item left right = left.kind == right.kind && str_eq left.name right.name

-- One turn of the loop of `merge_delta`.
merge_value : ComponentValue → List ComponentValue → List ComponentValue
merge_value incoming [] = incoming ∷ []
merge_value incoming (value ∷ values) =
    if same_item value.item incoming.item
    then incoming ∷ values
    else value ∷ merge_value incoming values

pub merge_values : List ComponentValue → List ComponentValue → List ComponentValue
unfolding merge_value
merge_values [] target = target
merge_values (incoming ∷ source) target = merge_values source (merge_value incoming target)

merge_delta : Delta → Delta → Delta
unfolding merge_values
merge_delta source target = record {
  values = merge_values source.values target.values;
  sequence = source.sequence;
  generation = source.generation;
}

-- The last two cases of `push_delta`, on the back of the deque and its message.
merge_back : Delta → Entry → Message → List Entry
unfolding merge_delta
merge_back d back (delta target) = record back { message = delta (merge_delta d target) } ∷ []
merge_back d back (other n) = back ∷ record { message = delta d; resume_read = false } ∷ []

append_delta : Delta → List Entry → List Entry
unfolding merge_back
append_delta d [] = record { message = delta d; resume_read = false } ∷ []
append_delta d (back ∷ []) = merge_back d back back.message
append_delta d (entry ∷ next ∷ entries) = entry ∷ append_delta d (next ∷ entries)

unfoldable pub push_response : Outbox → Message → Outbox
push_response o message = record o {
  entries = o.entries ++ record { message = message; resume_read = true } ∷ [];
}

pub push_delta : Outbox → Message → Outbox
unfolding append_delta
push_delta o (other n) = record o {
  entries = o.entries ++ record { message = other n; resume_read = false } ∷ [];
}
push_delta o (delta d) = record o { entries = append_delta d o.entries }

pub size : Outbox → ℕ
size o = length o.entries

-- On an empty deque the code must not call it: nothing is given.
unfoldable pub pop_front : Outbox → Option (Outbox × Entry)
pop_front o = elim o.entries [
  | [] ↦ none
  | entry ∷ entries ↦ some (record o { entries = entries }, entry)
]

pub data Step : Type 0 where
  responds sends : Message → Step
  pops : Step

abbrev pub taken_from : Outbox → Option (Outbox × Entry) → Outbox × List Entry
taken_from o none = (o, [])
taken_from o (some (rest, entry)) = (rest, entry ∷ [])

-- A step, with the entry that it hands to the stream.
pub step : Outbox → Step → Outbox × List Entry
unfolding push_response push_delta pop_front
step o (responds message) = (push_response o message, [])
step o (sends message) = (push_delta o message, [])
step o pops = taken_from o (pop_front o)

pub run : Outbox → List Step → Outbox × List Entry
run o [] = (o, [])
run o (s ∷ ss) = let (o', sent) = step o s in let (last, more) = run o' ss in (last, sent ++ more)
