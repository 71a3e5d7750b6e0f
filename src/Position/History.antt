-- ===== src/Position/History.antt =====
-- PositionHistory of native/server/src/position/history.cc: the bounded list of tool positions, its
-- coalescing of points on a line, and the batches that its consumers ask for.
-- `entries` holds the deque with its back first. A coordinate array is a list of nine doubles; sequence
-- numbers and generations are std::uint64_t and wrap. `std::lower_bound` is the first entry from the
-- front that is not below the value, which it is on the sorted deque.
pub mod Bounds
pub mod Extends
pub mod Sync
mod Tests
use linuxcnc_ctrl.Doubles.{Doubles}
use linuxcnc_ctrl.Prelude.{
  ℕ, zero, suc, ◌+◌, ◌-◌, max, min, ℤ, ◌==ℤ◌, Bool, true, false, not, ◌&&◌, ◌||◌, Option, none,
  some, List, [], ◌∷◌, ◌++◌, map, reverse, if◌then◌else◌, length, is_empty, ltb, u64, ◌==◌, take,
}

pub record Sample (D : Type 0) : Type 0 where
  pub coordinates : List D
  pub motion_type : ℤ

pub record Entry (D : Type 0) : Type 0 where
  pub sequence : ℕ
  pub sample : Sample D
  pub replacement_root : Option ℕ

pub record History (D : Type 0) : Type 0 where
  pub entries : List (Entry D)
  pub max_samples : ℕ
  pub epsilon : D
  pub next_sequence : ℕ
  pub generation : ℕ

pub record Batch (D : Type 0) : Type 0 where
  pub reset : Bool
  pub generation : ℕ
  pub first_sequence : ℕ
  pub next_sequence : ℕ
  pub replace_count : ℕ
  pub packed : List D

abbrev pub position_stride : ℕ
position_stride = 10

abbrev pub value_or : Option ℕ → ℕ → ℕ
value_or none n = n
value_or (some m) n = m

module _ (d : Doubles) where
  open d use {
    Double, is_finite, is_nan, equal, less, add, sub, mul, div, sqrt, abs, of_int, decimal,
  }

  -- The loop of `changed` over the coordinates.
  coordinates_changed : Double → List Double → List Double → Bool
  coordinates_changed epsilon [] bs = false
  coordinates_changed epsilon (a ∷ as_) [] = false
  coordinates_changed epsilon (a ∷ as_) (b ∷ bs) =
      let rest = coordinates_changed epsilon as_ bs in
      if not (is_finite a) || not (is_finite b)
      then if (is_nan a && is_nan b) || equal a b then rest else true
      else if less epsilon (abs (sub a b))
      then true
      else rest

  pub changed : Sample Double → Sample Double → Double → Bool
  unfolding coordinates_changed
  changed a b epsilon =
      coordinates_changed epsilon a.coordinates b.coordinates
      || not (a.motion_type ==ℤ b.motion_type)

  -- The verdict of `collinear` on the sums of its loop.
  collinear_sums : Double → Double → Double → Bool
  collinear_sums current_squared previous_squared dot =
      let current_length = sqrt current_squared in
      let previous_length = sqrt previous_squared in
      if less current_length (decimal 1 10) || less previous_length (decimal 1 10)
      then true
      else less (abs (sub (decimal 1 0) (div (div dot current_length) previous_length)))
          (decimal 1 4)

  -- The loop of `collinear`: the three sums so far, and the coordinates left.
  collinear_loop : Double → Double → Double → List Double → List Double → List Double → Bool
  unfolding collinear_sums
  collinear_loop current_squared previous_squared dot (c ∷ cs) (p ∷ ps) (q ∷ qs) =
      let current_delta = sub c p in
      let previous_delta = sub p q in
      let rest =
        collinear_loop (add current_squared (mul current_delta current_delta))
          (add previous_squared (mul previous_delta previous_delta))
          (add dot (mul current_delta previous_delta)) cs ps qs in
      if not (is_finite current_delta) || not (is_finite previous_delta) then false else rest
  collinear_loop current_squared previous_squared dot _ _ _ =
      collinear_sums current_squared previous_squared dot

  pub collinear : Sample Double → Sample Double → Sample Double → Bool
  unfolding collinear_loop
  collinear current previous penultimate =
      collinear_loop (decimal 0 0) (decimal 0 0) (decimal 0 0) current.coordinates
        previous.coordinates penultimate.coordinates

  max_double : Double → Double → Double
  max_double a b = if less a b then b else a

  pub create : ℕ → Double → History Double
  unfolding max_double
  create max_samples epsilon = record {
    entries = [];
    max_samples = max 1 max_samples;
    epsilon = max_double (decimal 0 0) epsilon;
    next_sequence = 0;
    generation = 1;
  }

  pub configure : History Double → ℕ → Double → History Double
  unfolding max_double
  configure h max_samples epsilon = record h {
    max_samples = max 1 max_samples;
    epsilon = max_double (decimal 0 0) epsilon;
    -- The loop of `pop_front` leaves the newest ones.
    entries = take (max 1 max_samples) h.entries;
    generation = u64 (h.generation + 1);
  }

  pub clear : History Double → History Double
  clear h = record h { entries = []; generation = u64 (h.generation + 1) }

  unchanged : List (Entry Double) → Sample Double → Double → Bool
  unchanged [] sample epsilon = false
  unchanged (back ∷ entries) sample epsilon = not (changed back.sample sample epsilon)

  entry_at : ℕ → Sample Double → Option ℕ → Entry Double
  entry_at sequence sample root = record {
    sequence = sequence;
    sample = sample;
    replacement_root = root;
  }

  -- The back of the deque is replaced if the sample lies on a line with the last two entries.
  place : ℕ → Sample Double → List (Entry Double) → List (Entry Double)
  unfolding entry_at
  place sequence sample (back ∷ before ∷ entries) =
      if sample.motion_type ==ℤ back.sample.motion_type
        && sample.motion_type ==ℤ before.sample.motion_type
        && collinear sample back.sample before.sample
      then entry_at sequence sample (some (value_or back.replacement_root back.sequence))
        ∷ before
        ∷ entries
      else entry_at sequence sample none ∷ back ∷ before ∷ entries
  place sequence sample (back ∷ []) = entry_at sequence sample none ∷ back ∷ []
  place sequence sample [] = entry_at sequence sample none ∷ []

  -- `pop_front` and the new generation, when the deque has outgrown its bound.
  evict : History Double → History Double
  evict h =
      if ltb h.max_samples (length h.entries)
      then record h {
        entries = take (length h.entries - 1) h.entries;
        generation = u64 (h.generation + 1);
      }
      else h

  pub append : History Double → Sample Double → History Double × Bool
  unfolding place evict
  append h sample = if unchanged h.entries sample h.epsilon then (h, false) else (
    evict (record h {
      entries = place h.next_sequence sample h.entries;
      next_sequence = u64 (h.next_sequence + 1);
    }),
    true,
  )

  pack : Sample Double → List Double
  pack sample = sample.coordinates ++ of_int sample.motion_type ∷ []

  -- The loop of `append_packed`.
  pub pack_all : List (Entry Double) → List Double
  unfolding pack
  pack_all [] = []
  pack_all (e ∷ es) = pack e.sample ++ pack_all es

  front_sequence : ℕ → List (Entry Double) → ℕ
  front_sequence next [] = next
  front_sequence next (e ∷ es) = e.sequence

  pub snapshot : History Double → Batch Double
  unfolding front_sequence
  snapshot h = record {
    reset = true;
    generation = h.generation;
    first_sequence = front_sequence h.next_sequence (reverse h.entries);
    next_sequence = h.next_sequence;
    replace_count = 0;
    packed = pack_all (reverse h.entries);
  }

  lower_bound : ℕ → List (Entry Double) → List (Entry Double)
  lower_bound value [] = []
  lower_bound value (e ∷ es) =
      let rest = lower_bound value es in if ltb e.sequence value then rest else e ∷ es

  -- The test for a point that the consumer holds and that the first new entry has replaced.
  replaces : ℕ → List (Entry Double) → Bool
  replaces sequence [] = false
  replaces sequence (e ∷ es) = ltb (value_or e.replacement_root sequence) sequence

  -- The part of `since` below the early return, on the deque from its front.
  since_entries : History Double → List (Entry Double) → ℕ → ℕ → ℕ → Batch Double
  unfolding front_sequence lower_bound replaces
  since_entries h entries sequence max_samples after_generation =
      let generation_changed =
        not (after_generation == 0) && not (after_generation == h.generation) in
      let rolled = ltb sequence (front_sequence h.next_sequence entries) in
      let reset = generation_changed || rolled in
      let first = if reset then entries else lower_bound sequence entries in
      let count = if max_samples == 0 then length first else min max_samples (length first) in
      record {
        reset = reset;
        generation = h.generation;
        first_sequence = front_sequence h.next_sequence first;
        next_sequence = h.next_sequence;
        replace_count = if not reset && replaces sequence first then 1 else 0;
        packed = pack_all (take count first);
      }

  pub since : History Double → ℕ → ℕ → ℕ → Batch Double
  unfolding since_entries
  since h sequence max_samples after_generation =
      if is_empty h.entries
      then record {
        reset =
            (not (after_generation == 0) && not (after_generation == h.generation))
            || not (sequence == h.next_sequence);
        generation = h.generation;
        first_sequence = h.next_sequence;
        next_sequence = h.next_sequence;
        replace_count = 0;
        packed = [];
      }
      else since_entries h (reverse h.entries) sequence max_samples after_generation

  pub size : History Double → ℕ
  size h = length h.entries

  pub data Step : Type 0 where
    appends : Sample Double → Step
    clears : Step
    configures : ℕ → Double → Step

  pub step : History Double → Step → History Double
  step h (appends sample) = (append h sample).0
  step h clears = clear h
  step h (configures max_samples epsilon) = configure h max_samples epsilon

  pub run : History Double → List Step → History Double
  run h [] = h
  run h (s ∷ ss) = run (step h s) ss
