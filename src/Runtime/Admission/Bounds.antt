-- ===== src/Runtime/Admission/Bounds.antt =====
-- The counter counts the threads that hold a slot or are about to give it back, and never passes the
-- capacity, in every interleaving.
use linuxcnc_ctrl.Prelude.{
  ℕ, zero, suc, ◌+◌, ◌≤◌, ◌<◌, ◌≡◌, refl, Bool, true, false, List, [], ◌∷◌, if◌then◌else◌, count_if,
  u64_mod, All, arith,
}
use linuxcnc_ctrl.Runtime.Admission.{
  Place, outside, admitted, loaded, counted, holding, releasing, decremented, Counter, Move, goes,
  fails_spuriously, exchange, advance, move_at, Step, moves, stops, step, run, init,
}

-- The places between the exchange and the decrement.
abbrev pub has_slot : Place → Bool
has_slot counted = true
has_slot holding = true
has_slot releasing = true
has_slot _ = false

abbrev pub holds : Place → Bool
holds holding = true
holds _ = false

-- No decrement has seen a 0, so the repair of an underflow never acts.
abbrev NoUnderflow : Place → Type 0
NoUnderflow (decremented previous) = 0 < previous
NoUnderflow _ = Unit

abbrev weight : Place → ℕ
weight p = if has_slot p then 1 else 0

module _ (capacity active : ℕ) (accepting : Bool) where
  record Moved (before after active' : ℕ) : Type 0 where
    counts : active' + before ≡ active + after
    within : active' ≤ capacity

  exchange-Moved :
      (current : ℕ)
      → capacity < u64_mod
      → active ≤ capacity
      → current < capacity
      → Moved 0 (weight (exchange active current).1) (exchange active current).0
        × NoUnderflow (exchange active current).1
  unfolding exchange
  exchange-Moved current m h k = ground arith

  advance-Moved :
      (move : Move) (p : Place)
      → capacity < u64_mod
      → active ≤ capacity
      → weight p ≤ active
      → NoUnderflow p
      → let (active', p') = advance capacity active accepting move p in
        Moved (weight p) (weight p') active' × NoUnderflow p'
  unfolding advance
  advance-Moved move outside m h w u = ground arith
  advance-Moved move admitted m h w u = ground arith
  advance-Moved goes (loaded current) m h w u = ground (arith, exchange-Moved current m h)
  advance-Moved fails_spuriously (loaded current) m h w u = ground arith
  advance-Moved move counted m h w u = ground arith
  advance-Moved move holding m h w u = ground arith
  advance-Moved move releasing m h w u = ground arith
  advance-Moved move (decremented previous) m h w u = ground arith

  move_at-Moved :
      (i : ℕ) (move : Move) (ps : List Place)
      → capacity < u64_mod
      → active ≤ capacity
      → count_if has_slot ps ≤ active
      → All NoUnderflow ps
      → let (active', ps') = move_at i move capacity active accepting ps in
        Moved (count_if has_slot ps) (count_if has_slot ps') active' × All NoUnderflow ps'
  unfolding move_at
  move_at-Moved i move [] m h c u = ground arith
  move_at-Moved zero move (p ∷ ps) m h c u =
      ground (arith, advance-Moved move p m h (omega arith) u.0)
  move_at-Moved (suc i) move (p ∷ ps) m h c u =
      ground (arith, move_at-Moved i move ps m h (omega arith) u.1)

pub record Inv (capacity : ℕ) (c : Counter) : Type 0 where
  pub fixed : c.capacity ≡ capacity
  pub counts : c.active ≡ count_if has_slot c.threads
  pub within : c.active ≤ capacity
  pub no_underflow : All NoUnderflow c.threads

step-Inv :
    (capacity : ℕ) (c : Counter) (s : Step)
    → capacity < u64_mod
    → Inv capacity c
    → Inv capacity (step c s)
unfolding step
step-Inv capacity c (moves i move) m v =
    let (moved, safe) =
      move_at-Moved c.capacity c.active c.accepting i move c.threads (omega (arith, v.fixed))
        (omega (arith, v.within, v.fixed)) (omega (arith, v.counts)) v.no_underflow in
    record {
      fixed = v.fixed;
      counts = omega (arith, moved.counts, v.counts);
      within = omega (arith, moved.within, v.fixed);
      no_underflow = safe;
    }
step-Inv capacity c stops m v = record {
  fixed = v.fixed;
  counts = v.counts;
  within = v.within;
  no_underflow = v.no_underflow;
}

run-Inv :
    (capacity : ℕ) (c : Counter) (ss : List Step)
    → capacity < u64_mod
    → Inv capacity c
    → Inv capacity (run c ss)
unfolding run
run-Inv capacity c [] m v = v
run-Inv capacity c (s ∷ ss) m v = run-Inv capacity (step c s) ss m (step-Inv capacity c s m v)

abbrev pub all_outside : ℕ → List Place
all_outside zero = []
all_outside (suc n) = outside ∷ all_outside n

outside_count : (n : ℕ) → count_if has_slot (all_outside n) ≡ 0
outside_count zero = refl
outside_count (suc n) = omega (arith, outside_count n)

outside_safe : (n : ℕ) → All NoUnderflow (all_outside n)
outside_safe zero = tt
outside_safe (suc n) = (tt, outside_safe n)

holds-le : (ps : List Place) → count_if holds ps ≤ count_if has_slot ps
holds-le [] = omega arith
holds-le (p ∷ ps) = ground (arith, holds-le ps)

-- In every interleaving of any number of threads, with a capacity below 2^64: `active_` is the
-- number of threads between their exchange and their decrement, it never passes the capacity, no
-- decrement ever sees a 0, and so at most `capacity` threads hold a slot at once.
pub run-bounded :
    (capacity n : ℕ) (ss : List Step)
    → capacity < u64_mod
    → let c = run (init capacity (all_outside n)) ss in
      Inv capacity c × (count_if holds c.threads ≤ capacity)
unfolding init
run-bounded capacity n ss m =
    let c = run (init capacity (all_outside n)) ss in
    let v = run-Inv capacity (init capacity (all_outside n)) ss m (record {
      fixed = refl;
      counts = omega (arith, outside_count n);
      within = omega arith;
      no_underflow = outside_safe n;
    }) in
    (v, omega (arith, v.counts, v.within, holds-le c.threads))

advance-stopped :
    (capacity active : ℕ) (move : Move) (p : Place)
    → holds (advance capacity active false move p).1 ≡ true
    → ⊥
unfolding advance exchange
advance-stopped capacity active move outside h = cc
advance-stopped capacity active move admitted h = cc
advance-stopped capacity active goes (loaded current) h = ground arith
advance-stopped capacity active fails_spuriously (loaded current) h = ground arith
advance-stopped capacity active move counted h = cc
advance-stopped capacity active move holding h = cc
advance-stopped capacity active move releasing h = cc
advance-stopped capacity active move (decremented previous) h = cc

move_at-stopped :
    (capacity active i : ℕ) (move : Move) (ps : List Place)
    → count_if holds (move_at i move capacity active false ps).1 ≤ count_if holds ps
unfolding move_at
move_at-stopped capacity active i move [] = omega arith
move_at-stopped capacity active zero move (p ∷ ps) =
    ground (arith, advance-stopped capacity active move p)
move_at-stopped capacity active (suc i) move (p ∷ ps) =
    omega (arith, move_at-stopped capacity active i move ps)

step-stopped :
    (c : Counter) (s : Step)
    → c.accepting ≡ false
    → ((step c s).accepting ≡ false)
      × (count_if holds (step c s).threads ≤ count_if holds c.threads)
unfolding step
step-stopped c (moves i move) h = (h, rw h (move_at-stopped c.capacity c.active i move c.threads))
step-stopped c stops h = (refl, omega arith)

-- Once the counter has stopped, no further `acquire` succeeds: the number of holders only falls, in
-- every interleaving, also for threads that were in the middle of `acquire`.
pub run-stopped :
    (c : Counter) (ss : List Step)
    → c.accepting ≡ false
    → count_if holds (run c ss).threads ≤ count_if holds c.threads
unfolding run
run-stopped c [] h = omega arith
run-stopped c (s ∷ ss) h =
    let (still, fewer) = step-stopped c s h in omega (arith, fewer, run-stopped (step c s) ss still)
