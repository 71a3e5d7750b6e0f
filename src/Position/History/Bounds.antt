-- ===== src/Position/History/Bounds.antt =====
-- What holds of a history between two calls: it is bounded, its sequence numbers grow, and the root of
-- a replaced entry is not newer than the entry.
use linuxcnc_ctrl.Doubles.{Doubles}
use linuxcnc_ctrl.Prelude.{
  ℕ, zero, suc, ◌+◌, ◌-◌, ◌≤◌, ◌<◌, max, List, [], ◌∷◌, length, length-take, take, u64, u64_mod,
  Bool-cases, inl, inr, arith,
}
use linuxcnc_ctrl.Position.History.{
  Sample, Entry, History, value_or, create, entry_at, place, evict, append, unchanged, configure,
  clear, Step, appends, clears, configures, step, run,
}

module _ (d : Doubles) where
  open d use {Double}

  -- The first sequence number of the chain of replacements that an entry ends.
  abbrev pub root_of : Entry Double → ℕ
  root_of e = value_or e.replacement_root e.sequence

  -- Numbers fall from the back of the deque, below a bound.
  abbrev pub Descending : ℕ → List (Entry Double) → Type 0
  Descending n [] = Unit
  Descending n (e ∷ es) = (e.sequence < n) × (root_of e ≤ e.sequence) × Descending e.sequence es

  pub Descending-mono :
      (m n : ℕ) (es : List (Entry Double)) → m ≤ n → Descending m es → Descending n es
  Descending-mono m n [] h s = tt
  Descending-mono m n (e ∷ es) h s = (omega arith, s.1, s.2)

  Descending-take :
      (k n : ℕ) (es : List (Entry Double)) → Descending n es → Descending n (take k es)
  Descending-take zero n es s = tt
  Descending-take (suc k) n [] s = tt
  Descending-take (suc k) n (e ∷ es) s = (s.0, s.1, Descending-take k e.sequence es s.2)

  pub record Inv (h : History Double) : Type 0 where
    pub bounded : length h.entries ≤ h.max_samples
    pub room : 1 ≤ h.max_samples
    pub sorted : Descending h.next_sequence h.entries

  place-Descending :
      (n : ℕ) (sample : Sample Double) (es : List (Entry Double))
      → Descending n es
      → Descending (n + 1) (place d n sample es)
  unfolding place entry_at
  place-Descending n sample [] s = (omega arith, omega arith, tt)
  place-Descending n sample (b ∷ []) s = (omega arith, omega arith, s)
  place-Descending n sample (b ∷ p ∷ es) s = ground (arith, Descending-mono b.sequence n (p ∷ es))

  length-place :
      (n : ℕ) (sample : Sample Double) (es : List (Entry Double))
      → length (place d n sample es) ≤ suc (length es)
  unfolding place
  length-place n sample [] = omega arith
  length-place n sample (b ∷ []) = omega arith
  length-place n sample (b ∷ p ∷ es) = ground arith

  evict-Inv :
      (h : History Double)
      → length h.entries ≤ suc h.max_samples
      → 1 ≤ h.max_samples
      → Descending h.next_sequence h.entries
      → Inv (evict d h)
  unfolding evict
  evict-Inv h b r s = ground (
    arith,
    length-take {0} (length h.entries - 1) h.entries,
    Descending-take (length h.entries - 1) h.next_sequence h.entries s,
  )

  append-Inv :
      (h : History Double) (sample : Sample Double)
      → h.next_sequence + 1 < u64_mod
      → Inv h
      → Inv (append d h sample).0
  unfolding append
  append-Inv h sample m v = elim (Bool-cases (unchanged d h.entries sample h.epsilon)) [
    | inl same ↦ rw (same, append) v
    | inr new ↦
        rw (new, append)
          (evict-Inv _ (omega (arith, v.bounded, length-place h.next_sequence sample h.entries))
            v.room
            (Descending-mono (h.next_sequence + 1) (u64 (h.next_sequence + 1)) _ (omega arith)
              (place-Descending h.next_sequence sample h.entries v.sorted)))
  ]

  step-Inv :
      (h : History Double) (s : Step d) → h.next_sequence + 1 < u64_mod → Inv h → Inv (step d h s)
  unfolding step clear configure
  step-Inv h (appends sample) m v = append-Inv h sample m v
  step-Inv h clears m v = record { bounded = omega arith; room = v.room; sorted = tt }
  step-Inv h (configures n epsilon) m v = record {
    bounded = omega (arith, length-take {0} (max 1 n) h.entries);
    room = omega arith;
    sorted = Descending-take (max 1 n) h.next_sequence h.entries v.sorted;
  }

  append-next :
      (h : History Double) (sample : Sample Double)
      → h.next_sequence + 1 < u64_mod
      → (append d h sample).0.next_sequence ≤ h.next_sequence + 1
  unfolding append evict
  append-next h sample m = ground arith

  pub step-next :
      (h : History Double) (s : Step d)
      → h.next_sequence + 1 < u64_mod
      → (step d h s).next_sequence ≤ h.next_sequence + 1
  unfolding step clear configure
  step-next h (appends sample) m = append-next h sample m
  step-next h clears m = omega arith
  step-next h (configures n epsilon) m = omega arith

  pub run-Inv :
      (h : History Double) (ss : List (Step d))
      → h.next_sequence + length ss < u64_mod
      → Inv h
      → Inv (run d h ss)
  unfolding run
  run-Inv h [] m v = v
  run-Inv h (s ∷ ss) m v =
      run-Inv (step d h s) ss (omega (arith, step-next h s)) (step-Inv h s (omega arith) v)

  -- From a new history, over fewer than 2^64 calls of `append`, `clear` and `configure` in any order, and
  -- whatever the coordinates are: the deque holds at most `max_samples_` entries, which is at least 1,
  -- their numbers grow strictly towards the back and stay below the next one, and no replaced entry has a
  -- root above its own number.
  pub run-create-Inv :
      (max_samples : ℕ) (epsilon : Double) (ss : List (Step d))
      → length ss < u64_mod
      → Inv (run d (create d max_samples epsilon) ss)
  unfolding create
  run-create-Inv max_samples epsilon ss m =
      run-Inv (create d max_samples epsilon) ss (omega arith)
        (record { bounded = omega arith; room = omega arith; sorted = tt })
