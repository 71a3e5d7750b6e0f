-- ===== src/Position/History/Extends.antt =====
-- How the entries of a history grow while its generation stays: the entries from before a cursor, of
-- which the last one may have been replaced, and fresh ones.
use mathlib.Core.Bool.{false≢true}
use linuxcnc_ctrl.Doubles.{Doubles}
use linuxcnc_ctrl.Prelude.{
  ℕ, ◌+◌, ◌≤◌, ◌<◌, ◌≡◌, refl, sym, ◌∙◌, subst, inl, inr, Bool, true, false, Option, none, some,
  List, [], ◌∷◌, ◌++◌, if◌then◌else◌, length, ltb, u64, u64_mod, Bool-cases, arith,
}
use linuxcnc_ctrl.Position.History.Bounds.{Descending, step-next, root_of}
use linuxcnc_ctrl.Position.History.{
  Sample, Entry, History, value_or, entry_at, place, evict, append, unchanged, configure, clear,
  Step, appends, clears, configures, step, run,
}

module _ (d : Doubles) where
  open d use {Double}

  -- The entries that came since the cursor, newest first, and whether the oldest of them has replaced
  -- an entry from before it.
  abbrev pub FreshOnly : ℕ → Bool → List (Entry Double) → Type 0
  FreshOnly cursor replaced [] = replaced ≡ false
  FreshOnly cursor replaced (e ∷ []) =
      (cursor ≤ e.sequence) × (ltb (value_or e.replacement_root cursor) cursor ≡ replaced)
  FreshOnly cursor replaced (e ∷ f ∷ fs) =
      (cursor ≤ e.sequence) × FreshOnly cursor replaced (f ∷ fs)

  abbrev pub Kept : Bool → List (Entry Double) → List (Entry Double) → Type 0
  Kept false old base = old ≡ base
  Kept true old base = (x : Entry Double) × (old ≡ x ∷ base)

  pub record Extends (cursor : ℕ) (old new : List (Entry Double)) : Type 0 where
    pub replaced : Bool
    pub fresh : List (Entry Double)
    pub base : List (Entry Double)
    pub split : new ≡ fresh ++ base
    pub kept : Kept replaced old base
    pub only : FreshOnly cursor replaced fresh

  pub Extends-refl : (cursor : ℕ) (old : List (Entry Double)) → Extends cursor old old
  Extends-refl cursor old = record {
    replaced = false;
    fresh = [];
    base = old;
    split = refl;
    kept = refl;
    only = refl;
  }

  pushed :
      (cursor n : ℕ) (sample : Sample Double) (replaced : Bool) (fresh : List (Entry Double))
      → cursor ≤ n
      → FreshOnly cursor replaced fresh
      → FreshOnly cursor replaced (entry_at d n sample none ∷ fresh)
  unfolding entry_at
  pushed cursor n sample replaced [] h f = (h, ground arith)
  pushed cursor n sample replaced (e ∷ fs) h f = (h, f)

  same_root :
      (cursor : ℕ) (root : Option ℕ) (sequence : ℕ)
      → cursor ≤ sequence
      → ltb (value_or root sequence) cursor ≡ ltb (value_or root cursor) cursor
  same_root cursor none sequence h = ground arith
  same_root cursor (some r) sequence h = refl

  -- A replacement of an entry that is itself fresh.
  swapped :
      (cursor n : ℕ) (sample : Sample Double) (replaced : Bool) (e : Entry Double)
      (fs : List (Entry Double))
      → cursor ≤ n
      → FreshOnly cursor replaced (e ∷ fs)
      → FreshOnly cursor replaced (entry_at d n sample (some (root_of d e)) ∷ fs)
  unfolding entry_at
  swapped cursor n sample replaced e [] h f =
      (h, same_root cursor e.replacement_root e.sequence f.0 ∙ f.1)
  swapped cursor n sample replaced e (g ∷ fs) h f = (h, f.1)

  push_fresh :
      (cursor n : ℕ) (sample : Sample Double) (old : List (Entry Double)) (replaced : Bool)
      (fresh base : List (Entry Double))
      → cursor ≤ n
      → Kept replaced old base
      → FreshOnly cursor replaced fresh
      → Extends cursor old (entry_at d n sample none ∷ fresh ++ base)
  push_fresh cursor n sample old replaced fresh base h k f = record {
    replaced = replaced;
    fresh = entry_at d n sample none ∷ fresh;
    base = base;
    split = refl;
    kept = k;
    only = pushed cursor n sample replaced fresh h f;
  }

  swap_fresh :
      (cursor n : ℕ) (sample : Sample Double) (old : List (Entry Double)) (replaced : Bool)
      (e : Entry Double) (fs base : List (Entry Double))
      → cursor ≤ n
      → Kept replaced old base
      → FreshOnly cursor replaced (e ∷ fs)
      → Extends cursor old (entry_at d n sample (some (root_of d e)) ∷ fs ++ base)
  swap_fresh cursor n sample old replaced e fs base h k f = record {
    replaced = replaced;
    fresh = entry_at d n sample (some (root_of d e)) ∷ fs;
    base = base;
    split = refl;
    kept = k;
    only = swapped cursor n sample replaced e fs h f;
  }

  -- A replacement of the last entry that the consumer holds.
  swap_old :
      (cursor n : ℕ) (sample : Sample Double) (old : List (Entry Double)) (e : Entry Double)
      (es : List (Entry Double))
      → cursor ≤ n
      → Descending d cursor (e ∷ es)
      → old ≡ e ∷ es
      → Extends cursor old (entry_at d n sample (some (root_of d e)) ∷ es)
  unfolding entry_at
  swap_old cursor n sample old e es h s k = record {
    replaced = true;
    fresh = entry_at d n sample (some (root_of d e)) ∷ [];
    base = es;
    split = refl;
    kept = (e, k);
    only = (h, ground arith);
  }

  if_Extends :
      (c : Bool) (cursor : ℕ) (old xs ys : List (Entry Double))
      → Extends cursor old xs
      → Extends cursor old ys
      → Extends cursor old (if c then xs else ys)
  if_Extends true cursor old xs ys x y = x
  if_Extends false cursor old xs ys x y = y

  place_on :
      (cursor n : ℕ) (sample : Sample Double) (old : List (Entry Double)) (replaced : Bool)
      (fresh base : List (Entry Double))
      → cursor ≤ n
      → Descending d cursor old
      → Kept replaced old base
      → FreshOnly cursor replaced fresh
      → Extends cursor old (place d n sample (fresh ++ base))
  unfolding place
  place_on cursor n sample old true [] base h s k f = absurd (false≢true (sym f))
  place_on cursor n sample old false [] [] h s k f =
      push_fresh cursor n sample old false [] [] h k f
  place_on cursor n sample old false [] (b ∷ []) h s k f =
      push_fresh cursor n sample old false [] (b ∷ []) h k f
  place_on cursor n sample old false [] (b ∷ p ∷ es) h s k f =
      if_Extends _ cursor old _ _
        (swap_old cursor n sample old b (p ∷ es) h (subst (Descending d cursor) k s) k)
        (push_fresh cursor n sample old false [] (b ∷ p ∷ es) h k f)
  place_on cursor n sample old replaced (e ∷ []) [] h s k f =
      push_fresh cursor n sample old replaced (e ∷ []) [] h k f
  place_on cursor n sample old replaced (e ∷ []) (b ∷ es) h s k f =
      if_Extends _ cursor old _ _ (swap_fresh cursor n sample old replaced e [] (b ∷ es) h k f)
        (push_fresh cursor n sample old replaced (e ∷ []) (b ∷ es) h k f)
  place_on cursor n sample old replaced (e ∷ g ∷ fs) base h s k f =
      if_Extends _ cursor old _ _ (swap_fresh cursor n sample old replaced e (g ∷ fs) base h k f)
        (push_fresh cursor n sample old replaced (e ∷ g ∷ fs) base h k f)

  place-Extends :
      (cursor n : ℕ) (sample : Sample Double) (old new : List (Entry Double))
      → cursor ≤ n
      → Descending d cursor old
      → Extends cursor old new
      → Extends cursor old (place d n sample new)
  place-Extends cursor n sample old new h s e =
      subst (λ l. Extends cursor old (place d n sample l)) (sym e.split)
        (place_on cursor n sample old e.replaced e.fresh e.base h s e.kept e.only)

  -- What a history has become since a consumer's last batch, which named this cursor and generation:
  -- it has a later generation, or its entries extend those that the consumer holds.
  pub data Since (cursor generation : ℕ) (old : List (Entry Double)) (h : History Double)
      : Type 0 where
    renewed : generation < h.generation → Since cursor generation old h
    extended :
        h.generation ≡ generation
        → cursor ≤ h.next_sequence
        → Extends cursor old h.entries
        → Since cursor generation old h

  Since-generation :
      (cursor generation : ℕ) (old : List (Entry Double)) (h : History Double)
      → Since cursor generation old h
      → generation ≤ h.generation
  Since-generation cursor generation old h (renewed g) = omega arith
  Since-generation cursor generation old h (extended g c e) = omega arith

  evict-Since :
      (cursor generation : ℕ) (old : List (Entry Double)) (h : History Double)
      → h.generation + 1 < u64_mod
      → Since cursor generation old h
      → Since cursor generation old (evict d h)
  unfolding evict
  evict-Since cursor generation old h m s =
      elim (Bool-cases (ltb h.max_samples (length h.entries))) [
        | inl full ↦
            rw (full, evict) (renewed (omega (arith, Since-generation cursor generation old h s)))
        | inr fits ↦ rw (fits, evict) s
      ]

  placed :
      (cursor generation : ℕ) (old : List (Entry Double)) (h : History Double)
      (sample : Sample Double)
      → h.next_sequence + 1 < u64_mod
      → Descending d cursor old
      → Since cursor generation old h
      → Since cursor generation old (record h {
        entries = place d h.next_sequence sample h.entries;
        next_sequence = u64 (h.next_sequence + 1);
      })
  placed cursor generation old h sample m s (renewed g) = renewed g
  placed cursor generation old h sample m s (extended g c e) =
      extended g (omega arith) (place-Extends cursor h.next_sequence sample old h.entries c s e)

  append-Since :
      (cursor generation : ℕ) (old : List (Entry Double)) (h : History Double)
      (sample : Sample Double)
      → h.next_sequence + 1 < u64_mod
      → h.generation + 1 < u64_mod
      → Descending d cursor old
      → Since cursor generation old h
      → Since cursor generation old (append d h sample).0
  unfolding append
  append-Since cursor generation old h sample m g s e =
      elim (Bool-cases (unchanged d h.entries sample h.epsilon)) [
        | inl same ↦ rw (same, append) e
        | inr new ↦
            rw (new, append)
              (evict-Since cursor generation old _ g (placed cursor generation old h sample m s e))
      ]

  step-Since :
      (cursor generation : ℕ) (old : List (Entry Double)) (h : History Double) (s : Step d)
      → h.next_sequence + 1 < u64_mod
      → h.generation + 1 < u64_mod
      → Descending d cursor old
      → Since cursor generation old h
      → Since cursor generation old (step d h s)
  unfolding step clear configure
  step-Since cursor generation old h (appends sample) m g s e =
      append-Since cursor generation old h sample m g s e
  step-Since cursor generation old h clears m g s e =
      renewed (omega (arith, Since-generation cursor generation old h e))
  step-Since cursor generation old h (configures n epsilon) m g s e =
      renewed (omega (arith, Since-generation cursor generation old h e))

  append-generation :
      (h : History Double) (sample : Sample Double)
      → h.generation + 1 < u64_mod
      → (append d h sample).0.generation ≤ h.generation + 1
  unfolding append evict
  append-generation h sample m = ground arith

  step-generation :
      (h : History Double) (s : Step d)
      → h.generation + 1 < u64_mod
      → (step d h s).generation ≤ h.generation + 1
  unfolding step clear configure
  step-generation h (appends sample) m = append-generation h sample m
  step-generation h clears m = omega arith
  step-generation h (configures n epsilon) m = omega arith

  pub run-Since :
      (cursor generation : ℕ) (old : List (Entry Double)) (h : History Double) (ss : List (Step d))
      → h.next_sequence + length ss < u64_mod
      → h.generation + length ss < u64_mod
      → Descending d cursor old
      → Since cursor generation old h
      → Since cursor generation old (run d h ss)
  unfolding run
  run-Since cursor generation old h [] m g s e = e
  run-Since cursor generation old h (x ∷ xs) m g s e =
      run-Since cursor generation old (step d h x) xs (omega (arith, step-next d h x))
        (omega (arith, step-generation h x)) s
        (step-Since cursor generation old h x (omega arith) (omega arith) s e)
