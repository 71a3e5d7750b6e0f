-- ===== src/Position/History/Sync.antt =====
-- A consumer that keeps the packed points of one batch, and applies the delta since that batch, holds
-- the packed points of a snapshot again.
use mathlib.Core.List.{append-nil, append_assoc, reverse-append, reverse-cons}
use linuxcnc_ctrl.Doubles.{Doubles}
use linuxcnc_ctrl.Prelude.{
  ℕ, ◌+◌, ◌-◌, ◌*◌, ◌≤◌, ◌<◌, ◌≡◌, refl, sym, ap, ◌∙◌, subst, inl, inr, Bool, true, false, not,
  ◌&&◌, List, [], ◌∷◌, ◌++◌, reverse, if◌then◌else◌, length, length-append, take, take-length,
  take-append, is_empty, ltb, u64_mod, ◌==◌, Bool-cases, All, All-append, arith,
}
use linuxcnc_ctrl.Position.History.Bounds.{Descending, Inv}
use linuxcnc_ctrl.Position.History.Extends.{
  FreshOnly, Kept, Extends, Extends-refl, Since, renewed, extended, run-Since,
}
use linuxcnc_ctrl.Position.History.{
  Entry, History, Batch, Step, run, pack, pack_all, snapshot, since, since_entries, lower_bound,
  replaces, front_sequence, position_stride,
}

module _ (d : Doubles) where
  open d use {Double}

  -- What a consumer does with a batch, as the comments of PositionHistoryBatch say: a reset replaces
  -- its points, and a delta drops `replace_count` points from their tail and appends the new ones.
  abbrev pub consume : Batch Double → List Double → List Double
  consume b points =
      if b.reset
      then b.packed
      else take (length points - b.replace_count * position_stride) points ++ b.packed

  abbrev pub HasNine : Entry Double → Type 0
  HasNine e = length e.sample.coordinates ≡ 9

  All-reverse {κ} :
      (P : Entry Double → Type κ) (xs : List (Entry Double)) → All P xs → All P (reverse xs)
  All-reverse P [] h = tt
  All-reverse P (x ∷ xs) h =
      subst (All P) (sym (reverse-cons x xs))
        (All-append P (reverse xs) (x ∷ []) (All-reverse P xs h.1) (h.0, tt))

  lower_bound-below :
      (cursor : ℕ) (xs ys : List (Entry Double))
      → All (λ e. e.sequence < cursor) xs
      → lower_bound d cursor (xs ++ ys) ≡ lower_bound d cursor ys
  unfolding lower_bound
  lower_bound-below cursor [] ys h = refl
  lower_bound-below cursor (x ∷ xs) ys h = ground (arith, lower_bound-below cursor xs ys h.1)

  lower_bound-from :
      (cursor : ℕ) (ys : List (Entry Double))
      → All (λ e. cursor ≤ e.sequence) ys
      → lower_bound d cursor ys ≡ ys
  unfolding lower_bound
  lower_bound-from cursor [] h = refl
  lower_bound-from cursor (y ∷ ys) h = ground arith

  FreshOnly-from :
      (cursor : ℕ) (replaced : Bool) (fresh : List (Entry Double))
      → FreshOnly d cursor replaced fresh
      → All (λ e. cursor ≤ e.sequence) fresh
  FreshOnly-from cursor replaced [] f = tt
  FreshOnly-from cursor replaced (e ∷ []) f = (f.0, tt)
  FreshOnly-from cursor replaced (e ∷ g ∷ fs) f = (f.0, FreshOnly-from cursor replaced (g ∷ fs) f.1)

  Descending-below :
      (cursor n : ℕ) (es : List (Entry Double))
      → n ≤ cursor
      → Descending d n es
      → All (λ e. e.sequence < cursor) es
  Descending-below cursor n [] h s = tt
  Descending-below cursor n (e ∷ es) h s =
      (omega arith, Descending-below cursor e.sequence es (omega arith) s.2)

  replaces-append :
      (cursor : ℕ) (x : Entry Double) (xs ys : List (Entry Double))
      → replaces d cursor ((xs ++ x ∷ []) ++ ys) ≡ replaces d cursor (xs ++ x ∷ [])
  unfolding replaces
  replaces-append cursor x [] ys = refl
  replaces-append cursor x (z ∷ xs) ys = refl

  replaces-reverse :
      (cursor : ℕ) (replaced : Bool) (fresh : List (Entry Double))
      → FreshOnly d cursor replaced fresh
      → replaces d cursor (reverse fresh) ≡ replaced
  unfolding replaces
  replaces-reverse cursor replaced [] f = sym f
  replaces-reverse cursor replaced (e ∷ []) f = f.1
  replaces-reverse cursor replaced (e ∷ g ∷ fs) f =
      ap (replaces d cursor) (reverse-cons e (g ∷ fs) ∙ ap (λ l. l ++ e ∷ []) (reverse-cons g fs))
      ∙ replaces-append cursor g (reverse fs) (e ∷ [])
      ∙ ap (replaces d cursor) (sym (reverse-cons g fs))
      ∙ replaces-reverse cursor replaced (g ∷ fs) f.1

  pack_all-append :
      (xs ys : List (Entry Double)) → pack_all d (xs ++ ys) ≡ pack_all d xs ++ pack_all d ys
  unfolding pack_all
  pack_all-append [] ys = refl
  pack_all-append (x ∷ xs) ys =
      ap (λ l. pack d x.sample ++ l) (pack_all-append xs ys)
      ∙ sym (append_assoc (pack d x.sample) (pack_all d xs) (pack_all d ys))

  -- Reading a deque from the cursor finds exactly the fresh entries.
  lower_bound-fresh :
      (cursor : ℕ) (replaced : Bool) (fresh base : List (Entry Double))
      → FreshOnly d cursor replaced fresh
      → All (λ e. e.sequence < cursor) base
      → lower_bound d cursor (reverse (fresh ++ base)) ≡ reverse fresh
  lower_bound-fresh cursor replaced fresh base f b =
      ap (lower_bound d cursor) (reverse-append fresh base)
      ∙ lower_bound-below cursor (reverse base) (reverse fresh) (All-reverse _ base b)
      ∙ lower_bound-from cursor (reverse fresh)
          (All-reverse _ fresh (FreshOnly-from cursor replaced fresh f))

  abbrev dropped : Bool → ℕ
  dropped replaced = if replaced then 1 else 0

  length-pack : (e : Entry Double) → HasNine e → length (pack d e.sample) ≡ 10
  unfolding pack
  length-pack e h = length-append e.sample.coordinates _ ∙ omega (arith, h)

  length-last : (e : Entry Double) → HasNine e → length (pack_all d (e ∷ [])) ≡ 10
  unfolding pack_all
  length-last e h = rw append-nil (length-pack e h)

  -- The points that a delta leaves are those of the entries that are kept.
  take-Kept :
      (replaced : Bool) (old base : List (Entry Double))
      → Kept d replaced old base
      → All HasNine old
      → let points = pack_all d (reverse old) in
        take (length points - dropped replaced * position_stride) points ≡ pack_all d (reverse base)
  take-Kept false old base k n =
      let points = pack_all d (reverse old) in
      ap (λ m. take m points) {x = length points - 0 * 10} {y = length points} (omega arith)
      ∙ take-length points
      ∙ ap (λ l. pack_all d (reverse l)) k
  take-Kept true old base (x, k) n =
      let kept = pack_all d (reverse base) in
      let last = pack_all d (x ∷ []) in
      let points = kept ++ last in
      let same : pack_all d (reverse old) ≡ points =
        ap (λ l. pack_all d (reverse l)) k
        ∙ ap (pack_all d) (reverse-cons x base)
        ∙ pack_all-append (reverse base) (x ∷ []) in
      ap (λ l. take (length l - 1 * 10) l) same
      ∙ ap (λ m. take m points) {x = length points - 1 * 10} {y = length kept}
          (omega (arith, length-append kept last, length-last x (subst (All HasNine) k n).0))
      ∙ take-append kept last

  -- What `since` answers below its early return, once a delta is known to be enough.
  abbrev is_stale : ℕ → ℕ → Bool
  is_stale generation current = not (generation == 0) && not (generation == current)

  consume_entries :
      (h : History Double) (es : List (Entry Double)) (cursor generation : ℕ) (points : List Double)
      → (is_stale generation h.generation ≡ false
          → take
                (length points
                  - dropped (replaces d cursor (lower_bound d cursor es)) * position_stride)
                points
              ++ pack_all d (lower_bound d cursor es)
            ≡ pack_all d es)
      → consume (since_entries d h es cursor 0 generation) points ≡ pack_all d es
  unfolding since_entries
  consume_entries h es cursor generation points delta =
      elim (Bool-cases (is_stale generation h.generation)) [
        | inl stale ↦ rw stale (ap (pack_all d) (take-length es))
        | inr current ↦ elim (Bool-cases (ltb cursor (front_sequence d h.next_sequence es))) [
          | inl rolled ↦ rw (current, rolled) (ap (pack_all d) (take-length es))
          | inr held ↦
              rw (current, held) (rw (take-length (lower_bound d cursor es)) (delta current))
        ]
      ]

  Kept-below :
      (cursor : ℕ) (replaced : Bool) (old base : List (Entry Double))
      → Kept d replaced old base
      → All (λ e. e.sequence < cursor) old
      → All (λ e. e.sequence < cursor) base
  Kept-below cursor false old base k b = subst (All (λ e. e.sequence < cursor)) k b
  Kept-below cursor true old base (x, k) b = (subst (All (λ e. e.sequence < cursor)) k b).1

  extended_delta :
      (cursor : ℕ) (old new : List (Entry Double))
      → All (λ e. e.sequence < cursor) old
      → All HasNine old
      → Extends d cursor old new
      → let points = pack_all d (reverse old) in
        take
            (length points
              - dropped (replaces d cursor (lower_bound d cursor (reverse new))) * position_stride)
            points
          ++ pack_all d (lower_bound d cursor (reverse new))
        ≡ pack_all d (reverse new)
  extended_delta cursor old new b n e =
      let points = pack_all d (reverse old) in
      let below = Kept-below cursor e.replaced old e.base e.kept b in
      let found : lower_bound d cursor (reverse new) ≡ reverse e.fresh =
        ap (λ l. lower_bound d cursor (reverse l)) e.split
        ∙ lower_bound-fresh cursor e.replaced e.fresh e.base e.only below in
      ap
        (λ l.
          take (length points - dropped (replaces d cursor l) * position_stride) points
          ++ pack_all d l)
        found
      ∙ ap
          (λ r.
            take (length points - dropped r * position_stride) points
            ++ pack_all d (reverse e.fresh))
          (replaces-reverse cursor e.replaced e.fresh e.only)
      ∙ ap (λ l. l ++ pack_all d (reverse e.fresh)) (take-Kept e.replaced old e.base e.kept n)
      ∙ sym (pack_all-append (reverse e.base) (reverse e.fresh))
      ∙ ap (pack_all d) (sym (reverse-append e.fresh e.base))
      ∙ ap (λ l. pack_all d (reverse l)) (sym e.split)

  empty_old :
      (cursor : ℕ) (replaced : Bool) (old fresh base : List (Entry Double))
      → [] ≡ fresh ++ base
      → Kept d replaced old base
      → FreshOnly d cursor replaced fresh
      → old ≡ []
  empty_old cursor false old [] [] e k f = k
  empty_old cursor true old [] [] e k f = cc
  empty_old cursor replaced old [] (b ∷ base) e k f = cc
  empty_old cursor replaced old (g ∷ fresh) base e k f = cc

  empty_entries : (es : List (Entry Double)) → is_empty es ≡ true → es ≡ []
  empty_entries [] h = refl
  empty_entries (e ∷ es) h = cc

  current_of :
      (generation current : ℕ)
      → 0 < generation
      → is_stale generation current ≡ false
      → generation ≡ current
  current_of generation current pos h = ground arith

  Extends-of :
      (cursor generation : ℕ) (old : List (Entry Double)) (h : History Double)
      → generation ≡ h.generation
      → Since d cursor generation old h
      → Extends d cursor old h.entries
  Extends-of cursor generation old h same (renewed g) = absurd (omega arith)
  Extends-of cursor generation old h same (extended g c e) = e

  pack_all-nil : pack_all d (reverse []) ≡ []
  unfolding pack_all
  pack_all-nil = refl

  consume_nothing :
      (h : History Double) (cursor generation : ℕ) (points : List Double)
      → is_empty h.entries ≡ true
      → (is_stale generation h.generation ≡ false → points ≡ [])
      → consume (since d h cursor 0 generation) points ≡ []
  unfolding since
  consume_nothing h cursor generation points none_ known =
      elim (Bool-cases (is_stale generation h.generation)) [
        | inl stale ↦ rw (none_, stale)
        | inr current ↦ elim (Bool-cases (cursor == h.next_sequence)) [
          | inl same ↦
              rw (none_, current, same) (ap (λ p. take (length p - 0 * 10) p ++ []) (known current))
          | inr moved ↦ rw (none_, current, moved)
        ]
      ]

  since-consumed :
      (cursor generation : ℕ) (old : List (Entry Double)) (h : History Double)
      → 0 < generation
      → Descending d cursor old
      → All HasNine old
      → Since d cursor generation old h
      → consume (since d h cursor 0 generation) (pack_all d (reverse old))
        ≡ pack_all d (reverse h.entries)
  unfolding since
  since-consumed cursor generation old h pos s n e =
      let below = Descending-below cursor cursor old (omega arith) s in
      let points = pack_all d (reverse old) in
      elim (Bool-cases (is_empty h.entries)) [
        | inr some_ ↦
            rw (some_, since)
              (consume_entries h (reverse h.entries) cursor generation points (λ c.
                extended_delta cursor old h.entries below n (
                  Extends-of cursor generation old h (current_of generation h.generation pos c) e)))
        | inl none_ ↦
            let gone = empty_entries h.entries none_ in
            consume_nothing h cursor generation points none_ (λ c.
              let x =
                Extends-of cursor generation old h (current_of generation h.generation pos c) e in
              ap (λ l. pack_all d (reverse l))
                (empty_old cursor x.replaced old x.fresh x.base (sym gone ∙ x.split) x.kept x.only)
              ∙ pack_all-nil)
            ∙ sym (ap (λ l. pack_all d (reverse l)) gone ∙ pack_all-nil)
      ]

  -- The delta protocol is right. Take a history that satisfies the invariant, has a positive
  -- generation and holds only entries of nine coordinates. A consumer that holds the packed points
  -- of its snapshot, and applies the unlimited delta that `since` gives for the cursor and the
  -- generation of that snapshot, holds exactly the packed points of a snapshot of the present:
  -- after any `append`, `clear` and `configure` calls in between, through coalesced points,
  -- evictions and resets, as long as neither counter can wrap during them.
  pub delta_sync :
      (h : History Double) (ss : List (Step d))
      → Inv d h
      → 0 < h.generation
      → h.next_sequence + length ss < u64_mod
      → h.generation + length ss < u64_mod
      → All HasNine h.entries
      → let b = snapshot d h in
        consume (since d (run d h ss) b.next_sequence 0 b.generation) b.packed
        ≡ (snapshot d (run d h ss)).packed
  unfolding snapshot
  delta_sync h ss v pos m g n =
      since-consumed h.next_sequence h.generation h.entries (run d h ss) pos v.sorted n (
        run-Since d h.next_sequence h.generation h.entries h ss m g v.sorted
          (extended refl (omega arith) (Extends-refl d h.next_sequence h.entries)))
