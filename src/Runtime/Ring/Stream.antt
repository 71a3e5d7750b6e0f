-- ===== src/Runtime/Ring/Stream.antt =====
-- The ring refines the whole stream of its events: it holds the last ones, and a reader gets all that
-- it has not seen or is told that it is behind.
use mathlib.Core.List.{append-nil, append_assoc}
use native.Mathlib.Nat.{suc-add, add_comm}
use linuxcnc_ctrl.Prelude.{
  ℕ, zero, suc, ◌+◌, ◌-◌, ◌≤◌, ◌<◌, ◌≡◌, refl, sym, ap, ◌∙◌, true, false, not, ◌&&◌, some, subst,
  Bool-cases, inl, inr, List, [], ◌∷◌, ◌++◌, if◌then◌else◌, length, length-append, ltb, u64_mod,
  ◌==◌, max, arith,
}
use linuxcnc_ctrl.Runtime.Ring.{
  Entry, ReadResult, Ring, create, pop_front, publish, publish_all, newer, misses, after,
}

-- Every event that was published, with its number.
abbrev pub numbered : ℕ → List ℕ → List Entry
numbered n [] = []
numbered n (event ∷ events) = record { sequence = n; event = event } ∷ numbered (n + 1) events

abbrev pub drop {ℓ} : {A : Type ℓ} → ℕ → List A → List A
drop zero xs = xs
drop (suc n) [] = []
drop (suc n) (x ∷ xs) = drop n xs

module _ {ℓ} {A : Type ℓ} where
  drop-nil : (n : ℕ) → drop {A = A} n [] ≡ []
  drop-nil zero = refl
  drop-nil (suc n) = refl

  drop-append : (n : ℕ) (xs ys : List A) → n ≤ length xs → drop n (xs ++ ys) ≡ drop n xs ++ ys
  drop-append zero xs ys h = refl
  drop-append (suc n) [] ys h = absurd (omega arith)
  drop-append (suc n) (x ∷ xs) ys h = drop-append n xs ys (omega arith)

  length-drop : (n : ℕ) (xs : List A) → length (drop n xs) ≡ length xs - n
  length-drop zero xs = omega arith
  length-drop (suc n) [] = omega arith
  length-drop (suc n) (x ∷ xs) = omega (arith, length-drop n xs)

  drop-drop : (m n : ℕ) (xs : List A) → drop m (drop n xs) ≡ drop (n + m) xs
  drop-drop m zero xs = ap (λ k. drop k xs) (omega arith)
  drop-drop m (suc n) [] = drop-nil m ∙ sym (drop-nil (suc n + m))
  drop-drop m (suc n) (x ∷ xs) = rw suc-add (drop-drop m n xs)

numbered-append :
    (n : ℕ) (es fs : List ℕ) → numbered n (es ++ fs) ≡ numbered n es ++ numbered (n + length es) fs
numbered-append n [] fs = ap (λ k. numbered k fs) (omega arith)
numbered-append n (e ∷ es) fs =
    ap (λ l. record { sequence = n; event = e } ∷ l)
      (numbered-append (n + 1) es fs ∙ ap (λ k. numbered (n + 1) es ++ numbered k fs) (omega arith))

length-numbered : (n : ℕ) (es : List ℕ) → length (numbered n es) ≡ length es
length-numbered n [] = refl
length-numbered n (e ∷ es) = ap suc (length-numbered (n + 1) es)

drop-numbered : (k n : ℕ) (es : List ℕ) → drop k (numbered n es) ≡ numbered (n + k) (drop k es)
drop-numbered zero n es = ap (λ m. numbered m es) (omega arith)
drop-numbered (suc k) n [] = refl
drop-numbered (suc k) n (e ∷ es) =
    drop-numbered k (n + 1) es ∙ ap (λ m. numbered m (drop k es)) (omega arith)

pop_front-drop : (k : ℕ) (xs : List Entry) → pop_front (drop k xs) ≡ drop (suc k) xs
pop_front-drop zero [] = refl
pop_front-drop zero (x ∷ xs) = refl
pop_front-drop (suc k) [] = refl
pop_front-drop (suc k) (x ∷ xs) = pop_front-drop k xs

-- The ring of a capacity over the stream of these events: the last `capacity` ones.
pub record Holds (events : List ℕ) (r : Ring) : Type 0 where
  pub last : r.entries ≡ drop (length events - r.capacity) (numbered 1 events)
  pub next : r.next_sequence ≡ length events + 1

abbrev bounded_push : ℕ → List Entry → List Entry
bounded_push capacity grown = if ltb capacity (length grown) then pop_front grown else grown

bounded_push-drop :
    (capacity n : ℕ) (all : List Entry)
    → length all ≡ suc n
    → bounded_push capacity (drop (n - capacity) all) ≡ drop (suc n - capacity) all
bounded_push-drop capacity n all h =
    elim (Bool-cases (ltb capacity (length (drop (n - capacity) all)))) [
      | inl full ↦ rw full (
          pop_front-drop (n - capacity) all
          ∙ ap (λ m. drop m all) {x = suc (n - capacity)}
              (ground (arith, length-drop (n - capacity) all)))
      | inr room ↦
          rw room (
            ap (λ m. drop m all) {x = n - capacity}
              (ground (arith, length-drop (n - capacity) all)))
    ]

grown-drop :
    (events : List ℕ) (event : ℕ) (r : Ring)
    → Holds events r
    → r.entries ++ record { sequence = r.next_sequence; event = event } ∷ []
      ≡ drop (length events - r.capacity) (numbered 1 (events ++ event ∷ []))
grown-drop events event r h =
    ap (λ l. l ++ record { sequence = r.next_sequence; event = event } ∷ []) h.last
    ∙ ap (λ m. drop k (numbered 1 events) ++ record { sequence = m; event = event } ∷ [])
        (h.next ∙ add_comm (length events) 1)
    ∙ sym (drop-append k (numbered 1 events) _ (omega (arith, length-numbered 1 events)))
    ∙ ap (drop k) (sym (numbered-append 1 events (event ∷ [])))
  where
    k : ℕ
    k = length events - r.capacity

publish-Holds :
    (events : List ℕ) (event : ℕ) (r : Ring)
    → length events + 2 < u64_mod
    → Holds events r
    → Holds (events ++ event ∷ []) (publish r event).0
unfolding publish
publish-Holds events event r small h = record {
  last =
      ap (bounded_push r.capacity) (grown-drop events event r h)
      ∙ bounded_push-drop r.capacity (length events) _
          (length-numbered 1 (events ++ event ∷ []) ∙ long)
      ∙ ap (λ m. drop (m - r.capacity) (numbered 1 (events ++ event ∷ []))) (sym long);
  next = omega (arith, h.next, long);
}
  where
    long : length (events ++ event ∷ []) ≡ suc (length events)
    long = omega (arith, length-append {0} events (event ∷ []))

publish_all-Holds :
    (before events : List ℕ) (r : Ring)
    → length before + length events + 1 < u64_mod
    → Holds before r
    → Holds (before ++ events) (publish_all r events)
unfolding publish_all
publish_all-Holds before [] r small h = rw (append-nil before) h
publish_all-Holds before (e ∷ es) r small h =
    subst (λ l. Holds l (publish_all (publish r e).0 es)) (append_assoc before (e ∷ []) es)
      (publish_all-Holds (before ++ e ∷ []) es (publish r e).0
        (omega (arith, length-append {0} before (e ∷ [])))
        (publish-Holds before e r (omega arith) h))

newer-numbered :
    (s n : ℕ) (es : List ℕ) → newer s (numbered n es) ≡ drop (s + 1 - n) (numbered n es)
unfolding newer
newer-numbered s n [] = sym (drop-nil (s + 1 - n))
newer-numbered s n (e ∷ es) =
    let rest = numbered (n + 1) es in
    let all = record { sequence = n; event = e } ∷ rest in
    elim (Bool-cases (ltb s n)) [
      | inl ahead ↦ rw ahead (
          ap (λ l. record { sequence = n; event = e } ∷ l)
            (newer-numbered s (n + 1) es
              ∙ ap (λ m. drop m rest) {x = s + 1 - (n + 1)} {y = 0} (ground arith))
          ∙ ap (λ m. drop m all) {x = 0} {y = s + 1 - n} (ground arith))
      | inr seen ↦ rw seen (
          newer-numbered s (n + 1) es
          ∙ ap (λ m. drop m all) {x = suc (s + 1 - (n + 1))} {y = s + 1 - n} (ground arith))
    ]

misses-numbered :
    (s n : ℕ) (es : List ℕ)
    → s + 1 < u64_mod
    → 0 < length es
    → misses s (numbered n es) ≡ (not (s == 0) && ltb (s + 1) n)
unfolding misses
misses-numbered s n [] h pos = absurd (omega arith)
misses-numbered s n (e ∷ es) h pos = ground arith

-- Both tests of `after`, on what is left of a stream when `k` events are gone.
read_dropped :
    (s k : ℕ) (es : List ℕ)
    → s + 1 < u64_mod
    → 0 < length (drop k es)
    → misses s (drop k (numbered 1 es)) ≡ (not (s == 0) && ltb s k)
read_dropped s k es h pos =
    ap (misses s) (drop-numbered k 1 es)
    ∙ misses-numbered s (1 + k) (drop k es) h pos
    ∙ ground arith

newer-dropped :
    (s k : ℕ) (es : List ℕ) → newer s (drop k (numbered 1 es)) ≡ drop (max s k) (numbered 1 es)
newer-dropped s k es =
    ap (newer s) (drop-numbered k 1 es)
    ∙ newer-numbered s (1 + k) (drop k es)
    ∙ ap (drop (s + 1 - (1 + k))) (sym (drop-numbered k 1 es))
    ∙ drop-drop (s + 1 - (1 + k)) k (numbered 1 es)
    ∙ ap (λ m. drop m (numbered 1 es)) {x = k + (s + 1 - (1 + k))} {y = max s k} (omega arith)

-- Publishing fewer than 2^64 - 1 events on a ring that the constructor has made leaves the ring
-- with the last `capacity` events of the stream under their numbers.
pub publish_all-Holds_created :
    (capacity : ℕ) (events : List ℕ) (r : Ring)
    → length events + 1 < u64_mod
    → create capacity ≡ some r
    → Holds events (publish_all r events)
unfolding create
publish_all-Holds_created capacity events r h c =
    publish_all-Holds [] events r (omega arith) (ground arith)

-- What a reader who has seen the events up to a number must get: all later ones, unless one of them is
-- no longer held, and then only that it is behind. A reader at 0 asks for whatever is held.
abbrev pub answer : ℕ → ℕ → List Entry → ReadResult
answer s evicted stream =
    if s == 0
    then record { behind = false; entries = drop evicted stream }
    else if ltb s evicted
    then record { behind = true; entries = [] }
    else record { behind = false; entries = drop s stream }

abbrev read : ℕ → List Entry → ReadResult
read s entries =
    if misses s entries
    then record { behind = true; entries = [] }
    else record { behind = false; entries = newer s entries }

max_of_le : (s k : ℕ) → k ≤ s → max s k ≡ s
max_of_le s k h = omega arith

read-drop :
    (s k : ℕ) (es : List ℕ)
    → s + 1 < u64_mod
    → 0 < length (drop k es)
    → read s (drop k (numbered 1 es)) ≡ answer s k (numbered 1 es)
read-drop s k es h pos =
    rw (read_dropped s k es h pos, newer-dropped s k es)
      (elim (Bool-cases (s == 0)) [
        | inl zero_ ↦ rw zero_ (
            ap (λ m. record { behind = false; entries = drop m (numbered 1 es) }) {x = max s k}
              {y = k} (ground arith))
        | inr later ↦ rw later (elim (Bool-cases (ltb s k)) [
          | inl gone ↦ rw gone
          | inr held ↦ rw held (
              ap (λ m. record { behind = false; entries = drop m (numbered 1 es) }) {x = max s k}
                {y = s} (ground (arith, max_of_le s k)))
        ])
      ])

read-drop_nil : (s k : ℕ) → k ≡ 0 → read s (drop k []) ≡ answer s k []
unfolding newer misses
read-drop_nil s k h = ground (arith, drop-nil {A = Entry} s, drop-nil {A = Entry} k)

-- On a ring of positive capacity that holds the last events of a stream, `after` a sequence number
-- that is not the largest one answers a fresh reader at 0 with all that is retained; any other
-- reader gets the events newer than its number, or, exactly when one of those is no longer
-- retained, the report that it is behind and no event.
pub after-answer :
    (r : Ring) (events : List ℕ) (s : ℕ)
    → 0 < r.capacity
    → s + 1 < u64_mod
    → Holds events r
    → after r s ≡ answer s (length events - r.capacity) (numbered 1 events)
unfolding after
after-answer r [] s pos h v = rw v.last (read-drop_nil s (0 - r.capacity) (omega arith))
after-answer r (e ∷ es) s pos h v = rw v.last (
    read-drop s (length (e ∷ es) - r.capacity) (e ∷ es) h
      (omega (arith, length-drop (length (e ∷ es) - r.capacity) (e ∷ es))))
