-- ===== src/Runtime/Hub/Delivery.antt =====
-- Whom a publication reaches, and that a shutdown calls each callback at most once.
use linuxcnc_ctrl.Prelude.{
  ℕ, suc, ◌+◌, ◌≤◌, ◌<◌, ◌≡◌, refl, ap, ◌∙◌, Bool, true, false, Option, none, some, List, [], ◌∷◌,
  if◌then◌else◌, length, count_if, u64_mod, ◌==◌, All, arith,
}
use linuxcnc_ctrl.Runtime.Hub.{
  Entry, has_id, contains, emplace, erase, Hub, subscribe, reset, publish, close, Step, subscribes,
  resets, closes, step, run,
}

-- Every id in the map is below the next one, so that no id is used twice.
abbrev pub Below : ℕ → List Entry → Type 0
Below n xs = All (λ x. x.0 < n) xs

pub Below-mono : (m n : ℕ) (xs : List Entry) → m ≤ n → Below m xs → Below n xs
Below-mono m n [] h b = tt
Below-mono m n (x ∷ xs) h b = (omega arith, Below-mono m n xs h b.1)

pub Below-erase : (n i : ℕ) (xs : List Entry) → Below n xs → Below n (erase i xs)
unfolding erase
Below-erase n i [] b = tt
Below-erase n i (x ∷ xs) b = ground (arith, Below-erase n i xs b.1)

Below-contains : (n i : ℕ) (xs : List Entry) → Below n xs → n ≤ i → contains i xs ≡ false
unfolding contains
Below-contains n i [] b h = refl
Below-contains n i (x ∷ xs) b h = ground (arith, Below-contains n i xs b.1 h)

pub Below-count : (n i : ℕ) (xs : List Entry) → Below n xs → n ≤ i → count_if (has_id i) xs ≡ 0
Below-count n i [] b h = refl
Below-count n i (x ∷ xs) b h = ground (arith, Below-count n i xs b.1 h)

pub count-erase :
    (j i : ℕ) (xs : List Entry)
    → count_if (has_id j) (erase i xs) ≡ (if i == j then 0 else count_if (has_id j) xs)
unfolding erase
count-erase j i [] = ground arith
count-erase j i (x ∷ xs) = ground (arith, count-erase j i xs)

pub emplace-fresh :
    (n callback : ℕ) (xs : List Entry) → Below n xs → emplace n callback xs ≡ (n, callback) ∷ xs
unfolding emplace
emplace-fresh n callback xs b = rw (Below-contains n n xs b (omega arith))

-- `budget` more subscriptions leave the id counter below 2^64, and this id was handed out before.
record Numbered (i budget : ℕ) (h : Hub) : Type 0 where
  below : Below h.next_id h.callbacks
  old : i < h.next_id
  room : h.next_id + budget < u64_mod

subscribe-Numbered :
    (i b : ℕ) (h : Hub) (callback : Option ℕ)
    → Numbered i (suc b) h
    → Numbered i b (subscribe h callback).0
unfolding subscribe
subscribe-Numbered i b h none v = ground arith
subscribe-Numbered i b h (some c) v = ground (
  arith,
  emplace-fresh h.next_id c h.callbacks v.below,
  Below-mono h.next_id (h.next_id + 1) h.callbacks,
)

step-Numbered : (i b : ℕ) (h : Hub) (s : Step) → Numbered i (suc b) h → Numbered i b (step h s)
unfolding step reset close
step-Numbered i b h (subscribes callback) v = subscribe-Numbered i b h callback v
step-Numbered i b h (resets j) v = ground (arith, Below-erase h.next_id j h.callbacks v.below)
step-Numbered i b h closes v = ground arith

-- The steps that end a subscription: its own reset, and the end of the hub.
abbrev pub ends : ℕ → Step → Bool
ends i (resets j) = j == i
ends i closes = true
ends i (subscribes callback) = false

abbrev pub any_ends : ℕ → List Step → Bool
any_ends i [] = false
any_ends i (s ∷ ss) = if ends i s then true else any_ends i ss

abbrev pub calls_of : ℕ → Hub → ℕ
calls_of i h = count_if (has_id i) (publish h)

subscribe-calls :
    (i b : ℕ) (h : Hub) (callback : Option ℕ)
    → Numbered i b h
    → calls_of i (subscribe h callback).0 ≡ calls_of i h
unfolding subscribe publish
subscribe-calls i b h none v = refl
subscribe-calls i b h (some c) v =
    ground (arith, emplace-fresh h.next_id c h.callbacks v.below, v.old)

step-calls :
    (i b : ℕ) (h : Hub) (s : Step)
    → 0 < i
    → Numbered i b h
    → calls_of i (step h s) ≡ (if ends i s then 0 else calls_of i h)
unfolding step reset close publish
step-calls i b h (subscribes callback) pos v = subscribe-calls i b h callback v
step-calls i b h (resets j) pos v = ground (arith, count-erase i j h.callbacks)
step-calls i b h closes pos v = ground arith

run-calls :
    (i : ℕ) (h : Hub) (ss : List Step)
    → 0 < i
    → Numbered i (length ss) h
    → calls_of i (run h ss) ≡ (if any_ends i ss then 0 else calls_of i h)
unfolding run
run-calls i h [] pos v = refl
run-calls i h (s ∷ ss) pos v = ground (
  arith,
  step-calls i (length (s ∷ ss)) h s pos v,
  run-calls i (step h s) ss pos (step-Numbered i (length ss) h s v),
)

-- A hub that has handed out only ids below its next one.
pub record IsFresh (h : Hub) : Type 0 where
  pub below : Below h.next_id h.callbacks
  pub pos : 0 < h.next_id

subscribed :
    (h : Hub) (callback b : ℕ)
    → h.closed ≡ false
    → IsFresh h
    → h.next_id + b + 1 < u64_mod
    → (calls_of h.next_id (subscribe h (some callback)).0 ≡ 1)
      × Numbered h.next_id b (subscribe h (some callback)).0
unfolding subscribe publish
subscribed h callback b open_ v small = ground (
  arith,
  emplace-fresh h.next_id callback h.callbacks v.below,
  Below-mono h.next_id (h.next_id + 1) h.callbacks,
  Below-count h.next_id h.next_id h.callbacks,
)

subscribe-id :
    (h : Hub) (callback : ℕ) → h.closed ≡ false → (subscribe h (some callback)).1 ≡ h.next_id
unfolding subscribe
subscribe-id h callback open_ = rw open_

-- A subscription that an open hub with fresh ids has just handed out is called exactly once by a
-- publication after any further steps if none of them reset it or closed the hub, and otherwise not
-- at all: also when other subscriptions come and go, as long as the ids do not wrap.
pub delivery :
    (h : Hub) (callback : ℕ) (ss : List Step)
    → h.closed ≡ false
    → IsFresh h
    → h.next_id + length ss + 1 < u64_mod
    → calls_of (subscribe h (some callback)).1 (run (subscribe h (some callback)).0 ss)
      ≡ (if any_ends (subscribe h (some callback)).1 ss then 0 else 1)
delivery h callback ss open_ v small =
    let (one, numbered) = subscribed h callback (length ss) open_ v (omega arith) in
    rw (subscribe-id h callback open_) (
      run-calls h.next_id (subscribe h (some callback)).0 ss v.pos numbered
      ∙ ap (λ n. if any_ends h.next_id ss then 0 else n) one)
