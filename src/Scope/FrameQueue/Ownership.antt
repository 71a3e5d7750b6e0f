-- ===== src/Scope/FrameQueue/Ownership.antt =====
-- Only the owner moves the queue.
use linuxcnc_ctrl.Prelude.{
  ◌≡◌, refl, sym, ap, ◌∙◌, subst, ◌||◌, String, str_eq, eq_iff, Bool, true, false, not, ◌&&◌,
  Option, none, some, List, [], ◌∷◌, ◌++◌, if◌then◌else◌, is_some, arith, Bool-cases, inl, inr,
  if_holds,
}
use linuxcnc_ctrl.Scope.FrameQueue.{
  Frame, FrameQueue, acquire, clear, release, admit, publish, next, wait_next, generation_is,
  advance, acknowledge, Step, acquires, releases, clears, publishes, takes, waits, acknowledges,
  step, handed, run,
}

-- The step is a call of someone else than the owner. A publication is nobody's call.
abbrev pub is_strange : String → Step → Bool
is_strange owner (acquires caller) = not (str_eq owner caller)
is_strange owner (releases caller) = not (str_eq owner caller)
is_strange owner (clears caller) = not (str_eq owner caller)
is_strange owner (publishes frame) = false
is_strange owner (takes caller) = not (str_eq owner caller)
is_strange owner (waits caller) = not (str_eq owner caller)
is_strange owner (acknowledges caller generation) = not (str_eq owner caller)

abbrev is_release : String → Step → Bool
is_release owner (releases caller) = str_eq owner caller
is_release owner _ = false

-- The history in which, up to the owner's release, nobody else calls.
abbrev pub without_strangers : String → List Step → List Step
without_strangers owner [] = []
without_strangers owner (s ∷ ss) =
    let rest = without_strangers owner ss in
    if is_release owner s then s ∷ ss else if is_strange owner s then rest else s ∷ rest

-- A call of another leaves an owned queue as it is and gives no frame.
step-strange :
    (q : FrameQueue) (s : Step)
    → str_eq q.owner "" ≡ false
    → is_strange q.owner s ≡ true
    → step q s ≡ (q, none)
unfolding step acquire clear release next wait_next acknowledge
step-strange q (acquires caller) owned h = ground (arith, owned, h)
step-strange q (releases caller) owned h = ground (arith, owned, h)
step-strange q (clears caller) owned h = ground (arith, owned, h)
step-strange q (publishes frame) owned h = ground (arith, h)
step-strange q (takes caller) owned h = ground (arith, owned, h)
step-strange q (waits caller) owned h = ground (arith, owned, h)
step-strange q (acknowledges caller generation) owned h = ground (arith, owned, h)

next-owner : (q : FrameQueue) (caller : String) → (next q caller).0.owner ≡ q.owner
unfolding next
next-owner q caller =
    if_holds (λ (d : FrameQueue × Option Frame). d.0.owner ≡ q.owner)
      (not (str_eq q.owner caller) || not (is_some q.in_flight) || q.delivered) (q, none) _ refl
      refl

advance-owner : (q : FrameQueue) (o : Option Frame) → (advance q o).0.owner ≡ q.owner
unfolding advance
advance-owner q none = refl
advance-owner q (some p) = refl

-- Until its owner releases it, a queue stays with its owner.
step-owner :
    (q : FrameQueue) (s : Step)
    → str_eq q.owner "" ≡ false
    → is_release q.owner s ≡ false
    → (step q s).0.owner ≡ q.owner
unfolding step acquire clear release publish admit wait_next acknowledge
step-owner q (acquires caller) owned h = elim (Bool-cases (str_eq q.owner caller)) [
  | inl same ↦
      if_holds (λ (d : FrameQueue × Bool). d.0.owner ≡ q.owner) (str_eq caller "") (q, false) _ refl
        (if_holds (λ (d : FrameQueue × Bool). d.0.owner ≡ q.owner)
          (not (str_eq q.owner "") && not (str_eq q.owner caller)) (q, false) _ refl
          (sym ((eq_iff q.owner caller).0 same)))
  | inr differ ↦ ground (arith, owned, differ)
]
step-owner q (releases caller) owned h = ground (arith, h)
step-owner q (clears caller) owned h = ground arith
step-owner q (publishes frame) owned h = ground (arith, owned)
step-owner q (takes caller) owned h = next-owner q caller
step-owner q (waits caller) owned h =
    if_holds (λ (d : FrameQueue × Option Frame). d.0.owner ≡ q.owner)
      (not (str_eq q.owner caller) || not (is_some q.in_flight) || q.delivered) (q, none) _ refl
      refl
step-owner q (acknowledges caller generation) owned h =
    if_holds (λ (d : FrameQueue × Option Frame). d.0.owner ≡ q.owner)
      (not (str_eq q.owner caller) || not (generation_is q.in_flight generation)) (q, none) _ refl
      (advance-owner q q.pending)

-- The other callers are invisible to the owner. In any history that starts with an owned queue, one can
-- leave out every call that anyone but the owner makes before the owner releases the queue: the queue
-- ends in the same state, and the same frames are handed out in the same order.
pub run-without_strangers :
    (q : FrameQueue) (ss : List Step)
    → str_eq q.owner "" ≡ false
    → run q ss ≡ run q (without_strangers q.owner ss)
unfolding run
run-without_strangers q [] owned = refl
run-without_strangers q (s ∷ ss) owned = elim (Bool-cases (is_release q.owner s)) [
  | inl releasing ↦ rw releasing refl
  | inr held ↦ elim (Bool-cases (is_strange q.owner s)) [
    | inl strange ↦
        rw (held, strange, step-strange q s owned strange) (run-without_strangers q ss owned)
    | inr own ↦
        let same = step-owner q s owned held in
        let rest =
          subst (λ o. run (step q s).0 ss ≡ run (step q s).0 (without_strangers o ss)) same
            (run-without_strangers (step q s).0 ss (ap (λ o. str_eq o "") same ∙ owned)) in
        rw (held, own) (ap (λ x. (x.0, handed (step q s).1 ++ x.1)) rest)
  ]
]
