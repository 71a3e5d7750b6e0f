-- ===== src/Scope/FrameQueue/Numbering.antt =====
-- The numbers of the frames that a consumer gets: they grow, and every gap is reported.
use linuxcnc_ctrl.Prelude.{
  ℕ, ◌+◌, ◌≤◌, ◌<◌, ◌≡◌, refl, String, str_eq, Bool, true, false, not, Option, none, some, List, [],
  ◌∷◌, ◌++◌, if◌then◌else◌, length, u64, u64_mod, Bool-cases, inl, inr, subst, sym, ◌&&◌, arith,
}
use linuxcnc_ctrl.Scope.FrameQueue.{
  Frame, FrameQueue, empty_queue, acquire, clear, release, admit, publish, next, wait_next,
  acknowledge, Step, acquires, releases, clears, publishes, takes, waits, acknowledges, step,
  handed, run,
}

-- How the numbers of the frame in flight, of the pending one and of the next one hang together.
abbrev pub Numbered : Option Frame → Option Frame → ℕ → Bool → ℕ → Type 0
Numbered none none skipped delivered n = (skipped ≡ 0) × (delivered ≡ false)
Numbered none (some p) skipped delivered n = ⊥
Numbered (some f) none skipped delivered n = (skipped ≡ 0) × (n ≡ f.generation + 1)
Numbered (some f) (some p) skipped delivered n =
    (p.generation ≡ f.generation + 1 + skipped) × (n ≡ p.generation + 1)

abbrev pub Inv : FrameQueue → Type 0
Inv q = Numbered q.in_flight q.pending q.pending_skipped_frames q.delivered q.next_generation

-- The least number that the next frame handed out can have.
abbrev floor_of : Option Frame → Bool → ℕ → ℕ
floor_of none delivered n = n
floor_of (some f) delivered n = if delivered then f.generation + 1 else f.generation

abbrev floor : FrameQueue → ℕ
floor q = floor_of q.in_flight q.delivered q.next_generation

-- What is handed out lies between the floor before and the floor after.
abbrev Between : ℕ → ℕ → Option Frame → Type 0
Between low high none = low ≤ high
Between low high (some f) = (low ≤ f.generation) × (f.generation < high)

record Steps (q : FrameQueue) (r : FrameQueue × Option Frame) : Type 0 where
  inv : Inv r.0
  counts : r.0.next_generation ≤ q.next_generation + 1
  between : Between (floor q) (floor r.0) r.1

admit-Inv :
    (flying waiting : Option Frame) (skipped n : ℕ) (delivered : Bool) (q : FrameQueue)
    (frame : Frame)
    → n + 1 < u64_mod
    → Numbered flying waiting skipped delivered n
    → q.in_flight ≡ flying
    → q.pending ≡ waiting
    → q.pending_skipped_frames ≡ skipped
    → q.delivered ≡ delivered
    → q.next_generation ≡ u64 (n + 1)
    → frame.generation ≡ n
    → Inv (admit q frame)
unfolding admit
admit-Inv none none skipped n delivered q frame m v a b c e g h = ground arith
admit-Inv none (some p) skipped n delivered q frame m v a b c e g h = absurd v
admit-Inv (some f) none skipped n delivered q frame m v a b c e g h = ground arith
admit-Inv (some f) (some p) skipped n delivered q frame m v a b c e g h = ground arith

admit-floor :
    (flying waiting : Option Frame) (skipped n : ℕ) (delivered : Bool) (q : FrameQueue)
    (frame : Frame)
    → n + 1 < u64_mod
    → Numbered flying waiting skipped delivered n
    → q.in_flight ≡ flying
    → q.delivered ≡ delivered
    → q.next_generation ≡ u64 (n + 1)
    → frame.generation ≡ n
    → (floor_of flying delivered n ≤ floor (admit q frame))
      × ((admit q frame).next_generation ≤ n + 1)
unfolding admit
admit-floor none none skipped n delivered q frame m v a e g h = ground arith
admit-floor none (some p) skipped n delivered q frame m v a e g h = absurd v
admit-floor (some f) none skipped n delivered q frame m v a e g h = ground arith
admit-floor (some f) (some p) skipped n delivered q frame m v a e g h = ground arith

publish-Steps :
    (q : FrameQueue) (frame : Frame)
    → q.next_generation + 1 < u64_mod
    → Inv q
    → Steps q ((publish q frame).0, none)
unfolding publish
publish-Steps q frame m v = elim (Bool-cases (str_eq q.owner "")) [
  | inl nobody ↦
      rw (nobody, publish) (record { inv = v; counts = omega arith; between = omega arith })
  | inr owned ↦
      let f = record frame { generation = q.next_generation; skipped_frames = 0 } in
      let r = record q { next_generation = u64 (q.next_generation + 1) } in
      let (floors, counts) =
        admit-floor q.in_flight q.pending q.pending_skipped_frames q.next_generation q.delivered r f
          m v refl refl refl refl in
      rw (owned, publish)
        (record {
          inv =
              admit-Inv q.in_flight q.pending q.pending_skipped_frames q.next_generation q.delivered
                r f m v refl refl refl refl refl refl;
          counts = counts;
          between = floors;
        })
]

-- The state without the owner, of which the numbers do not depend.
abbrev at : String → Option Frame → Option Frame → Bool → ℕ → ℕ → ℕ → FrameQueue
at owner flying waiting delivered n skipped total = record {
  owner = owner;
  in_flight = flying;
  pending = waiting;
  delivered = delivered;
  next_generation = n;
  pending_skipped_frames = skipped;
  skipped_frames = total;
}

next-Steps :
    (flying waiting : Option Frame) (delivered : Bool) (owner caller : String) (n skipped total : ℕ)
    → let q = at owner flying waiting delivered n skipped total in Inv q → Steps q (next q caller)
unfolding next
next-Steps none none delivered owner caller n skipped total v = ground arith
next-Steps none (some p) delivered owner caller n skipped total v = absurd v
next-Steps (some f) none delivered owner caller n skipped total v = ground arith
next-Steps (some f) (some p) delivered owner caller n skipped total v = ground arith

acknowledge-Steps :
    (flying waiting : Option Frame) (delivered : Bool) (owner caller : String)
    (n skipped total generation : ℕ)
    → let q = at owner flying waiting delivered n skipped total in
      Inv q → Steps q (acknowledge q caller generation)
unfolding acknowledge
acknowledge-Steps none none delivered owner caller n skipped total generation v = ground arith
acknowledge-Steps none (some p) delivered owner caller n skipped total generation v = absurd v
acknowledge-Steps (some f) none delivered owner caller n skipped total generation v = ground arith
acknowledge-Steps (some f) (some p) delivered owner caller n skipped total generation v =
    ground arith

clear-Steps :
    (flying waiting : Option Frame) (delivered : Bool) (owner caller : String) (n skipped total : ℕ)
    → let q = at owner flying waiting delivered n skipped total in
      Inv q → Steps q (clear q caller, none) × Steps q (release q caller, none)
unfolding clear release
clear-Steps none none delivered owner caller n skipped total v = ground arith
clear-Steps none (some p) delivered owner caller n skipped total v = absurd v
clear-Steps (some f) none delivered owner caller n skipped total v = ground arith
clear-Steps (some f) (some p) delivered owner caller n skipped total v = ground arith

stays : (q : FrameQueue) (owner : String) → Inv q → Steps q (record q { owner = owner }, none)
stays q owner v = record { inv = v; counts = omega arith; between = omega arith }

acquire-Steps : (q : FrameQueue) (owner : String) → Inv q → Steps q ((acquire q owner).0, none)
unfolding acquire
acquire-Steps q owner v = elim (Bool-cases (str_eq owner "")) [
  | inl nobody ↦ rw (nobody, acquire) (stays q q.owner v)
  | inr named ↦ elim (Bool-cases (not (str_eq q.owner "") && not (str_eq q.owner owner))) [
    | inl taken ↦ rw (named, taken, acquire) (stays q q.owner v)
    | inr free ↦ rw (named, free, acquire) (stays q owner v)
  ]
]

wait_next-next : (q : FrameQueue) (owner : String) → wait_next q owner ≡ next q owner
unfolding wait_next next
wait_next-next q owner = refl

step-Steps :
    (q : FrameQueue) (s : Step) → q.next_generation + 1 < u64_mod → Inv q → Steps q (step q s)
unfolding step
step-Steps q (acquires owner) m v = acquire-Steps q owner v
step-Steps q (releases owner) m v =
    (clear-Steps q.in_flight q.pending q.delivered q.owner owner q.next_generation
      q.pending_skipped_frames q.skipped_frames v).1
step-Steps q (clears owner) m v =
    (clear-Steps q.in_flight q.pending q.delivered q.owner owner q.next_generation
      q.pending_skipped_frames q.skipped_frames v).0
step-Steps q (publishes frame) m v = publish-Steps q frame m v
step-Steps q (takes owner) m v =
    next-Steps q.in_flight q.pending q.delivered q.owner owner q.next_generation
      q.pending_skipped_frames q.skipped_frames v
step-Steps q (waits owner) m v = subst (Steps q) (sym (wait_next-next q owner)) (
    next-Steps q.in_flight q.pending q.delivered q.owner owner q.next_generation
      q.pending_skipped_frames q.skipped_frames v)
step-Steps q (acknowledges owner generation) m v =
    acknowledge-Steps q.in_flight q.pending q.delivered q.owner owner q.next_generation
      q.pending_skipped_frames q.skipped_frames generation v

run-Inv :
    (q : FrameQueue) (ss : List Step)
    → q.next_generation + length ss < u64_mod
    → Inv q
    → Inv (run q ss).0
unfolding run
run-Inv q [] m v = v
run-Inv q (s ∷ ss) m v =
    let one = step-Steps q s (omega arith) v in
    run-Inv (step q s).0 ss (omega (arith, one.counts)) one.inv

-- Every frame of the list has a greater number than those before it, and all are at a bound or above.
abbrev pub Ascending : ℕ → List Frame → Type 0
Ascending low [] = Unit
Ascending low (f ∷ fs) = (low ≤ f.generation) × Ascending (f.generation + 1) fs

Ascending-mono :
    (low high : ℕ) (fs : List Frame) → low ≤ high → Ascending high fs → Ascending low fs
Ascending-mono low high [] h a = tt
Ascending-mono low high (f ∷ fs) h a = (omega arith, a.1)

handed-Ascending :
    (low high : ℕ) (now : Option Frame) (later : List Frame)
    → Between low high now
    → Ascending high later
    → Ascending low (handed now ++ later)
handed-Ascending low high none later b a = Ascending-mono low high later b a
handed-Ascending low high (some f) later b a =
    (b.0, Ascending-mono (f.generation + 1) high later (omega arith) a)

run-Ascending_from :
    (q : FrameQueue) (ss : List Step)
    → q.next_generation + length ss < u64_mod
    → Inv q
    → Ascending (floor q) (run q ss).1
unfolding run
run-Ascending_from q [] m v = tt
run-Ascending_from q (s ∷ ss) m v =
    let one = step-Steps q s (omega arith) v in
    handed-Ascending (floor q) (floor (step q s).0) (step q s).1 _ one.between
      (run-Ascending_from (step q s).0 ss (omega (arith, one.counts)) one.inv)

-- In any history of fewer than 2^64 - 1 steps on a new queue, with any owners coming and going, the
-- frames that `next`, `wait_next` and `acknowledge` hand out have strictly growing numbers from 1
-- on: no frame is handed out twice or late.
pub run-Ascending : (ss : List Step) → length ss + 1 < u64_mod → Ascending 1 (run empty_queue ss).1
unfolding empty_queue
run-Ascending ss m = run-Ascending_from empty_queue ss (omega arith) (refl, refl)

gap_at :
    (flying waiting : Option Frame) (delivered : Bool) (owner caller : String)
    (n skipped total generation : ℕ) (q' : FrameQueue) (f : Frame)
    → let q = at owner flying waiting delivered n skipped total in
      Inv q
      → acknowledge q caller generation ≡ (q', some f)
      → (f.generation ≡ generation + 1 + f.skipped_frames) × (q'.delivered ≡ true)
unfolding acknowledge
gap_at none none delivered owner caller n skipped total generation q' f v e = ground arith
gap_at none (some p) delivered owner caller n skipped total generation q' f v e = absurd v
gap_at (some g) none delivered owner caller n skipped total generation q' f v e = ground arith
gap_at (some g) (some p) delivered owner caller n skipped total generation q' f v e = ground arith

-- After any history of fewer than 2^64 - 1 steps, a frame that `acknowledge` hands out reports
-- exactly how many frames the consumer has missed since the one it acknowledges: their numbers
-- differ by one more than `skipped_frames`, and the queue marks the frame as delivered.
pub acknowledge_gap :
    (ss : List Step) (owner : String) (generation : ℕ) {q' : FrameQueue} {f : Frame}
    → length ss + 1 < u64_mod
    → acknowledge (run empty_queue ss).0 owner generation ≡ (q', some f)
    → (f.generation ≡ generation + 1 + f.skipped_frames) × (q'.delivered ≡ true)
unfolding empty_queue
acknowledge_gap ss owner generation {q'} {f} m e =
    let q = (run empty_queue ss).0 in
    gap_at q.in_flight q.pending q.delivered q.owner owner q.next_generation
      q.pending_skipped_frames q.skipped_frames generation q' f
      (run-Inv empty_queue ss (omega arith) (refl, refl)) e
