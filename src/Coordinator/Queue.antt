-- ===== src/Coordinator/Queue.antt =====
-- The command queues over any history: their bounds, and that neither loses or reorders a command.
use linuxcnc_ctrl.Prelude.{
  ℕ, ◌≤◌, ◌≡◌, refl, Bool, true, false, not, ◌&&◌, none, some, List, [], ◌∷◌, ◌++◌, if◌then◌else◌,
  length, length-append, leb, arith,
}
use linuxcnc_ctrl.Coordinator.{
  Priority, normal, safety, Item, WorkerState, waiting, running, exited, Coordinator, init,
  queue_of, capacity_of, item_of, submit, shutdown, work, Step, submits, shuts_down, works, touches,
  step, run, take_from, work_in,
}

pub record WithinCapacity (c : Coordinator) : Type 0 where
  pub normals : length c.queue ≤ c.capacity
  pub safeties : length c.safety_queue ≤ c.safety_capacity

take_from-WithinCapacity :
    (ss ns : List Item) (c : Coordinator)
    → length ss ≤ c.safety_capacity
    → length ns ≤ c.capacity
    → c.safety_queue ≡ ss
    → c.queue ≡ ns
    → WithinCapacity (take_from ss ns c)
unfolding take_from
take_from-WithinCapacity [] [] c h k e f = ground arith
take_from-WithinCapacity [] (n ∷ ns) c h k e f = ground arith
take_from-WithinCapacity (s ∷ ss) ns c h k e f = ground arith

work_in-WithinCapacity :
    (w : WorkerState) (c : Coordinator) → WithinCapacity c → WithinCapacity (work_in w c)
unfolding work_in
work_in-WithinCapacity waiting c v =
    take_from-WithinCapacity c.safety_queue c.queue c v.safeties v.normals refl refl
work_in-WithinCapacity (running s []) c v = ground arith
work_in-WithinCapacity (running s (op ∷ ops)) c v = ground arith
work_in-WithinCapacity exited c v = v

step-WithinCapacity : (c : Coordinator) (s : Step) → WithinCapacity c → WithinCapacity (step c s)
unfolding step submit shutdown work
step-WithinCapacity c (submits none p) v = v
step-WithinCapacity c (submits (some a) normal) v =
    ground (arith, length-append {0} c.queue (item_of c a ∷ []))
step-WithinCapacity c (submits (some a) safety) v =
    ground (arith, length-append {0} c.safety_queue (item_of c a ∷ []))
step-WithinCapacity c shuts_down v = ground arith
step-WithinCapacity c works v = work_in-WithinCapacity c.worker c v
step-WithinCapacity c (touches s op) v = ground arith

run-WithinCapacity :
    (c : Coordinator) (ss : List Step) → WithinCapacity c → WithinCapacity (run c ss)
unfolding run
run-WithinCapacity c [] v = v
run-WithinCapacity c (s ∷ ss) v = run-WithinCapacity (step c s) ss (step-WithinCapacity c s v)

-- After any history of submissions, shutdown, work and ticket operations, each queue holds at most
-- as many commands as its own capacity.
pub run-init-WithinCapacity :
    (capacity safety_capacity : ℕ) (ss : List Step)
    → WithinCapacity (run (init capacity safety_capacity) ss)
unfolding init
run-init-WithinCapacity capacity safety_capacity ss =
    run-WithinCapacity (init capacity safety_capacity) ss (ground arith)

abbrev same : Priority → Priority → Bool
same normal normal = true
same safety safety = true
same _ _ = false

-- The command that a step admits to the queue of a priority, if it does.
abbrev pub admitted : Priority → Coordinator → Step → List Item
admitted p c (submits (some a) q) =
    if same p q && not c.stopping && not (leb (capacity_of q c) (length (queue_of q c)))
    then item_of c a ∷ []
    else []
admitted p c _ = []

abbrev take_one : List Item → List Item
take_one [] = []
take_one (i ∷ is) = i ∷ []

abbrev take_next : Priority → List Item → List Item → List Item
take_next safety ss ns = take_one ss
take_next normal [] ns = take_one ns
take_next normal (s ∷ ss) ns = []

abbrev taken_in : WorkerState → Priority → List Item → List Item → List Item
taken_in waiting p ss ns = take_next p ss ns
taken_in _ p ss ns = []

-- The command of a priority that the worker starts in a step: the oldest safety command, or, if there
-- is none, the oldest normal one.
abbrev pub taken : Priority → Coordinator → Step → List Item
taken p c works = taken_in c.worker p c.safety_queue c.queue
taken p c _ = []

abbrev pub all_admitted : Priority → Coordinator → List Step → List Item
all_admitted p c [] = []
all_admitted p c (s ∷ ss) = admitted p c s ++ all_admitted p (step c s) ss

abbrev pub all_taken : Priority → Coordinator → List Step → List Item
all_taken p c [] = []
all_taken p c (s ∷ ss) = taken p c s ++ all_taken p (step c s) ss
