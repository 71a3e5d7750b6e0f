-- ===== src/Runtime/Executor/Reserve.antt =====
-- The counters of the executor tell the truth, and ordinary tasks never use the cleanup reserve.
use linuxcnc_ctrl.Prelude.{
  ℕ, zero, suc, ◌+◌, ◌-◌, ◌≤◌, ◌<◌, ◌≡◌, refl, sym, ap, ◌∙◌, Bool, true, false, not, Option, none,
  some, List, [], ◌∷◌, if◌then◌else◌, length, length-append, count_if, count_if-append, count_if-le,
  u64_mod, arith,
}
use linuxcnc_ctrl.Runtime.Executor.{
  Item, Worker, waiting, running, returned, Executor, create, push, submit_impl, submit,
  submit_cleanup, stop_admission, shutdown, take_from, advance, move_at, work, replicate, Step,
  submits, submits_cleanup, stops_admission, shuts_down, works, step, run,
}

abbrev pub is_ordinary : Item → Bool
is_ordinary i = not i.cleanup

abbrev pub is_cleanup : Item → Bool
is_cleanup i = i.cleanup

abbrev pub is_running : Worker → Bool
is_running (running t) = true
is_running _ = false

-- What holds of the queue and its counter.
pub record QueueInv (e : Executor) : Type 0 where
  pub bounded : length e.queue ≤ e.capacity
  pub reserve : e.cleanup_reserve ≤ e.capacity
  pub machine : e.capacity < u64_mod
  pub counted : e.ordinary_queued ≡ count_if is_ordinary e.queue
  pub limited : e.ordinary_queued ≤ e.capacity - e.cleanup_reserve

pub record Inv (e : Executor) : Type 0 where
  pub tasks : QueueInv e
  pub threads : length e.workers < u64_mod
  pub busy : e.active ≡ count_if is_running e.workers

push-QueueInv :
    (e : Executor) (task : ℕ) (cleanup : Bool)
    → QueueInv e
    → length e.queue < e.capacity
    → (cleanup ≡ false → e.ordinary_queued < e.capacity - e.cleanup_reserve)
    → QueueInv (push e task cleanup)
unfolding push
push-QueueInv e task true v room ordinary = ground (
  arith,
  length-append {0} e.queue (record { task = task; cleanup = true } ∷ []),
  count_if-append {0} is_ordinary e.queue (record { task = task; cleanup = true } ∷ []),
)
push-QueueInv e task false v room ordinary = ground (
  arith,
  ordinary refl,
  length-append {0} e.queue (record { task = task; cleanup = false } ∷ []),
  count_if-append {0} is_ordinary e.queue (record { task = task; cleanup = false } ∷ []),
)

submit_impl-QueueInv :
    (e : Executor) (task : Option ℕ) (cleanup : Bool)
    → QueueInv e
    → QueueInv (submit_impl e task cleanup).0
unfolding submit_impl
submit_impl-QueueInv e none cleanup v = v
submit_impl-QueueInv e (some task) true v = ground (arith, push-QueueInv e task true v)
submit_impl-QueueInv e (some task) false v = ground (arith, push-QueueInv e task false v)

take_from-QueueInv :
    (is : List Item) (e : Executor) → e.queue ≡ is → QueueInv e → QueueInv (take_from is e).0
unfolding take_from
take_from-QueueInv [] e h v = v
take_from-QueueInv (i ∷ is) e h v = ground (arith, ap length h, ap (count_if is_ordinary) h)

advance-QueueInv : (e : Executor) (w : Worker) → QueueInv e → QueueInv (advance e w).0
unfolding advance
advance-QueueInv e waiting v = take_from-QueueInv e.queue e refl v
advance-QueueInv e (running t) v = ground arith
advance-QueueInv e returned v = v

move_at-QueueInv :
    (i : ℕ) (e : Executor) (ws : List Worker) → QueueInv e → QueueInv (move_at i e ws).0
unfolding move_at
move_at-QueueInv i e [] v = v
move_at-QueueInv zero e (w ∷ ws) v = advance-QueueInv e w v
move_at-QueueInv (suc i) e (w ∷ ws) v = move_at-QueueInv i e ws v

abbrev weight : Worker → ℕ
weight w = if is_running w then 1 else 0

take_from-active :
    (is : List Item) (e : Executor)
    → e.active + 1 < u64_mod
    → (take_from is e).0.active ≡ e.active + weight (take_from is e).1
unfolding take_from
take_from-active [] e h = ground arith
take_from-active (i ∷ is) e h = ground arith

advance-active :
    (e : Executor) (w : Worker)
    → weight w ≤ e.active
    → e.active + 1 < u64_mod + weight w
    → (advance e w).0.active + weight w ≡ e.active + weight (advance e w).1
unfolding advance
advance-active e waiting h k = omega (arith, take_from-active e.queue e)
advance-active e (running t) h k = omega arith
advance-active e returned h k = omega arith

move_at-active :
    (i : ℕ) (e : Executor) (ws : List Worker)
    → count_if is_running ws ≤ e.active
    → e.active + length ws < u64_mod + count_if is_running ws
    → (move_at i e ws).0.active + count_if is_running ws
      ≡ e.active + count_if is_running (move_at i e ws).1
unfolding move_at
move_at-active i e [] h k = refl
move_at-active zero e (w ∷ ws) h k =
    omega (arith, advance-active e w, count_if-le {0} is_running ws)
move_at-active (suc i) e (w ∷ ws) h k = ground (arith, move_at-active i e ws)

length-move_at : (i : ℕ) (e : Executor) (ws : List Worker) → length (move_at i e ws).1 ≡ length ws
unfolding move_at
length-move_at i e [] = refl
length-move_at zero e (w ∷ ws) = refl
length-move_at (suc i) e (w ∷ ws) = ap suc (length-move_at i e ws)

work-Inv : (i : ℕ) (e : Executor) → Inv e → Inv (work i e)
unfolding work
work-Inv i e v =
    let tasks = move_at-QueueInv i e e.workers v.tasks in
    record {
      tasks = record {
        bounded = tasks.bounded;
        reserve = tasks.reserve;
        machine = tasks.machine;
        counted = tasks.counted;
        limited = tasks.limited;
      };
      threads = omega (arith, v.threads, length-move_at i e e.workers);
      busy = omega (arith, v.busy, v.threads, move_at-active i e e.workers);
    }

submit_impl-workers :
    (e : Executor) (task : Option ℕ) (cleanup : Bool)
    → ((submit_impl e task cleanup).0.workers ≡ e.workers)
      × ((submit_impl e task cleanup).0.active ≡ e.active)
unfolding submit_impl push
submit_impl-workers e none cleanup = (refl, refl)
submit_impl-workers e (some task) true = ground arith
submit_impl-workers e (some task) false = ground arith

submit_impl-Inv :
    (e : Executor) (task : Option ℕ) (cleanup : Bool) → Inv e → Inv (submit_impl e task cleanup).0
submit_impl-Inv e task cleanup v =
    let (workers, active) = submit_impl-workers e task cleanup in
    record {
      tasks = submit_impl-QueueInv e task cleanup v.tasks;
      threads = rw workers v.threads;
      busy = active ∙ v.busy ∙ ap (count_if is_running) (sym workers);
    }

step-Inv : (e : Executor) (s : Step) → Inv e → Inv (step e s)
unfolding step submit submit_cleanup stop_admission shutdown
step-Inv e (submits task) v = submit_impl-Inv e task false v
step-Inv e (submits_cleanup task) v = submit_impl-Inv e task true v
step-Inv e stops_admission v = ground arith
step-Inv e (shuts_down drain) v = ground arith
step-Inv e (works i) v = work-Inv i e v

run-Inv : (e : Executor) (ss : List Step) → Inv e → Inv (run e ss)
unfolding run
run-Inv e [] v = v
run-Inv e (s ∷ ss) v = run-Inv (step e s) ss (step-Inv e s v)

replicate-waiting : (n : ℕ) → count_if is_running (replicate n waiting) ≡ 0
replicate-waiting zero = refl
replicate-waiting (suc n) = omega (arith, replicate-waiting n)

length-replicate : (n : ℕ) → length (replicate n waiting) ≡ n
length-replicate zero = refl
length-replicate (suc n) = ap suc (length-replicate n)

create-Inv :
    (threads capacity cleanup_reserve : ℕ) (e : Executor)
    → threads < u64_mod
    → capacity < u64_mod
    → create threads capacity cleanup_reserve ≡ some e
    → Inv e
unfolding create
create-Inv threads capacity cleanup_reserve e h k c =
    ground (arith, replicate-waiting threads, length-replicate threads)

-- From any executor that the constructor admits, with fewer than 2^64 threads and a capacity below
-- 2^64, over any history of submissions, shutdowns and worker moves: the queue stays within its
-- capacity, `ordinary_queued_` is the number of ordinary tasks in it and leaves the cleanup reserve
-- free, and `active_` is the number of workers that run a task.
pub run-create-counted :
    (threads capacity cleanup_reserve : ℕ) (e : Executor) (ss : List Step)
    → threads < u64_mod
    → capacity < u64_mod
    → create threads capacity cleanup_reserve ≡ some e
    → Inv (run e ss)
run-create-counted threads capacity cleanup_reserve e ss h k c =
    run-Inv e ss (create-Inv threads capacity cleanup_reserve e h k c)

ordinary_or_cleanup :
    (is : List Item) → length is ≡ count_if is_ordinary is + count_if is_cleanup is
ordinary_or_cleanup [] = refl
ordinary_or_cleanup (i ∷ is) = ground (arith, ordinary_or_cleanup is)

-- Ordinary work cannot starve cleanup: in an executor that satisfies the invariant, is not stopping
-- and has fewer cleanup tasks queued than its reserve, a cleanup task is admitted, also after
-- admission has stopped.
pub cleanup_admitted :
    (e : Executor) (task : ℕ)
    → Inv e
    → e.stopping ≡ false
    → count_if is_cleanup e.queue < e.cleanup_reserve
    → (submit_cleanup e (some task)).1 ≡ true
unfolding submit_cleanup submit_impl
cleanup_admitted e task v open_ room =
    ground (arith, ordinary_or_cleanup e.queue, v.tasks.counted, v.tasks.limited, v.tasks.reserve)
