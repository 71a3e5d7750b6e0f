-- ===== src/Runtime/Executor/Drain.antt =====
-- Shutdown with draining, and the end of admission.
use linuxcnc_ctrl.Prelude.{
  ℕ, zero, suc, ◌≡◌, refl, sym, ap, ◌∙◌, subst, true, false, Option, none, some, List, [], ◌∷◌,
  ◌++◌, length, arith,
}
use linuxcnc_ctrl.Runtime.Executor.{
  Item, Worker, waiting, running, returned, Executor, push, submit_impl, submit, submit_cleanup,
  stop_admission, shutdown, take_from, advance, move_at, work, Step, submits, submits_cleanup,
  stops_admission, shuts_down, works, step, run,
}

take_from-accepting : (is : List Item) (e : Executor) → (take_from is e).0.accepting ≡ e.accepting
unfolding take_from
take_from-accepting [] e = refl
take_from-accepting (i ∷ is) e = refl

advance-accepting : (e : Executor) (w : Worker) → (advance e w).0.accepting ≡ e.accepting
unfolding advance
advance-accepting e waiting = take_from-accepting e.queue e
advance-accepting e (running t) = refl
advance-accepting e returned = refl

move_at-accepting :
    (i : ℕ) (e : Executor) (ws : List Worker) → (move_at i e ws).0.accepting ≡ e.accepting
unfolding move_at
move_at-accepting i e [] = refl
move_at-accepting zero e (w ∷ ws) = advance-accepting e w
move_at-accepting (suc i) e (w ∷ ws) = move_at-accepting i e ws

step-refuses : (e : Executor) (s : Step) → e.accepting ≡ false → (step e s).accepting ≡ false
unfolding step submit submit_cleanup submit_impl push stop_admission shutdown work
step-refuses e (submits none) h = h
step-refuses e (submits (some t)) h = ground arith
step-refuses e (submits_cleanup none) h = h
step-refuses e (submits_cleanup (some t)) h = ground arith
step-refuses e stops_admission h = refl
step-refuses e (shuts_down d) h = ground arith
step-refuses e (works i) h = move_at-accepting i e e.workers ∙ h

run-refuses : (e : Executor) (ss : List Step) → e.accepting ≡ false → (run e ss).accepting ≡ false
unfolding run
run-refuses e [] h = h
run-refuses e (s ∷ ss) h = run-refuses (step e s) ss (step-refuses e s h)

refused : (e : Executor) (task : Option ℕ) → e.accepting ≡ false → submit e task ≡ (e, false)
unfolding submit submit_impl
refused e none h = refl
refused e (some t) h = ground arith

-- After `stop_admission`, every later ordinary submission is refused and changes nothing, whatever
-- steps come between.
pub submit-refused :
    (e : Executor) (ss : List Step) (task : Option ℕ)
    → submit (run (stop_admission e) ss) task ≡ (run (stop_admission e) ss, false)
unfolding stop_admission
submit-refused e ss task =
    refused (run (stop_admission e) ss) task (run-refuses (stop_admission e) ss refl)

pub work_times : ℕ → ℕ → Executor → Executor
work_times zero i e = e
work_times (suc n) i e = work_times n i (work i e)

move_at-split :
    (e : Executor) (before after : List Worker) (w : Worker)
    → move_at (length before) e (before ++ w ∷ after)
      ≡ ((advance e w).0, before ++ (advance e w).1 ∷ after)
unfolding move_at
move_at-split e [] after w = refl
move_at-split e (b ∷ before) after w =
    ap (λ (r : Executor × List Worker). (r.0, b ∷ r.1)) (move_at-split e before after w)

abbrev at : Executor → List Worker → Worker → List Worker → Executor
at e before w after = record e { workers = before ++ w ∷ after }

work-split :
    (e : Executor) (before after : List Worker) (w : Worker)
    → work (length before) (at e before w after)
      ≡ at (advance (at e before w after) w).0 before (advance (at e before w after) w).1 after
unfolding work
work-split e before after w =
    ap (λ (r : Executor × List Worker). record (r.0) { workers = r.1 })
      (move_at-split (at e before w after) before after w)

abbrev pub drain_moves : List Item → ℕ
drain_moves [] = 1
drain_moves (i ∷ is) = suc (suc (drain_moves is))

-- After so many moves of the worker at this place the queue is empty and the worker has returned.
abbrev pub Drains : ℕ → List Worker → List Worker → Executor → Type 0
Drains n before after e =
    let e' = work_times n (length before) e in
    (e'.queue ≡ []) × (e'.workers ≡ before ++ returned ∷ after)

drains :
    (is : List Item) (e : Executor) (before after : List Worker)
    → Drains
        (drain_moves is)
        before
        after
        (at (record e { queue = is; stopping = true }) before waiting after)
unfolding work_times advance take_from
drains [] e before after =
    rw (work-split (record e { queue = []; stopping = true }) before after waiting) (refl, refl)
drains (i ∷ is) e before after =
    let start = record e { queue = i ∷ is; stopping = true } in
    let taken = (advance (at start before waiting after) waiting).0 in
    let done = (advance (at taken before (running i.task) after) (running i.task)).0 in
    subst (λ f. Drains (drain_moves is) before after (work (length before) f))
      (sym (work-split start before after waiting))
      (subst (λ f. Drains (drain_moves is) before after f)
        (sym (work-split taken before after (running i.task))) (drains is done before after))

with_fields :
    (e : Executor) (before after : List Worker)
    → e.stopping ≡ true
    → e.workers ≡ before ++ waiting ∷ after
    → e ≡ at (record e { queue = e.queue; stopping = true }) before waiting after
with_fields e before after s w = ground arith

-- While the executor stops, a waiting worker that makes `drain_moves` moves by itself, one to take
-- and one to finish each task that is still queued and one to return, leaves the queue empty and
-- has returned; the other workers are as they were.
pub worker-Drains :
    (e : Executor) (before after : List Worker)
    → e.stopping ≡ true
    → e.workers ≡ before ++ waiting ∷ after
    → Drains (drain_moves e.queue) before after e
worker-Drains e before after s w =
    subst (λ f. Drains (drain_moves e.queue) before after f) (sym (with_fields e before after s w))
      (drains e.queue e before after)
