-- ===== src/Runtime/Hub/Shutdown.antt =====
-- A shutdown of the callback registry calls each callback that is still registered, once.
use linuxcnc_ctrl.Prelude.{
  ℕ, suc, ◌+◌, ◌<◌, ◌≡◌, refl, ap, ◌∙◌, Bool, true, false, none, some, List, [], ◌∷◌, ◌++◌,
  if◌then◌else◌, length, count_if, count_if-append, u64_mod, ◌==◌, arith,
}
use linuxcnc_ctrl.Runtime.Hub.Delivery.{
  Below, Below-mono, Below-erase, Below-count, count-erase, emplace-fresh,
}
use linuxcnc_ctrl.Runtime.Hub.{
  Entry, has_id, Registry, register_callback, unregister, shutdown, RegistryStep, registers,
  unregisters, shuts_down, registry_step, registry_run,
}

-- What the registry calls in a history, for one id.
abbrev pub calls_in : ℕ → Registry → List RegistryStep → ℕ
calls_in i r ss = count_if (has_id i) (registry_run r ss).1

shut_step :
    (r : Registry) (s : RegistryStep)
    → r.shutting_down ≡ true
    → ((registry_step r s).0.shutting_down ≡ true) × ((registry_step r s).1 ≡ [])
unfolding registry_step register_callback unregister shutdown
shut_step r (registers none) h = (h, refl)
shut_step r (registers (some c)) h = ground arith
shut_step r (unregisters i) h = ground arith
shut_step r shuts_down h = ground arith

shut_silent :
    (i : ℕ) (r : Registry) (ss : List RegistryStep) → r.shutting_down ≡ true → calls_in i r ss ≡ 0
unfolding registry_run
shut_silent i r [] h = refl
shut_silent i r (s ∷ ss) h =
    rw (shut_step r s h).1 (shut_silent i (registry_step r s).0 ss (shut_step r s h).0)

record Numbered (i budget : ℕ) (r : Registry) : Type 0 where
  below : Below r.next_id r.callbacks
  old : i < r.next_id
  room : r.next_id + budget < u64_mod
  live : r.shutting_down ≡ false

register-Numbered :
    (i b : ℕ) (r : Registry) (c : ℕ)
    → Numbered i (suc b) r
    → Numbered i b (register_callback r (some c)).0
      × (count_if (has_id i) (register_callback r (some c)).0.callbacks
          ≡ count_if (has_id i) r.callbacks)
unfolding register_callback
register-Numbered i b r c v = ground (
  arith,
  emplace-fresh r.next_id c r.callbacks v.below,
  Below-mono r.next_id (r.next_id + 1) r.callbacks,
)

unregister-Numbered :
    (i j b : ℕ) (r : Registry)
    → 0 < i
    → Numbered i (suc b) r
    → Numbered i b (unregister r j)
      × (count_if (has_id i) (unregister r j).callbacks
          ≡ (if j == i then 0 else count_if (has_id i) r.callbacks))
unfolding unregister
unregister-Numbered i j b r pos v =
    ground (arith, Below-erase r.next_id j r.callbacks v.below, count-erase i j r.callbacks)

-- Whether a shutdown comes before the end of a registration.
abbrev pub outlives : ℕ → List RegistryStep → Bool
outlives i [] = false
outlives i (registers c ∷ ss) = outlives i ss
outlives i (unregisters j ∷ ss) = let rest = outlives i ss in if j == i then false else rest
outlives i (shuts_down ∷ ss) = true

register_none : (r : Registry) → (register_callback r none).0 ≡ r
unfolding register_callback
register_none r = refl

shutdown_live :
    (r : Registry)
    → r.shutting_down ≡ false
    → shutdown r ≡ (record r { shutting_down = true }, r.callbacks)
unfolding shutdown
shutdown_live r h = ground arith

-- A registration that is there at the first shutdown.
last_call :
    (i : ℕ) (r : Registry) (ss : List RegistryStep)
    → r.shutting_down ≡ false
    → calls_in i r (shuts_down ∷ ss) ≡ count_if (has_id i) r.callbacks
unfolding registry_run registry_step
last_call i r ss h =
    ap (λ (q : Registry × List Entry). count_if (has_id i) (q.1 ++ (registry_run q.0 ss).1))
      (shutdown_live r h)
    ∙ count_if-append {0} (has_id i) r.callbacks _
    ∙ omega (arith, shut_silent i (record r { shutting_down = true }) ss refl)

run-calls :
    (i : ℕ) (r : Registry) (ss : List RegistryStep)
    → 0 < i
    → Numbered i (length ss) r
    → calls_in i r ss ≡ (if outlives i ss then count_if (has_id i) r.callbacks else 0)
unfolding registry_run registry_step
run-calls i r [] pos v = refl
run-calls i r (registers none ∷ ss) pos v =
    ap (λ q. calls_in i q ss) (register_none r) ∙ run-calls i r ss pos (ground arith)
run-calls i r (registers (some c) ∷ ss) pos v =
    let (next, same) = register-Numbered i (length ss) r c v in
    run-calls i (register_callback r (some c)).0 ss pos next
    ∙ ap (λ n. if outlives i ss then n else 0) same
run-calls i r (unregisters j ∷ ss) pos v =
    let (next, same) = unregister-Numbered i j (length ss) r pos v in
    run-calls i (unregister r j) ss pos next ∙ ground (arith, same)
run-calls i r (shuts_down ∷ ss) pos v = last_call i r ss v.live

registered :
    (r : Registry) (callback b : ℕ)
    → r.shutting_down ≡ false
    → Below r.next_id r.callbacks
    → r.next_id + b + 1 < u64_mod
    → ((register_callback r (some callback)).1 ≡ r.next_id)
      × (count_if (has_id r.next_id) (register_callback r (some callback)).0.callbacks ≡ 1)
      × Numbered r.next_id b (register_callback r (some callback)).0
unfolding register_callback
registered r callback b live below small = ground (
  arith,
  emplace-fresh r.next_id callback r.callbacks below,
  Below-mono r.next_id (r.next_id + 1) r.callbacks,
  Below-count r.next_id r.next_id r.callbacks below,
)

-- In any history after a registration in a live registry with fresh ids, as long as the ids do not
-- wrap, its callback is called exactly once by shutdowns if a shutdown comes before the
-- registration is reset, and never otherwise; a second shutdown calls nothing.
pub shutdown_calls :
    (r : Registry) (callback : ℕ) (ss : List RegistryStep)
    → r.shutting_down ≡ false
    → Below r.next_id r.callbacks
    → 0 < r.next_id
    → r.next_id + length ss + 1 < u64_mod
    → calls_in (register_callback r (some callback)).1 (register_callback r (some callback)).0 ss
      ≡ (if outlives (register_callback r (some callback)).1 ss then 1 else 0)
shutdown_calls r callback ss live below pos small =
    let (same_id, one, numbered) = registered r callback (length ss) live below small in
    rw same_id (
      run-calls r.next_id (register_callback r (some callback)).0 ss pos numbered
      ∙ ap (λ n. if outlives r.next_id ss then n else 0) one)
