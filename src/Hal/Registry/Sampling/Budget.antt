-- ===== src/Hal/Registry/Sampling/Budget.antt =====
-- No operation loses count of the items or of the admissions.
use linuxcnc_ctrl.Prelude.{
  ℕ, ◌+◌, ◌≤◌, ◌<◌, ◌≡◌, refl, Bool, false, not, ◌||◌, Option, none, some, List, [], ◌∷◌, if_holds,
  length, count_if, count_if-append, u64, u64_mod, leb, ltb, arith,
}
use linuxcnc_ctrl.Hal.Components.{HalComponents}
use linuxcnc_ctrl.Hal.Registry.{
  ComponentValue, delta, Call, offered_delta, heartbeat_timed_out, Config, Item, Proxy, Registry,
  start,
}
use linuxcnc_ctrl.Hal.Registry.Lookup.{total_items}
use linuxcnc_ctrl.Hal.Registry.Create.Budget.{
  Accounted, Balanced, is_acquired, is_released, unchanged-Balanced,
}
use linuxcnc_ctrl.Hal.Registry.Sessions.{disconnected, apply_disconnect}
use linuxcnc_ctrl.Hal.Registry.Sessions.Budget.{consume-Balanced, detach-Balanced}
use linuxcnc_ctrl.Hal.Registry.Sampling.{
  sample_items, call_if, offer_values, sample_proxy, sample_proxies, sample, release_all, shutdown,
  Op, message, detached, sampled, stopped, execute, run,
}

module _ {D : Type 0} (h : HalComponents D) where
  open h use {Hal, Component, read}

  length-sample_items :
      (hal : Hal) (c : Component) (items : List (Item D))
      → length (sample_items h hal c items).0 ≡ length items
  unfolding sample_items
  length-sample_items hal c [] = refl
  length-sample_items hal c (item ∷ items) = ground (arith, length-sample_items hal c items)

  -- One turn keeps the items of the proxy, and asks nothing of the admission counter.
  record Steady (p : Proxy Component D) (d : Hal × Proxy Component D × List (Call D)) : Type 0 where
    items : length d.1.items ≡ length p.items
    acquired : count_if is_acquired d.2 ≡ 0
    released : count_if is_released d.2 ≡ 0

  quiet_call :
      (test : Call D → Bool) (callbacks : Option ℕ) (call : ℕ → Call D)
      → ((stream : ℕ) → test (call stream) ≡ false)
      → count_if test (call_if h callbacks call) ≡ 0
  quiet_call test none call quiet = refl
  quiet_call test (some stream) call quiet = ground (arith, quiet stream)

  offer_values-Steady :
      (hal : Hal) (p q : Proxy Component D) (values : List (ComponentValue D))
      → length q.items ≡ length p.items
      → Steady p (offer_values h hal q values)
  unfolding offer_values
  offer_values-Steady hal p q [] same = ground (arith, same)
  offer_values-Steady hal p q (value ∷ values) same =
      let call : ℕ → Call D = λ stream.
        offered_delta stream (delta q.generation (u64 (q.server_sequence + 1)) (value ∷ values)) in
      ground (
        arith,
        same,
        quiet_call is_acquired q.callbacks call (λ stream. refl),
        quiet_call is_released q.callbacks call (λ stream. refl),
      )

  unchanged-Steady : (hal : Hal) (p : Proxy Component D) → Steady p (hal, p, [])
  unchanged-Steady hal p = record { items = refl; acquired = refl; released = refl }

  sample_proxy-Steady :
      (timeout now : ℕ) (hal : Hal) (p : Proxy Component D)
      → Steady p (sample_proxy h timeout now hal p)
  unfolding sample_proxy disconnected apply_disconnect
  sample_proxy-Steady timeout now hal p =
      let call : ℕ → Call D = λ stream. heartbeat_timed_out stream p.generation in
      let sampled_items = sample_items h hal p.component p.items in
      if_holds (Steady p) (not p.is_attached) _ _ (unchanged-Steady hal p) (
        if_holds (Steady p) (leb (p.last_heartbeat + timeout) now) _ _
          (record {
            items = refl;
            acquired = quiet_call is_acquired p.callbacks call (λ stream. refl);
            released = quiet_call is_released p.callbacks call (λ stream. refl);
          })
          (if_holds (Steady p) (not p.is_active || ltb now p.next_sample) _ _
            (unchanged-Steady hal p)
            (offer_values-Steady hal p
              (record p { next_sample = now + p.sampling_period; items = sampled_items.0 })
              sampled_items.1 (length-sample_items hal p.component p.items))))

  sample_proxies-Steady :
      (timeout now : ℕ) (hal : Hal) (ps : List (Proxy Component D))
      → (total_items (sample_proxies h timeout now hal ps).1 ≡ total_items ps)
        × (length (sample_proxies h timeout now hal ps).1 ≡ length ps)
        × (count_if is_acquired (sample_proxies h timeout now hal ps).2 ≡ 0)
        × (count_if is_released (sample_proxies h timeout now hal ps).2 ≡ 0)
  unfolding sample_proxies
  sample_proxies-Steady timeout now hal [] = ground arith
  sample_proxies-Steady timeout now hal (p ∷ ps) =
      let d = sample_proxy h timeout now hal p in
      let rest = sample_proxies h timeout now d.0 ps in
      ground (
        arith,
        sample_proxy-Steady timeout now hal p,
        sample_proxies-Steady timeout now d.0 ps,
        count_if-append is_acquired d.2 rest.2,
        count_if-append is_released d.2 rest.2,
      )

  released_all :
      (ps : List (Proxy Component D))
      → (count_if is_released (release_all h ps) ≡ length ps)
        × (count_if is_acquired (release_all h ps) ≡ 0)
  released_all [] = (refl, refl)
  released_all (p ∷ ps) = ground (arith, released_all ps)

  execute-Balanced :
      (config : Config) (r : Registry Hal Component D) (op : Op h)
      → Accounted config r
      → Balanced config r (execute h config r op).0 (execute h config r op).1
  unfolding execute sample shutdown
  execute-Balanced config r (message now draws token admitted id generation stream request) v =
      consume-Balanced h config now draws token admitted r id generation stream request v
  execute-Balanced config r (detached id generation) v = detach-Balanced h config r id generation v
  execute-Balanced config r (sampled now) v =
      ground (arith, sample_proxies-Steady config.heartbeat_timeout now r.hal r.proxies)
  execute-Balanced config r stopped v = ground (arith, released_all r.proxies)

  run-Balanced :
      (config : Config) (ops : List (Op h)) (r : Registry Hal Component D)
      → Accounted config r
      → Balanced config r (run h config r ops).0 (run h config r ops).1
  unfolding run
  run-Balanced config [] r v = unchanged-Balanced h config r v
  run-Balanced config (op ∷ ops) r v =
      let d = execute h config r op in
      let b = execute-Balanced config r op v in
      ground (
        arith,
        b,
        run-Balanced config ops d.0 b.after,
        count_if-append is_acquired d.1 (run h config d.0 ops).1,
        count_if-append is_released d.1 (run h config d.0 ops).1,
      )

  -- Whatever messages, lost streams, samplings and shutdowns the worker executes from the start, if the
  -- item budget is a machine word: the registry's counter is the number of items that all its proxies hold
  -- together, it never exceeds the budget, and the admissions acquired are as many as the admissions
  -- released and the proxies that are left. So a creation that fails half-way gives back exactly what it
  -- took, and the counter never wraps.
  pub run-start-Accounted :
      (config : Config) (ops : List (Op h)) (hal : Hal)
      → config.max_items < u64_mod
      → let done = run h config (start hal) ops in
        (done.0.retained_item_count ≡ total_items done.0.proxies)
        × (done.0.retained_item_count ≤ config.max_items)
        × (count_if is_acquired done.1 ≡ length done.0.proxies + count_if is_released done.1)
  unfolding start
  run-start-Accounted config ops hal machine =
      ground (arith, machine, run-Balanced config ops (start hal))
