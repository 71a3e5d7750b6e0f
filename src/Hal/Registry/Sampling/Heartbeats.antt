-- ===== src/Hal/Registry/Sampling/Heartbeats.antt =====
-- Which streams `sample` gives up.
use linuxcnc_ctrl.Prelude.{
  ℕ, ◌+◌, ◌≡◌, refl, ap, String, Bool, false, not, ◌&&◌, ◌||◌, Option, none, some, List, [], ◌∷◌,
  ◌++◌, if◌then◌else◌, if_holds, if_cases, leb, ltb, arith,
}
use linuxcnc_ctrl.Hal.Components.{HalComponents}
use linuxcnc_ctrl.Hal.Registry.{
  ComponentValue, Call, acquired, released, offered_delta, heartbeat_timed_out, Config, Proxy,
  Registry,
}
use linuxcnc_ctrl.Hal.Registry.Sessions.{disconnected, apply_disconnect}
use linuxcnc_ctrl.Hal.Registry.Sampling.{
  call_if, offer_values, sample_items, sample_proxy, sample_proxies, sample,
}

-- The streams that are told of a timeout, with the generation.
abbrev pub timeouts : {D : Type 0} → List (Call D) → List (ℕ × ℕ)
timeouts [] = []
timeouts (heartbeat_timed_out stream generation ∷ calls) = (stream, generation) ∷ timeouts calls
timeouts (_ ∷ calls) = timeouts calls

timeouts-append :
    {D : Type 0} (xs ys : List (Call D)) → timeouts (xs ++ ys) ≡ timeouts xs ++ timeouts ys
timeouts-append [] ys = refl
timeouts-append (heartbeat_timed_out stream generation ∷ xs) ys =
    ap (λ zs. (stream, generation) ∷ zs) (timeouts-append xs ys)
timeouts-append (acquired ∷ xs) ys = timeouts-append xs ys
timeouts-append (released ∷ xs) ys = timeouts-append xs ys
timeouts-append (offered_delta stream m ∷ xs) ys = timeouts-append xs ys

module _ {C D : Type 0} where
  abbrev pub has_lapsed : ℕ → ℕ → Proxy C D → Bool
  has_lapsed timeout now p = p.is_attached && leb (p.last_heartbeat + timeout) now

  -- The stream of an attached proxy that has its callbacks.
  abbrev stream_of : Proxy C D → Option ℕ → List (ℕ × ℕ)
  stream_of p none = []
  stream_of p (some stream) = (stream, p.generation) ∷ []

  -- The streams whose last heartbeat is as old as the timeout, or older.
  abbrev pub lapsed_streams : ℕ → ℕ → List (Proxy C D) → List (ℕ × ℕ)
  lapsed_streams timeout now [] = []
  lapsed_streams timeout now (p ∷ ps) =
      (if has_lapsed timeout now p then stream_of p p.callbacks else [])
      ++ lapsed_streams timeout now ps

  -- The proxies with what a stream may do with them: the id, the generation, whether a stream is attached,
  -- and whether it is active.
  abbrev pub attachments : List (Proxy C D) → List (String × ℕ × Bool × Bool)
  attachments [] = []
  attachments (p ∷ ps) = (p.id, p.generation, p.is_attached, p.is_active) ∷ attachments ps

  -- The same, once the lapsed are detached.
  abbrev pub kept_attachments : ℕ → ℕ → List (Proxy C D) → List (String × ℕ × Bool × Bool)
  kept_attachments timeout now [] = []
  kept_attachments timeout now (p ∷ ps) =
      (if has_lapsed timeout now p
        then (p.id, p.generation, false, false)
        else (p.id, p.generation, p.is_attached, p.is_active))
      ∷ kept_attachments timeout now ps

module _ {D : Type 0} (h : HalComponents D) where
  open h use {Hal, Component}

  -- What one turn does to a proxy.
  record Judged (timeout now : ℕ) (p : Proxy Component D)
      (d : Hal × Proxy Component D × List (Call D)) : Type 0 where
    told : timeouts d.2 ≡ (if has_lapsed timeout now p then stream_of p p.callbacks else [])
    kept : attachments (d.1 ∷ []) ≡ kept_attachments timeout now (p ∷ [])

  offer_values-Judged :
      (timeout now : ℕ) (hal : Hal) (p q : Proxy Component D) (values : List (ComponentValue D))
      → has_lapsed timeout now p ≡ false
      → attachments (q ∷ []) ≡ attachments (p ∷ [])
      → Judged timeout now p (offer_values h hal q values)
  unfolding offer_values
  offer_values-Judged timeout now hal p q [] alive same = ground (arith, alive, same)
  offer_values-Judged timeout now hal p q (value ∷ values) alive same = elim q.callbacks [
    | none ↦ ground (arith, alive, same)
    | some stream ↦ ground (arith, alive, same)
  ]

  timeouts-call_if :
      (p : Proxy Component D) (callbacks : Option ℕ)
      → timeouts (call_if h callbacks (λ stream. heartbeat_timed_out stream p.generation))
        ≡ stream_of p callbacks
  timeouts-call_if p none = refl
  timeouts-call_if p (some stream) = refl

  sample_proxy-Judged :
      (timeout now : ℕ) (hal : Hal) (p : Proxy Component D)
      → Judged timeout now p (sample_proxy h timeout now hal p)
  unfolding sample_proxy disconnected apply_disconnect
  sample_proxy-Judged timeout now hal p =
      if_cases (Judged timeout now p) (not p.is_attached) _ _ (λ away. ground (arith, away))
        λ attached.
          if_cases (Judged timeout now p) (leb (p.last_heartbeat + timeout) now) _ _
            (λ lapsed. ground (arith, attached, lapsed, timeouts-call_if p p.callbacks))
            λ alive.
              if_holds (Judged timeout now p) (not p.is_active || ltb now p.next_sample) _ _
                (ground (arith, alive))
                (let items = sample_items h hal p.component p.items in
                  offer_values-Judged timeout now hal p
                    (record p { next_sample = now + p.sampling_period; items = items.0 }) items.1
                    (ground (arith, alive)) refl)

  sample_proxies-Judged :
      (timeout now : ℕ) (hal : Hal) (ps : List (Proxy Component D))
      → (timeouts (sample_proxies h timeout now hal ps).2 ≡ lapsed_streams timeout now ps)
        × (attachments (sample_proxies h timeout now hal ps).1 ≡ kept_attachments timeout now ps)
  unfolding sample_proxies
  sample_proxies-Judged timeout now hal [] = (refl, refl)
  sample_proxies-Judged timeout now hal (p ∷ ps) =
      let d = sample_proxy h timeout now hal p in
      ground (
        arith,
        sample_proxy-Judged timeout now hal p,
        sample_proxies-Judged timeout now d.0 ps,
        timeouts-append d.2 (sample_proxies h timeout now d.0 ps).2,
      )

  -- `sample` tells exactly the streams whose last heartbeat is as old as the timeout or older, each once
  -- and with its generation, and detaches and deactivates exactly their proxies: every other proxy keeps
  -- its attachment and its activity, whatever it is sampled for. So a stream that falls silent is given up
  -- by the first sampling after the timeout, and no stream that beats in time is.
  pub sample-lapsed :
      (config : Config) (r : Registry Hal Component D) (now : ℕ)
      → (timeouts (sample h config r now).1 ≡ lapsed_streams config.heartbeat_timeout now r.proxies)
        × (attachments (sample h config r now).0.proxies
            ≡ kept_attachments config.heartbeat_timeout now r.proxies)
  unfolding sample
  sample-lapsed config r now = sample_proxies-Judged config.heartbeat_timeout now r.hal r.proxies
