-- ===== src/Hal/Registry/Sampling.antt =====
-- `sample` and `shutdown`, and a run of all the operations of the registry, which one worker executes one
-- after the other.
pub mod Budget
pub mod Heartbeats
use linuxcnc_ctrl.Prelude.{
  ℕ, ◌+◌, String, Bool, true, false, not, ◌&&◌, ◌||◌, Option, none, some, List, [], ◌∷◌, ◌++◌,
  if◌then◌else◌, leb, ltb, is_empty, u64,
}
use linuxcnc_ctrl.Hal.Values.{Value}
use linuxcnc_ctrl.Hal.Components.{HalComponents}
use linuxcnc_ctrl.Hal.Mapping.{encode_hal_scalar}
use linuxcnc_ctrl.Hal.Registry.{
  ComponentValue, ClientMessage, delta, Call, released, offered_delta, heartbeat_timed_out, Config,
  Item, Proxy, Registry,
}
use linuxcnc_ctrl.Hal.Registry.Sessions.{disconnected, detach, consume}

module _ {D : Type 0} (h : HalComponents D) where
  open h use {Hal, Component, read, close, same_value}

  abbrev is_previous : Option (Value D) → Value D → Bool
  is_previous none value = false
  is_previous (some previous) value = same_value previous value

  -- The loop over the items: a readable item whose value changed remembers it, and is in the delta.
  sample_item : Hal → Component → Item D → Item D × List (ComponentValue D)
  sample_item hal c item =
      if not item.server_readable then (item, []) else elim (read hal c item.suffix) [
        | none ↦ (item, [])
        | some value ↦ if is_previous item.previous value then (item, []) else (
          record item { previous = some value },
          record {
            item = record { kind = item.kind; name = item.full_name };
            value = encode_hal_scalar value;
          }
              ∷ [],
        )
      ]

  sample_items : Hal → Component → List (Item D) → List (Item D) × List (ComponentValue D)
  unfolding sample_item
  sample_items hal c [] = ([], [])
  sample_items hal c (item ∷ items) =
      let (item', values) = sample_item hal c item in
      let (items', rest) = sample_items hal c items in (item' ∷ items', values ++ rest)

  -- An optional callback, called if it is there.
  abbrev call_if : Option ℕ → (ℕ → Call D) → List (Call D)
  call_if none call = []
  call_if (some stream) call = call stream ∷ []

  -- A delta that holds values is numbered and offered.
  offer_values :
      Hal → Proxy Component D → List (ComponentValue D) → Hal × Proxy Component D × List (Call D)
  offer_values hal proxy [] = (hal, proxy, [])
  offer_values hal proxy (value ∷ values) =
      let sequence = u64 (proxy.server_sequence + 1) in
      (
        hal,
        record proxy { server_sequence = sequence },
        call_if proxy.callbacks
            λ stream. offered_delta stream (delta proxy.generation sequence (value ∷ values)),
      )

  -- One turn of the loop over the proxies.
  sample_proxy : ℕ → ℕ → Hal → Proxy Component D → Hal × Proxy Component D × List (Call D)
  unfolding disconnected sample_items offer_values
  sample_proxy timeout now hal proxy =
      if not proxy.is_attached
      then (hal, proxy, [])
      else if leb (proxy.last_heartbeat + timeout) now
      then (let (hal', p) = disconnected h hal proxy in
          (
            hal',
            p,
            call_if proxy.callbacks (λ stream. heartbeat_timed_out stream proxy.generation),
          ))
      else if not proxy.is_active || ltb now proxy.next_sample
      then (hal, proxy, [])
      else let (items, values) = sample_items hal proxy.component proxy.items in
        offer_values hal (record proxy { next_sample = now + proxy.sampling_period; items = items })
          values

  sample_proxies :
      ℕ → ℕ → Hal → List (Proxy Component D) → Hal × List (Proxy Component D) × List (Call D)
  unfolding sample_proxy
  sample_proxies timeout now hal [] = (hal, [], [])
  sample_proxies timeout now hal (proxy ∷ proxies) =
      let (hal', p, calls) = sample_proxy timeout now hal proxy in
      let (hal'', ps, rest) = sample_proxies timeout now hal' proxies in
      (hal'', p ∷ ps, calls ++ rest)

  pub sample : Config → Registry Hal Component D → ℕ → Registry Hal Component D × List (Call D)
  unfolding sample_proxies
  sample config r now =
      let (hal, proxies, calls) = sample_proxies config.heartbeat_timeout now r.hal r.proxies in
      (record r { proxies = proxies; hal = hal }, calls)

  -- `proxies.clear()` destroys every component, and the loop releases one admission for each.
  close_all : Hal → List (Proxy Component D) → Hal
  close_all hal [] = hal
  close_all hal (proxy ∷ proxies) = close_all (close hal proxy.component) proxies

  abbrev release_all : List (Proxy Component D) → List (Call D)
  release_all [] = []
  release_all (proxy ∷ proxies) = released ∷ release_all proxies

  pub shutdown : Registry Hal Component D → Registry Hal Component D × List (Call D)
  unfolding close_all
  shutdown r = (
    record r { proxies = []; retained_item_count = 0; hal = close_all r.hal r.proxies },
    release_all r.proxies,
  )

  -- What the worker executes. A message comes with the time, what the random device gives, the token, the
  -- answer of the admission counter, and the id, the generation and the number of its stream.
  pub data Op : Type 0 where
    message : ℕ → List String → List ℕ → Bool → String → ℕ → ℕ → ClientMessage D → Op
    detached : String → ℕ → Op
    sampled : ℕ → Op
    stopped : Op

  pub execute : Config → Registry Hal Component D → Op → Registry Hal Component D × List (Call D)
  unfolding sample shutdown
  execute config r (message now draws token admitted id generation stream request) =
      let (r', result, calls) =
        consume h config now draws token admitted r id generation stream request in
      (r', calls)
  execute config r (detached id generation) = (detach h r id generation, [])
  execute config r (sampled now) = sample config r now
  execute config r stopped = shutdown r

  pub run : Config → Registry Hal Component D → List Op → Registry Hal Component D × List (Call D)
  unfolding execute
  run config r [] = (r, [])
  run config r (op ∷ ops) =
      let (r', calls) = execute config r op in
      let (r'', rest) = run config r' ops in (r'', calls ++ rest)
