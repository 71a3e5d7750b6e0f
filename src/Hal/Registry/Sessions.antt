-- ===== src/Hal/Registry/Sessions.antt =====
-- `attach`, `detach` and `consume`: what the messages of a stream do to its proxy.
pub mod Budget
pub mod Changes
pub mod Isolation
mod Tests
use linuxcnc_ctrl.Prelude.{
  ℕ, ◌+◌, ◌-◌, String, str_eq, Bool, true, false, not, ◌&&◌, ◌||◌, Option, none, some, List, [],
  ◌∷◌, ◌++◌, if◌then◌else◌, ◌==◌, length, count_if, u64, u64_mod, is_empty,
}
use linuxcnc_ctrl.Hal.Values.{Value}
use linuxcnc_ctrl.Hal.Components.{HalComponents}
use linuxcnc_ctrl.Hal.Registry.{
  Code, Status, ok, error, invalid, CreateRequest, AttachRequest, ComponentValue, ClientMessage,
  ServerMessage, active, update_ack, heartbeat_ack, closed, Result, Call, released, failed, Config,
  Item, Proxy, Registry, find_proxy, put_proxy, erase_proxy, find_item, token_equal, online_pin,
}
use linuxcnc_ctrl.Hal.Registry.Schema.{Checked, accepted, refused, ◌>>=◌, typed_value}
use linuxcnc_ctrl.Hal.Registry.Updates.{decode_values}
use linuxcnc_ctrl.Hal.Registry.Create.{encode_snapshot, create}

module _ {D : Type 0} (h : HalComponents D) where
  open h use {Hal, Component, name, prefix, read, write, close}

  -- What an operation leaves: the registry, its result, and its calls outside.
  abbrev pub Done : Type 0
  Done = Registry Hal Component D × Result D × List (Call D)

  abbrev refuse : Registry Hal Component D → Code → String → Done
  refuse r code message = (r, failed (error code message), [])

  -- A result that already names the proxy.
  abbrev result_of : Proxy Component D → Status → Option (ServerMessage D) → Bool → Result D
  result_of proxy status response closes = record {
    status = status;
    response = response;
    proxy_id = proxy.id;
    generation = proxy.generation;
    close = closes;
  }

  write_disconnects : Hal → Component → List (Item D) → Hal
  write_disconnects hal c [] = hal
  write_disconnects hal c (item ∷ items) = elim item.disconnect_value [
    | none ↦ write_disconnects hal c items
    | some value ↦ write_disconnects (write hal c item.suffix value).0 c items
  ]

  unfoldable pub apply_disconnect : Hal → Proxy Component D → Hal × Proxy Component D
  unfolding write_disconnects
  apply_disconnect hal proxy = (
    write_disconnects (write hal proxy.component online_pin (Value.bit false)).0 proxy.component
        proxy.items,
    record proxy { is_active = false },
  )

  -- The disconnect, and the two assignments that follow it wherever it is called.
  unfoldable pub disconnected : Hal → Proxy Component D → Hal × Proxy Component D
  unfolding apply_disconnect
  disconnected hal proxy =
      let (hal', p) = apply_disconnect hal proxy in
      (hal', record p { is_attached = false; callbacks = none })

  pub detach : Registry Hal Component D → String → ℕ → Registry Hal Component D
  unfolding disconnected
  detach r id generation = elim (find_proxy id r.proxies) [
    | none ↦ r
    | some proxy ↦
        if not proxy.is_attached || not (proxy.generation == generation)
        then r
        else let (hal, p) = disconnected r.hal proxy in
          record r { proxies = put_proxy p r.proxies; hal = hal }
  ]

  -- The proxy of an attachment that is granted.
  abbrev renewed : ℕ → ℕ → Proxy Component D → Proxy Component D
  renewed now stream proxy = record proxy {
    is_attached = true;
    is_active = false;
    generation = u64 (proxy.generation + 1);
    client_sequence = 0;
    last_heartbeat = now;
    callbacks = some stream;
  }

  pub attach : Config → ℕ → Registry Hal Component D → AttachRequest → ℕ → Done
  attach config now r request stream = elim (find_proxy request.proxy_id r.proxies) [
    | none ↦ refuse r Code.not_found "remote component proxy was not found"
    | some proxy ↦
        if not (str_eq (name proxy.component) request.name)
        then refuse r Code.not_found "remote component proxy was not found"
        else if not (token_equal proxy.ownership_token request.ownership_token)
        then refuse r Code.unauthenticated "invalid remote component ownership token"
        else if proxy.is_attached
        then refuse r Code.already_exists "remote component already has an active attachment"
        else let hal = (write r.hal proxy.component online_pin (Value.bit false)).0 in
          let (kept, message) = encode_snapshot h config hal (renewed now stream proxy) false in
          (
            record r { proxies = put_proxy kept r.proxies; hal = hal },
            result_of kept ok (some message) false,
            [],
          )
  ]

  -- The loop that writes, up to the first write that fails.
  write_values : Hal → Component → List (Item D × Value D) → Hal × Bool
  write_values hal c [] = (hal, true)
  write_values hal c (update ∷ updates) =
      let (hal', done) = write hal c update.0.suffix update.1 in
      let rest = write_values hal' c updates in if done then rest else (hal', false)

  pub activate :
      ℕ → Registry Hal Component D → Proxy Component D → ℕ → List (ComponentValue D) → Done
  unfolding write_values
  activate now r proxy generation values =
      if proxy.is_active || not (generation == proxy.generation)
      then (
        r,
        result_of proxy
            (error Code.failed_precondition
              "component is already active or its generation is stale")
            none false,
        [],
      )
      else elim (decode_values (prefix proxy.component) proxy.items values true) [
        | refused message ↦ (r, result_of proxy (invalid message) none false, [])
        | accepted updates ↦
            let (hal, done) = write_values r.hal proxy.component updates in
            if not done
            then (
              record r { hal = hal },
              result_of proxy (invalid "component activation could not be applied") none false,
              [],
            )
            else let hal' = (write hal proxy.component online_pin (Value.bit true)).0 in
              let p = record proxy { is_active = true; last_heartbeat = now } in
              (
                record r { proxies = put_proxy p r.proxies; hal = hal' },
                result_of p ok (some (active p.generation)) false,
                [],
              )
      ]

  pub update :
      ℕ → Registry Hal Component D → Proxy Component D → ℕ → ℕ → List (ComponentValue D) → Done
  unfolding write_values
  update now r proxy generation sequence values =
      if not proxy.is_active || not (generation == proxy.generation)
      then (
        r,
        result_of proxy (error Code.failed_precondition "component update is inactive or stale")
            none false,
        [],
      )
      else if not (sequence == u64 (proxy.client_sequence + 1))
      then (
        r,
        result_of proxy (error Code.out_of_range "component update sequence is not contiguous") none
            false,
        [],
      )
      else elim (decode_values (prefix proxy.component) proxy.items values false) [
        | refused message ↦ (r, result_of proxy (invalid message) none false, [])
        | accepted updates ↦
            let (hal, done) = write_values r.hal proxy.component updates in
            if not done
            then (
              record r { hal = hal },
              result_of proxy (invalid "component update could not be applied") none false,
              [],
            )
            else let p = record proxy { client_sequence = sequence; last_heartbeat = now } in
              (
                record r { proxies = put_proxy p r.proxies; hal = hal },
                result_of p ok (some (update_ack p.generation p.client_sequence)) false,
                [],
              )
      ]

  pub heartbeat : ℕ → Registry Hal Component D → Proxy Component D → ℕ → Done
  heartbeat now r proxy generation =
      if not (generation == proxy.generation)
      then (
        r,
        result_of proxy (error Code.failed_precondition "component heartbeat generation is stale")
            none false,
        [],
      )
      else let p = record proxy { last_heartbeat = now } in
        (
          record r { proxies = put_proxy p r.proxies },
          result_of p ok (some (heartbeat_ack p.generation)) false,
          [],
        )

  -- The mode 1 detaches, and 2 destroys.
  pub close_component : Registry Hal Component D → Proxy Component D → ℕ → ℕ → Done
  unfolding disconnected
  close_component r proxy generation mode =
      if not (generation == proxy.generation) || not (mode == 1) && not (mode == 2)
      then (
        r,
        result_of proxy (invalid "component close mode or generation is invalid") none false,
        [],
      )
      else let (hal, p) = disconnected r.hal proxy in
        let result = result_of p ok (some (closed p.id mode)) true in
        if mode == 2
        then (
          record r {
            proxies = erase_proxy p.id r.proxies;
            retained_item_count = u64 (r.retained_item_count + u64_mod - length p.items);
            hal = close hal p.component;
          },
          result,
          released ∷ [],
        )
        else (record r { proxies = put_proxy p r.proxies; hal = hal }, result, [])

  -- A message of a stream that is attached to this proxy.
  on_proxy : ℕ → Registry Hal Component D → Proxy Component D → ClientMessage D → Done
  unfolding activate update heartbeat close_component
  on_proxy now r proxy (ClientMessage.activate generation values) =
      activate now r proxy generation values
  on_proxy now r proxy (ClientMessage.update generation sequence values) =
      update now r proxy generation sequence values
  on_proxy now r proxy (ClientMessage.heartbeat generation) = heartbeat now r proxy generation
  on_proxy now r proxy (ClientMessage.close generation mode) =
      close_component r proxy generation mode
  on_proxy now r proxy _ =
      (r, result_of proxy (invalid "client sent an invalid component message") none false, [])

  abbrev is_current : Proxy Component D → ℕ → Bool
  is_current proxy generation = proxy.is_attached && proxy.generation == generation

  on_attached : ℕ → Registry Hal Component D → String → ℕ → ClientMessage D → Done
  unfolding on_proxy
  on_attached now r id generation request = elim (find_proxy id r.proxies) [
    | none ↦ refuse r Code.failed_precondition "component attachment generation is stale"
    | some proxy ↦
        if is_current proxy generation
        then on_proxy now r proxy request
        else refuse r Code.failed_precondition "component attachment generation is stale"
  ]

  consume_in :
      Config
      → ℕ
      → List String
      → List ℕ
      → Bool
      → Registry Hal Component D
      → String
      → ℕ
      → ℕ
      → Bool
      → ClientMessage D
      → Done
  unfolding attach on_attached
  consume_in config now draws token admitted r id generation stream true
        (ClientMessage.create request) =
      create h config now draws token admitted r request stream
  consume_in config now draws token admitted r id generation stream true
        (ClientMessage.attach request) =
      attach config now r request stream
  consume_in config now draws token admitted r id generation stream true _ =
      refuse r Code.invalid_argument "first component message must be Create or Attach"
  consume_in config now draws token admitted r id generation stream false
        (ClientMessage.create request) =
      refuse r Code.invalid_argument "component stream is already attached"
  consume_in config now draws token admitted r id generation stream false
        (ClientMessage.attach request) =
      refuse r Code.invalid_argument "component stream is already attached"
  consume_in config now draws token admitted r id generation stream false request =
      on_attached now r id generation request

  -- `consume` of a stream that is attached to a proxy and a generation, or to none if the id is empty.
  pub consume :
      Config
      → ℕ
      → List String
      → List ℕ
      → Bool
      → Registry Hal Component D
      → String
      → ℕ
      → ℕ
      → ClientMessage D
      → Done
  unfolding consume_in
  consume config now draws token admitted r id generation stream request =
      consume_in config now draws token admitted r id generation stream (str_eq id "") request
