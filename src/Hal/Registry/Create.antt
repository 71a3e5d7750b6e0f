-- ===== src/Hal/Registry/Create.antt =====
-- `create`: a new proxy, whose component is opened, filled and made ready, or nothing at all.
pub mod Budget
pub mod Changes
use Prim.Native.String.{◌++◌ as concat}
use linuxcnc_ctrl.Prelude.{
  ℕ, ◌+◌, ◌-◌, ◌%◌, ◌^◌, ℤ, negsuc, String, str_eq, Bool, true, false, not, ◌&&◌, ◌||◌, Option,
  none, some, List, [], ◌∷◌, ◌++◌, if◌then◌else◌, ltb, ◌==◌, length, is_some, u64, u64_mod, ◌==ℤ◌,
}
use linuxcnc_ctrl.Hal.Values.{HalType, Value, PinDirection, in_, out, io, read_only, read_write}
use linuxcnc_ctrl.Hal.Components.{
  HalComponents, Outcome, returned, adapter_error, exception, unknown_exception,
}
use linuxcnc_ctrl.Hal.Mapping.{encode_hal_scalar}
use linuxcnc_ctrl.Hal.Registry.{
  Code, Status, ok, error, invalid, CreateRequest, ComponentValue, Attached, ServerMessage,
  attached, Result, Call, acquired, released, failed, Config, Item, Proxy, Registry, find_proxy,
  online_pin,
}
use linuxcnc_ctrl.Hal.Registry.Fill.{Try, open_and_fill}
use linuxcnc_ctrl.Hal.Registry.Schema.{Definition, accepted, refused, check_schema}

-- `hal_error`: -ENOENT, -EBUSY and -EINVAL.
abbrev pub hal_error : String → ℤ → Status
hal_error message code =
    if code ==ℤ negsuc 1
    then error Code.not_found message
    else if code ==ℤ negsuc 15
    then error Code.resource_exhausted message
    else if code ==ℤ negsuc 21
    then error Code.invalid_argument message
    else error Code.failed_precondition message

-- `std::clamp`.
abbrev clamp : ℕ → ℕ → ℕ → ℕ
clamp value low high = if ltb value low then low else if ltb high value then high else value

-- A conversion to std::uint32_t.
abbrev u32_of : ℕ → ℕ
u32_of n = n % 2 ^ 32

module _ {D : Type 0} (h : HalComponents D) where
  open h use {
    Hal, Component, name, prefix, open_component, add_pin, add_param, set_ready, read, write, close,
  }

  -- The loop of `encode_snapshot` over the items: each item remembers what was read.
  snapshot_items : Hal → Component → List (Item D) → List (Item D) × List (ComponentValue D)
  snapshot_items hal c [] = ([], [])
  snapshot_items hal c (item ∷ items) =
      let (items', values) = snapshot_items hal c items in
      elim (read hal c item.suffix) [
        | none ↦ (item ∷ items', values)
        | some value ↦ (
          record item { previous = some value } ∷ items',
          record {
            item = record { kind = item.kind; name = item.full_name };
            value = encode_hal_scalar value;
          }
              ∷ values,
        )
      ]

  unfoldable pub encode_snapshot :
      Config → Hal → Proxy Component D → Bool → Proxy Component D × ServerMessage D
  unfolding snapshot_items
  encode_snapshot config hal proxy include_token =
      let (items, values) = snapshot_items hal proxy.component proxy.items in
      (
        record proxy { items = items },
        attached (record {
          proxy_id = proxy.id;
          name = name proxy.component;
          prefix = prefix proxy.component;
          generation = proxy.generation;
          retained_values = values;
          sampling_period_ms = u32_of proxy.sampling_period;
          heartbeat_interval_ms = u32_of config.heartbeat_interval;
          heartbeat_timeout_ms = u32_of config.heartbeat_timeout;
          ownership_token = if include_token then some proxy.ownership_token else none;
        }),
      )

  new_proxy : Config → ℕ → String → List ℕ → Component × List (Item D) → ℕ → ℕ → Proxy Component D
  new_proxy config now id token opened requested stream = record {
    id = id;
    ownership_token = token;
    component = opened.0;
    items = opened.1;
    sampling_period =
        clamp (if requested == 0 then config.default_sampling_period else requested)
          config.min_sampling_period config.max_sampling_period;
    next_sample = now;
    last_heartbeat = now;
    generation = 1;
    client_sequence = 0;
    server_sequence = 0;
    is_attached = true;
    is_active = false;
    callbacks = some stream;
  }

  -- The handlers give back the items and the admission.
  give_back :
      Registry Hal Component D
      → ℕ
      → Hal
      → Status
      → Registry Hal Component D × Result D × List (Call D)
  give_back r count hal status = (
    record r { retained_item_count = u64 (r.retained_item_count + u64_mod - count); hal = hal },
    failed status,
    acquired ∷ released ∷ [],
  )

  settle :
      Config
      → ℕ
      → CreateRequest D
      → ℕ
      → String
      → List ℕ
      → Registry Hal Component D
      → ℕ
      → Try h (Component × List (Item D))
      → Registry Hal Component D × Result D × List (Call D)
  unfolding give_back new_proxy
  settle config now request stream id token r count (hal, adapter_error message code) =
      give_back r count hal (hal_error message code)
  settle config now request stream id token r count (hal, exception message) =
      give_back r count hal
        (error Code.internal (concat "remote component creation failed: " message))
  settle config now request stream id token r count (hal, unknown_exception) =
      give_back r count hal (error Code.internal "remote component creation failed")
  settle config now request stream id token r count (hal, returned opened) =
      let proxy = new_proxy config now id token opened request.sampling_period_ms stream in
      let (kept, message) = encode_snapshot config hal proxy true in
      (
        record r { proxies = r.proxies ++ kept ∷ []; hal = hal },
        record {
          status = ok;
          response = some message;
          proxy_id = kept.id;
          generation = kept.generation;
          close = false;
        },
        acquired ∷ [],
      )

  -- The first drawn id that no proxy has.
  unused_id : List (Proxy Component D) → List String → Option String
  unused_id proxies [] = none
  unused_id proxies (id ∷ draws) =
      let again = unused_id proxies draws in
      if is_some (find_proxy id proxies) then again else some id

  -- The try block and its handlers, once the items are counted. `draws` is what the random device gives;
  -- it throws when it has no more.
  make :
      Config
      → ℕ
      → List String
      → List ℕ
      → CreateRequest D
      → ℕ
      → String
      → List (Definition D)
      → Registry Hal Component D
      → ℕ
      → Registry Hal Component D × Result D × List (Call D)
  unfolding settle unused_id
  make config now draws token request stream prefix definitions r count =
      elim (unused_id r.proxies draws) [
        | none ↦
            settle config now request stream "" token r count (r.hal, exception "random_device")
        | some id ↦
            settle config now request stream id token r count
              (open_and_fill h r.hal request.name prefix definitions)
      ]

  abbrev pub is_named : String → List (Proxy Component D) → Bool
  is_named wanted [] = false
  is_named wanted (p ∷ ps) = str_eq (name p.component) wanted || is_named wanted ps

  -- `admitted` is the answer of the admission counter, which is asked last.
  admit :
      Config
      → ℕ
      → List String
      → List ℕ
      → Bool
      → CreateRequest D
      → ℕ
      → String
      → Registry Hal Component D
      → List (Definition D)
      → Registry Hal Component D × Result D × List (Call D)
  unfolding make
  admit config now draws token admitted request stream prefix r definitions =
      let count = length definitions + 1 in
      if ltb config.max_items count
        || ltb (config.max_items - count) r.retained_item_count
        || not admitted
      then (
        r,
        failed (error Code.resource_exhausted "remote HAL component or item budget exhausted"),
        [],
      )
      else make config now draws token request stream prefix definitions
          (record r { retained_item_count = u64 (r.retained_item_count + count) }) count

  pub create :
      Config
      → ℕ
      → List String
      → List ℕ
      → Bool
      → Registry Hal Component D
      → CreateRequest D
      → ℕ
      → Registry Hal Component D × Result D × List (Call D)
  unfolding admit
  create config now draws token admitted r request stream =
      let prefix = if str_eq request.prefix "" then request.name else request.prefix in
      if str_eq request.name "" || str_eq prefix ""
      then (r, failed (invalid "component name and prefix are required"), [])
      else if is_named request.name r.proxies
      then (r, failed (error Code.already_exists "remote component name already exists"), [])
      else elim (check_schema request) [
        | refused message ↦ (r, failed (invalid message), [])
        | accepted definitions ↦
            admit config now draws token admitted request stream prefix r definitions
      ]
