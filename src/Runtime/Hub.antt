-- ===== src/Runtime/Hub.antt =====
-- SubscriptionHub and ActiveCallbackRegistry of
-- native/server/include/linuxcnc_grpc/callback_runtime.hpp: callbacks in a map under fresh numbers.
-- A callback is known by a number. The order in which std::unordered_map is walked is not fixed by
-- the code: here it is the order of insertion, and the theorems only count calls. A subscription that
-- outlives its hub does nothing, which is not modelled.
pub mod Delivery
pub mod Shutdown
mod Tests
use linuxcnc_ctrl.Prelude.{
  ℕ, ◌+◌, Bool, true, false, Option, none, some, List, [], ◌∷◌, ◌++◌, map, if◌then◌else◌, length,
  u64, ◌==◌,
}

-- An entry of the map `callbacks`: an id and its callback.
abbrev pub Entry : Type 0
Entry = ℕ × ℕ

abbrev pub has_id : ℕ → Entry → Bool
has_id i entry = entry.0 == i

contains : ℕ → List Entry → Bool
contains i [] = false
contains i (x ∷ xs) = if has_id i x then true else contains i xs

-- std::unordered_map::emplace and erase.
pub emplace : ℕ → ℕ → List Entry → List Entry
unfolding contains
emplace i callback xs = if contains i xs then xs else (i, callback) ∷ xs

pub erase : ℕ → List Entry → List Entry
erase i [] = []
erase i (x ∷ xs) = let rest = erase i xs in if has_id i x then rest else x ∷ rest

pub record Hub : Type 0 where
  pub callbacks : List Entry
  pub next_id : ℕ
  pub closed : Bool

pub empty_hub : Hub
empty_hub = record { callbacks = []; next_id = 1; closed = false }

-- The id of the subscription, which is 0 for an empty one. An empty callback is none.
pub subscribe : Hub → Option ℕ → Hub × ℕ
subscribe h none = (h, 0)
subscribe h (some callback) = if h.closed then (h, 0) else (
  record h { callbacks = emplace h.next_id callback h.callbacks; next_id = u64 (h.next_id + 1) },
  h.next_id,
)

-- `Subscription::reset` and its destructor.
pub reset : Hub → ℕ → Hub
reset h i = if i == 0 then h else record h { callbacks = erase i h.callbacks }

-- The entries whose callbacks `publish` calls with the event, after it has left the lock.
pub publish : Hub → List Entry
publish h = if h.closed then [] else h.callbacks

pub close : Hub → Hub
close h = record h { closed = true; callbacks = [] }

pub subscriber_count : Hub → ℕ
subscriber_count h = length h.callbacks

pub data Step : Type 0 where
  subscribes : Option ℕ → Step
  resets : ℕ → Step
  closes : Step

pub step : Hub → Step → Hub
step h (subscribes callback) = (subscribe h callback).0
step h (resets i) = reset h i
step h closes = close h

pub run : Hub → List Step → Hub
run h [] = h
run h (s ∷ ss) = run (step h s) ss

-- ActiveCallbackRegistry: the same map, and a shutdown that calls every callback once.
pub record Registry : Type 0 where
  pub callbacks : List Entry
  pub next_id : ℕ
  pub shutting_down : Bool

pub empty_registry : Registry
empty_registry = record { callbacks = []; next_id = 1; shutting_down = false }

pub register_callback : Registry → Option ℕ → Registry × ℕ
register_callback r none = (r, 0)
register_callback r (some callback) = if r.shutting_down then (r, 0) else (
  record r { callbacks = emplace r.next_id callback r.callbacks; next_id = u64 (r.next_id + 1) },
  r.next_id,
)

-- `Registration::reset` and its destructor.
pub unregister : Registry → ℕ → Registry
unregister r i = if i == 0 then r else record r { callbacks = erase i r.callbacks }

-- The callbacks that `shutdown` calls, after it has left the lock.
pub shutdown : Registry → Registry × List Entry
shutdown r = if r.shutting_down then (r, []) else (record r { shutting_down = true }, r.callbacks)

pub active_count : Registry → ℕ
active_count r = length r.callbacks

pub data RegistryStep : Type 0 where
  registers : Option ℕ → RegistryStep
  unregisters : ℕ → RegistryStep
  shuts_down : RegistryStep

pub registry_step : Registry → RegistryStep → Registry × List Entry
registry_step r (registers callback) = ((register_callback r callback).0, [])
registry_step r (unregisters i) = (unregister r i, [])
registry_step r shuts_down = shutdown r

pub registry_run : Registry → List RegistryStep → Registry × List Entry
registry_run r [] = (r, [])
registry_run r (s ∷ ss) =
    let (r₁, called) = registry_step r s in
    let (r₂, later) = registry_run r₁ ss in (r₂, called ++ later)
