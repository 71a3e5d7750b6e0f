-- ===== src/Hal/Registry.antt =====
-- RemoteComponentRegistry of native/server/src/hal/grpc/remote_component_registry.cc: the proxies of
-- remote HAL components, kept across streams. All its methods run on one worker. Here are the state, the
-- messages and the lookups; the operations are in the modules below. The unordered map is a list in the
-- order of insertion, a time or a duration is a number of milliseconds, a token is the list of its bytes,
-- and the callbacks of a stream are the number of the stream.
pub mod Schema
pub mod Fill
pub mod Create
pub mod Updates
pub mod Sessions
pub mod Sampling
pub mod Lookup
use Prim.Native.Nat.{bit_or, bit_xor}
use Prim.Native.String.{◌++◌ as concat, len, slice}
use text.Mathlib.Text.{starts_with}
use linuxcnc_ctrl.Prelude.{
  ℕ, ◌+◌, String, str_eq, Bool, true, false, not, ◌&&◌, ◌||◌, Option, none, some, List, [], ◌∷◌,
  if◌then◌else◌, ◌==◌, length,
}
use linuxcnc_ctrl.Hal.Values.{HalType, Value}
use linuxcnc_ctrl.Hal.Components.{HalComponents}
use linuxcnc_ctrl.Hal.Mapping.{Scalar, ItemRef}

-- The codes of ::grpc::Status that the registry gives.
pub data Code : Type 0 where
  invalid_argument not_found already_exists resource_exhausted unauthenticated : Code
  failed_precondition out_of_range internal : Code

pub data Status : Type 0 where
  ok : Status
  error : Code → String → Status

abbrev pub invalid : String → Status
invalid message = error invalid_argument message

abbrev pub online_pin : String
online_pin = "online"

-- HalComponentPin and HalComponentParameter.
pub record ItemSchema (D : Type 0) : Type 0 where
  pub name : String
  pub type : ℕ
  pub direction : ℕ
  pub disconnect_value : Option (Scalar D)

pub record CreateRequest (D : Type 0) : Type 0 where
  pub name : String
  pub prefix : String
  pub pins : List (ItemSchema D)
  pub parameters : List (ItemSchema D)
  pub sampling_period_ms : ℕ

pub record AttachRequest : Type 0 where
  pub proxy_id : String
  pub name : String
  pub ownership_token : List ℕ

pub record ComponentValue (D : Type 0) : Type 0 where
  pub item : ItemRef
  pub value : Scalar D

pub data ClientMessage (D : Type 0) : Type 0 where
  create : CreateRequest D → ClientMessage D
  attach : AttachRequest → ClientMessage D
  -- The generation and the values.
  activate : ℕ → List (ComponentValue D) → ClientMessage D
  -- The generation, the sequence and the values.
  update : ℕ → ℕ → List (ComponentValue D) → ClientMessage D
  heartbeat : ℕ → ClientMessage D
  -- The generation and the mode.
  close : ℕ → ℕ → ClientMessage D
  not_set : ClientMessage D

pub record Attached (D : Type 0) : Type 0 where
  pub proxy_id : String
  pub name : String
  pub prefix : String
  pub generation : ℕ
  pub retained_values : List (ComponentValue D)
  pub sampling_period_ms : ℕ
  pub heartbeat_interval_ms : ℕ
  pub heartbeat_timeout_ms : ℕ
  pub ownership_token : Option (List ℕ)

pub data ServerMessage (D : Type 0) : Type 0 where
  attached : Attached D → ServerMessage D
  active : ℕ → ServerMessage D
  update_ack : ℕ → ℕ → ServerMessage D
  delta : ℕ → ℕ → List (ComponentValue D) → ServerMessage D
  heartbeat_ack : ℕ → ServerMessage D
  closed : String → ℕ → ServerMessage D

pub record Result (D : Type 0) : Type 0 where
  pub status : Status
  pub response : Option (ServerMessage D)
  pub proxy_id : String
  pub generation : ℕ
  pub close : Bool

-- What the registry calls outside: its admission counter, and the callbacks of a stream.
pub data Call (D : Type 0) : Type 0 where
  acquired released : Call D
  offered_delta : ℕ → ServerMessage D → Call D
  heartbeat_timed_out : ℕ → ℕ → Call D

abbrev pub failed : {D : Type 0} → Status → Result D
failed status = record {
  status = status;
  response = none;
  proxy_id = "";
  generation = 0;
  close = false;
}

pub record Config : Type 0 where
  pub max_items : ℕ
  pub heartbeat_interval : ℕ
  pub heartbeat_timeout : ℕ
  pub default_sampling_period : ℕ
  pub min_sampling_period : ℕ
  pub max_sampling_period : ℕ

pub record Item (D : Type 0) : Type 0 where
  pub suffix : String
  pub kind : ℕ
  pub type : HalType
  pub full_name : String
  pub client_writable : Bool
  pub server_readable : Bool
  pub disconnect_value : Option (Value D)
  pub previous : Option (Value D)

pub record Proxy (C D : Type 0) : Type 0 where
  pub id : String
  pub ownership_token : List ℕ
  pub component : C
  pub items : List (Item D)
  pub sampling_period : ℕ
  pub next_sample : ℕ
  pub last_heartbeat : ℕ
  pub generation : ℕ
  pub client_sequence : ℕ
  pub server_sequence : ℕ
  pub is_attached : Bool
  pub is_active : Bool
  pub callbacks : Option ℕ

pub record Registry (H C D : Type 0) : Type 0 where
  pub proxies : List (Proxy C D)
  pub retained_item_count : ℕ
  pub hal : H

pub start : {H C D : Type 0} → H → Registry H C D
start hal = record { proxies = []; retained_item_count = 0; hal = hal }

-- The loop of `token_equal` over the two texts.
token_difference : List ℕ → List ℕ → ℕ → ℕ
token_difference (l ∷ left) (r ∷ right) difference =
    token_difference left right (bit_or difference (bit_xor l r))
token_difference _ _ difference = difference

pub token_equal : List ℕ → List ℕ → Bool
unfolding token_difference
token_equal left right =
    if not (length left == length right) then false else token_difference left right 0 == 0

module _ {C D : Type 0} where
  abbrev pub find_proxy : String → List (Proxy C D) → Option (Proxy C D)
  find_proxy id [] = none
  find_proxy id (p ∷ ps) = if str_eq p.id id then some p else find_proxy id ps

  -- The proxy is mutated where it stands.
  abbrev pub put_proxy : Proxy C D → List (Proxy C D) → List (Proxy C D)
  put_proxy p [] = []
  put_proxy p (q ∷ qs) = if str_eq q.id p.id then p ∷ qs else q ∷ put_proxy p qs

  abbrev pub erase_proxy : String → List (Proxy C D) → List (Proxy C D)
  erase_proxy id [] = []
  erase_proxy id (p ∷ ps) = if str_eq p.id id then ps else p ∷ erase_proxy id ps

-- An item by its suffix or full name, with its place, which stands for its address.
abbrev pub suffix_of : String → String → String
suffix_of prefix name =
    let dotted = concat prefix "." in
    if starts_with name dotted then slice name (len dotted) (len name) else name

module _ {D : Type 0} where
  pub item_at : ℕ → String → ℕ → List (Item D) → Option (ℕ × Item D)
  item_at place name kind [] = none
  item_at place name kind (item ∷ items) =
      if str_eq item.suffix name && item.kind == kind
      then some (place, item)
      else item_at (place + 1) name kind items

  pub find_item : String → ItemRef → List (Item D) → Option (ℕ × Item D)
  unfolding item_at
  find_item prefix ref items = item_at 0 (suffix_of prefix ref.name) ref.kind items
