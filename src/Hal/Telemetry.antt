-- ===== src/Hal/Telemetry.antt =====
-- HalValueTelemetry of native/server/src/hal/value_telemetry.cc: subscriptions to HAL values, each with
-- its slots, and their sampling budget. A point in time and a duration are a number of milliseconds, a
-- value is a number with the equality of the C++ variant as a parameter, and an unordered map is a list
-- in the order of insertion. The random tokens come from a list of draws. `wakes` is the hub of
-- Runtime.Hub; here each function returns what it does to it.
pub mod Fastest
pub mod Budget
pub mod Slots
pub mod Operations
mod Tests
use Prim.Native.String.{◌++◌ as concat}
use linuxcnc_ctrl.Prelude.{
  ℕ, zero, suc, ◌+◌, ◌-◌, ◌/◌, ◌%◌, ◌^◌, String, str_eq, Bool, true, false, not, ◌&&◌, ◌||◌, Option,
  none, some, List, [], ◌∷◌, ◌++◌, if◌then◌else◌, length, is_empty, is_some, ltb, leb, u64, ◌==◌,
}

pub data ItemKind : Type 0 where
  pin param signal : ItemKind

pub data ItemType : Type 0 where
  unavailable bit float s32 u32 s64 u64_type : ItemType

pub record Reference : Type 0 where
  pub kind : ItemKind
  pub name : String

pub record ResolvedItem : Type 0 where
  pub item : Reference
  pub type : ItemType

pub record Binding : Type 0 where
  pub slot : ℕ
  pub item : Reference
  pub type : ItemType

pub record Subscription : Type 0 where
  pub id : String
  pub attachment_token : String
  pub expires : ℕ
  pub next_due : ℕ
  pub sample_period : ℕ
  pub revision : ℕ
  pub sequence : ℕ
  pub next_slot : ℕ
  pub attached : Bool
  pub sampled : Bool
  pub bindings : List Binding
  pub values : List (Option ℕ)

pub record Telemetry : Type 0 where
  pub capacity : ℕ
  pub attachment_ttl : ℕ
  pub states : List Subscription
  pub tokens : List (String × String)
  pub closed : Bool

pub data Wake : Type 0 where
  published : String → ℕ → Wake
  hub_closed : String → Wake

abbrev pub max_samples_per_second : ℕ
max_samples_per_second = 20480

abbrev pub type_number : ItemType → ℕ
type_number unavailable = 0
type_number bit = 1
type_number float = 2
type_number s32 = 3
type_number u32 = 4
type_number s64 = 5
type_number u64_type = 6

abbrev kind_digit : ItemKind → String
kind_digit pin = "1"
kind_digit param = "2"
kind_digit signal = "3"

abbrev pub key : Reference → String
key item = concat (kind_digit item.kind) (concat ":" item.name)

abbrev pub period_at : String → List (String × ℕ) → Option ℕ
period_at k [] = none
period_at k (entry ∷ fastest) = if str_eq entry.0 k then some entry.1 else period_at k fastest

abbrev pub set_period : String → ℕ → List (String × ℕ) → List (String × ℕ)
set_period k period [] = (k, period) ∷ []
set_period k period (entry ∷ fastest) =
    if str_eq entry.0 k then (k, period) ∷ fastest else entry ∷ set_period k period fastest

-- The lambda `include`, for one key: `found == end || period < found`.
include_key : String → ℕ → List (String × ℕ) → List (String × ℕ)
include_key k period fastest = elim (period_at k fastest) [
  | none ↦ set_period k period fastest
  | some found ↦ if ltb period found then set_period k period fastest else fastest
]

include : List Reference → ℕ → List (String × ℕ) → List (String × ℕ)
unfolding include_key
include [] period fastest = fastest
include (item ∷ items) period fastest = include items period (include_key (key item) period fastest)

abbrev bound_items : List Binding → List Reference
bound_items [] = []
bound_items (b ∷ bs) = b.item ∷ bound_items bs

abbrev resolved_items : List ResolvedItem → List Reference
resolved_items [] = []
resolved_items (i ∷ is) = i.item ∷ resolved_items is

abbrev is_id : Option String → String → Bool
is_id none id = false
is_id (some replacing) id = str_eq id replacing

include_states : Option String → List Subscription → List (String × ℕ) → List (String × ℕ)
unfolding include
include_states replacing [] fastest = fastest
include_states replacing (s ∷ ss) fastest =
    let skipped = include_states replacing ss fastest in
    let rest =
      include_states replacing ss (include (bound_items s.bindings) s.sample_period fastest) in
    if is_id replacing s.id then skipped else rest

abbrev pub rate_of : ℕ → ℕ
rate_of milliseconds = (1000 + milliseconds - 1) / milliseconds

-- The loop that adds up the cost.
pub affordable : ℕ → List (String × ℕ) → Bool
affordable cost [] = true
affordable cost (entry ∷ fastest) =
    let rest = affordable (cost + rate_of entry.1) fastest in
    if ltb (max_samples_per_second - cost) (rate_of entry.1) then false else rest

pub fastest_of : Telemetry → Option String → List ResolvedItem → ℕ → List (String × ℕ)
unfolding include include_states
fastest_of t replacing items sample_period =
    include (resolved_items items) sample_period (include_states replacing t.states [])

pub within_sampling_budget : Telemetry → Option String → List ResolvedItem → ℕ → Bool
unfolding affordable fastest_of
within_sampling_budget t replacing items sample_period =
    affordable 0 (fastest_of t replacing items sample_period)

abbrev pub erase_token : String → List (String × String) → List (String × String)
erase_token token [] = []
erase_token token (entry ∷ tokens) =
    if str_eq entry.0 token then tokens else entry ∷ erase_token token tokens

abbrev pub find_state : String → List Subscription → Option Subscription
find_state id [] = none
find_state id (s ∷ ss) = if str_eq s.id id then some s else find_state id ss

abbrev pub put_state : Subscription → List Subscription → List Subscription
put_state s [] = []
put_state s (r ∷ rs) = if str_eq r.id s.id then s ∷ rs else r ∷ put_state s rs

abbrev pub erase_state : String → List Subscription → List Subscription
erase_state id [] = []
erase_state id (s ∷ ss) = if str_eq s.id id then ss else s ∷ erase_state id ss

abbrev has_expired : ℕ → Subscription → Bool
has_expired now s = not s.attached && leb s.expires now

expire_states :
    ℕ
    → List Subscription
    → List (String × String)
    → List Subscription × List (String × String) × List Wake
expire_states now [] tokens = ([], tokens, [])
expire_states now (s ∷ ss) tokens =
    let (gone, fewer, closes) = expire_states now ss (erase_token s.attachment_token tokens) in
    let (kept, all, wakes) = expire_states now ss tokens in
    if has_expired now s then (gone, fewer, hub_closed s.id ∷ closes) else (s ∷ kept, all, wakes)

pub expire : Telemetry → ℕ → Telemetry × List Wake
unfolding expire_states
expire t now =
    let (states, tokens, wakes) = expire_states now t.states t.tokens in
    (record t { states = states; tokens = tokens }, wakes)

-- `find_prior k` is the first binding with the key, which is the one that `emplace` keeps, and its value.
pub find_prior : String → List Binding → List (Option ℕ) → Option (Binding × Option ℕ)
find_prior k [] values = none
find_prior k (b ∷ bs) [] = none
find_prior k (b ∷ bs) (v ∷ vs) = if str_eq (key b.item) k then some (b, v) else find_prior k bs vs

-- The loop of `update` over the items: bindings, values and `next_slot`, a std::uint32_t.
abbrev pub u32_of : ℕ → ℕ
u32_of n = n % 2 ^ 32

pub fresh_binding : ResolvedItem → ℕ → Binding
fresh_binding i slot = record { slot = slot; item = i.item; type = i.type }

place_item : ResolvedItem → ℕ → Option (Binding × Option ℕ) → Binding × Option ℕ × ℕ
unfolding fresh_binding
place_item i slot none = (fresh_binding i slot, none, u32_of (slot + 1))
place_item i slot (some prior) =
    if type_number prior.0.type == type_number i.type
    then (prior.0, prior.1, slot)
    else (fresh_binding i slot, none, u32_of (slot + 1))

pub rebind :
    List ResolvedItem → List Binding → List (Option ℕ) → ℕ → List Binding × List (Option ℕ) × ℕ
unfolding place_item find_prior
rebind [] bindings values slot = ([], [], slot)
rebind (i ∷ is) bindings values slot =
    let (b, v, next) = place_item i slot (find_prior (key i.item) bindings values) in
    let (bs, vs, last) = rebind is bindings values next in (b ∷ bs, v ∷ vs, last)
