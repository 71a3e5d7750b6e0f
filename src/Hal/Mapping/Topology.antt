-- ===== src/Hal/Mapping/Topology.antt =====
-- `encode_hal_topology` of native/server/src/hal/grpc/mapping.cc, record by record.
use linuxcnc_ctrl.Doubles.{Doubles}
use linuxcnc_ctrl.Prelude.{
  ℕ, ◌-◌, ◌^◌, ◌%◌, ℤ, pos, negsuc, String, Bool, Option, none, some, List, map, ◌≡◌, refl, ap, ◌∙◌,
  [], ◌∷◌,
}
use linuxcnc_ctrl.Hal.Values.{
  PinDirection, in_, out, io, ParamDirection, read_only, read_write, ComponentKind, ComponentInfo,
  FunctionInfo, ThreadInfo, PinInfo, ParamInfo, SignalInfo, Topology,
}
use linuxcnc_ctrl.Hal.Mapping.{Scalar, encode_type, encode_hal_scalar, decode_hal_scalar}
use linuxcnc_ctrl.Hal.Mapping.Scalars.{decode-encode_hal_scalar}

pub record ComponentMessage : Type 0 where
  pub id : ℤ
  pub name : String
  pub kind : ℕ
  pub ready : Bool
  pub pid : ℤ

pub record FunctionMessage (D : Type 0) : Type 0 where
  pub name : String
  pub owner_id : ℤ
  pub owner_name : String
  pub uses_fp : Bool
  pub reentrant : Bool
  pub users : ℤ
  pub runtime : D
  pub max_runtime : D
  pub max_runtime_increased : Bool

pub record ThreadMessage (D : Type 0) : Type 0 where
  pub name : String
  pub period_ns : ℕ
  pub priority : ℤ
  pub uses_fp : Bool
  pub running : Bool
  pub runtime : D
  pub max_runtime : D
  pub functions : List String

pub record PinMessage (D : Type 0) : Type 0 where
  pub name : String
  pub value : Scalar D
  pub type : ℕ
  pub direction : ℕ
  pub owner_id : ℤ
  pub signal_name : String

pub record ParamMessage (D : Type 0) : Type 0 where
  pub name : String
  pub value : Scalar D
  pub type : ℕ
  pub direction : ℕ
  pub owner_id : ℤ

pub record SignalMessage (D : Type 0) : Type 0 where
  pub name : String
  pub value : Scalar D
  pub type : ℕ
  pub driver : String
  pub readers : ℕ
  pub writers : ℕ
  pub bidirs : ℕ

pub record TopologyMessage (D : Type 0) : Type 0 where
  pub components : List ComponentMessage
  pub functions : List (FunctionMessage D)
  pub threads : List (ThreadMessage D)
  pub pins : List (PinMessage D)
  pub params : List (ParamMessage D)
  pub signals : List (SignalMessage D)

abbrev pub encode_pin_direction : PinDirection → ℕ
encode_pin_direction in_ = 1
encode_pin_direction out = 2
encode_pin_direction io = 3

abbrev pub encode_param_direction : ParamDirection → ℕ
encode_param_direction read_only = 1
encode_param_direction read_write = 2

abbrev encode_component_kind : ComponentKind → ℕ
encode_component_kind ComponentKind.user = 1
encode_component_kind ComponentKind.realtime = 2
encode_component_kind ComponentKind.other = 3
encode_component_kind ComponentKind.unknown = 4

-- `if (value) set(*value)` on a cleared message whose field has a default.
abbrev value_or_default {ℓ} : {A : Type ℓ} → A → Option A → A
value_or_default default none = default
value_or_default default (some value) = value

-- A conversion of a signed integer to an unsigned one of a width.
abbrev unsigned : ℕ → ℤ → ℕ
unsigned width (pos n) = n % 2 ^ width
unsigned width (negsuc n) = 2 ^ width - 1 - n % 2 ^ width

encode_component : ComponentInfo → ComponentMessage
encode_component c = record {
  id = c.id;
  name = c.name;
  kind = encode_component_kind c.kind;
  ready = c.ready;
  pid = value_or_default (pos 0) c.pid;
}

map_twice {ℓ κ μ} :
    {A : Type ℓ} {B : Type κ} {C : Type μ} (f : B → C) (g : A → B) (h : A → C)
    → ((x : A) → f (g x) ≡ h x)
    → (xs : List A) → map f (map g xs) ≡ map h xs
map_twice f g h e [] = refl
map_twice f g h e (x ∷ xs) =
    ap (λ y. y ∷ map f (map g xs)) (e x) ∙ ap (λ ys. h x ∷ ys) (map_twice f g h e xs)

module _ (d : Doubles) where
  open d use {Double, of_int}

  runtime_of : Option ℤ → Double
  runtime_of none = of_int (pos 0)
  runtime_of (some runtime) = of_int runtime

  encode_function : FunctionInfo → FunctionMessage Double
  unfolding runtime_of
  encode_function f = record {
    name = f.name;
    owner_id = f.owner_id;
    owner_name = f.owner_name;
    uses_fp = f.uses_fp;
    reentrant = f.reentrant;
    users = f.users;
    runtime = runtime_of f.runtime;
    max_runtime = of_int f.max_runtime;
    max_runtime_increased = f.max_runtime_increased;
  }

  encode_thread : ThreadInfo → ThreadMessage Double
  unfolding runtime_of
  encode_thread t = record {
    name = t.name;
    period_ns = unsigned 64 t.period_ns;
    priority = t.priority;
    uses_fp = t.uses_fp;
    running = t.running;
    runtime = runtime_of t.runtime;
    max_runtime = of_int t.max_runtime;
    functions = t.functions;
  }

  encode_pin : PinInfo Double → PinMessage Double
  encode_pin p = record {
    name = p.name;
    value = encode_hal_scalar p.value;
    type = encode_type p.type;
    direction = encode_pin_direction p.direction;
    owner_id = p.owner_id;
    signal_name = value_or_default "" p.signal_name;
  }

  encode_param : ParamInfo Double → ParamMessage Double
  encode_param p = record {
    name = p.name;
    value = encode_hal_scalar p.value;
    type = encode_type p.type;
    direction = encode_param_direction p.direction;
    owner_id = p.owner_id;
  }

  encode_signal : SignalInfo Double → SignalMessage Double
  encode_signal s = record {
    name = s.name;
    value = encode_hal_scalar s.value;
    type = encode_type s.type;
    driver = value_or_default "" s.driver;
    readers = unsigned 32 s.readers;
    writers = unsigned 32 s.writers;
    bidirs = unsigned 32 s.bidirs;
  }

  pub encode_hal_topology : Topology Double → TopologyMessage Double
  unfolding encode_component encode_function encode_thread encode_pin encode_param encode_signal
  encode_hal_topology source = record {
    components = map encode_component source.components;
    functions = map encode_function source.functions;
    threads = map encode_thread source.threads;
    pins = map encode_pin source.pins;
    params = map encode_param source.params;
    signals = map encode_signal source.signals;
  }

  -- Reading the values back from an encoded topology gives those of its pins, parameters and signals,
  -- one by one.
  pub encode_hal_topology-values :
      (source : Topology Double)
      → let m = encode_hal_topology source in
        (map (λ p. decode_hal_scalar (PinMessage.value p)) m.pins
          ≡ map (λ p. some (PinInfo.value p)) source.pins)
        × (map (λ p. decode_hal_scalar (ParamMessage.value p)) m.params
            ≡ map (λ p. some (ParamInfo.value p)) source.params)
        × (map (λ s. decode_hal_scalar (SignalMessage.value s)) m.signals
            ≡ map (λ s. some (SignalInfo.value s)) source.signals)
  unfolding encode_hal_topology
  encode_hal_topology-values source = (
    map_twice _ (encode_pin) _ (λ p. decode-encode_hal_scalar p.value) source.pins,
    map_twice _ (encode_param) _ (λ p. decode-encode_hal_scalar p.value) source.params,
    map_twice _ (encode_signal) _ (λ s. decode-encode_hal_scalar s.value) source.signals,
  )
