-- ===== src/Hal/Values.antt =====
-- The values of HAL items and the records of the HAL topology:
-- native/server/include/linuxcnc_grpc/hal/adapter.hpp. An int is an integer, a std::uint32_t or
-- std::uint64_t a number, and a double is of a type that is a parameter.
use linuxcnc_ctrl.Prelude.{ℕ, ℤ, String, Bool, Option, List, ◌==◌}

pub data HalType : Type 0 where
  bit float s32 u32 s64 u64 : HalType

-- `static_cast<int>` of an enumerator.
abbrev pub type_index : HalType → ℕ
type_index HalType.bit = 0
type_index HalType.float = 1
type_index HalType.s32 = 2
type_index HalType.u32 = 3
type_index HalType.s64 = 4
type_index HalType.u64 = 5

-- The std::variant; its alternatives stand in the order of the types.
pub data Value (D : Type 0) : Type 0 where
  bit : Bool → Value D
  float : D → Value D
  s32 : ℤ → Value D
  u32 : ℕ → Value D
  s64 : ℤ → Value D
  u64 : ℕ → Value D

-- `variant::index`.
abbrev pub value_index : {D : Type 0} → Value D → ℕ
value_index (Value.bit b) = 0
value_index (Value.float x) = 1
value_index (Value.s32 i) = 2
value_index (Value.u32 n) = 3
value_index (Value.s64 i) = 4
value_index (Value.u64 n) = 5

-- `decoded->index() == type`, which is also what `same_type` of the adapter tests.
abbrev pub same_type : {D : Type 0} → HalType → Value D → Bool
same_type type value = value_index value == type_index type

pub data ItemKind : Type 0 where
  pin param signal : ItemKind

pub data PinDirection : Type 0 where
  in_ out io : PinDirection

pub data ParamDirection : Type 0 where
  read_only read_write : ParamDirection

pub data ComponentKind : Type 0 where
  unknown user realtime other : ComponentKind

pub record Reference : Type 0 where
  pub kind : ItemKind
  pub name : String

pub record ComponentInfo : Type 0 where
  pub id : ℤ
  pub name : String
  pub kind : ComponentKind
  pub ready : Bool
  pub pid : Option ℤ

pub record FunctionInfo : Type 0 where
  pub name : String
  pub owner_id : ℤ
  pub owner_name : String
  pub uses_fp : Bool
  pub reentrant : Bool
  pub users : ℤ
  pub runtime : Option ℤ
  pub max_runtime : ℤ
  pub max_runtime_increased : Bool

pub record ThreadInfo : Type 0 where
  pub name : String
  pub period_ns : ℤ
  pub priority : ℤ
  pub uses_fp : Bool
  pub running : Bool
  pub runtime : Option ℤ
  pub max_runtime : ℤ
  pub functions : List String

pub record PinInfo (D : Type 0) : Type 0 where
  pub name : String
  pub value : Value D
  pub type : HalType
  pub direction : PinDirection
  pub owner_id : ℤ
  pub signal_name : Option String

pub record ParamInfo (D : Type 0) : Type 0 where
  pub name : String
  pub value : Value D
  pub type : HalType
  pub direction : ParamDirection
  pub owner_id : ℤ

pub record SignalInfo (D : Type 0) : Type 0 where
  pub name : String
  pub value : Value D
  pub type : HalType
  pub driver : Option String
  pub readers : ℤ
  pub writers : ℤ
  pub bidirs : ℤ

pub record Topology (D : Type 0) : Type 0 where
  pub components : List ComponentInfo
  pub functions : List FunctionInfo
  pub threads : List ThreadInfo
  pub pins : List (PinInfo D)
  pub params : List (ParamInfo D)
  pub signals : List (SignalInfo D)
