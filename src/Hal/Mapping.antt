-- ===== src/Hal/Mapping.antt =====
-- Between HAL values and protobuf messages: native/server/src/hal/grpc/mapping.cc. A protobuf enum is a
-- number, since the wire may carry any; a oneof has a case for none; a field that is not set has its
-- default.
pub mod Scalars
pub mod Topology
mod Tests
use linuxcnc_ctrl.Doubles.{Doubles}
use linuxcnc_ctrl.Prelude.{
  ℕ, ◌+◌, ◌-◌, ◌^◌, ◌%◌, ℤ, pos, negsuc, String, str_eq, Bool, true, false, Option, none, some,
  List, [], map, if◌then◌else◌, ◌==◌,
}
use linuxcnc_ctrl.Hal.Values.{HalType, type_index, Value, ItemKind, Reference}

-- `HalScalar::value_case` with the value.
pub data OneOf (D : Type 0) : Type 0 where
  not_set : OneOf D
  bit : Bool → OneOf D
  float_value : D → OneOf D
  s32 : ℤ → OneOf D
  u32 : ℕ → OneOf D
  s64 : ℤ → OneOf D
  u64 : ℕ → OneOf D

pub record Scalar (D : Type 0) : Type 0 where
  pub type : ℕ
  pub value : OneOf D

pub record ItemRef : Type 0 where
  pub kind : ℕ
  pub name : String

-- The generated enumerators start at 1, after the unspecified one.
abbrev pub encode_type : HalType → ℕ
encode_type type = type_index type + 1

pub decode_hal_reference : ItemRef → Option Reference
decode_hal_reference source =
    if str_eq source.name ""
    then none
    else if source.kind == 1
    then some (record { kind = ItemKind.pin; name = source.name })
    else if source.kind == 2
    then some (record { kind = ItemKind.param; name = source.name })
    else if source.kind == 3
    then some (record { kind = ItemKind.signal; name = source.name })
    else none

module _ {D : Type 0} where
  -- The value of a oneof that has the case of a type, number by number.
  unfoldable pub decode_value : ℕ → OneOf D → Option (Value D)
  decode_value type not_set = none
  decode_value type (bit b) = if type == 1 then some (Value.bit b) else none
  decode_value type (float_value x) = if type == 2 then some (Value.float x) else none
  decode_value type (s32 i) = if type == 3 then some (Value.s32 i) else none
  decode_value type (u32 n) = if type == 4 then some (Value.u32 n) else none
  decode_value type (s64 i) = if type == 5 then some (Value.s64 i) else none
  decode_value type (u64 n) = if type == 6 then some (Value.u64 n) else none

  unfoldable pub decode_hal_scalar : Scalar D → Option (Value D)
  unfolding decode_value
  decode_hal_scalar source = decode_value source.type source.value

  pub encode_hal_scalar : Value D → Scalar D
  encode_hal_scalar (Value.bit b) = record { type = 1; value = bit b }
  encode_hal_scalar (Value.float x) = record { type = 2; value = float_value x }
  encode_hal_scalar (Value.s32 i) = record { type = 3; value = s32 i }
  encode_hal_scalar (Value.u32 n) = record { type = 4; value = u32 n }
  encode_hal_scalar (Value.s64 i) = record { type = 5; value = s64 i }
  encode_hal_scalar (Value.u64 n) = record { type = 6; value = u64 n }
