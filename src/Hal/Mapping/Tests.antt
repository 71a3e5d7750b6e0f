-- ===== src/Hal/Mapping/Tests.antt =====
-- Mappings of concrete values.
use linuxcnc_ctrl.Prelude.{ℤ, negsuc, ◌≡◌, refl, ◌↔◌, none, some}
use linuxcnc_ctrl.Hal.Values.{Value}
use linuxcnc_ctrl.Hal.Mapping.{
  s32, u32, Scalar, decode_hal_reference, decode_hal_scalar, encode_hal_scalar,
}
use linuxcnc_ctrl.Hal.Mapping.Scalars.{decode_hal_scalar-encode}

abbrev offset : Scalar ℤ
offset = record { type = 3; value = s32 (negsuc 4) }

decode_hal_scalar-encode_example :
    (decode_hal_scalar offset ≡ some (Value.s32 (negsuc 4)))
    ↔ (offset ≡ encode_hal_scalar (Value.s32 (negsuc 4)))
decode_hal_scalar-encode_example = decode_hal_scalar-encode offset (Value.s32 (negsuc 4))

mismatched : decode_hal_scalar {D = ℤ} (record { type = 3; value = u32 4 }) ≡ none
unfolding decode_hal_scalar
mismatched = refl

nameless : decode_hal_reference (record { kind = 1; name = "" }) ≡ none
unfolding decode_hal_reference
nameless = refl
