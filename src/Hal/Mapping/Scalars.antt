-- ===== src/Hal/Mapping/Scalars.antt =====
-- A protobuf scalar and a HAL value determine each other.
use linuxcnc_ctrl.Prelude.{ℕ, ◌≡◌, refl, ◌↔◌, some, arith}
use linuxcnc_ctrl.Hal.Values.{Value}
use linuxcnc_ctrl.Hal.Mapping.{
  OneOf, not_set, bit, Scalar, decode_value, decode_hal_scalar, encode_hal_scalar,
}

module _ {D : Type 0} where
  pub decode-encode_hal_scalar : (v : Value D) → decode_hal_scalar (encode_hal_scalar v) ≡ some v
  unfolding decode_hal_scalar encode_hal_scalar
  decode-encode_hal_scalar (Value.bit b) = refl
  decode-encode_hal_scalar _ = refl

  decode_value-encode :
      (type : ℕ) (o : OneOf D) (v : Value D)
      → decode_value type o ≡ some v
      → record { type = type; value = o } ≡ encode_hal_scalar v
  unfolding decode_value encode_hal_scalar
  decode_value-encode type not_set v h = ground (arith, h)
  decode_value-encode type (bit b) v h = ground (arith, h)
  decode_value-encode type _ v h = ground (arith, h)

  -- Decoding a protobuf scalar gives a value exactly if the scalar is the encoding of that value: so the
  -- encoding loses nothing, a scalar whose type and case disagree is refused, and no other scalar
  -- decodes to the same value.
  pub decode_hal_scalar-encode :
      (s : Scalar D) (v : Value D) → (decode_hal_scalar s ≡ some v) ↔ (s ≡ encode_hal_scalar v)
  unfolding decode_hal_scalar
  decode_hal_scalar-encode s v =
      (λ h. decode_value-encode s.type s.value v h, λ e. rw e (decode-encode_hal_scalar v))
