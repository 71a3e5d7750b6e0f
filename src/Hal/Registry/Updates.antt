-- ===== src/Hal/Registry/Updates.antt =====
-- `decode_values`: what a message writes to the items of a component.
pub mod Named
pub mod Exact
pub mod Cover
use linuxcnc_ctrl.Prelude.{
  ℕ, ◌+◌, ◌-◌, String, str_eq, Bool, true, false, not, ◌&&◌, ◌||◌, Option, none, some, List, [],
  ◌∷◌, ◌++◌, if◌then◌else◌, ◌==◌, length, count_if, u64, u64_mod, is_empty,
}
use linuxcnc_ctrl.Hal.Values.{Value}
use linuxcnc_ctrl.Hal.Components.{HalComponents}
use linuxcnc_ctrl.Hal.Registry.{
  Code, Status, ok, error, invalid, CreateRequest, AttachRequest, ComponentValue, ClientMessage,
  ServerMessage, active, update_ack, heartbeat_ack, closed, Result, Call, released, failed, Config,
  Item, Proxy, Registry, find_proxy, put_proxy, erase_proxy, find_item, token_equal, online_pin,
}
use linuxcnc_ctrl.Hal.Registry.Schema.{Checked, accepted, refused, ◌>>=◌, typed_value}

abbrev pub is_among : ℕ → List ℕ → Bool
is_among n [] = false
is_among n (m ∷ ms) = m == n || is_among n ms

module _ {D : Type 0} where
  -- One value of an update: its item, which must be the client's and not seen before, and its exact type.
  unfoldable pub decode_update :
      List ℕ → ComponentValue D → Option (ℕ × Item D) → Checked (ℕ × Item D × Value D)
  decode_update seen update none =
      refused "component update targets an item not owned by the client"
  decode_update seen update (some (place, item)) =
      if not item.client_writable
      then refused "component update targets an item not owned by the client"
      else if is_among place seen
      then refused "component update contains a duplicate item"
      else elim (typed_value item.type update.value) [
        | none ↦ refused "component update value has the wrong exact type"
        | some value ↦ accepted (place, item, value)
      ]

  -- The loop of `decode_values`: the items seen, and what is to be written.
  unfoldable pub decode_loop :
      String
      → List (Item D)
      → List ℕ
      → List (ComponentValue D)
      → Checked (List ℕ × List (Item D × Value D))
  unfolding decode_update
  decode_loop prefix items seen [] = accepted (seen, [])
  decode_loop prefix items seen (update ∷ updates) = do
    first ← decode_update seen update (find_item prefix update.item items)
    rest ← decode_loop prefix items (first.0 ∷ seen) updates
    accepted (rest.0, (first.1, first.2) ∷ rest.1)

  unfoldable pub decode_values :
      String → List (Item D) → List (ComponentValue D) → Bool → Checked (List (Item D × Value D))
  unfolding decode_loop
  decode_values prefix items values complete = do
    decoded ← decode_loop prefix items [] values
    if complete && not (length decoded.0 == count_if (λ item. item.client_writable) items)
        then refused "activation requires complete client-owned output state"
        else accepted decoded.1
