-- ===== src/Hal/Registry/Fill.antt =====
-- The part of `create` that opens a component and fills it: what may throw.
pub mod Returns
use Prim.Native.String.{◌++◌ as concat}
use linuxcnc_ctrl.Prelude.{
  ℕ, ◌+◌, ◌-◌, ◌%◌, ◌^◌, ℤ, negsuc, String, str_eq, Bool, true, false, not, ◌&&◌, ◌||◌, Option,
  none, some, List, [], ◌∷◌, ◌++◌, if◌then◌else◌, ltb, ◌==◌, length, is_some, u64, u64_mod, ◌==ℤ◌,
}
use linuxcnc_ctrl.Hal.Values.{HalType, Value, PinDirection, in_, out, io, read_only, read_write}
use linuxcnc_ctrl.Hal.Components.{
  HalComponents, Outcome, returned, adapter_error, exception, unknown_exception,
}
use linuxcnc_ctrl.Hal.Mapping.{encode_hal_scalar}
use linuxcnc_ctrl.Hal.Registry.{
  Code, Status, ok, error, invalid, CreateRequest, ComponentValue, Attached, ServerMessage,
  attached, Result, Call, acquired, released, failed, Config, Item, Proxy, Registry, find_proxy,
  online_pin,
}
use linuxcnc_ctrl.Hal.Registry.Schema.{Definition, accepted, refused, check_schema}

abbrev direction_of : ℕ → PinDirection
direction_of direction = if direction == 1 then in_ else if direction == 2 then out else io

module _ {D : Type 0} (h : HalComponents D) where
  open h use {
    Hal, Component, name, prefix, open_component, add_pin, add_param, set_ready, read, write, close,
  }

  -- What may throw in the try block, with HAL as it leaves it.
  abbrev pub Try : Type 0 → Type 0
  Try A = Hal × Outcome A

  abbrev pub and_then : {A B : Type 0} → Try A → (Hal → A → Try B) → Try B
  and_then (hal, returned a) f = f hal a
  and_then (hal, adapter_error message code) f = (hal, adapter_error message code)
  and_then (hal, exception message) f = (hal, exception message)
  and_then (hal, unknown_exception) f = (hal, unknown_exception)

  item_of : String → Definition D → Bool → Bool → Item D
  item_of prefix definition writable readable = record {
    suffix = definition.name;
    kind = definition.kind;
    type = definition.type;
    full_name = concat prefix (concat "." definition.name);
    client_writable = writable;
    server_readable = readable;
    disconnect_value = definition.disconnect;
    previous = none;
  }

  added_or_rejected : {A : Type 0} → String → A → Hal → Bool → Try A
  added_or_rejected message a hal true = (hal, returned a)
  added_or_rejected message a hal false = (hal, adapter_error message (negsuc 21))

  add_item : Hal → Component → String → Definition D → Try (Item D)
  unfolding item_of added_or_rejected
  add_item hal c prefix definition =
      if definition.kind == 1
      then and_then
          (add_pin hal c definition.name definition.type (direction_of definition.direction))
          (added_or_rejected "component item was rejected" (
            item_of prefix definition (not (definition.direction == 1))
              (not (definition.direction == 2))))
      else and_then
          (add_param hal c definition.name definition.type
            (if definition.direction == 2 then read_write else read_only))
          (added_or_rejected "component item was rejected"
            (item_of prefix definition true (definition.direction == 2)))

  add_items : Hal → Component → String → List (Definition D) → Try (List (Item D))
  unfolding add_item
  add_items hal c prefix [] = (hal, returned [])
  add_items hal c prefix (definition ∷ definitions) =
      and_then (add_item hal c prefix definition) λ hal' item.
        and_then (add_items hal' c prefix definitions)
          λ hal'' items. (hal'', returned (item ∷ items))

  online_item : String → Item D
  online_item prefix = record {
    suffix = online_pin;
    kind = 1;
    type = HalType.bit;
    full_name = concat prefix ".online";
    client_writable = false;
    server_readable = false;
    disconnect_value = none;
    previous = none;
  }

  -- The part of the try block that fills an open component.
  fill : Hal → Component → String → List (Definition D) → Try (List (Item D))
  unfolding add_items online_item added_or_rejected
  fill hal c prefix definitions = and_then (add_items hal c prefix definitions) λ hal' items.
      and_then (add_pin hal' c online_pin HalType.bit out) λ hal'' added.
        and_then (added_or_rejected "managed online pin was rejected" items hal'' added)
          λ hal3 items'.
            let hal4 = (write hal3 c online_pin (Value.bit false)).0 in
            and_then (set_ready hal4 c)
              λ hal5 u. (hal5, returned (items' ++ online_item prefix ∷ []))

  -- Unwinding destroys the proxy, and so its component.
  unwind : {A : Type 0} → Component → Try A → Try A
  unwind c (hal, returned a) = (hal, returned a)
  unwind c (hal, adapter_error message code) = (close hal c, adapter_error message code)
  unwind c (hal, exception message) = (close hal c, exception message)
  unwind c (hal, unknown_exception) = (close hal c, unknown_exception)

  pub open_and_fill : Hal → String → String → List (Definition D) → Try (Component × List (Item D))
  unfolding fill unwind
  open_and_fill hal name prefix definitions = and_then (open_component hal name prefix) λ hal' c.
      and_then (unwind c (fill hal' c prefix definitions))
        λ hal'' items. (hal'', returned (c, items))
