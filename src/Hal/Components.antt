-- ===== src/Hal/Components.antt =====
-- What the registry of remote components asks of the HAL adapter: the methods of LinuxCncHalComponent and
-- `open_component`, native/server/include/linuxcnc_grpc/hal/adapter.hpp. A component is a handle, and all
-- that its methods change is in the state of HAL, which is a parameter.
use linuxcnc_ctrl.Prelude.{ℤ, String, Bool, Option}
use linuxcnc_ctrl.Hal.Values.{HalType, PinDirection, ParamDirection, Value}

-- A call returns, or throws a HalAdapterError with its code, another std::exception, or anything else.
pub data Outcome (A : Type 0) : Type 0 where
  returned : A → Outcome A
  adapter_error : String → ℤ → Outcome A
  exception : String → Outcome A
  unknown_exception : Outcome A

pub record HalComponents (D : Type 0) : Type 1 where
  pub Hal : Type 0
  pub Component : Type 0
  pub name : Component → String
  pub prefix : Component → String
  pub open_component : Hal → String → String → Hal × Outcome Component
  pub add_pin : Hal → Component → String → HalType → PinDirection → Hal × Outcome Bool
  pub add_param : Hal → Component → String → HalType → ParamDirection → Hal × Outcome Bool
  pub set_ready : Hal → Component → Hal × Outcome (Unit {0})
  pub read : Hal → Component → String → Option (Value D)
  pub write : Hal → Component → String → Value D → Hal × Bool
  -- The destructor.
  pub close : Hal → Component → Hal
  -- `==` of the std::variant.
  pub same_value : Value D → Value D → Bool
