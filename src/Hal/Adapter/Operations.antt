-- ===== src/Hal/Adapter/Operations.antt =====
-- The methods of LinuxCncHalComponent and `open_component`, native/server/src/hal/adapter.cc.
pub mod Partition
pub mod Slots
mod Tests
use Prim.Native.String.{◌++◌ as concat, len}
use linuxcnc_ctrl.Prelude.{
  ℕ, zero, suc, ◌+◌, ◌-◌, ℤ, pos, negsuc, ◌==ℤ◌, ltb_ℤ, String, str_eq, Bool, true, false, not,
  ◌&&◌, ◌||◌, Option, none, some, List, [], ◌∷◌, ◌++◌, if◌then◌else◌, ltb, leb, ◌==◌,
}
use linuxcnc_ctrl.Hal.Values.{HalType, Value, PinDirection, in_, ParamDirection, same_type}
use linuxcnc_ctrl.Hal.Components.{HalComponents, Outcome, returned, adapter_error}
use linuxcnc_ctrl.Hal.Adapter.{
  HalLibrary, Item, Component, Handle, Adapter, find_component, put_component, erase_component,
  find_item, is_there, is_positive, full_name, release,
}

module _ {D : Type 0} (h : HalLibrary D) where
  open h use {
    Lib, name_length, hal_init, hal_exit, hal_ready, hal_unready, hal_pin_new, hal_param_new,
    location, load, store, clear, same_value,
  }

  -- The part of `add_pin` and `add_param` that has a slot: the item is entered, HAL is asked, and on a failure
  -- the item and the slot are given back.
  pub enter : Adapter Lib → Component → Item → Lib × ℤ → String → Adapter Lib × Outcome Bool
  unfolding release
  enter a c item (lib, result) message =
      if result ==ℤ pos 0
      then (
        record a {
          lib = lib;
          components = put_component (record c { items = c.items ++ item ∷ [] }) a.components;
        },
        returned true,
      )
      else (release h (record a { lib = lib }) item.slab_slot, adapter_error message result)

  -- `acquire`, and what follows it.
  pub with_slot :
      Adapter Lib
      → List ℕ
      → Component
      → String
      → String
      → HalType
      → Option PinDirection
      → (Lib → ℕ → ℤ → Lib × ℤ)
      → String
      → Adapter Lib × Outcome Bool
  unfolding enter
  with_slot a [] c suffix full type direction call message =
      (a, adapter_error "global HAL dynamic item quota reached" (negsuc 15))
  with_slot a (slot ∷ free) c suffix full type direction call message =
      let lib = clear a.lib slot in
      let item : Item = record {
        suffix = suffix;
        full_name = full;
        type = type;
        pin_direction = direction;
        slab_slot = slot;
      } in
      enter (record a { lib = lib; free = free }) c item (call lib slot c.id) message

  pub cannot_add : Component → String → Bool
  cannot_add c suffix =
      not (is_positive c.id) || c.ready || str_eq suffix "" || is_there (find_item suffix c.items)

  -- What `add_pin` and `add_param` have in common.
  pub add_item :
      Adapter Lib
      → Handle
      → String
      → HalType
      → Option PinDirection
      → (Lib → String → ℕ → ℤ → Lib × ℤ)
      → String
      → Adapter Lib × Outcome Bool
  unfolding with_slot
  add_item a handle suffix type direction call message =
      elim (find_component handle.key a.components) [
        | none ↦ (a, returned false)
        | some c ↦
            let full = full_name h handle.prefix suffix in
            if cannot_add c suffix || str_eq full ""
            then (a, returned false)
            else with_slot a a.free c suffix full type direction
                (λ lib slot id. call lib full slot id) message
      ]

  pub add_pin : Adapter Lib → Handle → String → HalType → PinDirection → Adapter Lib × Outcome Bool
  unfolding add_item
  add_pin a handle suffix type direction =
      add_item a handle suffix type (some direction)
        (λ lib full slot id. hal_pin_new lib full type direction slot id)
        (concat "hal_pin_new failed for '" (concat (full_name h handle.prefix suffix) "'"))

  pub add_param :
      Adapter Lib → Handle → String → HalType → ParamDirection → Adapter Lib × Outcome Bool
  unfolding add_item
  add_param a handle suffix type direction =
      add_item a handle suffix type none
        (λ lib full slot id. hal_param_new lib full type direction slot id)
        (concat "hal_param_new failed for '" (concat (full_name h handle.prefix suffix) "'"))

  -- A component that is not initialized, or is not there, is refused.
  pub with_id :
      Adapter Lib
      → Handle
      → (Component → Adapter Lib × Outcome (Unit {0}))
      → Adapter Lib × Outcome (Unit {0})
  with_id a handle go = elim (find_component handle.key a.components) [
    | none ↦ (a, adapter_error "component is not initialized" (negsuc 21))
    | some c ↦
        if is_positive c.id
        then go c
        else (a, adapter_error "component is not initialized" (negsuc 21))
  ]

  -- The end of `set_ready` and of `set_unready`.
  pub readied : Adapter Lib → Component → Bool → String → Lib × ℤ → Adapter Lib × Outcome (Unit {0})
  readied a c ready message (lib, result) =
      if result ==ℤ pos 0
      then (
        record a {
          lib = lib;
          components = put_component (record c { ready = ready }) a.components;
        },
        returned tt,
      )
      else (record a { lib = lib }, adapter_error message result)

  pub set_ready : Adapter Lib → Handle → Adapter Lib × Outcome (Unit {0})
  unfolding with_id readied
  set_ready a handle =
      with_id a handle (λ c. readied a c true "hal_ready failed" (hal_ready a.lib c.id))

  pub set_unready : Adapter Lib → Handle → Adapter Lib × Outcome (Unit {0})
  unfolding with_id readied
  set_unready a handle =
      with_id a handle (λ c. readied a c false "hal_unready failed" (hal_unready a.lib c.id))

  -- The item of a component, if both are there.
  pub item_of : Adapter Lib → Handle → String → Option Item
  item_of a handle suffix = elim (find_component handle.key a.components) [
    | none ↦ none
    | some c ↦ find_item suffix c.items
  ]

  pub data_of : Adapter Lib → Item → Option ℕ
  data_of a item = location a.lib (is_there item.pin_direction) item.slab_slot

  pub read : Adapter Lib → Handle → String → Option (Value D)
  unfolding item_of data_of
  read a handle suffix = elim (item_of a handle suffix) [
    | none ↦ none
    | some item ↦ elim (data_of a item) [
      | none ↦ none
      | some data_ ↦ some (load a.lib item.type data_)
    ]
  ]

  pub is_in : Option PinDirection → Bool
  is_in (some in_) = true
  is_in _ = false

  -- `write_value`, on the data that may not be there.
  pub write_value : Adapter Lib → HalType → Option ℕ → Value D → Adapter Lib × Bool
  write_value a type none value = (a, false)
  write_value a type (some data_) value =
      if same_type type value
      then (record a { lib = store a.lib type data_ value }, true)
      else (a, false)

  pub write : Adapter Lib → Handle → String → Value D → Adapter Lib × Bool
  unfolding item_of data_of is_in write_value
  write a handle suffix value = elim (item_of a handle suffix) [
    | none ↦ (a, false)
    | some item ↦
        if not (same_type item.type value) || is_in item.pin_direction
        then (a, false)
        else write_value a item.type (data_of a item) value
  ]

  pub release_items : Adapter Lib → List Item → Adapter Lib
  unfolding release
  release_items a [] = a
  release_items a (item ∷ items) = release_items (release h a item.slab_slot) items

  -- The destructor: `close`, and the component is gone.
  pub close : Adapter Lib → Handle → Adapter Lib
  unfolding release_items
  close a handle = elim (find_component handle.key a.components) [
    | none ↦ a
    | some c ↦
        let exited = if is_positive c.id then record a { lib = hal_exit a.lib c.id } else a in
        release_items (record exited { components = erase_component handle.key a.components })
          c.items
  ]

  pub opened : Adapter Lib → String → String → Lib × ℤ → Adapter Lib × Outcome Handle
  opened a name prefix (lib, id) =
      if is_positive id
      then (
        record a {
          lib = lib;
          components =
              a.components ++ record { key = a.next_key; id = id; ready = false; items = [] } ∷ [];
          next_key = a.next_key + 1;
        },
        returned (record { key = a.next_key; name = name; prefix = prefix }),
      )
      else (
        record a { lib = lib },
        adapter_error (concat "hal_init failed for client component '" (concat name "'")) id,
      )

  pub open_component : Adapter Lib → String → String → Adapter Lib × Outcome Handle
  unfolding opened
  open_component a name given =
      let prefix = if str_eq given "" then name else given in
      if str_eq name "" || ltb name_length (len name)
      then (a, adapter_error "invalid client HAL component name" (negsuc 21))
      else if ltb name_length (len prefix)
      then (a, adapter_error "invalid client HAL component prefix" (negsuc 21))
      else opened a name prefix (hal_init a.lib name)

  -- The adapter as the registry of remote components uses it.
  abbrev pub linuxcnc_components : HalComponents D
  linuxcnc_components = record {
    Hal = Adapter Lib;
    Component = Handle;
    name = λ c. c.name;
    prefix = λ c. c.prefix;
    open_component = open_component;
    add_pin = add_pin;
    add_param = add_param;
    set_ready = set_ready;
    read = read;
    write = write;
    close = close;
    same_value = same_value;
  }

  -- The operations, with their arguments.
  pub data Op : Type 0 where
    opens : String → String → Op
    adds_pin : Handle → String → HalType → PinDirection → Op
    adds_param : Handle → String → HalType → ParamDirection → Op
    sets_ready sets_unready closes : Handle → Op
    writes : Handle → String → Value D → Op

  pub step : Adapter Lib → Op → Adapter Lib
  unfolding open_component add_pin add_param set_ready set_unready close write
  step a (opens name prefix) = (open_component a name prefix).0
  step a (adds_pin c suffix type direction) = (add_pin a c suffix type direction).0
  step a (adds_param c suffix type direction) = (add_param a c suffix type direction).0
  step a (sets_ready c) = (set_ready a c).0
  step a (sets_unready c) = (set_unready a c).0
  step a (closes c) = close a c
  step a (writes c suffix value) = (write a c suffix value).0

  pub run : Adapter Lib → List Op → Adapter Lib
  unfolding step
  run a [] = a
  run a (op ∷ ops) = run (step a op) ops
