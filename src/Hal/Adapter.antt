-- ===== src/Hal/Adapter.antt =====
-- LinuxCncHalComponent and HalAllocationSlab of native/server/src/hal/adapter.cc: the components that are
-- opened for remote clients, and the slots of HAL memory that their items share. The HAL library is a
-- parameter. A component is known by a number, which stands for its address; a map of items is a list in the
-- order of insertion, and the free list has its back at the front.
pub mod Operations
use Prim.Native.String.{◌++◌ as concat, len}
use linuxcnc_ctrl.Prelude.{
  ℕ, zero, suc, ◌+◌, ◌-◌, ℤ, pos, negsuc, ◌==ℤ◌, ltb_ℤ, String, str_eq, Bool, true, false, not,
  ◌&&◌, ◌||◌, Option, none, some, List, [], ◌∷◌, ◌++◌, if◌then◌else◌, ltb, leb, ◌==◌,
}
use linuxcnc_ctrl.Hal.Values.{HalType, Value, PinDirection, in_, ParamDirection, same_type}
use linuxcnc_ctrl.Hal.Components.{HalComponents, Outcome, returned, adapter_error}

-- What the adapter calls of the HAL library, and the memory behind a slot: the location of the data of a
-- pin or a parameter, if it has one, and what is read and written there.
pub record HalLibrary (D : Type 0) : Type 1 where
  pub Lib : Type 0
  pub name_length : ℕ
  pub hal_init : Lib → String → Lib × ℤ
  pub hal_exit : Lib → ℤ → Lib
  pub hal_ready : Lib → ℤ → Lib × ℤ
  pub hal_unready : Lib → ℤ → Lib × ℤ
  pub hal_pin_new : Lib → String → HalType → PinDirection → ℕ → ℤ → Lib × ℤ
  pub hal_param_new : Lib → String → HalType → ParamDirection → ℕ → ℤ → Lib × ℤ
  pub location : Lib → Bool → ℕ → Option ℕ
  pub load : Lib → HalType → ℕ → Value D
  pub store : Lib → HalType → ℕ → Value D → Lib
  -- `std::memset` of a slot.
  pub clear : Lib → ℕ → Lib
  pub same_value : Value D → Value D → Bool

-- The direction of a pin; a parameter has none.
pub record Item : Type 0 where
  pub suffix : String
  pub full_name : String
  pub type : HalType
  pub pin_direction : Option PinDirection
  pub slab_slot : ℕ

pub record Component : Type 0 where
  pub key : ℕ
  pub id : ℤ
  pub ready : Bool
  pub items : List Item

pub record Handle : Type 0 where
  pub key : ℕ
  pub name : String
  pub prefix : String

pub record Adapter (Lib : Type 0) : Type 0 where
  pub lib : Lib
  pub capacity : ℕ
  pub free : List ℕ
  pub components : List Component
  pub next_key : ℕ

-- The loop of the constructor of the slab; the back of the vector comes first.
indices : ℕ → ℕ → List ℕ
indices first zero = []
indices first (suc count) = first ∷ indices (first + 1) count

-- The adapter once its slab has its memory: every slot is free.
pub create : {Lib : Type 0} → Lib → ℕ → Adapter Lib
unfolding indices
create lib capacity = record {
  lib = lib;
  capacity = capacity;
  free = indices 0 capacity;
  components = [];
  next_key = 0;
}

-- The constructor of the slab. Whether `hal_malloc` gave the memory is an argument; -EBUSY is -16.
pub open_slab : {Lib : Type 0} → Lib → ℕ → Bool → Outcome (Adapter Lib)
unfolding create
open_slab lib capacity allocated =
    if not allocated
    then adapter_error "HAL dynamic item slab allocation failed" (negsuc 15)
    else returned (create lib capacity)

abbrev pub find_component : ℕ → List Component → Option Component
find_component key [] = none
find_component key (c ∷ cs) = if c.key == key then some c else find_component key cs

abbrev pub put_component : Component → List Component → List Component
put_component c [] = []
put_component c (d ∷ ds) = if d.key == c.key then c ∷ ds else d ∷ put_component c ds

abbrev pub erase_component : ℕ → List Component → List Component
erase_component key [] = []
erase_component key (c ∷ cs) = if c.key == key then cs else c ∷ erase_component key cs

abbrev pub find_item : String → List Item → Option Item
find_item suffix [] = none
find_item suffix (item ∷ items) =
    if str_eq item.suffix suffix then some item else find_item suffix items

abbrev pub is_there : {A : Type 0} → Option A → Bool
is_there none = false
is_there (some a) = true

abbrev pub is_positive : ℤ → Bool
is_positive id = ltb_ℤ (pos 0) id

module _ {D : Type 0} (h : HalLibrary D) where
  open h use {
    Lib, name_length, hal_init, hal_exit, hal_ready, hal_unready, hal_pin_new, hal_param_new,
    location, load, store, clear, same_value,
  }

  pub full_name : String → String → String
  full_name prefix suffix =
      let result = if str_eq prefix "" then suffix else concat prefix (concat "." suffix) in
      if str_eq suffix "" then "" else if ltb name_length (len result) then "" else result

  pub release : Adapter Lib → ℕ → Adapter Lib
  release a index =
      if leb a.capacity index
      then a
      else record a { lib = clear a.lib index; free = index ∷ a.free }
