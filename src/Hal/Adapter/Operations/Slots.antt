-- ===== src/Hal/Adapter/Operations/Slots.antt =====
-- The slots of HAL memory are never lost and never shared.
use Prim.Native.String.{◌++◌ as concat, len}
use linuxcnc_ctrl.Prelude.{
  ℕ, ◌+◌, ◌≡◌, refl, sym, subst, ℤ, pos, ◌==ℤ◌, String, str_eq, Bool, true, false, not, ◌||◌,
  Option, none, some, List, [], ◌∷◌, if◌then◌else◌, if_holds, ltb, Option-cases, inl, inr,
}
use linuxcnc_ctrl.Hal.Values.{HalType, Value, PinDirection, ParamDirection, same_type}
use linuxcnc_ctrl.Hal.Components.{Outcome}
use linuxcnc_ctrl.Hal.Adapter.{
  HalLibrary, Item, Component, Handle, Adapter, create, find_component, erase_component, full_name,
  is_positive,
}
use linuxcnc_ctrl.Hal.Adapter.Operations.{
  enter, with_slot, add_item, add_pin, add_param, with_id, readied, set_ready, set_unready, write,
  write_value, item_of, data_of, is_in, close, opened, open_component, cannot_add, Op, opens,
  adds_pin, adds_param, sets_ready, sets_unready, closes, writes, step, run,
}
use linuxcnc_ctrl.Hal.Adapter.Operations.Partition.{
  partition_at, lib-Partition, times_free, times_used, entered, marked, erased, added, taken,
  find_component-key, create-Partition, release-Partition, release_items-Partition, Partition,
}

module _ {D : Type 0} (h : HalLibrary D) where
  open h use {
    Lib, name_length, hal_init, hal_exit, hal_ready, hal_unready, hal_pin_new, hal_param_new, store,
    clear,
  }

  enter-Partition :
      (a : Adapter Lib) (c : Component) (item : Item) (done : Lib × ℤ) (message : String)
      → find_component c.key a.components ≡ some c
      → Partition (item ∷ []) a
      → Partition [] (enter h a c item done message).0
  unfolding enter
  enter-Partition a c item (lib, result) message found v =
      if_holds (λ (d : Adapter Lib × Outcome Bool). Partition [] d.0) (result ==ℤ pos 0) _ _
        (entered a c item lib found v)
        (release-Partition h (record a { lib = lib }) item [] (lib-Partition h a lib (item ∷ []) v))

  with_slot-Partition :
      (a : Adapter Lib) (free : List ℕ) (c : Component) (suffix full : String) (type : HalType)
      (direction : Option PinDirection) (call : Lib → ℕ → ℤ → Lib × ℤ) (message : String)
      → a.free ≡ free
      → find_component c.key a.components ≡ some c
      → Partition [] a
      → Partition [] (with_slot h a free c suffix full type direction call message).0
  unfolding with_slot
  with_slot-Partition a [] c suffix full type direction call message e found v = v
  with_slot-Partition a (slot ∷ free) c suffix full type direction call message e found v =
      let lib = clear a.lib slot in
      let item : Item = record {
        suffix = suffix;
        full_name = full;
        type = type;
        pin_direction = direction;
        slab_slot = slot;
      } in
      enter-Partition (record a { lib = lib; free = free }) c item (call lib slot c.id) message
        found (taken a slot free lib item e refl v)

  find_component_self :
      (key : ℕ) (cs : List Component) (c : Component)
      → find_component key cs ≡ some c
      → find_component c.key cs ≡ some c
  find_component_self key cs c e =
      subst (λ k. find_component k cs ≡ some c) (sym (find_component-key key cs c e)) e

  add_item-Partition :
      (a : Adapter Lib) (handle : Handle) (suffix : String) (type : HalType)
      (direction : Option PinDirection) (call : Lib → String → ℕ → ℤ → Lib × ℤ) (message : String)
      → Partition [] a
      → Partition [] (add_item h a handle suffix type direction call message).0
  unfolding add_item
  add_item-Partition a handle suffix type direction call message v =
      elim (Option-cases (find_component handle.key a.components)) [
        | inl missing ↦ rw (missing, add_item) v
        | inr (c, found) ↦
            rw (found, add_item)
              (if_holds (λ (d : Adapter Lib × Outcome Bool). Partition [] d.0)
                (cannot_add h c suffix || str_eq (full_name h handle.prefix suffix) "") _ _ v
                (with_slot-Partition a a.free c suffix (full_name h handle.prefix suffix) type
                  direction (λ lib slot id. call lib (full_name h handle.prefix suffix) slot id)
                  message refl (find_component_self handle.key a.components c found) v))
      ]

  add_pin-Partition :
      (a : Adapter Lib) (handle : Handle) (suffix : String) (type : HalType)
      (direction : PinDirection)
      → Partition [] a
      → Partition [] (add_pin h a handle suffix type direction).0
  unfolding add_pin
  add_pin-Partition a handle suffix type direction v =
      add_item-Partition a handle suffix type (some direction)
        (λ lib full slot id. hal_pin_new lib full type direction slot id)
        (concat "hal_pin_new failed for '" (concat (full_name h handle.prefix suffix) "'")) v

  add_param-Partition :
      (a : Adapter Lib) (handle : Handle) (suffix : String) (type : HalType)
      (direction : ParamDirection)
      → Partition [] a
      → Partition [] (add_param h a handle suffix type direction).0
  unfolding add_param
  add_param-Partition a handle suffix type direction v =
      add_item-Partition a handle suffix type none
        (λ lib full slot id. hal_param_new lib full type direction slot id)
        (concat "hal_param_new failed for '" (concat (full_name h handle.prefix suffix) "'")) v

  readied-Partition :
      (a : Adapter Lib) (c : Component) (ready : Bool) (message : String) (done : Lib × ℤ)
      → find_component c.key a.components ≡ some c
      → Partition [] a
      → Partition [] (readied h a c ready message done).0
  unfolding readied
  readied-Partition a c ready message (lib, result) found v =
      if_holds (λ (d : Adapter Lib × Outcome (Unit {0})). Partition [] d.0) (result ==ℤ pos 0) _ _
        (marked a c ready lib found v) (lib-Partition h a lib [] v)

  with_id-Partition :
      (a : Adapter Lib) (handle : Handle) (go : Component → Adapter Lib × Outcome (Unit {0}))
      → ((c : Component) → find_component c.key a.components ≡ some c → Partition [] (go c).0)
      → Partition [] a
      → Partition [] (with_id h a handle go).0
  unfolding with_id
  with_id-Partition a handle go all v =
      elim (Option-cases (find_component handle.key a.components)) [
        | inl missing ↦ rw (missing, with_id) v
        | inr (c, found) ↦
            rw (found, with_id)
              (if_holds (λ (d : Adapter Lib × Outcome (Unit {0})). Partition [] d.0)
                (is_positive c.id) _ _ (all c (find_component_self handle.key a.components c found))
                v)
      ]

  write_value-Partition :
      (a : Adapter Lib) (type : HalType) (data_ : Option ℕ) (value : Value D)
      → Partition [] a
      → Partition [] (write_value h a type data_ value).0
  unfolding write_value
  write_value-Partition a type none value v = v
  write_value-Partition a type (some data_) value v =
      if_holds (λ (d : Adapter Lib × Bool). Partition [] d.0) (same_type type value) _ _
        (lib-Partition h a (store a.lib type data_ value) [] v) v

  write-Partition :
      (a : Adapter Lib) (handle : Handle) (suffix : String) (value : Value D)
      → Partition [] a
      → Partition [] (write h a handle suffix value).0
  unfolding write
  write-Partition a handle suffix value v = elim (Option-cases (item_of h a handle suffix)) [
    | inl missing ↦ rw (missing, write) v
    | inr (item, found) ↦
        rw (found, write)
          (if_holds (λ (d : Adapter Lib × Bool). Partition [] d.0)
            (not (same_type item.type value) || is_in h item.pin_direction) _ _ v
            (write_value-Partition a item.type (data_of h a item) value v))
  ]

  close-Partition :
      (a : Adapter Lib) (handle : Handle) → Partition [] a → Partition [] (close h a handle)
  unfolding close
  close-Partition a handle v = elim (Option-cases (find_component handle.key a.components)) [
    | inl missing ↦ rw (missing, close) v
    | inr (c, found) ↦
        rw (found, close)
          (release_items-Partition h c.items _ (
            if_holds
              (λ (b : Adapter Lib).
                Partition c.items
                  (record b { components = erase_component handle.key a.components }))
              (is_positive c.id) (record a { lib = hal_exit a.lib c.id }) a
              (erased a handle.key c (hal_exit a.lib c.id) found v)
              (erased a handle.key c a.lib found v)))
  ]

  opened-Partition :
      (a : Adapter Lib) (name prefix : String) (done : Lib × ℤ)
      → Partition [] a
      → Partition [] (opened h a name prefix done).0
  unfolding opened
  opened-Partition a name prefix (lib, id) v =
      if_holds (λ (d : Adapter Lib × Outcome Handle). Partition [] d.0) (is_positive id) _ _
        (added a lib id v) (lib-Partition h a lib [] v)

  open_component-Partition :
      (a : Adapter Lib) (name given : String)
      → Partition [] a
      → Partition [] (open_component h a name given).0
  unfolding open_component
  open_component-Partition a name given v =
      let prefix = if str_eq given "" then name else given in
      let P = λ (d : Adapter Lib × Outcome Handle). Partition [] d.0 in
      if_holds P (str_eq name "" || ltb name_length (len name)) _ _ v (
        if_holds P (ltb name_length (len prefix)) _ _ v
          (opened-Partition a name prefix (hal_init a.lib name) v))

  step-Partition : (a : Adapter Lib) (op : Op h) → Partition [] a → Partition [] (step h a op)
  unfolding step set_ready set_unready
  step-Partition a (opens name prefix) v = open_component-Partition a name prefix v
  step-Partition a (adds_pin c suffix type direction) v =
      add_pin-Partition a c suffix type direction v
  step-Partition a (adds_param c suffix type direction) v =
      add_param-Partition a c suffix type direction v
  step-Partition a (sets_ready c) v =
      with_id-Partition a c _
        (λ d found. readied-Partition a d true _ (hal_ready a.lib d.id) found v) v
  step-Partition a (sets_unready c) v =
      with_id-Partition a c _
        (λ d found. readied-Partition a d false _ (hal_unready a.lib d.id) found v) v
  step-Partition a (closes c) v = close-Partition a c v
  step-Partition a (writes c suffix value) v = write-Partition a c suffix value v

  run-Partition :
      (ops : List (Op h)) (a : Adapter Lib) → Partition [] a → Partition [] (run h a ops)
  unfolding run
  run-Partition [] a v = v
  run-Partition (op ∷ ops) a v = run-Partition ops (step h a op) (step-Partition a op v)

  -- Whatever components are opened, filled, made ready, written and closed, whatever the HAL library
  -- answers: every slot of the slab is either free, once, or belongs to exactly one item of one open
  -- component, and no number outside the slab is either. So no two items share their memory, a pin
  -- that HAL rejects gives its slot back, and a closed component loses none.
  pub run-create-slots :
      (lib : Lib) (capacity : ℕ) (ops : List (Op h)) (slot : ℕ)
      → let a = run h (create lib capacity) ops in
        times_free slot a.free + times_used slot a.components
        ≡ (if ltb slot a.capacity then 1 else 0)
  run-create-slots lib capacity ops slot =
      partition_at (run h (create lib capacity) ops)
        (run-Partition ops (create lib capacity) (create-Partition lib capacity)) slot
