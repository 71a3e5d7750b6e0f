-- ===== src/Hal/Adapter/Operations/Partition.antt =====
-- Where the slots of HAL memory are: free, with an item of a component, or in hand.
use linuxcnc_ctrl.Prelude.{
  ℕ, zero, suc, ◌+◌, ◌≡◌, ap, ℤ, Bool, true, false, not, ◌&&◌, some, List, [], ◌∷◌, ◌++◌,
  if◌then◌else◌, ltb, ◌==◌, count_if, count_if-append, arith,
}
use linuxcnc_ctrl.Hal.Adapter.{
  HalLibrary, Item, Component, Adapter, indices, create, find_component, put_component,
  erase_component, release,
}
use linuxcnc_ctrl.Hal.Adapter.Operations.{release_items}

-- How often a slot is free, and how often an item has it.
abbrev pub times_free : ℕ → List ℕ → ℕ
times_free slot free = count_if (λ s. s == slot) free

abbrev pub times_held : ℕ → List Item → ℕ
times_held slot items = count_if (λ item. item.slab_slot == slot) items

abbrev pub times_used : ℕ → List Component → ℕ
times_used slot [] = 0
times_used slot (c ∷ cs) = times_held slot c.items + times_used slot cs

-- Every slot of the slab is free or has one item, of a component or of those that are in hand; and no other
-- number is.
pub Partition : {Lib : Type 0} → List Item → Adapter Lib → Type 0
Partition hand a =
    (slot : ℕ)
    → times_free slot a.free + times_used slot a.components + times_held slot hand
      ≡ (if ltb slot a.capacity then 1 else 0)

-- The statement without anything in hand.
pub partition_at :
    {Lib : Type 0} (a : Adapter Lib)
    → Partition [] a
    → (slot : ℕ)
    → times_free slot a.free + times_used slot a.components ≡ (if ltb slot a.capacity then 1 else 0)
unfolding Partition
partition_at a v slot = omega (arith, v slot)

times_free-indices :
    (slot first count : ℕ)
    → times_free slot (indices first count)
      ≡ (if not (ltb slot first) && ltb slot (first + count) then 1 else 0)
unfolding indices
times_free-indices slot first zero = ground arith
times_free-indices slot first (suc count) =
    ground (arith, times_free-indices slot (first + 1) count)

pub create-Partition :
    {Lib : Type 0} (lib : Lib) (capacity : ℕ) → Partition [] (create lib capacity)
unfolding Partition create
create-Partition lib capacity slot = ground (arith, times_free-indices slot 0 capacity)

times_used-put_component :
    (slot : ℕ) (c d : Component) (cs : List Component)
    → find_component c.key cs ≡ some d
    → times_used slot (put_component c cs) + times_held slot d.items
      ≡ times_used slot cs + times_held slot c.items
times_used-put_component slot c d [] h = ground (arith, h)
times_used-put_component slot c d (e ∷ cs) h =
    ground (arith, h, times_used-put_component slot c d cs)

times_used-erase_component :
    (slot key : ℕ) (d : Component) (cs : List Component)
    → find_component key cs ≡ some d
    → times_used slot (erase_component key cs) + times_held slot d.items ≡ times_used slot cs
times_used-erase_component slot key d [] h = ground (arith, h)
times_used-erase_component slot key d (e ∷ cs) h =
    ground (arith, h, times_used-erase_component slot key d cs)

times_used-append :
    (slot : ℕ) (cs ds : List Component)
    → times_used slot (cs ++ ds) ≡ times_used slot cs + times_used slot ds
times_used-append slot [] ds = omega arith
times_used-append slot (c ∷ cs) ds = omega (arith, times_used-append slot cs ds)

pub find_component-key :
    (key : ℕ) (cs : List Component) (c : Component) → find_component key cs ≡ some c → c.key ≡ key
find_component-key key [] c h = ground (arith, h)
find_component-key key (d ∷ cs) c h = ground (arith, h, find_component-key key cs c)

pub same_slot : (n : ℕ) → (n == n) ≡ true
same_slot n = ground arith

-- An item in hand goes to its component.
pub entered :
    {Lib : Type 0} (a : Adapter Lib) (c : Component) (item : Item) (lib : Lib)
    → find_component c.key a.components ≡ some c
    → Partition (item ∷ []) a
    → Partition [] (record a {
      lib = lib;
      components = put_component (record c { items = c.items ++ item ∷ [] }) a.components;
    })
unfolding Partition
entered a c item lib found v slot = ground (
  arith,
  v slot,
  times_used-put_component slot (record c { items = c.items ++ item ∷ [] }) c a.components found,
  count_if-append (λ i. i.slab_slot == slot) c.items (item ∷ []),
)

-- A component is marked.
pub marked :
    {Lib : Type 0} (a : Adapter Lib) (c : Component) (ready : Bool) (lib : Lib)
    → find_component c.key a.components ≡ some c
    → Partition [] a
    → Partition [] (record a {
      lib = lib;
      components = put_component (record c { ready = ready }) a.components;
    })
unfolding Partition
marked a c ready lib found v slot =
    ground (
      arith,
      v slot,
      times_used-put_component slot (record c { ready = ready }) c a.components found,
    )

-- The items of a component that is gone are in hand.
pub erased :
    {Lib : Type 0} (a : Adapter Lib) (key : ℕ) (c : Component) (lib : Lib)
    → find_component key a.components ≡ some c
    → Partition [] a
    → Partition c.items (record a { lib = lib; components = erase_component key a.components })
unfolding Partition
erased a key c lib found v slot =
    ground (arith, v slot, times_used-erase_component slot key c a.components found)

-- A new component has no items.
pub added :
    {Lib : Type 0} (a : Adapter Lib) (lib : Lib) (id : ℤ)
    → Partition [] a
    → Partition [] (record a {
      lib = lib;
      components =
          a.components ++ record { key = a.next_key; id = id; ready = false; items = [] } ∷ [];
      next_key = a.next_key + 1;
    })
unfolding Partition
added a lib id v slot = ground (
  arith,
  v slot,
  times_used-append slot a.components
      (record { key = a.next_key; id = id; ready = false; items = [] } ∷ []),
)

-- A free slot is taken for an item.
pub taken :
    {Lib : Type 0} (a : Adapter Lib) (slot : ℕ) (free : List ℕ) (lib : Lib) (item : Item)
    → a.free ≡ slot ∷ free
    → item.slab_slot ≡ slot
    → Partition [] a
    → Partition (item ∷ []) (record a { lib = lib; free = free })
unfolding Partition
taken a slot free lib item e same v s = ground (arith, same, v s, ap (times_free s) e)

module _ {D : Type 0} (h : HalLibrary D) where
  open h use {
    Lib, name_length, hal_init, hal_exit, hal_ready, hal_unready, hal_pin_new, hal_param_new, store,
    clear,
  }

  pub release-Partition :
      (a : Adapter Lib) (item : Item) (hand : List Item)
      → Partition (item ∷ hand) a
      → Partition hand (release h a item.slab_slot)
  unfolding release Partition
  release-Partition a item hand v slot =
      ground (arith, v slot, v item.slab_slot, same_slot item.slab_slot)

  pub release_items-Partition :
      (items : List Item) (a : Adapter Lib)
      → Partition items a
      → Partition [] (release_items h a items)
  unfolding release_items
  release_items-Partition [] a v = v
  release_items-Partition (item ∷ items) a v =
      release_items-Partition items (release h a item.slab_slot) (release-Partition a item items v)

  -- Only the library changes.
  pub lib-Partition :
      (a : Adapter Lib) (lib : Lib) (hand : List Item)
      → Partition hand a
      → Partition hand (record a { lib = lib })
  unfolding Partition
  lib-Partition a lib hand v = v
