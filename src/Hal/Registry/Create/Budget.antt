-- ===== src/Hal/Registry/Create/Budget.antt =====
-- `create` counts the items that it keeps, and gives back what it took when it keeps none.
use Prim.Native.String.{◌++◌ as concat}
use linuxcnc_ctrl.Prelude.{
  ℕ, ◌+◌, ◌≤◌, ◌<◌, ◌≡◌, refl, String, str_eq, Bool, true, false, List, [], ◌∷◌, if◌then◌else◌,
  if_holds, ◌||◌, length, length-append, count_if, u64, u64_mod, Option-cases, inl, inr, arith,
}
use linuxcnc_ctrl.Hal.Components.{
  HalComponents, returned, adapter_error, exception, unknown_exception,
}
use linuxcnc_ctrl.Hal.Registry.{
  Code, Status, error, CreateRequest, Result, Call, acquired, released, Config, Item, Proxy,
  Registry,
}
use linuxcnc_ctrl.Hal.Registry.Lookup.{total_items, total_items-append}
use linuxcnc_ctrl.Hal.Registry.Schema.{Definition, checked_holds, check_schema}
use linuxcnc_ctrl.Hal.Registry.Fill.{Try, open_and_fill}
use linuxcnc_ctrl.Hal.Registry.Create.{
  hal_error, snapshot_items, encode_snapshot, new_proxy, give_back, settle, unused_id, make, admit,
  create, is_named,
}
use linuxcnc_ctrl.Hal.Registry.Fill.Returns.{Returns, in_exception, open_and_fill-Returns}

module _ {D : Type 0} where
  abbrev pub is_acquired : Call D → Bool
  is_acquired acquired = true
  is_acquired _ = false

  abbrev pub is_released : Call D → Bool
  is_released released = true
  is_released _ = false

-- The counter holds the items of all proxies, and they are within the budget.
pub record Accounted {C H D : Type 0} (config : Config) (r : Registry H C D) : Type 0 where
  pub machine : config.max_items < u64_mod
  pub counted : r.retained_item_count ≡ total_items r.proxies
  pub within : r.retained_item_count ≤ config.max_items

-- What an operation leaves is accounted for, and so is every admission.
pub record Balanced {C H D : Type 0} (config : Config) (r r' : Registry H C D)
    (calls : List (Call D)) : Type 0 where
  pub after : Accounted config r'
  pub admissions :
      length r.proxies + count_if is_acquired calls ≡ length r'.proxies + count_if is_released calls

module _ {D : Type 0} (h : HalComponents D) where
  open h use {Hal, Component, name, open_component, add_pin, set_ready, read, write}

  length-snapshot_items :
      (hal : Hal) (c : Component) (items : List (Item D))
      → length (snapshot_items h hal c items).0 ≡ length items
  unfolding snapshot_items
  length-snapshot_items hal c [] = refl
  length-snapshot_items hal c (item ∷ items) = ground (arith, length-snapshot_items hal c items)

  pub length-encode_snapshot :
      (config : Config) (hal : Hal) (proxy : Proxy Component D) (token : Bool)
      → length (encode_snapshot h config hal proxy token).0.items ≡ length proxy.items
  unfolding encode_snapshot
  length-encode_snapshot config hal proxy token =
      length-snapshot_items hal proxy.component proxy.items

  -- The registry while `create` fills a component: its items are counted already.
  record Reserved (config : Config) (count : ℕ) (r : Registry Hal Component D) : Type 0 where
    machine : config.max_items < u64_mod
    counted : r.retained_item_count ≡ total_items r.proxies + count
    within : r.retained_item_count ≤ config.max_items

  give_back-Balanced :
      (config : Config) (r : Registry Hal Component D) (count : ℕ) (hal : Hal) (status : Status)
      → Reserved config count r
      → Balanced config r (give_back h r count hal status).0 (give_back h r count hal status).2
  unfolding give_back
  give_back-Balanced config r count hal status v = ground arith

  settle-Balanced :
      (config : Config) (now : ℕ) (request : CreateRequest D) (stream : ℕ) (id : String)
      (token : List ℕ) (r : Registry Hal Component D) (count : ℕ)
      (t : Try h (Component × List (Item D)))
      → Reserved config count r
      → Returns h t (λ opened. length opened.1 ≡ count)
      → Balanced config r
          (settle h config now request stream id token r count t).0
          (settle h config now request stream id token r count t).2
  unfolding settle new_proxy Returns
  settle-Balanced config now request stream id token r count (hal, adapter_error message code) v
        same =
      give_back-Balanced config r count hal (hal_error message code) v
  settle-Balanced config now request stream id token r count (hal, exception message) v same =
      give_back-Balanced config r count hal
        (error Code.internal (concat "remote component creation failed: " message)) v
  settle-Balanced config now request stream id token r count (hal, unknown_exception) v same =
      give_back-Balanced config r count hal (error Code.internal "remote component creation failed")
        v
  settle-Balanced config now request stream id token r count (hal, returned opened) v same =
      let proxy = new_proxy h config now id token opened request.sampling_period_ms stream in
      let kept = (encode_snapshot h config hal proxy true).0 in
      ground (
        arith,
        same,
        length-encode_snapshot config hal proxy true,
        total_items-append r.proxies (kept ∷ []),
        length-append r.proxies (kept ∷ []),
      )

  make-Balanced :
      (config : Config) (now : ℕ) (draws : List String) (token : List ℕ) (request : CreateRequest D)
      (stream : ℕ) (prefix : String) (definitions : List (Definition D))
      (r : Registry Hal Component D)
      → Reserved config (length definitions + 1) r
      → Balanced config r
          (make h config now draws token request stream prefix definitions r
            (length definitions + 1)).0
          (make h config now draws token request stream prefix definitions r
            (length definitions + 1)).2
  unfolding make
  make-Balanced config now draws token request stream prefix definitions r v =
      elim (Option-cases (unused_id h r.proxies draws)) [
        | inl none_left ↦
            rw (none_left, make)
              (settle-Balanced config now request stream "" token r _
                (r.hal, exception "random_device") v (in_exception h _ _ _))
        | inr (id, e) ↦
            rw (e, make)
              (settle-Balanced config now request stream id token r _
                (open_and_fill h r.hal request.name prefix definitions) v
                (open_and_fill-Returns h r.hal request.name prefix definitions))
      ]

  pub unchanged-Balanced :
      (config : Config) (r : Registry Hal Component D) → Accounted config r → Balanced config r r []
  unchanged-Balanced config r v = ground arith

  admit-Balanced :
      (config : Config) (now : ℕ) (draws : List String) (token : List ℕ) (admitted : Bool)
      (request : CreateRequest D) (stream : ℕ) (prefix : String) (r : Registry Hal Component D)
      (definitions : List (Definition D))
      → Accounted config r
      → Balanced config r
          (admit h config now draws token admitted request stream prefix r definitions).0
          (admit h config now draws token admitted request stream prefix r definitions).2
  unfolding admit
  admit-Balanced config now draws token admitted request stream prefix r definitions v = ground (
    arith,
    make-Balanced config now draws token request stream prefix definitions
        (record r { retained_item_count = u64 (r.retained_item_count + (length definitions + 1)) }),
  )

  -- `create` keeps the count right.
  pub create-Balanced :
      (config : Config) (now : ℕ) (draws : List String) (token : List ℕ) (admitted : Bool)
      (r : Registry Hal Component D) (request : CreateRequest D) (stream : ℕ)
      → Accounted config r
      → Balanced config r
          (create h config now draws token admitted r request stream).0
          (create h config now draws token admitted r request stream).2
  unfolding create
  create-Balanced config now draws token admitted r request stream v =
      let prefix = if str_eq request.prefix "" then request.name else request.prefix in
      let P =
        λ (d : Registry Hal Component D × Result D × List (Call D)). Balanced config r d.0 d.2 in
      let same = unchanged-Balanced config r v in
      if_holds P (str_eq request.name "" || str_eq prefix "") _ _ same (
        if_holds P (is_named h request.name r.proxies) _ _ same (
          checked_holds P (check_schema request) _ _ (λ status. same)
            λ definitions.
              admit-Balanced config now draws token admitted request stream prefix r definitions v))
