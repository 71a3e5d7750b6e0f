-- ===== src/Hal/Registry/Sessions/Budget.antt =====
-- The messages of the streams keep the count of items and admissions right.
use linuxcnc_ctrl.Prelude.{
  ℕ, ◌+◌, ◌-◌, ◌≡◌, refl, String, str_eq, Bool, true, false, not, ◌&&◌, ◌||◌, some, List, [], ◌∷◌,
  if_holds, length, u64, u64_mod, Option-cases, inl, inr, arith, ◌==◌,
}
use linuxcnc_ctrl.Hal.Values.{Value}
use linuxcnc_ctrl.Hal.Components.{HalComponents}
use linuxcnc_ctrl.Hal.Registry.{
  AttachRequest, ComponentValue, ClientMessage, released, Config, Proxy, Registry, find_proxy,
  put_proxy, erase_proxy, token_equal, online_pin,
}
use linuxcnc_ctrl.Hal.Registry.Lookup.{
  length-put_proxy, total_items-put_proxy, total_items-erase_proxy, length-erase_proxy,
  find_proxy_self,
}
use linuxcnc_ctrl.Hal.Registry.Schema.{checked_holds}
use linuxcnc_ctrl.Hal.Registry.Create.{encode_snapshot}
use linuxcnc_ctrl.Hal.Registry.Create.Budget.{
  Accounted, Balanced, length-encode_snapshot, create-Balanced, unchanged-Balanced,
}
use linuxcnc_ctrl.Hal.Registry.Updates.{decode_values}
use linuxcnc_ctrl.Hal.Registry.Sessions.{
  Done, apply_disconnect, disconnected, detach, attach, write_values, activate, update, heartbeat,
  close_component, on_proxy, on_attached, consume_in, consume, renewed, is_current,
}

module _ {D : Type 0} (h : HalComponents D) (config : Config) where
  open h use {Hal, Component, name, prefix, write, close}

  BalancedDone : Registry Hal Component D → Done h → Type 0
  BalancedDone r d = Balanced config r d.0 d.2

  put-Balanced :
      (r : Registry Hal Component D) (p q : Proxy Component D) (hal : Hal)
      → Accounted config r
      → find_proxy p.id r.proxies ≡ some q
      → length p.items ≡ length q.items
      → Balanced config r (record r { proxies = put_proxy p r.proxies; hal = hal }) []
  put-Balanced r p q hal v found same =
      ground (arith, length-put_proxy p r.proxies, total_items-put_proxy p q r.proxies found same)

  -- Only HAL changes.
  hal-Balanced :
      (r : Registry Hal Component D) (hal : Hal)
      → Accounted config r
      → Balanced config r (record r { hal = hal }) []
  hal-Balanced r hal v = ground arith

  pub detach-Balanced :
      (r : Registry Hal Component D) (id : String) (generation : ℕ)
      → Accounted config r
      → Balanced config r (detach h r id generation) []
  unfolding detach disconnected apply_disconnect
  detach-Balanced r id generation v = elim (Option-cases (find_proxy id r.proxies)) [
    | inl missing ↦ rw (missing, detach) (unchanged-Balanced h config r v)
    | inr (proxy, found) ↦
        rw (found, detach)
          (if_holds (λ (r' : Registry Hal Component D). Balanced config r r' [])
            (not proxy.is_attached || not (proxy.generation == generation)) _ _
            (unchanged-Balanced h config r v)
            (put-Balanced r (disconnected h r.hal proxy).1 proxy (disconnected h r.hal proxy).0 v
              (find_proxy_self id r.proxies proxy found) refl))
  ]

  attach-Balanced :
      (now : ℕ) (r : Registry Hal Component D) (request : AttachRequest) (stream : ℕ)
      → Accounted config r
      → BalancedDone r (attach h config now r request stream)
  unfolding attach encode_snapshot BalancedDone
  attach-Balanced now r request stream v =
      elim (Option-cases (find_proxy request.proxy_id r.proxies)) [
        | inl missing ↦ rw (missing, attach) (unchanged-Balanced h config r v)
        | inr (proxy, found) ↦
            rw (found, attach)
              (if_holds (BalancedDone r) (not (str_eq (name proxy.component) request.name)) _ _
                (unchanged-Balanced h config r v)
                (if_holds (BalancedDone r)
                  (not (token_equal proxy.ownership_token request.ownership_token)) _ _
                  (unchanged-Balanced h config r v)
                  (if_holds (BalancedDone r) proxy.is_attached _ _ (unchanged-Balanced h config r v)
                    (let hal = (write r.hal proxy.component online_pin (Value.bit false)).0 in
                      let kept =
                        (encode_snapshot h config hal (renewed h now stream proxy) false).0 in
                      put-Balanced r kept proxy hal v
                        (find_proxy_self request.proxy_id r.proxies proxy found)
                        (length-encode_snapshot h config hal (renewed h now stream proxy) false)))))
      ]

  -- An update or an activation that passed its first checks: `p` is what becomes of the proxy.
  activate-Balanced :
      (now : ℕ) (r : Registry Hal Component D) (proxy : Proxy Component D) (generation : ℕ)
      (values : List (ComponentValue D))
      → Accounted config r
      → find_proxy proxy.id r.proxies ≡ some proxy
      → BalancedDone r (activate h now r proxy generation values)
  unfolding activate BalancedDone
  activate-Balanced now r proxy generation values v found =
      if_holds (BalancedDone r) (proxy.is_active || not (generation == proxy.generation)) _ _
        (unchanged-Balanced h config r v)
        (checked_holds (BalancedDone r)
          (decode_values (prefix proxy.component) proxy.items values true) _ _
          (λ status. unchanged-Balanced h config r v)
          λ updates.
            if_holds (BalancedDone r) (not (write_values h r.hal proxy.component updates).1) _ _
              (hal-Balanced r _ v)
              (put-Balanced r (record proxy { is_active = true; last_heartbeat = now }) proxy _ v
                found refl))

  update-Balanced :
      (now : ℕ) (r : Registry Hal Component D) (proxy : Proxy Component D) (generation sequence : ℕ)
      (values : List (ComponentValue D))
      → Accounted config r
      → find_proxy proxy.id r.proxies ≡ some proxy
      → BalancedDone r (update h now r proxy generation sequence values)
  unfolding update BalancedDone
  update-Balanced now r proxy generation sequence values v found =
      if_holds (BalancedDone r) (not proxy.is_active || not (generation == proxy.generation)) _ _
        (unchanged-Balanced h config r v)
        (if_holds (BalancedDone r) (not (sequence == u64 (proxy.client_sequence + 1))) _ _
          (unchanged-Balanced h config r v)
          (checked_holds (BalancedDone r)
            (decode_values (prefix proxy.component) proxy.items values false) _ _
            (λ status. unchanged-Balanced h config r v)
            λ updates.
              if_holds (BalancedDone r) (not (write_values h r.hal proxy.component updates).1) _ _
                (hal-Balanced r _ v)
                (put-Balanced r (record proxy { client_sequence = sequence; last_heartbeat = now })
                  proxy _ v found refl)))

  heartbeat-Balanced :
      (now : ℕ) (r : Registry Hal Component D) (proxy : Proxy Component D) (generation : ℕ)
      → Accounted config r
      → find_proxy proxy.id r.proxies ≡ some proxy
      → BalancedDone r (heartbeat h now r proxy generation)
  unfolding heartbeat BalancedDone
  heartbeat-Balanced now r proxy generation v found =
      if_holds (BalancedDone r) (not (generation == proxy.generation)) _ _
        (unchanged-Balanced h config r v)
        (put-Balanced r (record proxy { last_heartbeat = now }) proxy r.hal v found refl)

  -- A proxy leaves, with its items and its admission.
  erase-Balanced :
      (r : Registry Hal Component D) (proxy : Proxy Component D) (hal : Hal)
      → Accounted config r
      → find_proxy proxy.id r.proxies ≡ some proxy
      → Balanced config r
          (record r {
            proxies = erase_proxy proxy.id r.proxies;
            retained_item_count = u64 (r.retained_item_count + u64_mod - length proxy.items);
            hal = hal;
          })
          (released ∷ [])
  erase-Balanced r proxy hal v found = ground (
    arith,
    total_items-erase_proxy proxy.id proxy r.proxies found,
    length-erase_proxy proxy.id proxy r.proxies found,
  )

  close_component-Balanced :
      (r : Registry Hal Component D) (proxy : Proxy Component D) (generation mode : ℕ)
      → Accounted config r
      → find_proxy proxy.id r.proxies ≡ some proxy
      → BalancedDone r (close_component h r proxy generation mode)
  unfolding close_component disconnected apply_disconnect BalancedDone
  close_component-Balanced r proxy generation mode v found =
      let gone = disconnected h r.hal proxy in
      if_holds (BalancedDone r)
        (not (generation == proxy.generation) || not (mode == 1) && not (mode == 2)) _ _
        (unchanged-Balanced h config r v)
        (if_holds (BalancedDone r) (mode == 2) _ _
          (erase-Balanced r proxy (close gone.0 proxy.component) v found)
          (put-Balanced r gone.1 proxy gone.0 v found refl))

  on_proxy-Balanced :
      (now : ℕ) (r : Registry Hal Component D) (proxy : Proxy Component D)
      (request : ClientMessage D)
      → Accounted config r
      → find_proxy proxy.id r.proxies ≡ some proxy
      → BalancedDone r (on_proxy h now r proxy request)
  unfolding on_proxy BalancedDone
  on_proxy-Balanced now r proxy (ClientMessage.activate generation values) v found =
      activate-Balanced now r proxy generation values v found
  on_proxy-Balanced now r proxy (ClientMessage.update generation sequence values) v found =
      update-Balanced now r proxy generation sequence values v found
  on_proxy-Balanced now r proxy (ClientMessage.heartbeat generation) v found =
      heartbeat-Balanced now r proxy generation v found
  on_proxy-Balanced now r proxy (ClientMessage.close generation mode) v found =
      close_component-Balanced r proxy generation mode v found
  on_proxy-Balanced now r proxy (ClientMessage.create request) v found =
      unchanged-Balanced h config r v
  on_proxy-Balanced now r proxy (ClientMessage.attach request) v found =
      unchanged-Balanced h config r v
  on_proxy-Balanced now r proxy ClientMessage.not_set v found = unchanged-Balanced h config r v

  on_attached-Balanced :
      (now : ℕ) (r : Registry Hal Component D) (id : String) (generation : ℕ)
      (request : ClientMessage D)
      → Accounted config r
      → BalancedDone r (on_attached h now r id generation request)
  unfolding on_attached BalancedDone
  on_attached-Balanced now r id generation request v =
      elim (Option-cases (find_proxy id r.proxies)) [
        | inl missing ↦ rw (missing, on_attached) (unchanged-Balanced h config r v)
        | inr (proxy, found) ↦
            rw (found, on_attached)
              (if_holds (BalancedDone r) (is_current h proxy generation) _ _
                (on_proxy-Balanced now r proxy request v (find_proxy_self id r.proxies proxy found))
                (unchanged-Balanced h config r v))
      ]

  consume_in-Balanced :
      (now : ℕ) (draws : List String) (token : List ℕ) (admitted : Bool)
      (r : Registry Hal Component D) (id : String) (generation stream : ℕ) (first : Bool)
      (request : ClientMessage D)
      → Accounted config r
      → BalancedDone r
          (consume_in h config now draws token admitted r id generation stream first request)
  unfolding consume_in BalancedDone
  consume_in-Balanced now draws token admitted r id generation stream true
        (ClientMessage.create request) v =
      create-Balanced h config now draws token admitted r request stream v
  consume_in-Balanced now draws token admitted r id generation stream true
        (ClientMessage.attach request) v =
      attach-Balanced now r request stream v
  consume_in-Balanced now draws token admitted r id generation stream true _ v =
      unchanged-Balanced h config r v
  consume_in-Balanced now draws token admitted r id generation stream false
        (ClientMessage.create request) v =
      unchanged-Balanced h config r v
  consume_in-Balanced now draws token admitted r id generation stream false
        (ClientMessage.attach request) v =
      unchanged-Balanced h config r v
  consume_in-Balanced now draws token admitted r id generation stream false request v =
      on_attached-Balanced now r id generation request v

  pub consume-Balanced :
      (now : ℕ) (draws : List String) (token : List ℕ) (admitted : Bool)
      (r : Registry Hal Component D) (id : String) (generation stream : ℕ)
      (request : ClientMessage D)
      → Accounted config r
      → Balanced config r
          (consume h config now draws token admitted r id generation stream request).0
          (consume h config now draws token admitted r id generation stream request).2
  unfolding consume BalancedDone
  consume-Balanced now draws token admitted r id generation stream request v =
      consume_in-Balanced now draws token admitted r id generation stream (str_eq id "") request v
