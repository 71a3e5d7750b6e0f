-- ===== src/Hal/Registry/Sessions/Changes.antt =====
-- Every message makes one change of the machine of the proxies.
use linuxcnc_ctrl.Prelude.{
  ℕ, ◌+◌, ◌≡◌, refl, sym, ap, subst, String, str_eq, Bool, true, false, not, ◌&&◌, ◌||◌, none, some,
  List, if_holds, if_cases, u64, Option-cases, inl, inr, arith, ◌==◌,
}
use linuxcnc_ctrl.Hal.Components.{HalComponents}
use linuxcnc_ctrl.Hal.Registry.{
  AttachRequest, ComponentValue, ClientMessage, update_ack, closed, Config, Proxy, Registry,
  find_proxy, token_equal,
}
use linuxcnc_ctrl.Hal.Registry.Lookup.{find_proxy_self}
use linuxcnc_ctrl.Hal.Registry.Schema.{checked_holds}
use linuxcnc_ctrl.Hal.Registry.Create.{encode_snapshot}
use linuxcnc_ctrl.Hal.Registry.Create.Changes.{
  phase, Move, attaches, activates, updates, beats, leaves, Change, refuses, moves, removes,
  Changes, create-Changes,
}
use linuxcnc_ctrl.Hal.Registry.Updates.{decode_values}
use linuxcnc_ctrl.Hal.Registry.Sessions.{
  apply_disconnect, disconnected, attach, write_values, activate, update, heartbeat,
  close_component, on_proxy, on_attached, consume_in, consume, is_current,
}

eq_of_test : (a b : ℕ) → (a == b) ≡ true → a ≡ b
eq_of_test a b h = ground (arith, h)

next_is : (a b : ℕ) → not (a == b) ≡ false → a ≡ b
next_is a b h = ground (arith, h)

module _ {D : Type 0} (h : HalComponents D) where
  open h use {Hal, Component, name, prefix, write}

  attach-Changes :
      (config : Config) (now : ℕ) (r : Registry Hal Component D) (request : AttachRequest)
      (stream : ℕ)
      → Changes h r (attach h config now r request stream)
  unfolding attach encode_snapshot
  attach-Changes config now r request stream =
      elim (Option-cases (find_proxy request.proxy_id r.proxies)) [
        | inl missing ↦ rw (missing, attach) (refuses refl refl refl)
        | inr (proxy, found) ↦
            rw (found, attach)
              (if_holds (Changes h r) (not (str_eq (name proxy.component) request.name)) _ _
                (refuses refl refl refl)
                (if_holds (Changes h r)
                  (not (token_equal proxy.ownership_token request.ownership_token)) _ _
                  (refuses refl refl refl)
                  (if_cases (Changes h r) proxy.is_attached _ _ (λ there. refuses refl refl refl)
                    λ away.
                      moves proxy _ _ refl refl refl
                        (find_proxy_self request.proxy_id r.proxies proxy found)
                        (attaches (phase proxy) _ away refl) refl)))
      ]

  activate-Changes :
      (now : ℕ) (r : Registry Hal Component D) (proxy : Proxy Component D) (generation : ℕ)
      (values : List (ComponentValue D))
      → find_proxy proxy.id r.proxies ≡ some proxy
      → proxy.is_attached ≡ true
      → Changes h r (activate h now r proxy generation values)
  unfolding activate
  activate-Changes now r proxy generation values found there =
      if_cases (Changes h r) (proxy.is_active || not (generation == proxy.generation)) _ _
        (λ stale. refuses refl refl refl)
        λ current.
          checked_holds (Changes h r)
            (decode_values (prefix proxy.component) proxy.items values true) _ _
            (λ message. refuses refl refl refl)
            λ writes.
              if_holds (Changes h r) (not (write_values h r.hal proxy.component writes).1) _ _
                (refuses refl refl refl)
                (moves proxy (record proxy { is_active = true; last_heartbeat = now }) _ refl refl
                  refl found (activates (phase proxy) there (ground (arith, current))) refl)

  update-Changes :
      (now : ℕ) (r : Registry Hal Component D) (proxy : Proxy Component D) (generation sequence : ℕ)
      (values : List (ComponentValue D))
      → find_proxy proxy.id r.proxies ≡ some proxy
      → proxy.is_attached ≡ true
      → Changes h r (update h now r proxy generation sequence values)
  unfolding update
  update-Changes now r proxy generation sequence values found there =
      if_cases (Changes h r) (not proxy.is_active || not (generation == proxy.generation)) _ _
        (λ stale. refuses refl refl refl)
        λ current.
          if_cases (Changes h r) (not (sequence == u64 (proxy.client_sequence + 1))) _ _
            (λ gap. refuses refl refl refl)
            λ next.
              checked_holds (Changes h r)
                (decode_values (prefix proxy.component) proxy.items values false) _ _
                (λ message. refuses refl refl refl)
                λ writes.
                  if_holds (Changes h r) (not (write_values h r.hal proxy.component writes).1) _ _
                    (refuses refl refl refl)
                    (moves proxy (record proxy { client_sequence = sequence; last_heartbeat = now })
                      _ refl refl refl found
                      (subst
                        (λ n.
                          Move {D = D} (phase proxy) (update_ack proxy.generation n)
                            (record (phase proxy) { sequence = n }))
                        (sym (next_is sequence (u64 (proxy.client_sequence + 1)) next))
                        (updates (phase proxy) there (ground (arith, current))))
                      refl)

  heartbeat-Changes :
      (now : ℕ) (r : Registry Hal Component D) (proxy : Proxy Component D) (generation : ℕ)
      → find_proxy proxy.id r.proxies ≡ some proxy
      → proxy.is_attached ≡ true
      → Changes h r (heartbeat h now r proxy generation)
  unfolding heartbeat
  heartbeat-Changes now r proxy generation found there =
      if_holds (Changes h r) (not (generation == proxy.generation)) _ _ (refuses refl refl refl) (
        moves proxy (record proxy { last_heartbeat = now }) _ refl refl refl found
          (beats (phase proxy) there) refl)

  close_component-Changes :
      (r : Registry Hal Component D) (proxy : Proxy Component D) (generation mode : ℕ)
      → find_proxy proxy.id r.proxies ≡ some proxy
      → proxy.is_attached ≡ true
      → Changes h r (close_component h r proxy generation mode)
  unfolding close_component disconnected apply_disconnect
  close_component-Changes r proxy generation mode found there =
      if_cases (Changes h r)
        (not (generation == proxy.generation) || not (mode == 1) && not (mode == 2)) _ _
        (λ wrong. refuses refl refl refl)
        λ right.
          if_cases (Changes h r) (mode == 2) _ _
            (λ destroys.
              removes proxy refl (ap (λ n. some (closed proxy.id n)) (eq_of_test mode 2 destroys))
                refl found there refl)
            λ detaches.
              moves proxy
                (record proxy { is_attached = false; is_active = false; callbacks = none })
                (closed proxy.id mode) refl refl refl found
                (subst
                  (λ n.
                    Move {D = D} (phase proxy) (closed proxy.id n)
                      (record (phase proxy) { is_attached = false; is_active = false }))
                  (ground (arith, right, detaches)) (leaves (phase proxy) proxy.id there))
                refl

  on_proxy-Changes :
      (now : ℕ) (r : Registry Hal Component D) (proxy : Proxy Component D)
      (request : ClientMessage D)
      → find_proxy proxy.id r.proxies ≡ some proxy
      → proxy.is_attached ≡ true
      → Changes h r (on_proxy h now r proxy request)
  unfolding on_proxy
  on_proxy-Changes now r proxy (ClientMessage.activate generation values) found there =
      activate-Changes now r proxy generation values found there
  on_proxy-Changes now r proxy (ClientMessage.update generation sequence values) found there =
      update-Changes now r proxy generation sequence values found there
  on_proxy-Changes now r proxy (ClientMessage.heartbeat generation) found there =
      heartbeat-Changes now r proxy generation found there
  on_proxy-Changes now r proxy (ClientMessage.close generation mode) found there =
      close_component-Changes r proxy generation mode found there
  on_proxy-Changes now r proxy (ClientMessage.create request) found there = refuses refl refl refl
  on_proxy-Changes now r proxy (ClientMessage.attach request) found there = refuses refl refl refl
  on_proxy-Changes now r proxy ClientMessage.not_set found there = refuses refl refl refl

  on_attached-Changes :
      (now : ℕ) (r : Registry Hal Component D) (id : String) (generation : ℕ)
      (request : ClientMessage D)
      → Changes h r (on_attached h now r id generation request)
  unfolding on_attached
  on_attached-Changes now r id generation request = elim (Option-cases (find_proxy id r.proxies)) [
    | inl missing ↦ rw (missing, on_attached) (refuses refl refl refl)
    | inr (proxy, found) ↦
        rw (found, on_attached)
          (if_cases (Changes h r) (is_current h proxy generation) _ _
            (λ current.
              on_proxy-Changes now r proxy request (find_proxy_self id r.proxies proxy found)
                (ground (arith, current)))
            (λ stale. refuses refl refl refl))
  ]

  consume_in-Changes :
      (config : Config) (now : ℕ) (draws : List String) (token : List ℕ) (admitted : Bool)
      (r : Registry Hal Component D) (id : String) (generation stream : ℕ) (first : Bool)
      (request : ClientMessage D)
      → Changes h r
          (consume_in h config now draws token admitted r id generation stream first request)
  unfolding consume_in
  consume_in-Changes config now draws token admitted r id generation stream true
        (ClientMessage.create request) =
      create-Changes h config now draws token admitted r request stream
  consume_in-Changes config now draws token admitted r id generation stream true
        (ClientMessage.attach request) =
      attach-Changes config now r request stream
  consume_in-Changes config now draws token admitted r id generation stream true _ =
      refuses refl refl refl
  consume_in-Changes config now draws token admitted r id generation stream false
        (ClientMessage.create request) =
      refuses refl refl refl
  consume_in-Changes config now draws token admitted r id generation stream false
        (ClientMessage.attach request) =
      refuses refl refl refl
  consume_in-Changes config now draws token admitted r id generation stream false request =
      on_attached-Changes now r id generation request

  -- Every message of a stream, whatever it holds, does exactly one thing to the map of proxies. Either it
  -- is answered with an error and no response, and every proxy stays as it is; or it creates a proxy under
  -- an id that was free, attached and inactive in generation 1; or it moves the one proxy that the result
  -- names; or it removes that proxy, which was attached, and answers `closed`. The moves are those of
  -- the machine: a detached proxy is attached, inactive, in the next generation and with sequence 0; an
  -- inactive one is activated; an active one takes the update with the next sequence; an attached one
  -- beats, or is detached and deactivated. Each is answered with its own generation and sequence.
  pub consume-Change :
      (config : Config) (now : ℕ) (draws : List String) (token : List ℕ) (admitted : Bool)
      (r : Registry Hal Component D) (id : String) (generation stream : ℕ)
      (request : ClientMessage D)
      → Change r
          (consume h config now draws token admitted r id generation stream request).0
          (consume h config now draws token admitted r id generation stream request).1
  unfolding consume
  consume-Change config now draws token admitted r id generation stream request =
      consume_in-Changes config now draws token admitted r id generation stream (str_eq id "")
        request
