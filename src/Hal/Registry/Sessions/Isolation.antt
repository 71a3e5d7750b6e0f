-- ===== src/Hal/Registry/Sessions/Isolation.antt =====
-- A stream reaches no proxy but its own.
use linuxcnc_ctrl.Prelude.{
  ℕ, ◌≡◌, ◌≢◌, refl, sym, ap, ◌∙◌, String, str_eq, str_eq-of_ne, eq_iff, Bool, List, [], ◌∷◌, ◌++◌,
  Bool-cases, inl, inr, arith,
}
use linuxcnc_ctrl.Hal.Components.{HalComponents}
use linuxcnc_ctrl.Hal.Registry.{
  ClientMessage, Result, Config, Proxy, Registry, find_proxy, put_proxy, erase_proxy,
}
use linuxcnc_ctrl.Hal.Registry.Create.Changes.{Change, refuses, creates, moves, removes}
use linuxcnc_ctrl.Hal.Registry.Sessions.{consume}
use linuxcnc_ctrl.Hal.Registry.Sessions.Changes.{consume-Change}

module _ {C D : Type 0} where
  find_proxy-append :
      (other : String) (p : Proxy C D) (ps : List (Proxy C D))
      → other ≢ p.id
      → find_proxy other (ps ++ p ∷ []) ≡ find_proxy other ps
  find_proxy-append other p [] ne = rw (str_eq-of_ne p.id other (λ e. ne (sym e))) refl
  find_proxy-append other p (q ∷ ps) ne = ground (arith, find_proxy-append other p ps ne)

  find_proxy-put_proxy :
      (other : String) (p : Proxy C D) (ps : List (Proxy C D))
      → other ≢ p.id
      → find_proxy other (put_proxy p ps) ≡ find_proxy other ps
  find_proxy-put_proxy other p [] ne = refl
  find_proxy-put_proxy other p (q ∷ ps) ne = elim (Bool-cases (str_eq q.id p.id)) [
    | inl here ↦ ground (
      arith,
      here,
      str_eq-of_ne p.id other (λ e. ne (sym e)),
      str_eq-of_ne q.id other (λ e. ne (sym e ∙ (eq_iff q.id p.id).0 here)),
    )
    | inr there ↦ ground (arith, there, find_proxy-put_proxy other p ps ne)
  ]

  find_proxy-erase_proxy :
      (other id : String) (ps : List (Proxy C D))
      → other ≢ id
      → find_proxy other (erase_proxy id ps) ≡ find_proxy other ps
  find_proxy-erase_proxy other id [] ne = refl
  find_proxy-erase_proxy other id (q ∷ ps) ne = elim (Bool-cases (str_eq q.id id)) [
    | inl here ↦
        ground (arith, here, str_eq-of_ne q.id other (λ e. ne (sym e ∙ (eq_iff q.id id).0 here)))
    | inr there ↦ ground (arith, there, find_proxy-erase_proxy other id ps ne)
  ]

  Change-other :
      {H : Type 0} (r r' : Registry H C D) (result : Result D) (other : String)
      → Change r r' result
      → other ≢ result.proxy_id
      → find_proxy other r'.proxies ≡ find_proxy other r.proxies
  Change-other r r' result other (refuses e response same) ne = ap (find_proxy other) same
  Change-other r r' result other (creates p a e response id new begins after) ne =
      ap (find_proxy other) after ∙ find_proxy-append other p r.proxies (λ o. ne (o ∙ sym id))
  Change-other r r' result other (moves q p m e response id found move after) ne =
      ap (find_proxy other) after ∙ find_proxy-put_proxy other p r.proxies (λ o. ne (o ∙ sym id))
  Change-other r r' result other (removes q e response id found there after) ne =
      ap (find_proxy other) after
      ∙ find_proxy-erase_proxy other q.id r.proxies (λ o. ne (o ∙ sym id))

module _ {D : Type 0} (h : HalComponents D) where
  open h use {Hal, Component}

  -- A message leaves every proxy as it is but the one that its result names: no field of it changes, and
  -- it is found under its id as before.
  pub consume-other :
      (config : Config) (now : ℕ) (draws : List String) (token : List ℕ) (admitted : Bool)
      (r : Registry Hal Component D) (id : String) (generation stream : ℕ)
      (request : ClientMessage D) (other : String)
      → other
        ≢ (consume h config now draws token admitted r id generation stream request).1.proxy_id
      → find_proxy other
          (consume h config now draws token admitted r id generation stream request).0.proxies
        ≡ find_proxy other r.proxies
  consume-other config now draws token admitted r id generation stream request other ne =
      Change-other r (consume h config now draws token admitted r id generation stream request).0 _
        other (consume-Change h config now draws token admitted r id generation stream request) ne
