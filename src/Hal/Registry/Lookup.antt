-- ===== src/Hal/Registry/Lookup.antt =====
-- The lookups of the registry: what finding, replacing and erasing a proxy leave of the map.
use linuxcnc_ctrl.Prelude.{
  ℕ, ◌+◌, ◌≡◌, refl, sym, subst, String, str_eq, eq_iff, some, List, [], ◌∷◌, ◌++◌, length,
  Bool-cases, inl, inr, arith,
}
use linuxcnc_ctrl.Hal.Registry.{Proxy, find_proxy, put_proxy, erase_proxy}

module _ {C D : Type 0} where
  -- The items of all proxies together.
  abbrev pub total_items : List (Proxy C D) → ℕ
  total_items [] = 0
  total_items (p ∷ ps) = length p.items + total_items ps

  pub total_items-append :
      (ps qs : List (Proxy C D)) → total_items (ps ++ qs) ≡ total_items ps + total_items qs
  total_items-append [] qs = omega arith
  total_items-append (p ∷ ps) qs = omega (arith, total_items-append ps qs)

  pub find_proxy-id :
      (id : String) (ps : List (Proxy C D)) (p : Proxy C D) → find_proxy id ps ≡ some p → p.id ≡ id
  find_proxy-id id [] p h = ground (arith, h)
  find_proxy-id id (q ∷ ps) p h = elim (Bool-cases (str_eq q.id id)) [
    | inl same ↦ ground (arith, h, same, (eq_iff q.id id).0 same)
    | inr other ↦ ground (arith, h, other, find_proxy-id id ps p)
  ]

  pub length-put_proxy :
      (p : Proxy C D) (ps : List (Proxy C D)) → length (put_proxy p ps) ≡ length ps
  length-put_proxy p [] = refl
  length-put_proxy p (q ∷ ps) = ground (arith, length-put_proxy p ps)

  pub total_items-put_proxy :
      (p q : Proxy C D) (ps : List (Proxy C D))
      → find_proxy p.id ps ≡ some q
      → length p.items ≡ length q.items
      → total_items (put_proxy p ps) ≡ total_items ps
  total_items-put_proxy p q [] h same = refl
  total_items-put_proxy p q (x ∷ ps) h same = ground (arith, h, same, total_items-put_proxy p q ps)

  pub total_items-erase_proxy :
      (id : String) (q : Proxy C D) (ps : List (Proxy C D))
      → find_proxy id ps ≡ some q
      → total_items (erase_proxy id ps) + length q.items ≡ total_items ps
  total_items-erase_proxy id q [] h = ground (arith, h)
  total_items-erase_proxy id q (x ∷ ps) h = ground (arith, h, total_items-erase_proxy id q ps)

  pub length-erase_proxy :
      (id : String) (q : Proxy C D) (ps : List (Proxy C D))
      → find_proxy id ps ≡ some q
      → length (erase_proxy id ps) + 1 ≡ length ps
  length-erase_proxy id q [] h = ground (arith, h)
  length-erase_proxy id q (x ∷ ps) h = ground (arith, h, length-erase_proxy id q ps)

  pub find_proxy_self :
      (id : String) (ps : List (Proxy C D)) (p : Proxy C D)
      → find_proxy id ps ≡ some p
      → find_proxy p.id ps ≡ some p
  find_proxy_self id ps p h =
      subst (λ i. find_proxy i ps ≡ some p) (sym (find_proxy-id id ps p h)) h
