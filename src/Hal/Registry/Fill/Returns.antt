-- ===== src/Hal/Registry/Fill/Returns.antt =====
-- A try block that returns gives as many items as were asked for.
use linuxcnc_ctrl.Prelude.{
  ℕ, suc, ◌+◌, ◌≡◌, refl, ap, String, Bool, true, false, List, [], ◌∷◌, length, length-append,
  arith,
}
use linuxcnc_ctrl.Hal.Values.{HalType, Value, out}
use linuxcnc_ctrl.Hal.Components.{
  HalComponents, returned, adapter_error, exception, unknown_exception,
}
use linuxcnc_ctrl.Hal.Registry.{Item, online_pin}
use linuxcnc_ctrl.Hal.Registry.Schema.{Definition}
use linuxcnc_ctrl.Hal.Registry.Fill.{
  added_or_rejected, online_item, add_item, add_items, fill, unwind, open_and_fill, Try, and_then,
}

module _ {D : Type 0} (h : HalComponents D) where
  open h use {Hal, Component, name, open_component, add_pin, set_ready, read, write}

  -- What a try block returns, if it returns.
  unfoldable pub Returns : {A : Type 0} → Try h A → (A → Type 0) → Type 0
  Returns (hal, returned a) P = P a
  Returns _ P = Unit

  in_returned :
      {A : Type 0} → (P : A → Type 0) (hal : Hal) (a : A) → P a → Returns (hal, returned a) P
  unfolding Returns
  in_returned P hal a p = p

  pub in_exception :
      {A : Type 0}
      → (P : A → Type 0) (hal : Hal) (message : String) → Returns (hal, exception message) P
  unfolding Returns
  in_exception P hal message = tt

  returns_all : {A : Type 0} → (P : A → Type 0) → ((a : A) → P a) → (t : Try h A) → Returns t P
  unfolding Returns
  returns_all P all (hal, returned a) = all a
  returns_all P all (hal, _) = tt

  Returns-and_then :
      {A B : Type 0} (t : Try h A) (f : Hal → A → Try h B) (P : A → Type 0) (Q : B → Type 0)
      → Returns t P
      → ((hal : Hal) (a : A) → P a → Returns (f hal a) Q)
      → Returns (and_then h t f) Q
  unfolding Returns
  Returns-and_then (hal, returned a) f P Q p q = q hal a p
  Returns-and_then (hal, adapter_error message code) f P Q p q = tt
  Returns-and_then (hal, exception message) f P Q p q = tt
  Returns-and_then (hal, unknown_exception) f P Q p q = tt

  -- As above, where nothing is asked of the first part.
  Returns-and_then_any :
      {A B : Type 0} (t : Try h A) (f : Hal → A → Try h B) (Q : B → Type 0)
      → ((hal : Hal) (a : A) → Returns (f hal a) Q)
      → Returns (and_then h t f) Q
  Returns-and_then_any t f Q q =
      Returns-and_then t f (λ a. Unit) Q (returns_all (λ a. Unit) (λ a. tt) t) λ hal a u. q hal a

  Returns-unwind :
      {A : Type 0} (c : Component) (t : Try h A) (P : A → Type 0)
      → Returns t P
      → Returns (unwind h c t) P
  unfolding Returns unwind
  Returns-unwind c (hal, returned a) P p = p
  Returns-unwind c (hal, adapter_error message code) P p = tt
  Returns-unwind c (hal, exception message) P p = tt
  Returns-unwind c (hal, unknown_exception) P p = tt

  abbrev Sized : ℕ → List (Item D) → Type 0
  Sized n items = length items ≡ n

  add_items-Returns :
      (hal : Hal) (c : Component) (prefix : String) (definitions : List (Definition D))
      → Returns (add_items h hal c prefix definitions) (Sized (length definitions))
  unfolding add_items
  add_items-Returns hal c prefix [] = in_returned _ _ _ refl
  add_items-Returns hal c prefix (definition ∷ definitions) =
      Returns-and_then_any (add_item h hal c prefix definition) _ (Sized (suc (length definitions)))
        λ hal' item.
          Returns-and_then (add_items h hal' c prefix definitions) _ (Sized (length definitions))
            (Sized (suc (length definitions))) (add_items-Returns hal' c prefix definitions)
            λ hal'' items same. in_returned _ _ _ (ap suc same)

  added_or_rejected-Returns :
      {A : Type 0} (P : A → Type 0) (message : String) (a : A) (hal : Hal) (added : Bool)
      → P a
      → Returns (added_or_rejected h message a hal added) P
  unfolding added_or_rejected Returns
  added_or_rejected-Returns P message a hal true p = p
  added_or_rejected-Returns P message a hal false p = tt

  fill-Returns :
      (hal : Hal) (c : Component) (prefix : String) (definitions : List (Definition D))
      → Returns (fill h hal c prefix definitions) (Sized (length definitions + 1))
  unfolding fill
  fill-Returns hal c prefix definitions =
      let n = length definitions in
      Returns-and_then (add_items h hal c prefix definitions) _ (Sized n) (Sized (n + 1))
        (add_items-Returns hal c prefix definitions)
        λ hal1 items same.
          Returns-and_then_any (add_pin hal1 c online_pin HalType.bit out) _ (Sized (n + 1))
            λ hal2 added.
              Returns-and_then
                (added_or_rejected h "managed online pin was rejected" items hal2 added) _ (Sized n)
                (Sized (n + 1)) (added_or_rejected-Returns (Sized n) _ items hal2 added same)
                λ hal3 items' same'.
                  Returns-and_then_any (set_ready (write hal3 c online_pin (Value.bit false)).0 c) _
                    (Sized (n + 1))
                    λ hal4 v.
                      in_returned _ _ _
                        (omega (arith, length-append items' (online_item h prefix ∷ []), same'))

  pub open_and_fill-Returns :
      (hal : Hal) (name prefix : String) (definitions : List (Definition D))
      → Returns
          (open_and_fill h hal name prefix definitions)
          (λ opened. length opened.1 ≡ length definitions + 1)
  unfolding open_and_fill
  open_and_fill-Returns hal name prefix definitions =
      let n = length definitions in
      Returns-and_then_any (open_component hal name prefix) _
        (λ (opened : Component × List (Item D)). length opened.1 ≡ n + 1)
        λ hal' c.
          Returns-and_then (unwind h c (fill h hal' c prefix definitions)) _ (Sized (n + 1))
            (λ (opened : Component × List (Item D)). length opened.1 ≡ n + 1)
            (Returns-unwind c (fill h hal' c prefix definitions) _
              (fill-Returns hal' c prefix definitions))
            λ hal'' items same. in_returned _ _ _ same
