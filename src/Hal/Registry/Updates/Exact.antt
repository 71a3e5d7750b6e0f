-- ===== src/Hal/Registry/Updates/Exact.antt =====
-- What `decode_values` accepts: the items and their exact types.
use linuxcnc_ctrl.Prelude.{
  ℕ, ◌≡◌, refl, subst, String, true, false, not, Option, none, some, List, [], ◌∷◌, arith,
}
use linuxcnc_ctrl.Hal.Values.{Value, same_type}
use linuxcnc_ctrl.Hal.Mapping.{decode_hal_scalar}
use linuxcnc_ctrl.Hal.Registry.{ComponentValue, Item, find_item}
use linuxcnc_ctrl.Hal.Registry.Schema.{
  accepted, typed_value, option_accepted, refused-ne_accepted, accepted_injective, bind_accepted,
  if_accepted, typed_value-some,
}
use linuxcnc_ctrl.Hal.Registry.Updates.Named.{FirstMeant, find_item-FirstMeant}
use linuxcnc_ctrl.Hal.Registry.Updates.{is_among, decode_update, decode_loop}

-- Places that are not among the first ones, each once.
abbrev pub Fresh : List ℕ → List ℕ → Type 0
Fresh seen [] = Unit
Fresh seen (p ∷ ps) = (is_among p seen ≡ false) × Fresh (p ∷ seen) ps

-- The places in the order in which the loop keeps them.
abbrev pub collect : List ℕ → List ℕ → List ℕ
collect seen [] = seen
collect seen (p ∷ ps) = collect (p ∷ seen) ps

module _ {D : Type 0} where
  -- The update that a value of a message stands for: the first item of that name and kind and its place,
  -- which the client may write, and the decoded value, of exactly the item's type.
  pub record IsUpdate (prefix : String) (items : List (Item D)) (value : ComponentValue D)
      (place : ℕ) (u : Item D × Value D) : Type 0 where
    pub meant : FirstMeant prefix value.item 0 items place u.0
    pub writable : u.0.client_writable ≡ true
    pub decoded : decode_hal_scalar value.value ≡ some u.1
    pub exact : same_type u.0.type u.1 ≡ true

  abbrev pub AreUpdates :
      String → List (Item D) → List (ComponentValue D) → List ℕ → List (Item D × Value D) → Type 0
  AreUpdates prefix items [] [] [] = Unit
  AreUpdates prefix items (v ∷ vs) (p ∷ ps) (u ∷ us) =
      IsUpdate prefix items v p u × AreUpdates prefix items vs ps us
  AreUpdates prefix items _ _ _ = ⊥

  decode_update-IsUpdate :
      (prefix : String) (items : List (Item D)) (seen : List ℕ) (value : ComponentValue D)
      (found : Option (ℕ × Item D)) (done : ℕ × Item D × Value D)
      → find_item prefix value.item items ≡ found
      → decode_update seen value found ≡ accepted done
      → IsUpdate prefix items value done.0 (done.1, done.2) × (is_among done.0 seen ≡ false)
  unfolding decode_update
  decode_update-IsUpdate prefix items seen value none done e h =
      absurd (refused-ne_accepted _ done h)
  decode_update-IsUpdate prefix items seen value (some (place, item)) done e h =
      let (writable, h') = if_accepted (not item.client_writable) _ _ done h in
      let (fresh, h'') = if_accepted (is_among place seen) _ _ done h' in
      let (v, typed, same) =
        option_accepted (typed_value item.type value.value) _ (λ v. (place, item, v)) done h'' in
      let (decoded, exact) = typed_value-some item.type value.value v typed in
      subst (λ d. IsUpdate prefix items value d.0 (d.1, d.2) × (is_among d.0 seen ≡ false)) same
        (
          record {
            meant = find_item-FirstMeant prefix value.item items (place, item) e;
            writable = ground (arith, writable);
            decoded = decoded;
            exact = exact;
          },
          fresh,
        )

  pub decode_loop-AreUpdates :
      (prefix : String) (items : List (Item D)) (seen : List ℕ) (values : List (ComponentValue D))
      (done : List ℕ × List (Item D × Value D))
      → decode_loop prefix items seen values ≡ accepted done
      → (places : List ℕ) × AreUpdates prefix items values places done.1
        × Fresh seen places
        × (done.0 ≡ collect seen places)
  unfolding decode_loop
  decode_loop-AreUpdates prefix items seen [] done h =
      subst
        (λ d.
          (places : List ℕ) × AreUpdates prefix items [] places d.1
          × Fresh seen places
          × (d.0 ≡ collect seen places))
        (accepted_injective (seen, []) done h) ([], tt, tt, refl)
  decode_loop-AreUpdates prefix items seen (value ∷ values) done h =
      let (first, e, h') =
        bind_accepted (decode_update seen value (find_item prefix value.item items)) _ done h in
      let (rest, e', h'') =
        bind_accepted (decode_loop prefix items (first.0 ∷ seen) values) _ done h' in
      let (is_update, fresh) = decode_update-IsUpdate prefix items seen value _ first refl e in
      let (places, are, fresh', all) =
        decode_loop-AreUpdates prefix items (first.0 ∷ seen) values rest e' in
      subst
        (λ d.
          (places : List ℕ) × AreUpdates prefix items (value ∷ values) places d.1
          × Fresh seen places
          × (d.0 ≡ collect seen places))
        (accepted_injective _ done h'') (first.0 ∷ places, (is_update, are), (fresh, fresh'), all)
