-- ===== src/Hal/Registry/Updates/Named.antt =====
-- Which item a client means by a kind and a name: the name is the item's own, or the component's prefix,
-- a dot and the item's own. This is said of texts alone, without the search and the cut in the code.
use Prim.Native.String.{◌++◌ as concat, len, slice}
use text.Mathlib.Text.{starts_with}
use text.Mathlib.TextBridge.{IsPrefix}
use text.Mathlib.TextEquality.{starts_with_iff}
use text.Mathlib.TextPositions.{slice-append_right, len-append, starts_with_of_prefix}
use mathlib.Core.Option.{some-injective}
use mathlib.Core.Bool.{true≢false}
use linuxcnc_ctrl.Prelude.{
  ℕ, ◌+◌, ◌≡◌, refl, sym, ap, ◌∙◌, subst, ◌⊎◌, inl, inr, String, str_eq, eq_iff, some, List, [],
  ◌∷◌, ◌==◌, Bool-cases, arith,
}
use linuxcnc_ctrl.Hal.Mapping.{ItemRef}
use linuxcnc_ctrl.Hal.Registry.{Item, item_at, find_item, suffix_of}

-- The name stands for the suffix: it is the prefix, a dot and the suffix; or it does not begin with the
-- prefix and a dot, and is the suffix.
abbrev pub HasName : String → String → String → Type 0
HasName prefix suffix name =
    (concat (concat prefix ".") suffix ≡ name)
    ⊎ ((¬ IsPrefix (concat prefix ".") name) × (suffix ≡ name))

slice_after : (s t name : String) → concat s t ≡ name → slice name (len s) (len name) ≡ t
slice_after s t name e =
    subst (λ n. slice n (len s) (len n) ≡ t) e
      (ap (λ k. slice (concat s t) (len s) k) (len-append s t) ∙ slice-append_right s t)

suffix_of-HasName : (prefix name : String) → HasName prefix (suffix_of prefix name) name
suffix_of-HasName prefix name =
    let dotted = concat prefix "." in
    elim (Bool-cases (starts_with name dotted)) [
      | inl starts ↦
          let (rest, e) = (starts_with_iff name dotted).0 starts in
          rw starts (inl (ap (concat dotted) (slice_after dotted rest name e) ∙ e))
      | inr not_so ↦
          rw not_so
            (inr (λ p. true≢false (sym (starts_with_of_prefix dotted name p) ∙ not_so), refl))
    ]

HasName-suffix_of :
    (prefix suffix name : String) → HasName prefix suffix name → suffix ≡ suffix_of prefix name
HasName-suffix_of prefix suffix name (inl e) =
    let dotted = concat prefix "." in
    rw (starts_with_of_prefix dotted name (suffix, e)) (sym (slice_after dotted suffix name e))
HasName-suffix_of prefix suffix name (inr (apart, e)) =
    elim (Bool-cases (starts_with name (concat prefix "."))) [
      | inl starts ↦ absurd (apart ((starts_with_iff name (concat prefix ".")).0 starts))
      | inr not_so ↦ rw not_so e
    ]

module _ {D : Type 0} where
  abbrev pub IsMeant : String → ItemRef → Item D → Type 0
  IsMeant prefix ref item = HasName prefix item.suffix ref.name × (item.kind ≡ ref.kind)

  -- `item` is the first of the items that is meant, and stands at `place`; the first item is at place `k`.
  abbrev pub FirstMeant : String → ItemRef → ℕ → List (Item D) → ℕ → Item D → Type 0
  FirstMeant prefix ref k [] place item = ⊥
  FirstMeant prefix ref k (x ∷ items) place item =
      (IsMeant prefix ref x × (place ≡ k) × (x ≡ item))
      ⊎ ((¬ IsMeant prefix ref x) × FirstMeant prefix ref (k + 1) items place item)

  item_at-FirstMeant :
      (prefix : String) (ref : ItemRef) (k : ℕ) (items : List (Item D)) (found : ℕ × Item D)
      → item_at k (suffix_of prefix ref.name) ref.kind items ≡ some found
      → FirstMeant prefix ref k items found.0 found.1
  unfolding item_at
  item_at-FirstMeant prefix ref k [] found h = ground (arith, h)
  item_at-FirstMeant prefix ref k (x ∷ items) found h =
      elim (Bool-cases (str_eq x.suffix (suffix_of prefix ref.name))) [
        | inl named ↦ elim (Bool-cases (x.kind == ref.kind)) [
          | inl same ↦
              let here = some-injective (k, x) found (ground (arith, named, same, h)) in
              inl (
                (
                  subst (λ s. HasName prefix s ref.name)
                      (sym ((eq_iff x.suffix (suffix_of prefix ref.name)).0 named))
                      (suffix_of-HasName prefix ref.name),
                  ground (arith, same),
                ),
                ap (λ (f : ℕ × Item D). f.0) (sym here),
                ap (λ (f : ℕ × Item D). f.1) here,
              )
          | inr differ ↦ inr (
            λ m. ground (arith, m.1, differ),
            item_at-FirstMeant prefix ref (k + 1) items found (ground (arith, named, differ, h)),
          )
        ]
        | inr other ↦ inr (
          λ m. ground (
            arith,
            other,
            (eq_iff x.suffix (suffix_of prefix ref.name)).1
                (HasName-suffix_of prefix x.suffix ref.name m.0),
          ),
          item_at-FirstMeant prefix ref (k + 1) items found (ground (arith, other, h)),
        )
      ]

  pub find_item-FirstMeant :
      (prefix : String) (ref : ItemRef) (items : List (Item D)) (found : ℕ × Item D)
      → find_item prefix ref items ≡ some found
      → FirstMeant prefix ref 0 items found.0 found.1
  unfolding find_item
  find_item-FirstMeant prefix ref items found h = item_at-FirstMeant prefix ref 0 items found h
