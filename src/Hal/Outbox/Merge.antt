-- ===== src/Hal/Outbox/Merge.antt =====
-- Merging the values of deltas keeps the last value of every item.
use mathlib.Core.Bool.{false≢true}
use linuxcnc_ctrl.Prelude.{
  ℕ, str_eq, eq_iff, ◌≡◌, refl, sym, ap, ◌∙◌, subst, Bool, true, false, ◌&&◌, Option, some, List,
  [], ◌∷◌, if◌then◌else◌, Bool-cases, inl, inr, All, ◌==◌, arith,
}
use linuxcnc_ctrl.Hal.Outbox.{Item, ComponentValue, same_item, merge_value, merge_values}

-- The value of an item after the values of a delta are assigned one after another.
abbrev pub value_after : Item → Option ℕ → List ComponentValue → Option ℕ
value_after k known [] = known
value_after k known (v ∷ vs) = value_after k (if same_item v.item k then some v.value else known) vs

-- No item occurs twice in a delta.
abbrev pub Distinct : List ComponentValue → Type 0
Distinct [] = Unit
Distinct (v ∷ vs) = All (λ w. same_item w.item v.item ≡ false) vs × Distinct vs

both : (a b : Bool) → (a && b) ≡ true → (a ≡ true) × (b ≡ true)
both a b h = ground (arith, h)

kind-eq : (a b : ℕ) → (a == b) ≡ true → a ≡ b
kind-eq a b h = ground (arith, h)

same_item-eq : (a b : Item) → same_item a b ≡ true → a ≡ b
same_item-eq a b h =
    let parts = both (a.kind == b.kind) (str_eq a.name b.name) h in
    let kinds = kind-eq a.kind b.kind parts.0 in
    ap (λ x. record { kind = x; name = a.name }) kinds
    ∙ ap (λ n. record { kind = b.kind; name = n }) ((eq_iff a.name b.name).0 parts.1)

same_item-flip : (a b : Item) → same_item a b ≡ false → same_item b a ≡ false
same_item-flip a b h = elim (Bool-cases (same_item b a)) [
  | inl same ↦
      let e = same_item-eq b a same in
      absurd
        (false≢true (sym h ∙ ap (λ x. same_item x b) (sym e) ∙ ap (λ x. same_item b x) e ∙ same))
  | inr differ ↦ differ
]

unmentioned :
    (k : Item) (vs : List ComponentValue) (known : Option ℕ)
    → All (λ w. same_item w.item k ≡ false) vs
    → value_after k known vs ≡ known
unmentioned k [] known h = refl
unmentioned k (v ∷ vs) known h = ground (arith, h.0, unmentioned k vs known h.1)

merge_value-after :
    (k : Item) (v : ComponentValue) (vs : List ComponentValue) (known : Option ℕ)
    → Distinct vs
    → value_after k known (merge_value v vs)
      ≡ (if same_item v.item k then some v.value else value_after k known vs)
unfolding merge_value
merge_value-after k v [] known h = refl
merge_value-after k v (w ∷ vs) known h = elim (Bool-cases (same_item w.item v.item)) [
  | inl same ↦ elim (Bool-cases (same_item v.item k)) [
    | inl mine ↦
        let last = unmentioned k vs (some v.value) (
          subst (λ i. All (λ x. same_item x.item i ≡ false) vs)
            (same_item-eq w.item v.item same ∙ same_item-eq v.item k mine) h.0) in
        ground (arith, same, mine, last)
    | inr others ↦
        let hers = ap (λ i. same_item i k) (same_item-eq w.item v.item same) in
        ground (arith, same, others, hers)
  ]
  | inr differ ↦ ground (
    arith,
    differ,
    merge_value-after k v vs (if same_item w.item k then some w.value else known) h.1,
  )
]

merge_value-differs :
    (i : Item) (v : ComponentValue) (vs : List ComponentValue)
    → same_item v.item i ≡ false
    → All (λ w. same_item w.item i ≡ false) vs
    → All (λ w. same_item w.item i ≡ false) (merge_value v vs)
unfolding merge_value
merge_value-differs i v [] e h = (e, tt)
merge_value-differs i v (w ∷ vs) e h = elim (Bool-cases (same_item w.item v.item)) [
  | inl same ↦ ground (arith, same, e, h)
  | inr differ ↦ ground (arith, differ, h, merge_value-differs i v vs e h.1)
]

merge_value-Distinct :
    (v : ComponentValue) (vs : List ComponentValue) → Distinct vs → Distinct (merge_value v vs)
unfolding merge_value
merge_value-Distinct v [] h = (tt, tt)
merge_value-Distinct v (w ∷ vs) h = elim (Bool-cases (same_item w.item v.item)) [
  | inl same ↦
      let mine =
        subst (λ i. All (λ x. same_item x.item i ≡ false) vs) (same_item-eq w.item v.item same)
          h.0 in
      ground (arith, same, h, mine)
  | inr differ ↦
      let hers = merge_value-differs w.item v vs (same_item-flip w.item v.item differ) h.0 in
      ground (arith, differ, hers, merge_value-Distinct v vs h.1)
]

pub merge_values-after :
    (k : Item) (known : Option ℕ) (source target : List ComponentValue)
    → Distinct target
    → value_after k known (merge_values source target)
      ≡ value_after k (value_after k known target) source
unfolding merge_values
merge_values-after k known [] target h = refl
merge_values-after k known (v ∷ source) target h =
    merge_values-after k known source (merge_value v target) (merge_value-Distinct v target h)
    ∙ ap (λ x. value_after k x source) (merge_value-after k v target known h)

pub merge_values-Distinct :
    (source target : List ComponentValue) → Distinct target → Distinct (merge_values source target)
unfolding merge_values
merge_values-Distinct [] target h = h
merge_values-Distinct (v ∷ source) target h =
    merge_values-Distinct source (merge_value v target) (merge_value-Distinct v target h)
