-- ===== src/Hal/Telemetry/Slots.antt =====
-- What an update keeps of the bindings of a subscription, and which slots it gives out.
use linuxcnc_ctrl.Prelude.{
  ℕ, ◌+◌, ◌<◌, ◌^◌, ◌≡◌, ◌≢◌, refl, sym, ap, ◌∙◌, subst, ◌⊎◌, inl, inr, String, str_eq, eq_iff,
  ne_of_str_eq, Option, none, some, List, [], ◌∷◌, length, Bool-cases, ◌==◌, arith,
}
use linuxcnc_ctrl.Hal.Telemetry.{
  ResolvedItem, Binding, type_number, key, find_prior, fresh_binding, place_item, rebind, u32_of,
}

-- The first of the old bindings that has the key is `b`, and its value is `v`.
abbrev pub FirstAt : String → List Binding → List (Option ℕ) → Binding → Option ℕ → Type 0
FirstAt k (c ∷ bs) (w ∷ vs) b v =
    ((key c.item ≡ k) × (c ≡ b) × (w ≡ v)) ⊎ ((key c.item ≢ k) × FirstAt k bs vs b v)
FirstAt k _ _ b v = ⊥

-- No old binding has the key, or the first that has it is of another type.
abbrev pub NoneOfType : String → ℕ → List Binding → List (Option ℕ) → Type 0
NoneOfType k n (c ∷ bs) (w ∷ vs) =
    ((key c.item ≡ k) × (type_number c.type ≢ n)) ⊎ ((key c.item ≢ k) × NoneOfType k n bs vs)
NoneOfType k n _ _ = Unit

-- One item and its binding, with the slot counter before and after.
abbrev pub Answer :
    List Binding → List (Option ℕ) → ℕ → ℕ → ResolvedItem → Binding → Option ℕ → Type 0
Answer bindings values slot next i b v =
    (key b.item ≡ key i.item)
    × (type_number b.type ≡ type_number i.type)
    × ((FirstAt (key i.item) bindings values b v × (next ≡ slot))
        ⊎ (NoneOfType (key i.item) (type_number i.type) bindings values
            × (b.slot ≡ slot)
            × (v ≡ none)
            × (next ≡ slot + 1)))

abbrev pub Answers :
    List Binding
    → List (Option ℕ)
    → ℕ
    → ℕ
    → List ResolvedItem
    → List Binding
    → List (Option ℕ)
    → Type 0
Answers bindings values slot last [] [] [] = slot ≡ last
Answers bindings values slot last (i ∷ is) (b ∷ bs) (v ∷ vs) =
    (next : ℕ) × Answer bindings values slot next i b v × Answers bindings values next last is bs vs
Answers bindings values slot last _ _ _ = ⊥

abbrev Found : String → ℕ → List Binding → List (Option ℕ) → Option (Binding × Option ℕ) → Type 0
Found k n bs vs none = NoneOfType k n bs vs
Found k n bs vs (some prior) = FirstAt k bs vs prior.0 prior.1

skip_Found :
    (k : String) (n : ℕ) (c : Binding) (w : Option ℕ) (bs : List Binding) (vs : List (Option ℕ))
    (o : Option (Binding × Option ℕ))
    → key c.item ≢ k
    → Found k n bs vs o
    → Found k n (c ∷ bs) (w ∷ vs) o
skip_Found k n c w bs vs none h f = inr (h, f)
skip_Found k n c w bs vs (some prior) h f = inr (h, f)

find_prior-Found :
    (k : String) (n : ℕ) (bs : List Binding) (vs : List (Option ℕ))
    → Found k n bs vs (find_prior k bs vs)
unfolding find_prior
find_prior-Found k n [] vs = tt
find_prior-Found k n (c ∷ bs) [] = tt
find_prior-Found k n (c ∷ bs) (w ∷ vs) = elim (Bool-cases (str_eq (key c.item) k)) [
  | inl same ↦ rw same (inl ((eq_iff (key c.item) k).0 same, refl, refl))
  | inr differ ↦ rw differ (
      skip_Found k n c w bs vs (find_prior k bs vs) (ne_of_str_eq (key c.item) k differ)
        (find_prior-Found k n bs vs))
]

FirstAt-key :
    (k : String) (bs : List Binding) (vs : List (Option ℕ)) (b : Binding) (v : Option ℕ)
    → FirstAt k bs vs b v
    → key b.item ≡ k
FirstAt-key k (c ∷ bs) (w ∷ vs) b v (inl (same, e, f)) = subst (λ d. key d.item ≡ k) e same
FirstAt-key k (c ∷ bs) (w ∷ vs) b v (inr (differ, f)) = FirstAt-key k bs vs b v f
FirstAt-key k [] vs b v f = absurd f
FirstAt-key k (c ∷ bs) [] b v f = absurd f

FirstAt-NoneOfType :
    (k : String) (n : ℕ) (bs : List Binding) (vs : List (Option ℕ)) (b : Binding) (v : Option ℕ)
    → FirstAt k bs vs b v
    → type_number b.type ≢ n
    → NoneOfType k n bs vs
FirstAt-NoneOfType k n (c ∷ bs) (w ∷ vs) b v (inl (same, e, f)) h =
    inl (same, λ t. h (ap (λ (d : Binding). type_number d.type) (sym e) ∙ t))
FirstAt-NoneOfType k n (c ∷ bs) (w ∷ vs) b v (inr (differ, f)) h =
    inr (differ, FirstAt-NoneOfType k n bs vs b v f h)
FirstAt-NoneOfType k n [] vs b v f h = absurd f
FirstAt-NoneOfType k n (c ∷ bs) [] b v f h = absurd f

u32_small : (n : ℕ) → n < 2 ^ 32 → u32_of n ≡ n
u32_small n h = omega (arith, h)

place_item-Answer :
    (bindings : List Binding) (values : List (Option ℕ)) (slot : ℕ) (i : ResolvedItem)
    (prior : Option (Binding × Option ℕ))
    → Found (key i.item) (type_number i.type) bindings values prior
    → slot + 1 < 2 ^ 32
    → let placed = place_item i slot prior in
      Answer bindings values slot placed.2 i placed.0 placed.1
unfolding place_item fresh_binding
place_item-Answer bindings values slot i none found n =
    (refl, refl, inr (found, refl, refl, u32_small (slot + 1) n))
place_item-Answer bindings values slot i (some prior) found n =
    elim (Bool-cases (type_number prior.0.type == type_number i.type)) [
      | inl same ↦
          let keyed = FirstAt-key (key i.item) bindings values prior.0 prior.1 found in
          rw same ((keyed, ground (arith, same), inl (found, refl)))
      | inr differ ↦
          let other =
            FirstAt-NoneOfType (key i.item) (type_number i.type) bindings values prior.0 prior.1
              found (λ e. ground (arith, differ, e)) in
          rw differ (refl, refl, inr (other, refl, refl, u32_small (slot + 1) n))
    ]

Answer-le :
    (bindings : List Binding) (values : List (Option ℕ)) (slot next : ℕ) (i : ResolvedItem)
    (b : Binding) (v : Option ℕ)
    → Answer bindings values slot next i b v
    → next < slot + 2
Answer-le bindings values slot next i b v (k, t, inl kept) = omega (arith, kept.1)
Answer-le bindings values slot next i b v (k, t, inr new) = omega (arith, new.3)

-- As long as the 32-bit slot counter does not wrap, rebinding a subscription to new items gives one
-- binding and one value per item, in the order of the items, with the key and the type of the item. If
-- the first old binding of that key is of that type, it is kept, with its slot and its value, and the
-- counter stays. Otherwise, and only then, the item gets the slot that the counter says, has no value,
-- and the counter goes up by one: new slots are distinct, and start at the old counter.
pub rebind-Answers :
    (bindings : List Binding) (values : List (Option ℕ)) (slot : ℕ) (items : List ResolvedItem)
    → slot + length items < 2 ^ 32
    → let r = rebind items bindings values slot in Answers bindings values slot r.2 items r.0 r.1
unfolding rebind
rebind-Answers bindings values slot [] n = refl
rebind-Answers bindings values slot (i ∷ is) n =
    let prior = find_prior (key i.item) bindings values in
    let found = find_prior-Found (key i.item) (type_number i.type) bindings values in
    let placed = place_item i slot prior in
    let here = place_item-Answer bindings values slot i prior found (omega (arith, n)) in
    let up = Answer-le bindings values slot placed.2 i placed.0 placed.1 here in
    (placed.2, here, rebind-Answers bindings values placed.2 is (omega (arith, n, up)))
