-- ===== src/Hal/Registry/Updates/Cover.antt =====
-- A complete message covers all that the client may write: a list of different places of writable items,
-- as many as there are writable items, has them all.
use linuxcnc_ctrl.Prelude.{
  ℕ, suc, ◌+◌, ◌≤◌, ◌<◌, ◌≡◌, refl, ap, subst, String, Bool, true, false, not, ◌&&◌, ◌||◌, List, [],
  ◌∷◌, if◌then◌else◌, length, count_if, ◌==◌, arith, Bool-cases, inl, inr,
}
use linuxcnc_ctrl.Hal.Values.{Value}
use linuxcnc_ctrl.Hal.Registry.{ComponentValue, Item}
use linuxcnc_ctrl.Hal.Mapping.{ItemRef}
use linuxcnc_ctrl.Hal.Registry.Updates.Named.{FirstMeant}
use linuxcnc_ctrl.Hal.Registry.Schema.{accepted, bind_accepted, if_accepted, accepted_injective}
use linuxcnc_ctrl.Hal.Registry.Updates.{is_among, decode_loop, decode_values}
use linuxcnc_ctrl.Hal.Registry.Updates.Exact.{Fresh, collect, AreUpdates, decode_loop-AreUpdates}

eq_of_test : (a b : ℕ) → (a == b) ≡ true → a ≡ b
eq_of_test a b h = ground (arith, h)

is_among-collect :
    (n : ℕ) (seen places : List ℕ)
    → is_among n (collect seen places) ≡ (is_among n seen || is_among n places)
is_among-collect n seen [] = ground arith
is_among-collect n seen (p ∷ places) = ground (arith, is_among-collect n (p ∷ seen) places)

module _ {D : Type 0} where
  -- Every writable item is at one of the places; the first item is at place `k`.
  abbrev pub covers : ℕ → List (Item D) → List ℕ → Bool
  covers k [] places = true
  covers k (item ∷ items) places =
      (not item.client_writable || is_among k places) && covers (k + 1) items places

  -- A place of a writable item.
  abbrev writable_at : ℕ → ℕ → List (Item D) → Bool
  writable_at p k [] = false
  writable_at p k (item ∷ items) = (p == k && item.client_writable) || writable_at p (k + 1) items

  -- How many items are at one of the places.
  abbrev marked : ℕ → List (Item D) → List ℕ → ℕ
  marked k [] places = 0
  marked k (item ∷ items) places =
      (if is_among k places then 1 else 0) + marked (k + 1) items places

  -- All places are those of writable items.
  abbrev AllWritable : List (Item D) → List ℕ → Type 0
  AllWritable items [] = Unit
  AllWritable items (p ∷ places) = (writable_at p 0 items ≡ true) × AllWritable items places

  writable_at-low : (p k : ℕ) (items : List (Item D)) → p < k → writable_at p k items ≡ false
  writable_at-low p k [] low = refl
  writable_at-low p k (item ∷ items) low = ground (arith, low, writable_at-low p (k + 1) items)

  marked-nil : (k : ℕ) (items : List (Item D)) → marked k items [] ≡ 0
  marked-nil k [] = refl
  marked-nil k (item ∷ items) = ground (arith, marked-nil (k + 1) items)

  -- A new place below the items marks none of them.
  marked-low :
      (p k : ℕ) (items : List (Item D)) (places : List ℕ)
      → p < k
      → marked k items (p ∷ places) ≡ marked k items places
  marked-low p k [] places low = refl
  marked-low p k (item ∷ items) places low = ground (arith, low, marked-low p (k + 1) items places)

  -- A new place of a writable item marks one item more.
  marked-cons :
      (p k : ℕ) (items : List (Item D)) (places : List ℕ)
      → writable_at p k items ≡ true
      → is_among p places ≡ false
      → marked k items (p ∷ places) ≡ suc (marked k items places)
  marked-cons p k [] places there new = ground (arith, there)
  marked-cons p k (item ∷ items) places there new = elim (Bool-cases (p == k)) [
    | inl here ↦ ground (
      arith,
      here,
      subst (λ n. is_among n places ≡ false) (eq_of_test p k here) new,
      marked-low p (k + 1) items places,
    )
    | inr on ↦ ground (arith, on, there, marked-cons p (k + 1) items places)
  ]

  -- Every item at one of the places is writable.
  abbrev honest : ℕ → List (Item D) → List ℕ → Bool
  honest k [] places = true
  honest k (item ∷ items) places =
      (not (is_among k places) || item.client_writable) && honest (k + 1) items places

  honest-nil : (k : ℕ) (items : List (Item D)) → honest k items [] ≡ true
  honest-nil k [] = refl
  honest-nil k (item ∷ items) = ground (arith, honest-nil (k + 1) items)

  honest-low :
      (p k : ℕ) (items : List (Item D)) (places : List ℕ)
      → p < k
      → honest k items (p ∷ places) ≡ honest k items places
  honest-low p k [] places low = refl
  honest-low p k (item ∷ items) places low = ground (arith, low, honest-low p (k + 1) items places)

  honest-cons :
      (p k : ℕ) (items : List (Item D)) (places : List ℕ)
      → writable_at p k items ≡ true
      → honest k items places ≡ true
      → honest k items (p ∷ places) ≡ true
  honest-cons p k [] places there h = refl
  honest-cons p k (item ∷ items) places there h = elim (Bool-cases (p == k)) [
    | inl here ↦ ground (
      arith,
      here,
      there,
      h,
      eq_of_test p k here,
      writable_at-low p (k + 1) items,
      honest-low p (k + 1) items places,
    )
    | inr on ↦ ground (arith, on, there, h, honest-cons p (k + 1) items places)
  ]

  marked-le :
      (k : ℕ) (items : List (Item D)) (places : List ℕ)
      → honest k items places ≡ true
      → marked k items places ≤ count_if (λ item. item.client_writable) items
  marked-le k [] places h = omega arith
  marked-le k (item ∷ items) places h = ground (arith, h, marked-le (k + 1) items places)

  -- As many writable items are at the places as there are: then all are.
  covers-of_count :
      (k : ℕ) (items : List (Item D)) (places : List ℕ)
      → honest k items places ≡ true
      → count_if (λ item. item.client_writable) items ≤ marked k items places
      → covers k items places ≡ true
  covers-of_count k [] places h n = refl
  covers-of_count k (item ∷ items) places h n =
      ground (arith, h, n, marked-le (k + 1) items places, covers-of_count (k + 1) items places)

  covers-collect :
      (k : ℕ) (items : List (Item D)) (places : List ℕ)
      → covers k items (collect [] places) ≡ covers k items places
  covers-collect k [] places = refl
  covers-collect k (item ∷ items) places =
      ground (arith, is_among-collect k [] places, covers-collect (k + 1) items places)

  -- What is counted of the places that the loop collects.
  collect-counted :
      (items : List (Item D)) (seen places : List ℕ)
      → Fresh seen places
      → AllWritable items places
      → honest 0 items seen ≡ true
      → marked 0 items seen ≡ length seen
      → (honest 0 items (collect seen places) ≡ true)
        × (marked 0 items (collect seen places) ≡ length (collect seen places))
  collect-counted items seen [] fresh writable h n = (h, n)
  collect-counted items seen (p ∷ places) fresh writable h n =
      collect-counted items (p ∷ seen) places fresh.1 writable.1
        (honest-cons p 0 items seen writable.0 h)
        (ground (arith, n, marked-cons p 0 items seen writable.0 fresh.0))

  FirstMeant-writable :
      (prefix : String) (ref : ItemRef) (k : ℕ) (items : List (Item D)) (place : ℕ) (item : Item D)
      → FirstMeant prefix ref k items place item
      → item.client_writable ≡ true
      → writable_at place k items ≡ true
  FirstMeant-writable prefix ref k [] place item m w = absurd m
  FirstMeant-writable prefix ref k (x ∷ items) place item (inl (here, at, same)) w =
      ground (arith, at, ap (λ (i : Item D). i.client_writable) same, w)
  FirstMeant-writable prefix ref k (x ∷ items) place item (inr (other, m)) w =
      ground (arith, FirstMeant-writable prefix ref (k + 1) items place item m w)

  AreUpdates-AllWritable :
      (prefix : String) (items : List (Item D)) (values : List (ComponentValue D)) (places : List ℕ)
      (updates : List (Item D × Value D))
      → AreUpdates prefix items values places updates
      → AllWritable items places
  AreUpdates-AllWritable prefix items [] [] [] are = tt
  AreUpdates-AllWritable prefix items (v ∷ values) (p ∷ places) (u ∷ updates) are = (
    FirstMeant-writable prefix v.item 0 items p u.0 are.0.meant are.0.writable,
    AreUpdates-AllWritable prefix items values places updates are.1,
  )
  AreUpdates-AllWritable prefix items _ _ _ are = absurd are

  abbrev writable_count : List (Item D) → ℕ
  writable_count items = count_if (λ item. item.client_writable) items

  complete-covers :
      (items : List (Item D)) (places : List ℕ) (complete : Bool)
      → honest 0 items (collect [] places) ≡ true
      → marked 0 items (collect [] places) ≡ length (collect [] places)
      → (complete && not (length (collect [] places) == writable_count items)) ≡ false
      → (not complete || covers 0 items places) ≡ true
  complete-covers items places false h n test = refl
  complete-covers items places true h n test = ground (
    arith,
    h,
    n,
    test,
    covers-collect 0 items places,
    covers-of_count 0 items (collect [] places) h,
  )

  -- A message that `decode_values` accepts gives one write for each of its values, in their order, with the
  -- decoded value, which is of exactly the type of the item. It goes to the first item that has the kind
  -- of the value and its name (the own name of the item, with or without the prefix of the component and
  -- a dot in front of it), and the client may write that item. No item is written twice. If the message must be
  -- complete, as an activation must, every item that the client may write is written.
  pub decode_values-exact :
      (prefix : String) (items : List (Item D)) (values : List (ComponentValue D)) (complete : Bool)
      (updates : List (Item D × Value D))
      → decode_values prefix items values complete ≡ accepted updates
      → (places : List ℕ) × AreUpdates prefix items values places updates
        × Fresh [] places
        × ((not complete || covers 0 items places) ≡ true)
  unfolding decode_values
  decode_values-exact prefix items values complete updates h =
      let (decoded, e, h') = bind_accepted (decode_loop prefix items [] values) _ updates h in
      let (counted, h'') =
        if_accepted
          (complete && not (length decoded.0 == count_if (λ item. item.client_writable) items)) _ _
          updates h' in
      let (places, are, fresh, all) = decode_loop-AreUpdates prefix items [] values decoded e in
      let writable = AreUpdates-AllWritable prefix items values places decoded.1 are in
      let (honest', marked') =
        collect-counted items [] places fresh writable (honest-nil 0 items) (marked-nil 0 items) in
      (
        places,
        subst (λ us. AreUpdates prefix items values places us)
            (accepted_injective decoded.1 updates h'') are,
        fresh,
        complete-covers items places complete honest' marked' (
            subst (λ ns. (complete && not (length ns == writable_count items)) ≡ false) all
              counted),
      )
