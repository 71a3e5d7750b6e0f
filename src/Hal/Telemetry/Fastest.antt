-- ===== src/Hal/Telemetry/Fastest.antt =====
-- The map of the budget check: each item once, at the fastest period that anyone asks for.
use linuxcnc_ctrl.Prelude.{
  ℕ, ◌≡◌, refl, sym, ap, ◌∙◌, subst, String, str_eq, eq_iff, true, false, Option, none, some, List,
  [], ◌∷◌, ◌++◌, if◌then◌else◌, ltb, arith, Bool-cases, Option-cases, inl, inr, if_holds,
}
use linuxcnc_ctrl.Hal.Telemetry.{
  Binding, ResolvedItem, Subscription, Telemetry, key, period_at, set_period, include_key, include,
  bound_items, resolved_items, include_states, fastest_of,
}

-- The smaller of two periods, if there are any.
abbrev pub faster : Option ℕ → Option ℕ → Option ℕ
faster none o = o
faster (some a) none = some a
faster (some a) (some b) = some (if ltb b a then b else a)

-- What is asked for: a key and a period for each binding and for each new item.
abbrev pub requests_of_bindings : List Binding → ℕ → List (String × ℕ)
requests_of_bindings [] period = []
requests_of_bindings (b ∷ bs) period = (key b.item, period) ∷ requests_of_bindings bs period

abbrev pub requests_of_items : List ResolvedItem → ℕ → List (String × ℕ)
requests_of_items [] period = []
requests_of_items (i ∷ is) period = (key i.item, period) ∷ requests_of_items is period

-- A subscription that is being replaced asks for nothing.
abbrev pub requests_of_state : Option String → Subscription → List (String × ℕ)
requests_of_state none s = requests_of_bindings s.bindings s.sample_period
requests_of_state (some id) s =
    if str_eq s.id id then [] else requests_of_bindings s.bindings s.sample_period

abbrev pub requests_of_states : Option String → List Subscription → List (String × ℕ)
requests_of_states replacing [] = []
requests_of_states replacing (s ∷ ss) =
    requests_of_state replacing s ++ requests_of_states replacing ss

abbrev pub requests : Telemetry → Option String → List ResolvedItem → ℕ → List (String × ℕ)
requests t replacing items sample_period =
    requests_of_states replacing t.states ++ requests_of_items items sample_period

-- The fastest period that is asked for a key.
abbrev pub fastest_request : String → List (String × ℕ) → Option ℕ
fastest_request k [] = none
fastest_request k (r ∷ rs) =
    if str_eq r.0 k then faster (some r.1) (fastest_request k rs) else fastest_request k rs

-- No key is twice in the map.
abbrev pub Distinct : List (String × ℕ) → Type 0
Distinct [] = Unit
Distinct (entry ∷ fastest) = (period_at entry.0 fastest ≡ none) × Distinct fastest

str_eq_refl : (a : String) → str_eq a a ≡ true
str_eq_refl a = (eq_iff a a).1 refl

str_eq_trans : (a b c : String) → str_eq a b ≡ true → str_eq a c ≡ str_eq b c
str_eq_trans a b c h = ap (λ s. str_eq s c) ((eq_iff a b).0 h)

str_eq_differ : (a b c : String) → str_eq a b ≡ false → str_eq a c ≡ true → str_eq b c ≡ false
str_eq_differ a b c h k = elim (Bool-cases (str_eq b c)) [
  | inl same ↦
      absurd (ground (arith, h, (eq_iff a b).1 ((eq_iff a c).0 k ∙ sym ((eq_iff b c).0 same))))
  | inr differ ↦ differ
]

period_at-set_period :
    (k j : String) (p : ℕ) (m : List (String × ℕ))
    → period_at j (set_period k p m) ≡ (if str_eq k j then some p else period_at j m)
period_at-set_period k j p [] = refl
period_at-set_period k j p (e ∷ m) = elim (Bool-cases (str_eq e.0 k)) [
  | inl same ↦ rw (same, str_eq_trans e.0 k j same) (ground arith)
  | inr differ ↦ elim (Bool-cases (str_eq e.0 j)) [
    | inl here ↦ rw (differ, here, str_eq_differ e.0 k j differ here) refl
    | inr on ↦ rw (differ, on) (period_at-set_period k j p m)
  ]
]

-- What `include` does for one key, seen at any key.
period_at-include_key :
    (k j : String) (p : ℕ) (m : List (String × ℕ))
    → period_at j (include_key k p m)
      ≡ (if str_eq k j then faster (period_at j m) (some p) else period_at j m)
unfolding include_key
period_at-include_key k j p m = elim (Bool-cases (str_eq k j)) [
  | inl same ↦
      let at_k = ap (λ s. period_at s m) ((eq_iff k j).0 same) in
      elim (Option-cases (period_at k m)) [
        | inl e ↦ ground (arith, e, same, at_k, period_at-set_period k j p m)
        | inr (found, e) ↦ elim (Bool-cases (ltb p found)) [
          | inl less ↦ ground (arith, e, less, same, at_k, period_at-set_period k j p m)
          | inr more ↦ ground (arith, e, more, same, at_k)
        ]
      ]
  | inr differ ↦ elim (Option-cases (period_at k m)) [
    | inl e ↦ ground (arith, e, differ, period_at-set_period k j p m)
    | inr (found, e) ↦ ground (arith, e, differ, period_at-set_period k j p m)
  ]
]

set_period-Distinct :
    (k : String) (p : ℕ) (m : List (String × ℕ)) → Distinct m → Distinct (set_period k p m)
set_period-Distinct k p [] d = (refl, tt)
set_period-Distinct k p (e ∷ m) d = elim (Bool-cases (str_eq e.0 k)) [
  | inl same ↦ rw same (subst (λ s. period_at s m ≡ none) ((eq_iff e.0 k).0 same) d.0, d.1)
  | inr differ ↦ rw differ (
    ground (
      arith,
      d.0,
      period_at-set_period k e.0 p m,
      str_eq_differ e.0 k e.0 differ (str_eq_refl e.0),
    ),
    set_period-Distinct k p m d.1,
  )
]

include_key-Distinct :
    (k : String) (p : ℕ) (m : List (String × ℕ)) → Distinct m → Distinct (include_key k p m)
unfolding include_key
include_key-Distinct k p m d = elim (Option-cases (period_at k m)) [
  | inl e ↦ rw (e, include_key) (set_period-Distinct k p m d)
  | inr (found, e) ↦
      rw (e, include_key) (if_holds Distinct (ltb p found) _ _ (set_period-Distinct k p m d) d)
]

-- A map that was `m` before the requests.
record Reflects (rs m after : List (String × ℕ)) : Type 0 where
  fastest : (j : String) → period_at j after ≡ faster (period_at j m) (fastest_request j rs)
  distinct : Distinct m → Distinct after

faster-none : (o : Option ℕ) → faster o none ≡ o
faster-none none = refl
faster-none (some a) = refl

faster_assoc : (x y z : Option ℕ) → faster (faster x y) z ≡ faster x (faster y z)
faster_assoc none y z = refl
faster_assoc (some a) none z = refl
faster_assoc (some a) (some b) none = refl
faster_assoc (some a) (some b) (some c) = ground arith

Reflects-nil : (m : List (String × ℕ)) → Reflects [] m m
Reflects-nil m = record { fastest = λ j. sym (faster-none (period_at j m)); distinct = λ d. d }

Reflects-cons :
    (k : String) (p : ℕ) (rs m after : List (String × ℕ))
    → Reflects rs (include_key k p m) after
    → Reflects ((k, p) ∷ rs) m after
Reflects-cons k p rs m after f = record {
  fastest = λ j.
      f.fastest j
      ∙ ap (λ o. faster o (fastest_request j rs)) (period_at-include_key k j p m)
      ∙ elim (Bool-cases (str_eq k j)) [
        | inl same ↦ rw same (faster_assoc (period_at j m) (some p) (fastest_request j rs))
        | inr differ ↦ rw differ refl
      ];
  distinct = λ d. f.distinct (include_key-Distinct k p m d);
}

fastest_request-append :
    (j : String) (rs qs : List (String × ℕ))
    → fastest_request j (rs ++ qs) ≡ faster (fastest_request j rs) (fastest_request j qs)
fastest_request-append j [] qs = refl
fastest_request-append j (r ∷ rs) qs = elim (Bool-cases (str_eq r.0 j)) [
  | inl same ↦
      rw (same, fastest_request-append j rs qs)
        (sym (faster_assoc (some r.1) (fastest_request j rs) (fastest_request j qs)))
  | inr differ ↦ rw differ (fastest_request-append j rs qs)
]

Reflects-append :
    (rs qs m between after : List (String × ℕ))
    → Reflects rs m between
    → Reflects qs between after
    → Reflects (rs ++ qs) m after
Reflects-append rs qs m between after f g = record {
  fastest = λ j.
      g.fastest j
      ∙ ap (λ o. faster o (fastest_request j qs)) (f.fastest j)
      ∙ faster_assoc (period_at j m) (fastest_request j rs) (fastest_request j qs)
      ∙ ap (faster (period_at j m)) (sym (fastest_request-append j rs qs));
  distinct = λ d. g.distinct (f.distinct d);
}

bindings-Reflects :
    (bs : List Binding) (p : ℕ) (m : List (String × ℕ))
    → Reflects (requests_of_bindings bs p) m (include (bound_items bs) p m)
unfolding include
bindings-Reflects [] p m = Reflects-nil m
bindings-Reflects (b ∷ bs) p m =
    Reflects-cons (key b.item) p (requests_of_bindings bs p) m _
      (bindings-Reflects bs p (include_key (key b.item) p m))

items-Reflects :
    (is : List ResolvedItem) (p : ℕ) (m : List (String × ℕ))
    → Reflects (requests_of_items is p) m (include (resolved_items is) p m)
unfolding include
items-Reflects [] p m = Reflects-nil m
items-Reflects (i ∷ is) p m =
    Reflects-cons (key i.item) p (requests_of_items is p) m _
      (items-Reflects is p (include_key (key i.item) p m))

states-Reflects :
    (replacing : Option String) (ss : List Subscription) (m : List (String × ℕ))
    → Reflects (requests_of_states replacing ss) m (include_states replacing ss m)
unfolding include_states
states-Reflects replacing [] m = Reflects-nil m
states-Reflects none (s ∷ ss) m =
    Reflects-append (requests_of_bindings s.bindings s.sample_period) (requests_of_states none ss) m
      _ _ (bindings-Reflects s.bindings s.sample_period m)
      (states-Reflects none ss (include (bound_items s.bindings) s.sample_period m))
states-Reflects (some id) (s ∷ ss) m = elim (Bool-cases (str_eq s.id id)) [
  | inl replaced ↦ rw replaced (states-Reflects (some id) ss m)
  | inr kept ↦ rw kept (
      Reflects-append (requests_of_bindings s.bindings s.sample_period)
        (requests_of_states (some id) ss) m _ _ (bindings-Reflects s.bindings s.sample_period m)
        (states-Reflects (some id) ss (include (bound_items s.bindings) s.sample_period m)))
]

fastest_of-Reflects :
    (t : Telemetry) (replacing : Option String) (items : List ResolvedItem) (sample_period : ℕ)
    → Reflects
        (requests t replacing items sample_period)
        []
        (fastest_of t replacing items sample_period)
unfolding fastest_of
fastest_of-Reflects t replacing items sample_period =
    Reflects-append (requests_of_states replacing t.states) (requests_of_items items sample_period)
      [] _ _ (states-Reflects replacing t.states [])
      (items-Reflects items sample_period (include_states replacing t.states []))

-- The map has each key once, with the fastest period that is asked for it, and no other key.
pub fastest_of-requests :
    (t : Telemetry) (replacing : Option String) (items : List ResolvedItem) (sample_period : ℕ)
    (k : String)
    → let fastest = fastest_of t replacing items sample_period in
      (period_at k fastest ≡ fastest_request k (requests t replacing items sample_period))
      × Distinct fastest
fastest_of-requests t replacing items sample_period k =
    let f = fastest_of-Reflects t replacing items sample_period in (f.fastest k, f.distinct tt)
