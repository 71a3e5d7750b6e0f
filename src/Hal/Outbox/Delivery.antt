-- ===== src/Hal/Outbox/Delivery.antt =====
-- What a client knows after it has read the stream of an outbox.
use mathlib.Core.List.{append_assoc}
use linuxcnc_ctrl.Prelude.{
  ℕ, ◌≡◌, refl, sym, ap, ◌∙◌, subst, Option, List, [], ◌∷◌, ◌++◌, All, All-append, arith,
}
use linuxcnc_ctrl.Hal.Outbox.{
  Item, Delta, Message, delta, other, Entry, Outbox, empty_outbox, merge_delta, merge_back,
  append_delta, push_response, push_delta, pop_front, Step, responds, sends, pops, step, run,
  taken_from,
}
use linuxcnc_ctrl.Hal.Outbox.Merge.{
  value_after, Distinct, merge_values-after, merge_values-Distinct,
}

-- What a client knows of one item: its last value, the marks of the last delta, and the messages of
-- other kinds that it has read, in order.
pub record Client : Type 0 where
  pub value : Option ℕ
  pub sequence : ℕ
  pub generation : ℕ
  pub others : List ℕ

abbrev pub read : Item → Client → Message → Client
read k c (delta d) = record c {
  value = value_after k c.value d.values;
  sequence = d.sequence;
  generation = d.generation;
}
read k c (other n) = record c { others = c.others ++ n ∷ [] }

abbrev pub read_all : Item → Client → List Entry → Client
read_all k c [] = c
read_all k c (e ∷ es) = read_all k (read k c e.message) es

abbrev pub IsSetOf : Message → Type 0
IsSetOf (delta d) = Distinct d.values
IsSetOf (other n) = Unit

merge_back-read :
    (k : Item) (d : Delta) (back : Entry) (m : Message) (c : Client)
    → back.message ≡ m
    → IsSetOf m
    → read_all k c (merge_back d back m) ≡ read k (read k c m) (delta d)
unfolding merge_back merge_delta
merge_back-read k d back (delta target) c e h =
    ap (λ x. record c { value = x; sequence = d.sequence; generation = d.generation })
      (merge_values-after k c.value d.values target.values h)
merge_back-read k d back (other n) c e h = ap (λ m. read k (read k c m) (delta d)) e

merge_back-IsSetOf :
    (d : Delta) (back : Entry) (m : Message)
    → Distinct d.values
    → back.message ≡ m
    → IsSetOf m
    → All (λ e. IsSetOf e.message) (merge_back d back m)
unfolding merge_back merge_delta
merge_back-IsSetOf d back (delta target) v e h =
    (merge_values-Distinct d.values target.values h, tt)
merge_back-IsSetOf d back (other n) v e h = (subst IsSetOf (sym e) tt, (v, tt))

-- The client reads a delta and what was merged into it as if they had come one after the other.
append_delta-read :
    (k : Item) (d : Delta) (es : List Entry) (c : Client)
    → All (λ e. IsSetOf e.message) es
    → read_all k c (append_delta d es) ≡ read k (read_all k c es) (delta d)
unfolding append_delta
append_delta-read k d [] c h = refl
append_delta-read k d (back ∷ []) c h = merge_back-read k d back back.message c refl h.0
append_delta-read k d (e ∷ f ∷ es) c h = append_delta-read k d (f ∷ es) (read k c e.message) h.1

read_all-append :
    (k : Item) (es fs : List Entry) (c : Client)
    → read_all k c (es ++ fs) ≡ read_all k (read_all k c es) fs
read_all-append k [] fs c = refl
read_all-append k (e ∷ es) fs c = read_all-append k es fs (read k c e.message)

append_delta-IsSetOf :
    (d : Delta) (es : List Entry)
    → Distinct d.values
    → All (λ e. IsSetOf e.message) es
    → All (λ e. IsSetOf e.message) (append_delta d es)
unfolding append_delta
append_delta-IsSetOf d [] v h = (v, tt)
append_delta-IsSetOf d (back ∷ []) v h = merge_back-IsSetOf d back back.message v refl h.0
append_delta-IsSetOf d (e ∷ f ∷ es) v h = (h.0, append_delta-IsSetOf d (f ∷ es) v h.1)

-- The messages that were pushed, merged by nobody.
abbrev pub pushed : List Step → List Message
pushed [] = []
pushed (responds m ∷ ss) = m ∷ pushed ss
pushed (sends m ∷ ss) = m ∷ pushed ss
pushed (pops ∷ ss) = pushed ss

abbrev pub read_messages : Item → Client → List Message → Client
read_messages k c [] = c
read_messages k c (m ∷ ms) = read_messages k (read k c m) ms

abbrev pub AreSets : Outbox → Type 0
AreSets o = All (λ e. IsSetOf e.message) o.entries

abbrev IsPushed : Step → Type 0
IsPushed s = All IsSetOf (pushed (s ∷ []))

pop_front-splits :
    (o : Outbox) (es : List Entry)
    → o.entries ≡ es
    → AreSets o
    → AreSets (taken_from o (pop_front o)).0
      × ((taken_from o (pop_front o)).1 ++ (taken_from o (pop_front o)).0.entries ≡ o.entries)
unfolding pop_front
pop_front-splits o [] e h = ground (arith, e, h)
pop_front-splits o (x ∷ xs) e h = ground (arith, e, subst (All (λ e. IsSetOf e.message)) e h)

step-IsSetOf : (o : Outbox) (s : Step) → AreSets o → IsPushed s → AreSets (step o s).0
unfolding step push_response push_delta pop_front
step-IsSetOf o (responds m) h v = All-append _ o.entries _ h (v.0, tt)
step-IsSetOf o (sends (other n)) h v = All-append _ o.entries _ h (tt, tt)
step-IsSetOf o (sends (delta d)) h v = append_delta-IsSetOf d o.entries v.0 h
step-IsSetOf o pops h v = (pop_front-splits o o.entries refl h).0

step-read :
    (k : Item) (c : Client) (o : Outbox) (s : Step)
    → AreSets o
    → IsPushed s
    → read_all k c ((step o s).1 ++ (step o s).0.entries)
      ≡ read_messages k (read_all k c o.entries) (pushed (s ∷ []))
unfolding step push_response push_delta pop_front
step-read k c o (responds m) h v = read_all-append k o.entries _ c
step-read k c o (sends (other n)) h v = read_all-append k o.entries _ c
step-read k c o (sends (delta d)) h v = append_delta-read k d o.entries c h
step-read k c o pops h v = ap (read_all k c) (pop_front-splits o o.entries refl h).1

read_pushed :
    (k : Item) (c : Client) (s : Step) (ss : List Step)
    → read_messages k (read_messages k c (pushed (s ∷ []))) (pushed ss)
      ≡ read_messages k c (pushed (s ∷ ss))
read_pushed k c (responds m) ss = refl
read_pushed k c (sends m) ss = refl
read_pushed k c pops ss = refl

pushed-All :
    (s : Step) (ss : List Step)
    → All IsSetOf (pushed (s ∷ ss))
    → IsPushed s × All IsSetOf (pushed ss)
pushed-All (responds m) ss h = ((h.0, tt), h.1)
pushed-All (sends m) ss h = ((h.0, tt), h.1)
pushed-All pops ss h = (tt, h)

run-read :
    (k : Item) (o : Outbox) (ss : List Step) (c : Client)
    → AreSets o
    → All IsSetOf (pushed ss)
    → read_all k c ((run o ss).1 ++ (run o ss).0.entries)
      ≡ read_messages k (read_all k c o.entries) (pushed ss)
unfolding run
run-read k o [] c h v = refl
run-read k o (s ∷ ss) c h v =
    let (here, later) = pushed-All s ss v in
    let o' = (step o s).0 in
    let sent = (step o s).1 in
    ap (read_all k c) (append_assoc sent (run o' ss).1 (run o' ss).0.entries)
    ∙ read_all-append k sent ((run o' ss).1 ++ (run o' ss).0.entries) c
    ∙ run-read k o' ss (read_all k c sent) (step-IsSetOf o s h here) later
    ∙ ap (λ x. read_messages k x (pushed ss))
        (sym (read_all-append k sent o'.entries c) ∙ step-read k c o s h here)
    ∙ read_pushed k (read_all k c o.entries) s ss

-- Coalescing is invisible in the end. If no delta that is pushed names an item twice, then after any
-- history of a new outbox, a client that reads what was handed to the stream and then what still waits
-- knows exactly what it would know from reading every pushed message by itself: the last value of each
-- item, the sequence and the generation of the last delta, and all other messages in their order.
pub run-delivers :
    (k : Item) (ss : List Step) (c : Client)
    → All IsSetOf (pushed ss)
    → read_all k c ((run empty_outbox ss).1 ++ (run empty_outbox ss).0.entries)
      ≡ read_messages k c (pushed ss)
unfolding empty_outbox
run-delivers k ss c v = run-read k empty_outbox ss c tt v
