-- ===== src/Hal/Telemetry/Operations.antt =====
-- The operations of HalValueTelemetry on its subscriptions, each one critical section, with what it does
-- to the hubs of the subscriptions. A function that reads the clock several times reads one `now` here.
pub mod Closing
mod Tests
use Prim.Native.String.{◌++◌ as concat}
use linuxcnc_ctrl.Prelude.{
  ℕ, ◌+◌, String, str_eq, Bool, true, false, not, ◌&&◌, ◌||◌, Option, none, some, List, [], ◌∷◌,
  ◌++◌, if◌then◌else◌, length, is_empty, is_some, ltb, leb, u64, ◌==◌, map,
}
use linuxcnc_ctrl.Hal.Telemetry.{
  ResolvedItem, Binding, Subscription, Telemetry, Wake, published, hub_closed,
  within_sampling_budget, erase_token, find_state, put_state, erase_state, expire, rebind,
  fresh_binding, u32_of,
}

abbrev find_token : String → List (String × String) → Option String
find_token token [] = none
find_token token (entry ∷ tokens) =
    if str_eq entry.0 token then some entry.1 else find_token token tokens

-- `do name = token(); while (taken);` on the draws to come: none if they run out.
pub draw : (String → Bool) → List String → Option (String × List String)
draw taken [] = none
draw taken (token ∷ draws) =
    let again = draw taken draws in if taken token then again else some (token, draws)

-- The loop of `create` over the items.
bind : List ResolvedItem → ℕ → List Binding × List (Option ℕ) × ℕ
unfolding fresh_binding
bind [] slot = ([], [], slot)
bind (i ∷ is) slot =
    let (bs, vs, last) = bind is (u32_of (slot + 1)) in (fresh_binding i slot ∷ bs, none ∷ vs, last)

open_subscription :
    Telemetry → ℕ → String → String → List ResolvedItem → ℕ → Telemetry × Subscription
unfolding bind
open_subscription t now id token items sample_period =
    let (bindings, values, next_slot) = bind items 0 in
    let state : Subscription = record {
      id = id;
      attachment_token = token;
      expires = now + t.attachment_ttl;
      next_due = now;
      sample_period = sample_period;
      revision = 1;
      sequence = 0;
      next_slot = next_slot;
      attached = false;
      sampled = false;
      bindings = bindings;
      values = values;
    } in
    (record t { states = t.states ++ state ∷ []; tokens = t.tokens ++ (token, id) ∷ [] }, state)

pub create :
    Telemetry
    → ℕ
    → List String
    → List ResolvedItem
    → ℕ
    → (Telemetry × Option Subscription) × List Wake
unfolding draw open_subscription
create t now draws items sample_period =
    if t.closed
    then ((t, none), [])
    else let (t', wakes) = expire t now in
      if leb t'.capacity (length t'.states)
        || not (within_sampling_budget t' none items sample_period)
      then ((t', none), wakes)
      else elim (draw (λ id. is_some (find_state id t'.states)) draws) [
        | none ↦ ((t', none), wakes)
        | some first ↦ elim (draw (λ token. is_some (find_token token t'.tokens)) first.1) [
          | none ↦ ((t', none), wakes)
          | some second ↦
              let (opened, state) = open_subscription t' now first.0 second.0 items sample_period in
              ((opened, some state), wakes)
        ]
      ]

rebound : Subscription → ℕ → List ResolvedItem → ℕ → Subscription
rebound s now items sample_period =
    let (bindings, values, next_slot) = rebind items s.bindings s.values s.next_slot in
    record s {
      bindings = bindings;
      values = values;
      next_slot = next_slot;
      sample_period = sample_period;
      next_due = now;
      sampled = is_empty bindings;
      revision = u64 (s.revision + 1);
      sequence = u64 (s.sequence + 1);
    }

pub update :
    Telemetry
    → ℕ
    → String
    → ℕ
    → List ResolvedItem
    → ℕ
    → (Telemetry × Option Subscription) × List Wake
unfolding rebound
update t now id expected_revision items sample_period = elim (find_state id t.states) [
  | none ↦ ((t, none), [])
  | some s ↦
      if t.closed
        || not (s.revision == expected_revision)
        || not (within_sampling_budget t (some id) items sample_period)
      then ((t, none), [])
      else let s' = rebound s now items sample_period in
        ((record t { states = put_state s' t.states }, some s'), published id s'.sequence ∷ [])
]

pub claim : Telemetry → ℕ → String → (Telemetry × Option String) × List Wake
claim t now token =
    let (t', wakes) = expire t now in
    if t'.closed then ((t', none), wakes) else elim (find_token token t'.tokens) [
      | none ↦ ((t', none), wakes)
      | some id ↦ elim (find_state id t'.states) [
        | none ↦ ((t', none), wakes)
        | some s ↦
            if s.attached
            then ((t', none), wakes)
            else let s' = record s { attached = true; next_due = now } in
              (
                (record t' { states = put_state s' t'.states }, some id),
                wakes ++ published id s.sequence ∷ [],
              )
      ]
    ]

pub detach : Telemetry → ℕ → String → Telemetry × Bool
detach t now id = elim (find_state id t.states) [
  | none ↦ (t, false)
  | some s ↦
      if not s.attached
      then (t, false)
      else let s' = record s { attached = false; expires = now + t.attachment_ttl } in
        (record t { states = put_state s' t.states }, true)
]

pub erase : Telemetry → String → (Telemetry × Bool) × List Wake
erase t id = elim (find_state id t.states) [
  | none ↦ ((t, false), [])
  | some s ↦ (
    (
      record t {
        tokens = erase_token s.attachment_token t.tokens;
        states = erase_state id t.states;
      },
      true,
    ),
    published id (u64 (s.sequence + 1)) ∷ hub_closed id ∷ [],
  )
]

pub close : Telemetry → Telemetry × List Wake
close t =
    if t.closed
    then (t, [])
    else (record t { closed = true; states = []; tokens = [] }, map (λ s. hub_closed s.id) t.states)

pub record Descriptor : Type 0 where
  pub subscription_id : String
  pub websocket_path : String
  pub revision : ℕ
  pub sample_period : ℕ
  pub bindings : List Binding

abbrev describe : Subscription → Descriptor
describe s = record {
  subscription_id = s.id;
  websocket_path = concat "/v1/hal-values/" s.attachment_token;
  revision = s.revision;
  sample_period = s.sample_period;
  bindings = s.bindings;
}

pub record Snapshot : Type 0 where
  pub sampled : Bool
  pub revision : ℕ
  pub sequence : ℕ
  pub bindings : List Binding
  pub values : List (Option ℕ)

pub descriptor : Telemetry → String → Option Descriptor
descriptor t id = elim (find_state id t.states) [ none ↦ none | some s ↦ some (describe s) ]

pub snapshot : Telemetry → String → Option Snapshot
snapshot t id = elim (find_state id t.states) [
  | none ↦ none
  | some s ↦ some (record {
    sampled = s.sampled;
    revision = s.revision;
    sequence = s.sequence;
    bindings = s.bindings;
    values = s.values;
  })
]

-- The loop of `due`.
due_states : ℕ → List Subscription → List Subscription × List Subscription
due_states now [] = ([], [])
due_states now (s ∷ ss) =
    let (rest, due) = due_states now ss in
    let s' = record s { next_due = now + s.sample_period } in
    if not s.attached || is_empty s.bindings || ltb now s.next_due
    then (s ∷ rest, due)
    else (s' ∷ rest, s' ∷ due)

pub due : Telemetry → ℕ → (Telemetry × List Subscription) × List Wake
unfolding due_states
due t now =
    let (t', wakes) = expire t now in
    let (states, samples) = due_states now t'.states in
    ((record t' { states = states }, samples), wakes)

module _ (same_value : ℕ → ℕ → Bool) where
  same_values : List (Option ℕ) → List (Option ℕ) → Bool
  same_values [] [] = true
  same_values [] (b ∷ bs) = false
  same_values (a ∷ as_) [] = false
  same_values (none ∷ as_) (none ∷ bs) = same_values as_ bs
  same_values (none ∷ as_) (some b ∷ bs) = false
  same_values (some a ∷ as_) (none ∷ bs) = false
  same_values (some a ∷ as_) (some b ∷ bs) = same_value a b && same_values as_ bs

  pub publish : Telemetry → String → ℕ → List (Option ℕ) → Telemetry × List Wake
  unfolding same_values
  publish t id revision values = elim (find_state id t.states) [
    | none ↦ (t, [])
    | some s ↦
        if not (s.revision == revision)
          || not (length s.values == length values)
          || s.sampled && same_values s.values values
        then (t, [])
        else let s' = record s {
          values = values;
          sampled = true;
          sequence = u64 (s.sequence + 1);
        } in
          (record t { states = put_state s' t.states }, published id s'.sequence ∷ [])
  ]
