-- ===== src/Hal/Registry/Create/Changes.antt =====
-- What a message may do to the proxies, as a machine: the phases of a proxy, its moves, and the changes
-- of the map. `create` makes one of the changes.
use linuxcnc_ctrl.Prelude.{
  ℕ, ℤ, ◌+◌, ◌≡◌, refl, String, str_eq, Bool, true, false, not, ◌||◌, Option, none, some, List, [],
  ◌∷◌, ◌++◌, if◌then◌else◌, if_holds, is_some, length, ltb, u64, Option-cases, inl, inr, arith, ◌-◌,
  subst,
}
use linuxcnc_ctrl.Hal.Components.{
  HalComponents, returned, adapter_error, exception, unknown_exception,
}
use linuxcnc_ctrl.Hal.Registry.{
  Status, ok, error, CreateRequest, Attached, ServerMessage, attached, active, update_ack,
  heartbeat_ack, closed, Result, Call, Config, Item, Proxy, Registry, find_proxy, put_proxy,
  erase_proxy,
}
use linuxcnc_ctrl.Hal.Registry.Schema.{Definition, checked_holds, check_schema}
use linuxcnc_ctrl.Hal.Registry.Fill.{Try, open_and_fill}
use linuxcnc_ctrl.Hal.Registry.Create.{
  hal_error, encode_snapshot, new_proxy, give_back, settle, unused_id, make, admit, create,
  is_named,
}

-- What is_ok says of a ::grpc::Status.
abbrev pub is_ok : Status → Bool
is_ok ok = true
is_ok (error code message) = false

pub record Phase : Type 0 where
  pub generation : ℕ
  pub sequence : ℕ
  pub is_attached : Bool
  pub is_active : Bool

abbrev pub phase : {C D : Type 0} → Proxy C D → Phase
phase p = record {
  generation = p.generation;
  sequence = p.client_sequence;
  is_attached = p.is_attached;
  is_active = p.is_active;
}

-- The moves of a proxy, each with its answer. Only an attached proxy moves, but for the attachment.
pub data Move {D : Type 0} : Phase → ServerMessage D → Phase → Type 0 where
  attaches :
      (x : Phase) (a : Attached D)
      → x.is_attached ≡ false
      → a.generation ≡ u64 (x.generation + 1)
      → Move x (attached a) (record {
        generation = u64 (x.generation + 1);
        sequence = 0;
        is_attached = true;
        is_active = false;
      })
  activates :
      (x : Phase)
      → x.is_attached ≡ true
      → x.is_active ≡ false
      → Move x (active x.generation) (record x { is_active = true })
  updates :
      (x : Phase)
      → x.is_attached ≡ true
      → x.is_active ≡ true
      → Move x
          (update_ack x.generation (u64 (x.sequence + 1)))
          (record x { sequence = u64 (x.sequence + 1) })
  beats : (x : Phase) → x.is_attached ≡ true → Move x (heartbeat_ack x.generation) x
  leaves :
      (x : Phase) (id : String)
      → x.is_attached ≡ true
      → Move x (closed id 1) (record x { is_attached = false; is_active = false })

-- The changes of the map that a message can make, with the result it gets.
pub data Change {H C D : Type 0} (r : Registry H C D) (r' : Registry H C D) (result : Result D)
    : Type 0 where
  refuses :
      is_ok result.status ≡ false
      → result.response ≡ none
      → r'.proxies ≡ r.proxies
      → Change r r' result
  creates :
      (p : Proxy C D) (a : Attached D)
      → result.status ≡ ok
      → result.response ≡ some (attached a)
      → result.proxy_id ≡ p.id
      → find_proxy p.id r.proxies ≡ none
      → phase p ≡ record { generation = 1; sequence = 0; is_attached = true; is_active = false }
      → r'.proxies ≡ r.proxies ++ p ∷ []
      → Change r r' result
  moves :
      (q p : Proxy C D) (m : ServerMessage D)
      → result.status ≡ ok
      → result.response ≡ some m
      → result.proxy_id ≡ p.id
      → find_proxy p.id r.proxies ≡ some q
      → Move (phase q) m (phase p)
      → r'.proxies ≡ put_proxy p r.proxies
      → Change r r' result
  removes :
      (q : Proxy C D)
      → result.status ≡ ok
      → result.response ≡ some (closed q.id 2)
      → result.proxy_id ≡ q.id
      → find_proxy q.id r.proxies ≡ some q
      → q.is_attached ≡ true
      → r'.proxies ≡ erase_proxy q.id r.proxies
      → Change r r' result

module _ {D : Type 0} (h : HalComponents D) where
  open h use {Hal, Component}

  abbrev pub Changes :
      Registry Hal Component D → Registry Hal Component D × Result D × List (Call D) → Type 0
  Changes r d = Change r d.0 d.1

  -- The counter and HAL do not matter.
  recount-Changes :
      (r : Registry Hal Component D) (count : ℕ)
      (d : Registry Hal Component D × Result D × List (Call D))
      → Changes (record r { retained_item_count = count }) d
      → Changes r d
  recount-Changes r count d (refuses e response same) = refuses e response same
  recount-Changes r count d (creates p a e response id new begins after) =
      creates p a e response id new begins after
  recount-Changes r count d (moves q p m e response id found move after) =
      moves q p m e response id found move after
  recount-Changes r count d (removes q e response id found there after) =
      removes q e response id found there after

  drawn :
      (o : Option (Proxy Component D)) (again : Option String) (d id : String)
      → o ≡ none
      → (if is_some o then again else some d) ≡ some id
      → d ≡ id
  drawn none again d id new e = ground (arith, e)
  drawn (some p) again d id new e = ground (arith, new)

  hal_error-refused : (message : String) (code : ℤ) → is_ok (hal_error message code) ≡ false
  hal_error-refused message code = ground arith

  unused_id-new :
      (proxies : List (Proxy Component D)) (draws : List String) (id : String)
      → unused_id h proxies draws ≡ some id
      → find_proxy id proxies ≡ none
  unfolding unused_id
  unused_id-new proxies [] id e = ground (arith, e)
  unused_id-new proxies (d ∷ draws) id e = elim (Option-cases (find_proxy d proxies)) [
    | inl new ↦
        subst (λ i. find_proxy i proxies ≡ none)
          (drawn (find_proxy d proxies) (unused_id h proxies draws) d id new e) new
    | inr (p, taken) ↦ ground (arith, e, taken, unused_id-new proxies draws id)
  ]

  settle-Changes :
      (config : Config) (now : ℕ) (request : CreateRequest D) (stream : ℕ) (id : String)
      (token : List ℕ) (r : Registry Hal Component D) (count : ℕ)
      (t : Try h (Component × List (Item D)))
      → find_proxy id r.proxies ≡ none
      → Changes r (settle h config now request stream id token r count t)
  unfolding settle give_back new_proxy encode_snapshot
  settle-Changes config now request stream id token r count (hal, adapter_error message code) new =
      refuses (hal_error-refused message code) refl refl
  settle-Changes config now request stream id token r count (hal, exception message) new =
      refuses refl refl refl
  settle-Changes config now request stream id token r count (hal, unknown_exception) new =
      refuses refl refl refl
  settle-Changes config now request stream id token r count (hal, returned opened) new =
      creates _ _ refl refl refl new refl refl

  thrown-Changes :
      (config : Config) (now : ℕ) (request : CreateRequest D) (stream : ℕ) (token : List ℕ)
      (r : Registry Hal Component D) (count : ℕ) (message : String)
      → Changes r (settle h config now request stream "" token r count (r.hal, exception message))
  unfolding settle give_back
  thrown-Changes config now request stream token r count message = refuses refl refl refl

  make-Changes :
      (config : Config) (now : ℕ) (draws : List String) (token : List ℕ) (request : CreateRequest D)
      (stream : ℕ) (prefix : String) (definitions : List (Definition D))
      (r : Registry Hal Component D) (count : ℕ)
      → Changes r (make h config now draws token request stream prefix definitions r count)
  unfolding make
  make-Changes config now draws token request stream prefix definitions r count =
      elim (Option-cases (unused_id h r.proxies draws)) [
        | inl none_left ↦
            rw (none_left, make)
              (thrown-Changes config now request stream token r count "random_device")
        | inr (id, e) ↦
            rw (e, make)
              (settle-Changes config now request stream id token r count
                (open_and_fill h r.hal request.name prefix definitions)
                (unused_id-new r.proxies draws id e))
      ]

  admit-Changes :
      (config : Config) (now : ℕ) (draws : List String) (token : List ℕ) (admitted : Bool)
      (request : CreateRequest D) (stream : ℕ) (prefix : String) (r : Registry Hal Component D)
      (definitions : List (Definition D))
      → Changes r (admit h config now draws token admitted request stream prefix r definitions)
  unfolding admit
  admit-Changes config now draws token admitted request stream prefix r definitions =
      let count = length definitions + 1 in
      let reserved = u64 (r.retained_item_count + count) in
      if_holds (Changes r)
        (ltb config.max_items count
          || ltb (config.max_items - count) r.retained_item_count
          || not admitted)
        _ _ (refuses refl refl refl)
        (recount-Changes r reserved
          (make h config now draws token request stream prefix definitions
            (record r { retained_item_count = reserved }) count)
          (make-Changes config now draws token request stream prefix definitions
            (record r { retained_item_count = reserved }) count))

  pub create-Changes :
      (config : Config) (now : ℕ) (draws : List String) (token : List ℕ) (admitted : Bool)
      (r : Registry Hal Component D) (request : CreateRequest D) (stream : ℕ)
      → Changes r (create h config now draws token admitted r request stream)
  unfolding create
  create-Changes config now draws token admitted r request stream =
      let prefix = if str_eq request.prefix "" then request.name else request.prefix in
      if_holds (Changes r) (str_eq request.name "" || str_eq prefix "") _ _ (refuses refl refl refl)
        (if_holds (Changes r) (is_named h request.name r.proxies) _ _ (refuses refl refl refl) (
          checked_holds (Changes r) (check_schema request) _ _ (λ message. refuses refl refl refl)
            λ definitions.
              admit-Changes config now draws token admitted request stream prefix r definitions))
