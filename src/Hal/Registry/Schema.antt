-- ===== src/Hal/Registry/Schema.antt =====
-- The checks of `create` on the schema of a component, before anything is made of it.
use linuxcnc_ctrl.Prelude.{
  ◌≡◌, ◌≢◌, arith, refl, subst, ℕ, String, str_eq, Bool, true, false, ◌||◌, Option, none, some,
  List, [], ◌∷◌, if◌then◌else◌, ltb, ◌++◌, ◌==◌,
}
use linuxcnc_ctrl.Hal.Values.{HalType, Value, same_type}
use linuxcnc_ctrl.Hal.Mapping.{Scalar, decode_hal_scalar}
use linuxcnc_ctrl.Hal.Registry.{ItemSchema, CreateRequest, online_pin}

pub record Definition (D : Type 0) : Type 0 where
  pub name : String
  pub kind : ℕ
  pub type : HalType
  pub direction : ℕ
  pub disconnect : Option (Value D)

-- A check goes on, or sets the status to `invalid` of a message and returns.
pub data Checked (A : Type 0) : Type 0 where
  accepted : A → Checked A
  refused : String → Checked A

infixl 5 ◌>>=◌
abbrev pub ◌>>=◌ : {A B : Type 0} → Checked A → (A → Checked B) → Checked B
accepted a >>= f = f a
refused message >>= f = refused message

pub checked_holds {κ} :
    {A B : Type 0} (P : B → Type κ) (c : Checked A) (f : String → B) (g : A → B)
    → ((message : String) → P (f message))
    → ((a : A) → P (g a))
    → P (elim c [ refused message ↦ f message | accepted a ↦ g a ])
checked_holds P (refused message) f g p q = p message
checked_holds P (accepted a) f g p q = q a

-- A check that is refused accepts nothing.
pub refused-ne_accepted : {A : Type 0} (message : String) (a : A) → refused message ≢ accepted a
refused-ne_accepted message a h = ground (arith, h)

pub accepted_injective : {A : Type 0} (a b : A) → accepted a ≡ accepted b → a ≡ b
accepted_injective a b h = ground (arith, h)

pub bind_accepted :
    {A B : Type 0} (c : Checked A) (f : A → Checked B) (b : B)
    → (c >>= f) ≡ accepted b
    → (a : A) × (c ≡ accepted a) × (f a ≡ accepted b)
bind_accepted (accepted a) f b h = (a, refl, h)
bind_accepted (refused message) f b h = absurd (refused-ne_accepted message b h)

pub if_accepted :
    {A : Type 0} (test : Bool) (message : String) (c : Checked A) (a : A)
    → (if test then refused message else c) ≡ accepted a
    → (test ≡ false) × (c ≡ accepted a)
if_accepted true message c a h = absurd (refused-ne_accepted message a h)
if_accepted false message c a h = (refl, h)

pub option_accepted :
    {A B : Type 0} (o : Option A) (message : String) (f : A → B) (b : B)
    → (elim o [ none ↦ refused message | some a ↦ accepted (f a) ]) ≡ accepted b
    → (a : A) × (o ≡ some a) × (f a ≡ b)
option_accepted none message f b h = absurd (refused-ne_accepted message b h)
option_accepted (some a) message f b h = (a, refl, ground (arith, h))

if_some :
    {A : Type 0} (test : Bool) (a b : A)
    → (if test then some a else none) ≡ some b
    → (test ≡ true) × (a ≡ b)
if_some true a b h = (refl, ground (arith, h))
if_some false a b h = ground (arith, h)

abbrev pub decode_hal_type : ℕ → Option HalType
decode_hal_type type =
    if type == 1
    then some HalType.bit
    else if type == 2
    then some HalType.float
    else if type == 3
    then some HalType.s32
    else if type == 4
    then some HalType.u32
    else if type == 5
    then some HalType.s64
    else if type == 6
    then some HalType.u64
    else none

abbrev pub is_among : String → List String → Bool
is_among name [] = false
is_among name (n ∷ names) = str_eq n name || is_among name names

module _ {D : Type 0} where
  unfoldable pub of_type : HalType → Option (Value D) → Option (Value D)
  of_type type none = none
  of_type type (some value) = if same_type type value then some value else none

  unfoldable pub typed_value : HalType → Scalar D → Option (Value D)
  unfolding of_type
  typed_value type scalar = of_type type (decode_hal_scalar scalar)

  -- The disconnect value of an item that may have one.
  check_disconnect : HalType → Bool → String → Option (Scalar D) → Checked (Option (Value D))
  check_disconnect type allowed message none = accepted none
  check_disconnect type allowed message (some scalar) = elim (typed_value type scalar) [
    | none ↦ refused message
    | some value ↦ if allowed then accepted (some value) else refused message
  ]

  -- Any item of the schema: its kind, the largest direction, and what is said of it when it is refused.
  check_item :
      ℕ → ℕ → String → String → (ℕ → Bool) → List String → ItemSchema D → Checked (Definition D)
  unfolding check_disconnect
  check_item kind last message disconnect_message may_disconnect names item =
      elim (decode_hal_type item.type) [
        | none ↦ refused message
        | some type ↦
            if str_eq item.name ""
              || is_among item.name names
              || ltb item.direction 1
              || ltb last item.direction
            then refused message
            else do
              disconnect ←
                  check_disconnect type (may_disconnect item.direction) disconnect_message
                    item.disconnect_value
              accepted (record {
                name = item.name;
                kind = kind;
                type = type;
                direction = item.direction;
                disconnect = disconnect;
              })
      ]

  check_pin : List String → ItemSchema D → Checked (Definition D)
  unfolding check_item
  check_pin =
      check_item 1 3 "component pin schema is invalid or uses a reserved/duplicate name"
        "component pin disconnect value is not allowed or has the wrong type"
        (λ direction. direction == 2 || direction == 3)

  check_parameter : List String → ItemSchema D → Checked (Definition D)
  unfolding check_item
  check_parameter =
      check_item 2 2 "component parameter schema is invalid or uses a reserved/duplicate name"
        "component parameter disconnect value has the wrong type" (λ direction. true)

  -- The loops over the pins and over the parameters: the definitions, and all names in use.
  check_items :
      (List String → ItemSchema D → Checked (Definition D))
      → List String
      → List (ItemSchema D)
      → Checked (List (Definition D) × List String)
  check_items check names [] = accepted ([], names)
  check_items check names (item ∷ items) = do
    definition ← check names item
    rest ← check_items check (item.name ∷ names) items
    accepted (definition ∷ rest.0, rest.1)

  pub check_schema : CreateRequest D → Checked (List (Definition D))
  unfolding check_pin check_parameter check_items
  check_schema request = do
    pins ← check_items check_pin (online_pin ∷ []) request.pins
    parameters ← check_items check_parameter pins.1 request.parameters
    accepted (pins.0 ++ parameters.0)

  of_type-some :
      (type : HalType) (decoded : Option (Value D)) (value : Value D)
      → of_type type decoded ≡ some value
      → (decoded ≡ some value) × (same_type type value ≡ true)
  unfolding of_type
  of_type-some type none value h = ground (arith, h)
  of_type-some type (some v) value h =
      let (same, e) = if_some (same_type type v) v value h in
      subst (λ w. (some v ≡ some w) × (same_type type w ≡ true)) e (refl, same)

  -- What a typed value is: the decoded one, of exactly the type.
  pub typed_value-some :
      (type : HalType) (scalar : Scalar D) (value : Value D)
      → typed_value type scalar ≡ some value
      → (decode_hal_scalar scalar ≡ some value) × (same_type type value ≡ true)
  unfolding typed_value
  typed_value-some type scalar value h = of_type-some type (decode_hal_scalar scalar) value h
