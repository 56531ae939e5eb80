-- ===== src/Template.antt =====
-- crates/camelmailer-core/src/template.rs: the renderer of message templates. Its nodes, the JSON
-- values of a model, and its errors.
pub mod Parse
pub mod Render
mod Tests
use camelmailer.Base.{
  ℕ, Bool, true, false, not, Option, none, some, List, [], ◌∷◌, if◌then◌else◌, is_empty,
}
use camelmailer.Text.{Text, text_eq}

pub data RenderError : Type 0 where
  unclosed_tag unclosed_section : RenderError
  unexpected_close : Text → RenderError
  mismatched_close : Text → Text → RenderError
  too_deep output_too_large : RenderError

pub data Result {ℓ} (A : Type ℓ) : Type ℓ where
  ok : A → Result A
  err : RenderError → Result A

infixl 5 ◌>>=◌
abbrev pub ◌>>=◌ {ℓ κ} : {A : Type ℓ} {B : Type κ} → Result A → (A → Result B) → Result B
ok a >>= f = f a
err e >>= f = err e

-- A property of the value, if there is one.
abbrev pub OnOk {ℓ κ} : {A : Type ℓ} → (A → Type κ) → Result A → Type κ
OnOk P (ok a) = P a
OnOk P (err e) = Unit

pub OnOk->>= {ℓ κ} :
    {A B : Type ℓ} (P : A → Type κ) (Q : B → Type κ) (r : Result A) (f : A → Result B)
    → OnOk P r
    → ((a : A) → P a → OnOk Q (f a))
    → OnOk Q (r >>= f)
OnOk->>= P Q (ok a) f h k = k a h
OnOk->>= P Q (err e) f h k = tt

mutual
  pub data Node : Type 0 where
    text : Text → Node
    -- a path, and whether its value is escaped
    var : Text → Bool → Node
    -- a path, whether the section is inverted, and its children
    section : Text → Bool → Nodes → Node

  pub data Nodes : Type 0 where
    nil : Nodes
    cons : Node → Nodes → Nodes

-- `Vec::push`
unfoldable pub push_node : Nodes → Node → Nodes
push_node nil n = cons n nil
push_node (cons m ms) n = cons m (push_node ms n)

-- `serde_json::Value`; a number is kept as its printed form.
mutual
  pub data Value : Type 0 where
    null : Value
    boolean : Bool → Value
    number string : Text → Value
    array : Items → Value
    object : Fields → Value

  pub data Items : Type 0 where
    no_items : Items
    item : Value → Items → Items

  pub data Fields : Type 0 where
    no_fields : Fields
    field : Text → Value → Fields → Fields

-- `Map::get` and `Map::insert`
unfoldable pub get_field : Text → Fields → Option Value
unfolding text_eq
get_field key no_fields = none
get_field key (field k v fs) = let rest = get_field key fs in if text_eq k key then some v else rest

unfoldable pub insert_field : Text → Value → Fields → Fields
unfolding text_eq
insert_field key v no_fields = field key v no_fields
insert_field key v (field k w fs) =
    let rest = insert_field key v fs in if text_eq k key then field k v fs else field k w rest
