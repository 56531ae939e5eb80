-- ===== src/Template/Render.antt =====
-- Rendering in crates/camelmailer-core/src/template.rs: the lookup of paths over the context stack
-- (the innermost scope first), escaping, and the bound on the output.
pub mod Laws
pub mod Flat
use camelmailer.Base.{
  ℕ, ◌+◌, Bool, true, false, not, ◌&&◌, Option, none, some, List, [], ◌∷◌, ◌++◌, ltb, ◌==◌,
  if◌then◌else◌, is_empty, first?, unwrap_or, map_option,
}
use camelmailer.Text.{Text, codes, split_where, byte_len, text_eq}
use camelmailer.Template.{
  RenderError, output_too_large, Result, ok, err, ◌>>=◌, Node, text, var, section, Nodes, nil, cons,
  Value, null, boolean, number, string, array, object, Items, no_items, item, Fields, no_fields,
  get_field, insert_field,
}
use camelmailer.Template.Parse.{parse}

abbrev pub max_output : ℕ
max_output = 524288

is_item : Items → Bool
is_item no_items = false
is_item (item v r) = true

unfoldable pub is_truthy : Value → Bool
unfolding is_item
is_truthy null = false
is_truthy (boolean b) = b
is_truthy (string s) = not (is_empty s)
is_truthy (array a) = is_item a
is_truthy (number n) = true
is_truthy (object fs) = true

unfoldable pub scalar : Value → Text
unfolding codes
scalar (string s) = s
scalar (number n) = n
scalar (boolean true) = codes "true"
scalar (boolean false) = codes "false"
scalar null = []
scalar (array a) = []
scalar (object fs) = []

unfoldable pub escape_char : ℕ → Text
unfolding codes
escape_char c =
    if c == b'&'
    then codes "&amp;"
    else if c == b'<'
    then codes "&lt;"
    else if c == b'>'
    then codes "&gt;"
    else if c == 34
    then codes "&quot;"
    else if c == 39
    then codes "&#39;"
    else c ∷ []

unfoldable pub html_escape : Text → Text
unfolding escape_char
html_escape [] = []
html_escape (c ∷ t) = escape_char c ++ html_escape t

value_field : Text → Value → Option Value
value_field key (object fs) = get_field key fs
value_field key _ = none

-- The first scope, from the innermost, that has the key.
find_scope : Text → List Value → Option Value
find_scope key [] = none
find_scope key (scope ∷ scopes) =
    let rest = find_scope key scopes in
    elim (value_field key scope) [ some v ↦ some v | none ↦ rest ]

descend : List Text → Option Value → Option Value
descend [] v = v
descend (segment ∷ segments) none = none
descend (segment ∷ segments) (some v) = descend segments (value_field segment v)

lookup_segments : List Value → List Text → Option Value
lookup_segments stack [] = none
lookup_segments stack (first ∷ segments) = descend segments (find_scope first stack)

unfoldable pub lookup : List Value → Text → Option Value
unfolding lookup_segments descend find_scope value_field get_field split_where text_eq codes
lookup stack path =
    if text_eq path (codes ".")
    then first? stack
    else lookup_segments stack (split_where (λ c. c == b'.') path)

unfoldable pub push_capped : Text → Text → Result Text
unfolding byte_len
push_capped out t =
    if ltb max_output (byte_len out + byte_len t) then err output_too_large else ok (out ++ t)

unfoldable pub render_var : Bool → Option Value → Text → Result Text
unfolding push_capped html_escape scalar
render_var escaped none out = ok out
render_var escaped (some v) out =
    if escaped then push_capped out (html_escape (scalar v)) else push_capped out (scalar v)

-- A section's children once for each item, or once for a truthy value; `children` renders them.
module _ (children : List Value → Text → Result Text) (stack : List Value) where
  unfoldable pub render_items : Items → Text → Result Text
  render_items no_items out = ok out
  render_items (item v r) out = children (v ∷ stack) out >>= λ out'. render_items r out'

  unfoldable pub render_value : Value → Text → Result Text
  unfolding render_items is_truthy
  render_value (array a) out = render_items a out
  render_value v out = if is_truthy v then children (v ∷ stack) out else ok out

  unfoldable pub render_section : Bool → Option Value → Text → Result Text
  unfolding render_value is_truthy
  render_section true none out = children stack out
  render_section true (some v) out = if is_truthy v then ok out else children stack out
  render_section false none out = ok out
  render_section false (some v) out = render_value v out

unfoldable mutual
  unfolding push_capped render_var render_section lookup

  pub render_node : Node → List Value → Text → Result Text
  render_node (text t) stack out = push_capped out t
  render_node (var path escaped) stack out = render_var escaped (lookup stack path) out
  render_node (section path inverted children) stack out =
      render_section (render_nodes children) stack inverted (lookup stack path) out

  pub render_nodes : Nodes → List Value → Text → Result Text
  render_nodes nil stack out = ok out
  render_nodes (cons n ns) stack out =
      render_node n stack out >>= λ out'. render_nodes ns stack out'

unfoldable pub render : Text → Value → Option (Result Text)
unfolding parse render_nodes
render template model =
    map_option (λ (r : Result Nodes). r >>= λ nodes. render_nodes nodes (model ∷ []) [])
      (parse template)

is_raw_content : Node → Bool
is_raw_content (var path false) = text_eq path (codes "content")
is_raw_content _ = false

any_raw_content : Nodes → Bool
any_raw_content nil = false
any_raw_content (cons n ns) =
    let rest = any_raw_content ns in if is_raw_content n then true else rest

parsed_has_raw_content : Result Nodes → Bool
parsed_has_raw_content (ok nodes) = any_raw_content nodes
parsed_has_raw_content (err e) = false

unfoldable pub wrapper_has_raw_content : Text → Option Bool
unfolding parse parsed_has_raw_content any_raw_content is_raw_content text_eq codes
wrapper_has_raw_content wrapper = map_option parsed_has_raw_content (parse wrapper)

-- The fields of the model, if it has any.
unfoldable pub model_fields : Value → Fields
model_fields (object fs) = fs
model_fields _ = no_fields

unfoldable pub render_in_layout : Text → Value → Text → Option (Result Text)
unfolding render model_fields insert_field codes
render_in_layout wrapper model content =
    render wrapper (object (insert_field (codes "content") (string content) (model_fields model)))
