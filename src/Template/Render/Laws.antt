-- ===== src/Template/Render/Laws.antt =====
-- What rendering keeps: the bound on the output, and the escaping of the model's data.
use camelmailer.Base.{
  ℕ, ◌≤◌, ◌≡◌, refl, Bool, true, false, not, ◌||◌, Option, none, some, List, [], ◌∷◌, ◌==◌,
  if◌then◌else◌, arith, all, all-append, if_both, OnSome, OnSome_eq, map_option,
}
use camelmailer.Text.{Text, codes, byte_len}
use camelmailer.Text.Laws.{byte_len-append}
use camelmailer.Template.{
  Result, ok, err, ◌>>=◌, OnOk, OnOk->>=, Node, text, var, section, Nodes, nil, cons, Value, null,
  boolean, number, string, array, object, Items, no_items, item,
}
use camelmailer.Template.Parse.{parse}
use camelmailer.Template.Render.{
  max_output, is_truthy, scalar, escape_char, html_escape, lookup, push_capped, render_var,
  render_items, render_value, render_section, render_node, render_nodes, render,
}

-- The nodes whose texts meet `T` and whose variables meet `V` of their escaping.
module _ (T : Text → Type 0) (V : Bool → Type 0) where
  abbrev mutual
    pub AllowsNode : Node → Type 0
    AllowsNode (text t) = T t
    AllowsNode (var path escaped) = V escaped
    AllowsNode (section path inverted children) = Allows children

    pub Allows : Nodes → Type 0
    Allows nil = Unit
    Allows (cons n ns) = AllowsNode n × Allows ns

-- A property of the output that every allowed text and variable keeps is kept by rendering.
module _ (P T : Text → Type 0) (V : Bool → Type 0)
    (keep_text : (t out : Text) → T t → P out → OnOk P (push_capped out t))
    (keep_var : (e : Bool) (v : Value) (out : Text)
      → V e
      → P out
      → OnOk P (render_var e (some v) out)) where
  abbrev Keeps : (List Value → Text → Result Text) → Type 0
  Keeps children = (stack : List Value) (out : Text) → P out → OnOk P (children stack out)

  render_items-Keeps :
      (children : List Value → Text → Result Text) (stack : List Value)
      → Keeps children
      → (items : Items) (out : Text) → P out
      → OnOk P (render_items children stack items out)
  unfolding render_items
  render_items-Keeps children stack k no_items out h = h
  render_items-Keeps children stack k (item v r) out h =
      OnOk->>= P P (children (v ∷ stack) out) (λ out'. render_items children stack r out')
        (k (v ∷ stack) out h) (λ out' h'. render_items-Keeps children stack k r out' h')

  truthy-Keeps :
      (children : List Value → Text → Result Text) (stack : List Value)
      → Keeps children
      → (b : Bool) (v : Value) (out : Text) → P out
      → OnOk P (if b then children (v ∷ stack) out else ok out)
  truthy-Keeps children stack k b v out h = if_both (OnOk P) b (λ _. k (v ∷ stack) out h) (λ _. h)

  render_value-Keeps :
      (children : List Value → Text → Result Text) (stack : List Value)
      → Keeps children
      → (v : Value) (out : Text) → P out
      → OnOk P (render_value children stack v out)
  unfolding render_value
  render_value-Keeps children stack k (array a) out h = render_items-Keeps children stack k a out h
  render_value-Keeps children stack k null out h = h
  render_value-Keeps children stack k (boolean b) out h =
      truthy-Keeps children stack k b (boolean b) out h
  render_value-Keeps children stack k (number n) out h = k (number n ∷ stack) out h
  render_value-Keeps children stack k (string s) out h =
      truthy-Keeps children stack k (is_truthy (string s)) (string s) out h
  render_value-Keeps children stack k (object fs) out h = k (object fs ∷ stack) out h

  render_section-Keeps :
      (children : List Value → Text → Result Text) (stack : List Value)
      → Keeps children
      → (inverted : Bool) (o : Option Value) (out : Text) → P out
      → OnOk P (render_section children stack inverted o out)
  unfolding render_section
  render_section-Keeps children stack k true none out h = k stack out h
  render_section-Keeps children stack k true (some v) out h =
      if_both (OnOk P) (is_truthy v) (λ _. h) (λ _. k stack out h)
  render_section-Keeps children stack k false none out h = h
  render_section-Keeps children stack k false (some v) out h =
      render_value-Keeps children stack k v out h

  render_var-Keeps :
      (e : Bool) (o : Option Value) (out : Text) → V e → P out → OnOk P (render_var e o out)
  unfolding render_var
  render_var-Keeps e none out a h = h
  render_var-Keeps e (some v) out a h = keep_var e v out a h

  mutual
    unfolding render_node render_nodes

    render_node-Keeps : (n : Node) → AllowsNode T V n → Keeps (render_node n)
    render_node-Keeps (text t) a stack out h = keep_text t out a h
    render_node-Keeps (var path escaped) a stack out h =
        render_var-Keeps escaped (lookup stack path) out a h
    render_node-Keeps (section path inverted children) a stack out h =
        render_section-Keeps (render_nodes children) stack
          (λ s o q. render_nodes-Keeps children a s o q) inverted (lookup stack path) out h

    pub render_nodes-Keeps : (ns : Nodes) → Allows T V ns → Keeps (render_nodes ns)
    render_nodes-Keeps nil a stack out h = h
    render_nodes-Keeps (cons n ns) a stack out h =
        OnOk->>= P P (render_node n stack out) (λ out'. render_nodes ns stack out')
          (render_node-Keeps n a.0 stack out h) (λ out' h'. render_nodes-Keeps ns a.1 stack out' h')

-- Output within the limit.
abbrev pub IsBounded : Text → Type 0
IsBounded out = byte_len out ≤ max_output

push_capped-IsBounded : (t out : Text) → OnOk IsBounded (push_capped out t)
unfolding push_capped
push_capped-IsBounded t out = ground (arith, byte_len-append out t)

render_var-IsBounded :
    (e : Bool) (v : Value) (out : Text) → OnOk IsBounded (render_var e (some v) out)
unfolding render_var
render_var-IsBounded true v out = push_capped-IsBounded (html_escape (scalar v)) out
render_var-IsBounded false v out = push_capped-IsBounded (scalar v) out

-- Characters that cannot end a text or an attribute in HTML.
abbrev pub is_inert : ℕ → Bool
is_inert c = not (c == b'<' || c == b'>' || c == 34 || c == 39)

escape_char-inert : (c : ℕ) → all is_inert (escape_char c) ≡ true
unfolding escape_char codes
escape_char-inert c = ground arith

pub html_escape-inert : (t : Text) → all is_inert (html_escape t) ≡ true
unfolding html_escape
html_escape-inert [] = refl
html_escape-inert (c ∷ t) = ground (
  arith,
  all-append is_inert (escape_char c) (html_escape t),
  escape_char-inert c,
  html_escape-inert t,
)

mutual
  anything_node : (n : Node) → AllowsNode (λ _. Unit {0}) (λ _. Unit {0}) n
  anything_node (text t) = tt
  anything_node (var path e) = tt
  anything_node (section path i ns) = anything ns

  anything : (ns : Nodes) → Allows (λ _. Unit {0}) (λ _. Unit {0}) ns
  anything nil = tt
  anything (cons n ns) = (anything_node n, anything ns)

-- A template of which something came has at most 512 KiB of output, in bytes.
pub render-IsBounded :
    (template : Text) (model : Value) (out : Text)
    → render template model ≡ some (ok out)
    → byte_len out ≤ max_output
unfolding render
render-IsBounded template model out e = OnSome_eq (OnOk IsBounded) (parsed (parse template)) e
  where
    rendered : (r : Result Nodes) → OnOk IsBounded (r >>= λ ns. render_nodes ns (model ∷ []) [])
    rendered (err e) = tt
    rendered (ok ns) =
        render_nodes-Keeps IsBounded (λ _. Unit {0}) (λ _. Unit {0})
          (λ t out _ _. push_capped-IsBounded t out) (λ e v out _ _. render_var-IsBounded e v out)
          ns (anything ns) (model ∷ []) [] (unfold byte_len in omega arith)

    parsed :
        (o : Option (Result Nodes))
        → OnSome
            (OnOk IsBounded)
            (map_option (λ (r : Result Nodes). r >>= λ ns. render_nodes ns (model ∷ []) []) o)
    parsed none = tt
    parsed (some r) = rendered r

-- Where every variable of a template is escaped and its own texts are inert, nothing that a model
-- says puts a character of markup into the output, at any depth of sections.
pub render-inert :
    (template : Text) (ns : Nodes) (model : Value) (out : Text)
    → parse template ≡ some (ok ns)
    → Allows (λ t. all is_inert t ≡ true) (λ e. e ≡ true) ns
    → render template model ≡ some (ok out)
    → all is_inert out ≡ true
unfolding render
render-inert template ns model out p a e =
    OnSome_eq (OnOk (λ (t : Text). all is_inert t ≡ true)) (rw p rendered) e
  where
    pushed :
        (t out : Text)
        → all is_inert t ≡ true
        → all is_inert out ≡ true
        → OnOk (λ (t : Text). all is_inert t ≡ true) (push_capped out t)
    pushed t out h k = unfold push_capped in ground (arith, all-append is_inert out t)

    rendered : OnOk (λ (t : Text). all is_inert t ≡ true) (render_nodes ns (model ∷ []) [])
    rendered =
        render_nodes-Keeps (λ (t : Text). all is_inert t ≡ true) (λ t. all is_inert t ≡ true)
          (λ e. e ≡ true) pushed
          (λ e v out h k. rw h (
            unfold render_var in
            pushed (html_escape (scalar v)) out (html_escape-inert (scalar v)) k))
          ns a (model ∷ []) [] refl
